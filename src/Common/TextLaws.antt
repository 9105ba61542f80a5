-- ===== src/Common/TextLaws.antt =====
-- Laws of the functions on texts.
use Prim.Native.Nat.{ℕ}
use mathlib.Core.Path.{◌≡◌, refl}
use mathlib.Core.Bool.{true}
use mathlib.Core.List.{[], ◌∷◌, ◌++◌, map-append}
use native.Mathlib.Omega.{arith}
use pgmem.Common.Text.{
  Text, text_eq, text_eq_iff, lower_byte, to_lower, equal_fold, is_prefix, contains,
}

pub text_eq_refl : (s : Text) → text_eq s s ≡ true
text_eq_refl s = (text_eq_iff s s).1 refl

lower_byte_idem : (c : ℕ) → lower_byte (lower_byte c) ≡ lower_byte c
unfolding lower_byte
lower_byte_idem c = ground arith

pub to_lower_idem : (s : Text) → to_lower (to_lower s) ≡ to_lower s
unfolding to_lower
to_lower_idem [] = refl
to_lower_idem (c ∷ s) = cc (lower_byte_idem c, to_lower_idem s)

pub to_lower-append : (s t : Text) → to_lower (s ++ t) ≡ to_lower s ++ to_lower t
unfolding to_lower
to_lower-append s t = map-append _ _ _

pub equal_fold_lower : (s t : Text) → equal_fold (to_lower s) t ≡ equal_fold s t
unfolding equal_fold
equal_fold_lower s t = rw to_lower_idem

pub is_prefix-append : (s t : Text) → is_prefix s (s ++ t) ≡ true
unfolding is_prefix
is_prefix-append [] t = refl
is_prefix-append (c ∷ s) t = ground (arith, is_prefix-append s t)

contains_of_is_prefix : (s t : Text) → is_prefix s t ≡ true → contains s t ≡ true
unfolding contains
contains_of_is_prefix s [] h = h
contains_of_is_prefix s (c ∷ t) h = ground arith

pub contains-append : (p s t : Text) → contains s (p ++ s ++ t) ≡ true
unfolding contains
contains-append [] s t = contains_of_is_prefix s (s ++ t) (is_prefix-append s t)
contains-append (c ∷ p) s t = ground (arith, contains-append p s t)
