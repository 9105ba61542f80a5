-- ===== src/Common/Text.antt =====
-- Go strings as lists of bytes, and what the code uses of the package strings and of fmt.
-- `to_lower`, `to_upper` and `trim_space` treat ASCII bytes and leave other bytes alone.
use Prim.Native.Char.{code}
use Prim.Native.String.{String}
use Prim.Native.Nat.{ℕ, zero, suc, ◌+◌, ◌-◌, ◌/◌, ◌%◌}
use mathlib.Core.Path.{◌≡◌, refl}
use mathlib.Core.Logic.{◌↔◌}
use mathlib.Core.Bool.{Bool, true, false, ◌&&◌, ◌||◌}
use mathlib.Core.Option.{Option, none, some}
use mathlib.Core.List.{flat_map, List, [], ◌∷◌, ◌++◌, map}
use native.Mathlib.Omega.{arith}
use pgmem.Common.Tests.{Key, nat_eq, nat_eq_iff, leb, ltb, if◌then◌else◌}

abbrev pub Text : Type 0
Text = List ℕ

-- The bytes of an ASCII literal.
abbrev pub codes : String → Text
codes String.[] = []
codes (String.◌∷◌ c s) = code c ∷ codes s

unfoldable pub text_eq : Text → Text → Bool
text_eq [] [] = true
text_eq [] (d ∷ t) = false
text_eq (c ∷ s) [] = false
text_eq (c ∷ s) (d ∷ t) = nat_eq c d && text_eq s t

pub text_eq_iff : (s t : Text) → (text_eq s t ≡ true) ↔ (s ≡ t)
unfolding text_eq
text_eq_iff [] [] = (λ _. refl, λ _. refl)
text_eq_iff [] (d ∷ t) = (λ h. cc, λ h. cc)
text_eq_iff (c ∷ s) [] = (λ h. cc, λ h. cc)
text_eq_iff (c ∷ s) (d ∷ t) = ground (arith, text_eq_iff s t, nat_eq_iff c d)

instance abbrev pub text_Key : Key Text
text_Key = record { same = text_eq; same_iff = text_eq_iff }

abbrev is_upper : ℕ → Bool
is_upper c = leb b'A' c && leb c b'Z'

abbrev is_lower : ℕ → Bool
is_lower c = leb b'a' c && leb c b'z'

unfoldable pub lower_byte : ℕ → ℕ
lower_byte c = if is_upper c then c + 32 else c

unfoldable pub upper_byte : ℕ → ℕ
upper_byte c = if is_lower c then c - 32 else c

-- strings.ToLower
unfoldable pub to_lower : Text → Text
unfolding lower_byte
to_lower s = map lower_byte s

-- strings.ToUpper
unfoldable pub to_upper : Text → Text
unfolding upper_byte
to_upper s = map upper_byte s

-- strings.EqualFold
unfoldable pub equal_fold : Text → Text → Bool
unfolding to_lower text_eq
equal_fold s t = text_eq (to_lower s) (to_lower t)

unfoldable pub is_prefix : Text → Text → Bool
is_prefix [] t = true
is_prefix (c ∷ s) [] = false
is_prefix (c ∷ s) (d ∷ t) = nat_eq c d && is_prefix s t

-- strings.Contains(t, s)
unfoldable pub contains : Text → Text → Bool
unfolding is_prefix
contains s [] = is_prefix s []
contains s (d ∷ t) = is_prefix s (d ∷ t) || contains s t

-- the ASCII bytes that unicode.IsSpace accepts
unfoldable pub is_space : ℕ → Bool
is_space c = (leb 9 c && leb c 13) || nat_eq c 32

drop_spaces : Text → Text
unfolding is_space
drop_spaces [] = []
drop_spaces (c ∷ s) = let rest = drop_spaces s in if is_space c then rest else c ∷ s

keep_byte : ℕ → Text → Text
unfolding is_space
keep_byte c [] = if is_space c then [] else c ∷ []
keep_byte c (d ∷ t) = c ∷ d ∷ t

trim_right : Text → Text
unfolding keep_byte
trim_right [] = []
trim_right (c ∷ s) = keep_byte c (trim_right s)

-- strings.TrimSpace
unfoldable pub trim_space : Text → Text
unfolding drop_spaces trim_right
trim_space s = trim_right (drop_spaces s)

-- strings.Join
unfoldable pub join : List Text → Text → Text
join [] sep = []
join (s ∷ []) sep = s
join (s ∷ t ∷ ts) sep = s ++ sep ++ join (t ∷ ts) sep

-- strings.ReplaceAll(s, old, new) for an `old` of one byte
unfoldable pub replace_byte : ℕ → Text → Text → Text
replace_byte old new [] = []
replace_byte old new (c ∷ s) = (if nat_eq c old then new else c ∷ []) ++ replace_byte old new s

-- strconv.FormatUint(n, 10), and fmt's %d of a number that is not negative
unfoldable pub decimal_fuel : ℕ → ℕ → Text
decimal_fuel zero n = []
decimal_fuel (suc f) n =
    let rest = decimal_fuel f (n / 10) in
    if ltb n 10 then (48 + n) ∷ [] else rest ++ (48 + n % 10) ∷ []

unfoldable pub decimal : ℕ → Text
unfolding decimal_fuel
decimal n = decimal_fuel (suc n) n

-- sort.Strings orders by bytes
unfoldable pub text_le : Text → Text → Bool
text_le [] t = true
text_le (c ∷ s) [] = false
text_le (c ∷ s) (d ∷ t) = if ltb c d then true else if nat_eq c d then text_le s t else false

word : Text → Text
unfolding is_space
word [] = []
word (c ∷ s) = let rest = word s in if is_space c then [] else c ∷ rest

-- strings.Fields(s)[0], or nothing where there are no fields
unfoldable pub first_field : Text → Option Text
unfolding drop_spaces word
first_field s = elim (drop_spaces s) [ [] ↦ none | c ∷ t ↦ some (word (c ∷ t)) ]

-- A byte inside fmt's %q.
quoted_byte : ℕ → Text
quoted_byte c =
    if nat_eq c b'"' || nat_eq c b'\\'
    then b'\\' ∷ c ∷ []
    else if nat_eq c 7
    then codes "\\a"
    else if nat_eq c 8
    then codes "\\b"
    else if nat_eq c 9
    then codes "\\t"
    else if nat_eq c 10
    then codes "\\n"
    else if nat_eq c 11
    then codes "\\v"
    else if nat_eq c 12
    then codes "\\f"
    else if nat_eq c 13
    then codes "\\r"
    else if ltb c 32 || nat_eq c 127
    then codes "\\x" ++ hex (c / 16) ∷ hex (c % 16) ∷ []
    else c ∷ []
  where
    hex : ℕ → ℕ
    hex d = if ltb d 10 then 48 + d else 87 + d

-- fmt's %q of an ASCII text
unfoldable pub quoted : Text → Text
unfolding quoted_byte
quoted s = (b'"' ∷ []) ++ flat_map quoted_byte s ++ b'"' ∷ []

is_name_start : ℕ → Bool
is_name_start c = is_upper c || is_lower c || nat_eq c b'_'

is_name_byte : ℕ → Bool
unfolding is_name_start
is_name_byte c = is_name_start c || (leb b'0' c && leb c b'9') || nat_eq c b'$'

all_name_bytes : Text → Bool
unfolding is_name_byte
all_name_bytes [] = true
all_name_bytes (c ∷ s) = is_name_byte c && all_name_bytes s

-- `schemaNamePattern` of database.go
unfoldable pub matches_name : Text → Bool
unfolding is_name_start all_name_bytes
matches_name [] = false
matches_name (c ∷ s) = is_name_start c && all_name_bytes s
