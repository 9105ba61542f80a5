-- ===== src/Backup/Holder/Uris.antt =====
-- Ids read back from the URIs of holders: different ids have different URIs.
use pgmem.Backup.Holder.{restore_uri}
use pgmem.Common.{
  ℕ, zero, suc, ◌+◌, ◌*◌, ◌-◌, ◌≡◌, ◌≤◌, refl, sym, ap, ◌∙◌, [], ◌∷◌, ◌++◌, ◌&&◌, if◌then◌else◌,
  leb, arith, ◌%◌, Bool-cases, ltb, inl, inr, append_assoc, ◌/◌, ◌<◌,
}
use pgmem.Common.Text.{Text, decimal, decimal_fuel, codes}

read_digits : ℕ → Text → ℕ
read_digits n [] = n
read_digits n (c ∷ t) =
    let rest = read_digits (n * 10 + (c - 48)) t in if leb 48 c && leb c 57 then rest else n

digit :
    (n m d : ℕ) (rest : Text)
    → m * 10 + d ≡ n
    → d < 10
    → read_digits m ((48 + d) ∷ rest) ≡ read_digits n rest
unfolding read_digits
digit n m d rest h k = rw (sym h) (ground arith)

read_digits-decimal :
    (fuel n : ℕ) (rest : Text)
    → suc n ≤ fuel
    → read_digits 0 (decimal_fuel fuel n ++ rest) ≡ read_digits n rest
unfolding read_digits decimal_fuel
read_digits-decimal zero n rest h = ground arith
read_digits-decimal (suc fuel) n rest h = elim (Bool-cases (ltb n 10)) [
  | inl small ↦ rw small (digit n 0 n rest (omega arith) (ground arith))
  | inr large ↦
      rw (large, append_assoc)
        (read_digits-decimal fuel (n / 10) ((48 + n % 10) ∷ rest) (ground arith)
          ∙ digit n (n / 10) (n % 10) rest (omega arith) (omega arith))
]

after : ℕ → Text → Text
after zero t = t
after (suc n) [] = []
after (suc n) (c ∷ t) = after n t

id_of : Text → ℕ
unfolding read_digits after
id_of uri = read_digits 0 (after 19 uri)

id_of-restore_uri : (id : ℕ) → id_of (restore_uri id) ≡ id
unfolding id_of restore_uri after decimal
id_of-restore_uri id =
    read_digits-decimal (suc id) id (codes "?mode=memory&cache=shared") (omega arith) ∙ refl

pub restore_uri_injective : (i j : ℕ) → restore_uri i ≡ restore_uri j → i ≡ j
restore_uri_injective i j h = sym (id_of-restore_uri i) ∙ ap id_of h ∙ id_of-restore_uri j
