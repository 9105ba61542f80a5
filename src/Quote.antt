-- ===== src/Quote.antt =====
-- `quoteIdentifier` of database.go and `quoteStringLiteral` of backup.go, with a reader of quoted
-- tokens by SQL's rule as the specification: inside quotes a doubled quote stands for one.
pub mod ReadBack
use Prim.Native.Nat.{ℕ}
use pgmem.Common.{Option, none, some, [], ◌∷◌, ◌++◌, nat_eq, if◌then◌else◌}
use pgmem.Common.Text.{Text, replace_byte}

unfoldable pub quote_identifier : Text → Text
unfolding replace_byte
quote_identifier identifier =
    (b'"' ∷ []) ++ replace_byte b'"' (b'"' ∷ b'"' ∷ []) identifier ++ b'"' ∷ []

unfoldable pub quote_string_literal : Text → Text
unfolding replace_byte
quote_string_literal value =
    (b'\'' ∷ []) ++ replace_byte b'\'' (b'\'' ∷ b'\'' ∷ []) value ++ b'\'' ∷ []

abbrev pub add_byte : ℕ → Option (Text × Text) → Option (Text × Text)
add_byte c none = none
add_byte c (some (name, rest)) = some (c ∷ name, rest)

-- The text up to the closing quote, and what follows it.
pub read_body : ℕ → Text → Option (Text × Text)
read_body quote [] = none
read_body quote (c ∷ []) = if nat_eq c quote then some ([], []) else none
read_body quote (c ∷ d ∷ s) =
    let doubled = add_byte quote (read_body quote s) in
    let plain = add_byte c (read_body quote (d ∷ s)) in
    if nat_eq c quote then (if nat_eq d quote then doubled else some ([], d ∷ s)) else plain

-- A quoted token at the start of a statement's text.
unfoldable pub read_quoted : ℕ → Text → Option (Text × Text)
unfolding read_body
read_quoted quote [] = none
read_quoted quote (c ∷ s) = let body = read_body quote s in if nat_eq c quote then body else none
