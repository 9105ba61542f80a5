-- ===== src/Quote/ReadBack.antt =====
-- What is quoted is read back, whatever it holds and whatever follows.
use Prim.Native.Nat.{ℕ}
use pgmem.Common.{
  ◌≡◌, ◌≢◌, ap, sym, ◌∙◌, some, [], ◌∷◌, ◌++◌, arith, append_assoc, nat_eq, Bool-cases, nat_eq_iff,
  inl, inr,
}
use pgmem.Common.Text.{Text, replace_byte}
use pgmem.Quote.{quote_identifier, quote_string_literal, read_body, read_quoted}

-- The text that follows a token does not begin with its quote.
abbrev pub NotQuote : ℕ → Text → Type 0
NotQuote quote [] = Unit {0}
NotQuote quote (c ∷ s) = c ≢ quote

abbrev doubled : ℕ → Text → Text
doubled quote s = replace_byte quote (quote ∷ quote ∷ []) s

read_body-close :
    (quote : ℕ) (rest : Text)
    → NotQuote quote rest
    → read_body quote (quote ∷ rest) ≡ some ([], rest)
unfolding read_body
read_body-close quote [] h = ground arith
read_body-close quote (c ∷ s) h = ground arith

read_body-plain :
    (quote c : ℕ) (s t rest : Text)
    → c ≢ quote
    → read_body quote t ≡ some (s, rest)
    → read_body quote (c ∷ t) ≡ some (c ∷ s, rest)
unfolding read_body
read_body-plain quote c s [] rest n h = cc
read_body-plain quote c s (d ∷ t) rest n h = ground arith

read_body-quote :
    (quote : ℕ) (s t rest : Text)
    → read_body quote t ≡ some (s, rest)
    → read_body quote (quote ∷ quote ∷ t) ≡ some (quote ∷ s, rest)
unfolding read_body
read_body-quote quote s t rest h = ground arith

read_body-doubled :
    (quote : ℕ) (s rest : Text)
    → NotQuote quote rest
    → read_body quote (doubled quote s ++ quote ∷ rest) ≡ some (s, rest)
unfolding replace_byte
read_body-doubled quote [] rest h = read_body-close quote rest h
read_body-doubled quote (c ∷ s) rest h = elim (Bool-cases (nat_eq c quote)) [
  | inl same ↦
      let e = (nat_eq_iff c quote).0 same in
      rw same (
        read_body-quote quote s _ rest (read_body-doubled quote s rest h)
        ∙ ap (λ x. some (x ∷ s, rest)) (sym e))
  | inr other ↦ rw other (
      read_body-plain quote c s _ rest (λ e. cc ((nat_eq_iff c quote).1 e))
        (read_body-doubled quote s rest h))
]

read_quoted-doubled :
    (quote : ℕ) (s rest : Text)
    → NotQuote quote rest
    → read_quoted quote (quote ∷ (doubled quote s ++ quote ∷ []) ++ rest) ≡ some (s, rest)
unfolding read_quoted
read_quoted-doubled quote s rest h =
    rw (append_assoc) (ground (arith, read_body-doubled quote s rest h))

-- An identifier of any bytes, quoted and put before any text that does not begin with a quote, is
-- read back by SQL's rule as that identifier, and the reader stops at that text.
pub read_quoted-quote_identifier :
    (identifier rest : Text)
    → NotQuote b'"' rest
    → read_quoted b'"' (quote_identifier identifier ++ rest) ≡ some (identifier, rest)
unfolding quote_identifier
read_quoted-quote_identifier identifier rest h = read_quoted-doubled b'"' identifier rest h

-- A string value of any bytes, quoted as a literal and put before any text that does not begin with
-- an apostrophe, is read back by SQL's rule as that value, and the reader stops at that text.
pub read_quoted-quote_string_literal :
    (value rest : Text)
    → NotQuote b'\'' rest
    → read_quoted b'\'' (quote_string_literal value ++ rest) ≡ some (value, rest)
unfolding quote_string_literal
read_quoted-quote_string_literal value rest h = read_quoted-doubled b'\'' value rest h
