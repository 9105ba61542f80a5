-- ===== src/Functions/Normal/Bounds.antt =====
-- What `normalizeFunctionResult` returns: a driver value in its range, or an error.
use pgmem.Common.{
  ◌≤◌, ◌≡◌, ◌⊎◌, inl, inr, refl, none, some, Option, ◌^◌, ◌-◌, ◌<◌, ℕ, ltb, Bool-cases, arith,
  nat_Key,
}
use pgmem.Common.Signed.{ℤ, pos, negsuc}
use pgmem.Common.Text.{Text, codes, text_Key}
use pgmem.Errors.{GoError}
use pgmem.Functions.Normal.{overflow_error, checked_int64, normalize_function_result, max_int64}
use pgmem.Values.{Value}

-- A number of a signed type of that many bits.
abbrev pub InSigned : ℕ → ℤ → Type 0
InSigned bits (pos n) = n < 2 ^ (bits - 1)
InSigned bits (negsuc n) = n < 2 ^ (bits - 1)

-- The values that Go's types can hold; int and uint have 64 bits.
abbrev pub InRange : Value → Type 0
InRange (Value.int64 n) = InSigned 64 n
InRange (Value.int n) = InSigned 64 n
InRange (Value.int8 n) = InSigned 8 n
InRange (Value.int16 n) = InSigned 16 n
InRange (Value.int32 n) = InSigned 32 n
InRange (Value.uint n) = n < 2 ^ 64
InRange (Value.uint8 n) = n < 2 ^ 8
InRange (Value.uint16 n) = n < 2 ^ 16
InRange (Value.uint32 n) = n < 2 ^ 32
InRange (Value.uint64 n) = n < 2 ^ 64
InRange _ = Unit {0}

-- The types that database/sql/driver admits.
abbrev pub IsDriverValue : Value → Type 0
IsDriverValue Value.nil = Unit {0}
IsDriverValue (Value.int64 n) = Unit {0}
IsDriverValue (Value.float64 x) = Unit {0}
IsDriverValue (Value.bool b) = Unit {0}
IsDriverValue (Value.string s) = Unit {0}
IsDriverValue (Value.bytes b) = Unit {0}
IsDriverValue (Value.time t) = Unit {0}
IsDriverValue _ = ⊥

-- The integer that a value of an integer type stands for.
abbrev pub integer_of : Value → Option ℤ
integer_of (Value.int64 n) = some n
integer_of (Value.int n) = some n
integer_of (Value.int8 n) = some n
integer_of (Value.int16 n) = some n
integer_of (Value.int32 n) = some n
integer_of (Value.uint n) = some (pos n)
integer_of (Value.uint8 n) = some (pos n)
integer_of (Value.uint16 n) = some (pos n)
integer_of (Value.uint32 n) = some (pos n)
integer_of (Value.uint64 n) = some (pos n)
integer_of _ = none

-- The results that the engine cannot hold.
abbrev pub Unsupported : Value → Type 0
Unsupported (Value.uint n) = 2 ^ 63 ≤ n
Unsupported (Value.uint64 n) = 2 ^ 63 ≤ n
Unsupported (Value.named name v) = Unit {0}
Unsupported (Value.other type) = Unit {0}
Unsupported _ = ⊥

abbrev pub Normalized : Value → Value × Option GoError → Type 0
Normalized v (result, none) =
    IsDriverValue result × InRange result × (integer_of result ≡ integer_of v) × ¬ Unsupported v
Normalized v (result, some e) = (result ≡ Value.nil) × Unsupported v

checked_int64-Normalized :
    (type : Text) (n : ℕ)
    → ((n < 2 ^ 63) × (checked_int64 type n ≡ (Value.int64 (pos n), none)))
      ⊎ ((2 ^ 63 ≤ n) × (checked_int64 type n ≡ (Value.nil, some (overflow_error type n))))
unfolding checked_int64
checked_int64-Normalized type n = elim (Bool-cases (ltb max_int64 n)) [
  | inl big ↦ inr (ground arith, rw big refl)
  | inr small ↦ inl (ground arith, rw small refl)
]

-- A callback's value that its Go type can hold is turned into a driver value that is in range and
-- stands for the same integer, with no error; or it is nil with an error, exactly for an unsigned
-- value of 2^63 or more and for a type that is no scalar.
pub normalize_function_result-Normalized :
    (v : Value) → InRange v → Normalized v (normalize_function_result v)
unfolding normalize_function_result
normalize_function_result-Normalized Value.nil h = (tt, tt, refl, λ x. x)
normalize_function_result-Normalized (Value.int64 n) h = (tt, h, refl, λ x. x)
normalize_function_result-Normalized (Value.int n) h = (tt, h, refl, λ x. x)
normalize_function_result-Normalized (Value.int8 (pos n)) h = (tt, omega arith, refl, λ x. x)
normalize_function_result-Normalized (Value.int8 (negsuc n)) h = (tt, omega arith, refl, λ x. x)
normalize_function_result-Normalized (Value.int16 (pos n)) h = (tt, omega arith, refl, λ x. x)
normalize_function_result-Normalized (Value.int16 (negsuc n)) h = (tt, omega arith, refl, λ x. x)
normalize_function_result-Normalized (Value.int32 (pos n)) h = (tt, omega arith, refl, λ x. x)
normalize_function_result-Normalized (Value.int32 (negsuc n)) h = (tt, omega arith, refl, λ x. x)
normalize_function_result-Normalized (Value.uint n) h =
    elim (checked_int64-Normalized (codes "uint") n) [
      | inl (small, e) ↦ rw e (tt, omega arith, refl, λ x. omega arith)
      | inr (big, e) ↦ rw e (refl, big)
    ]
normalize_function_result-Normalized (Value.uint8 n) h = (tt, omega arith, refl, λ x. x)
normalize_function_result-Normalized (Value.uint16 n) h = (tt, omega arith, refl, λ x. x)
normalize_function_result-Normalized (Value.uint32 n) h = (tt, omega arith, refl, λ x. x)
normalize_function_result-Normalized (Value.uint64 n) h =
    elim (checked_int64-Normalized (codes "uint64") n) [
      | inl (small, e) ↦ rw e (tt, omega arith, refl, λ x. omega arith)
      | inr (big, e) ↦ rw e (refl, big)
    ]
normalize_function_result-Normalized (Value.float32 x) h = (tt, tt, refl, λ x. x)
normalize_function_result-Normalized (Value.float64 x) h = (tt, tt, refl, λ x. x)
normalize_function_result-Normalized (Value.bool b) h = (tt, tt, refl, λ x. x)
normalize_function_result-Normalized (Value.string s) h = (tt, tt, refl, λ x. x)
normalize_function_result-Normalized (Value.bytes b) h = (tt, tt, refl, λ x. x)
normalize_function_result-Normalized (Value.time t) h = (tt, tt, refl, λ x. x)
normalize_function_result-Normalized (Value.named name v) h = (refl, tt)
normalize_function_result-Normalized (Value.other type) h = (refl, tt)
