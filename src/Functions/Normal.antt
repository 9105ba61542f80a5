-- ===== src/Functions/Normal.antt =====
-- `normalizeFunctionResult` of function.go. Go integers are the numbers that they stand for: an int or
-- int64 value lies in the range of its type (`InRange`).
pub mod Bounds
use pgmem.Common.{
  ℕ, ◌+◌, ◌-◌, ◌*◌, ◌/◌, ◌%◌, ◌^◌, zero, suc, ltb, nat_eq, if◌then◌else◌, Option, none, some, ◌++◌,
}
use pgmem.Common.Signed.{pos}
use pgmem.Common.Text.{Text, codes, decimal}
use pgmem.Errors.{GoError, plain}
use pgmem.Values.{Value, clone_driver_value}

-- The place of the leading bit of a mantissa below 2 ^ 23.
leading : ℕ → ℕ → ℕ
leading zero m = 0
leading (suc k) m = let below = leading k m in if ltb m (2 ^ suc k) then below else suc k

-- float64(x) for a float32, on the bit patterns; a signalling NaN becomes quiet.
unfoldable pub widen_float : ℕ → ℕ
unfolding leading
widen_float bits =
    let sign = bits / 2 ^ 31 in
    let exponent = bits / 2 ^ 23 % 256 in
    let mantissa = bits % 2 ^ 23 in
    let place = leading 22 mantissa in
    sign * 2 ^ 63
    + (if nat_eq exponent 255
        then 2047 * 2 ^ 52
          + (if nat_eq mantissa 0
              then 0
              else if ltb mantissa (2 ^ 22)
              then (mantissa + 2 ^ 22) * 2 ^ 29
              else mantissa * 2 ^ 29)
        else if nat_eq exponent 0
        then (if nat_eq mantissa 0
            then 0
            else (place + 874) * 2 ^ 52 + (mantissa - 2 ^ place) * 2 ^ (52 - place))
        else (exponent + 896) * 2 ^ 52 + mantissa * 2 ^ 29)

abbrev pub max_int64 : ℕ
max_int64 = 2 ^ 63 - 1

abbrev pub overflow_error : Text → ℕ → GoError
overflow_error type n = plain (type ++ codes " value " ++ decimal n ++ codes " overflows int64")

abbrev pub type_error : Text → GoError
type_error type = plain (codes "unsupported scalar type " ++ type)

checked_int64 : Text → ℕ → Value × Option GoError
checked_int64 type n =
    if ltb max_int64 n
    then (Value.nil, some (overflow_error type n))
    else (Value.int64 (pos n), none)

-- `normalizeFunctionResult`
unfoldable pub normalize_function_result : Value → Value × Option GoError
unfolding clone_driver_value widen_float checked_int64
normalize_function_result Value.nil = (Value.nil, none)
normalize_function_result (Value.int64 n) = (Value.int64 n, none)
normalize_function_result (Value.float64 x) = (Value.float64 x, none)
normalize_function_result (Value.bool b) = (Value.bool b, none)
normalize_function_result (Value.string s) = (Value.string s, none)
normalize_function_result (Value.time t) = (Value.time t, none)
normalize_function_result (Value.bytes b) = (clone_driver_value (Value.bytes b), none)
normalize_function_result (Value.int n) = (Value.int64 n, none)
normalize_function_result (Value.int8 n) = (Value.int64 n, none)
normalize_function_result (Value.int16 n) = (Value.int64 n, none)
normalize_function_result (Value.int32 n) = (Value.int64 n, none)
normalize_function_result (Value.uint n) = checked_int64 (codes "uint") n
normalize_function_result (Value.uint8 n) = (Value.int64 (pos n), none)
normalize_function_result (Value.uint16 n) = (Value.int64 (pos n), none)
normalize_function_result (Value.uint32 n) = (Value.int64 (pos n), none)
normalize_function_result (Value.uint64 n) = checked_int64 (codes "uint64") n
normalize_function_result (Value.float32 x) = (Value.float64 (widen_float x), none)
normalize_function_result (Value.named name v) =
    (Value.nil, some (type_error (codes "sql.NamedArg")))
normalize_function_result (Value.other type) = (Value.nil, some (type_error type))
