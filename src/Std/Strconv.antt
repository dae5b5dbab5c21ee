-- ===== src/Std/Strconv.antt =====
-- Go's `strconv.Atoi` and `strconv.Itoa` on a 64-bit `int`.
pub mod Laws
use forwardproxy.Base.{
  ℕ, zero, suc, ◌+◌, ◌-◌, ◌*◌, ◌/◌, ◌%◌, ◌^◌, ℤ, pos, negsuc, Bool, true, ◌&&◌, [], ◌∷◌, Option,
  none, some, Bytes, leb, ltb, ◌==◌, if◌then◌else◌,
}

abbrev pub is_digit : ℕ → Bool
is_digit c = leb b'0' c && leb c b'9'

-- Whether a string has decimal digits only.
unfoldable pub only_digits : Bytes → Bool
only_digits [] = true
only_digits (c ∷ s) = is_digit c && only_digits s

-- The value of a row of decimal digits, behind those already read.
unfoldable pub digits_value : ℕ → Bytes → Option ℕ
digits_value acc [] = some acc
digits_value acc (c ∷ s) =
    let rest = digits_value (acc * 10 + (c - b'0')) s in if is_digit c then rest else none

-- One digit at least.
unsigned : Bytes → Option ℕ
unfolding digits_value
unsigned [] = none
unsigned (c ∷ s) = digits_value 0 (c ∷ s)

positive : Option ℕ → Option ℤ
positive none = none
positive (some n) = if ltb n (2 ^ 63) then some (pos n) else none

negative : Option ℕ → Option ℤ
negative none = none
negative (some n) =
    if n == 0 then some (pos 0) else if leb n (2 ^ 63) then some (negsuc (n - 1)) else none

unfoldable pub atoi : Bytes → Option ℤ
unfolding unsigned positive negative
atoi [] = none
atoi (c ∷ s) =
    if c == b'+'
    then positive (unsigned s)
    else if c == b'-'
    then negative (unsigned s)
    else positive (unsigned (c ∷ s))

itoa_onto : ℕ → ℕ → Bytes → Bytes
itoa_onto zero n out = out
itoa_onto (suc fuel) n out =
    let more = itoa_onto fuel (n / 10) ((b'0' + n % 10) ∷ out) in
    if ltb n 10 then (b'0' + n) ∷ out else more

-- An `int` that is not negative has at most 19 digits.
unfoldable pub itoa : ℕ → Bytes
unfolding itoa_onto
itoa n = itoa_onto 20 n []
