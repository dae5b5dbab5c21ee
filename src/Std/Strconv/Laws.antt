-- ===== src/Std/Strconv/Laws.antt =====
-- A number that is written in decimal is read back.
use native.Mathlib.Nat.{pow-suc}
use forwardproxy.Base.{
  ℕ, zero, suc, ◌+◌, ◌*◌, ◌/◌, ◌%◌, ◌^◌, ◌<◌, ◌≡◌, ◌∙◌, refl, ap, pos, true, false, [], ◌∷◌, some,
  Bytes, arith, Bool-cases, inl, inr, ltb, is_nil,
}
use forwardproxy.Std.Strings.{contains, has_byte, has_prefix}
use forwardproxy.Std.Strconv.{
  atoi, digits_value, itoa, itoa_onto, unsigned, positive, is_digit, only_digits,
}

digits_value-digit :
    (acc d value : ℕ) (s : Bytes)
    → d < 10
    → value ≡ acc * 10 + d
    → digits_value acc ((b'0' + d) ∷ s) ≡ digits_value value s
unfolding digits_value
digits_value-digit acc d value s h e = ground (arith, h, e)

tenth : (fuel n : ℕ) → n < 10 ^ suc fuel → n / 10 < 10 ^ fuel
tenth fuel n h = omega (arith, h, pow-suc 10 fuel)

digits_value-itoa_onto :
    (fuel n : ℕ) (out : Bytes)
    → n < 10 ^ fuel
    → digits_value 0 (itoa_onto fuel n out) ≡ digits_value n out
unfolding itoa_onto
digits_value-itoa_onto zero n out h = ap (λ m. digits_value m out) (omega (arith, h))
digits_value-itoa_onto (suc fuel) n out h = elim (Bool-cases (ltb n 10)) [
  | inl small ↦ rw small (digits_value-digit 0 n n out (ground (arith, small)) (omega arith))
  | inr large ↦ rw large (
      digits_value-itoa_onto fuel (n / 10) ((b'0' + n % 10) ∷ out) (tenth fuel n h)
      ∙ digits_value-digit (n / 10) (n % 10) n out (omega arith) (omega arith))
]

only_digits-digit :
    (d : ℕ) (s : Bytes) → d < 10 → only_digits s ≡ true → only_digits ((b'0' + d) ∷ s) ≡ true
unfolding only_digits
only_digits-digit d s h e = ground (arith, h, e)

only_digits-itoa_onto :
    (fuel n : ℕ) (out : Bytes) → only_digits out ≡ true → only_digits (itoa_onto fuel n out) ≡ true
unfolding itoa_onto
only_digits-itoa_onto zero n out e = e
only_digits-itoa_onto (suc fuel) n out e = elim (Bool-cases (ltb n 10)) [
  | inl small ↦ rw small (only_digits-digit n out (ground (arith, small)) e)
  | inr large ↦ rw large (
      only_digits-itoa_onto fuel (n / 10) ((b'0' + n % 10) ∷ out)
        (only_digits-digit (n % 10) out (omega arith) e))
]

pub only_digits-itoa : (n : ℕ) → only_digits (itoa n) ≡ true
unfolding itoa only_digits
only_digits-itoa n = only_digits-itoa_onto 20 n [] refl

is_nil-itoa_onto :
    (fuel n : ℕ) (out : Bytes) → is_nil out ≡ false → is_nil (itoa_onto fuel n out) ≡ false
unfolding itoa_onto
is_nil-itoa_onto zero n out e = e
is_nil-itoa_onto (suc fuel) n out e = elim (Bool-cases (ltb n 10)) [
  | inl small ↦ rw small refl
  | inr large ↦ rw large (is_nil-itoa_onto fuel (n / 10) ((b'0' + n % 10) ∷ out) refl)
]

pub is_nil-itoa : (n : ℕ) → is_nil (itoa n) ≡ false
unfolding itoa itoa_onto
is_nil-itoa n = elim (Bool-cases (ltb n 10)) [
  | inl small ↦ rw small refl
  | inr large ↦ rw large (is_nil-itoa_onto 19 (n / 10) ((b'0' + n % 10) ∷ []) refl)
]

atoi-only_digits :
    (s : Bytes) (value : ℕ)
    → is_nil s ≡ false
    → only_digits s ≡ true
    → digits_value 0 s ≡ some value
    → value < 2 ^ 63
    → atoi s ≡ some (pos value)
unfolding atoi only_digits unsigned positive
atoi-only_digits [] value e d v small = absurd (cc)
atoi-only_digits (c ∷ s) value e d v small = ground (arith, d, v, small)

-- Every number below 2 ^ 63.
pub atoi-itoa : (n : ℕ) → n < 2 ^ 63 → atoi (itoa n) ≡ some (pos n)
unfolding itoa digits_value
atoi-itoa n h =
    atoi-only_digits (itoa n) n (is_nil-itoa n) (only_digits-itoa n)
      (digits_value-itoa_onto 20 n [] (omega (arith, h))) h

pub has_byte-only_digits :
    (b : ℕ) (s : Bytes) → is_digit b ≡ false → only_digits s ≡ true → has_byte b s ≡ false
unfolding has_byte only_digits
has_byte-only_digits b [] h d = refl
has_byte-only_digits b (c ∷ s) h d =
    let rest = has_byte-only_digits b s h (ground (arith, d)) in
    let same : (c ≡ b) → is_digit c ≡ false = λ e. rw e h in ground (arith, d, rest, same)

pub contains-only_digits :
    (b : ℕ) (s : Bytes) → is_digit b ≡ false → only_digits s ≡ true → contains s (b ∷ []) ≡ false
unfolding contains has_prefix only_digits
contains-only_digits b [] h d = refl
contains-only_digits b (c ∷ s) h d =
    let rest = contains-only_digits b s h (ground (arith, d)) in
    let same : (c ≡ b) → is_digit c ≡ false = λ e. rw e h in ground (arith, d, rest, same)
