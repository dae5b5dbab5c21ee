-- ===== src/Std/Masks.antt =====
-- `&` of a byte with the masks that the default networks use.
use Prim.Native.Nat.{bit_and}
use forwardproxy.Base.{
  ℕ, zero, suc, ◌*◌, ◌/◌, ◌<◌, ◌≡◌, refl, Bool, true, false, if◌then◌else◌, arith, ◌==◌, ==_iff,
}

agree : (f g : ℕ → ℕ) (bound : ℕ) → Bool
agree f g zero = true
agree f g (suc m) = if f m == g m then agree f g m else false

agree-below : (f g : ℕ → ℕ) (bound n : ℕ) → n < bound → agree f g bound ≡ true → f n ≡ g n
unfolding agree
agree-below f g zero n lt _ = absurd (omega (arith, lt))
agree-below f g (suc m) n lt e = ground (arith, agree-below f g m n, ==_iff (f m) (g m), lt, e)

-- Two functions that agree on every byte, by evaluation.
on_bytes : (f g : ℕ → ℕ) → agree f g 256 ≡ true → (x : ℕ) → x < 256 → f x ≡ g x
on_bytes f g table x lt = agree-below f g 256 x lt table

pub bit_and-255 : (x : ℕ) → x < 256 → bit_and x 255 ≡ x
unfolding agree
bit_and-255 = on_bytes (λ x. bit_and x 255) (λ x. x) refl

pub bit_and-0 : (x : ℕ) → x < 256 → bit_and x 0 ≡ 0
unfolding agree
bit_and-0 = on_bytes (λ x. bit_and x 0) (λ x. 0) refl

pub bit_and-240 : (x : ℕ) → x < 256 → bit_and x 240 ≡ x / 16 * 16
unfolding agree
bit_and-240 = on_bytes (λ x. bit_and x 240) (λ x. x / 16 * 16) refl

pub bit_and-192 : (x : ℕ) → x < 256 → bit_and x 192 ≡ x / 64 * 64
unfolding agree
bit_and-192 = on_bytes (λ x. bit_and x 192) (λ x. x / 64 * 64) refl
