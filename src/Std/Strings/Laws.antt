-- ===== src/Std/Strings/Laws.antt =====
-- What the tests on strings decide.
use forwardproxy.Base.{
  ℕ, ◌+◌, ◌-◌, ◌==◌, false, [], ◌∷◌, ◌≡◌, ◌↔◌, sym, ap, ◌∙◌, true, ◌++◌, Bytes, equal_iff,
  equal_refl, length, length-append, take, drop, take-append-drop, drop-append, arith,
}
use forwardproxy.Std.Strings.{has_byte, has_suffix, push_head, split}

pub has_suffix_iff :
    (s p : Bytes) → (has_suffix s p ≡ true) ↔ ((before : Bytes) × (s ≡ before ++ p))
unfolding has_suffix
has_suffix_iff s p = (there, back)
  where
    there : has_suffix s p ≡ true → (before : Bytes) × (s ≡ before ++ p)
    there h =
        let n = length s - length p in
        let tail : drop n s ≡ p = (equal_iff (drop n s) p).0 (ground arith) in
        (take n s, sym (take-append-drop n s) ∙ ap (λ x. take n s ++ x) tail)

    back : (before : Bytes) × (s ≡ before ++ p) → has_suffix s p ≡ true
    back (before, e) =
        let lengths : length s ≡ length before + length p =
          ap (λ (x : Bytes). length x) e ∙ length-append before p in
        let cut : length s - length p ≡ length before = omega (arith, lengths) in
        let tail : drop (length s - length p) s ≡ p =
          ap (λ n. drop n s) cut ∙ ap (drop (length before)) e ∙ drop-append before p in
        ground (arith, lengths, tail, equal_refl p)

-- The part before the first separator, and the rest.
pub split-append :
    (sep : ℕ) (a rest : Bytes)
    → has_byte sep a ≡ false
    → split sep (a ++ sep ∷ rest) ≡ a ∷ split sep rest
unfolding split push_head has_byte
split-append sep [] rest h = ground arith
split-append sep (c ∷ a) rest h =
    let other : (c == sep) ≡ false = ground (arith, h) in
    rw (other, split) (ap (push_head c) (split-append sep a rest (ground (arith, h))))
