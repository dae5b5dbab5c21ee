-- ===== src/Std/Url/Laws.antt =====
-- What unescaping and searching find in an escaped path segment.
use forwardproxy.Base.{
  ℕ, ◌/◌, ◌%◌, ◌<◌, ◌≡◌, ◌∙◌, refl, ap, Bool, true, false, ◌&&◌, All, [], ◌∷◌, some, Bytes, arith,
  Bool-cases, inl, inr, ◌==◌, is_nil,
}
use forwardproxy.Std.Strings.{contains, has_byte, has_prefix, lower, to_lower}
use forwardproxy.Std.Url.{
  hex_digit, hex_value, is_kept, path_escape, path_unescape, plain, unescape_from, cons_some,
}

hex_value-hex_digit : (d : ℕ) → d < 16 → hex_value (hex_digit d) ≡ some d
hex_value-hex_digit d h = ground (arith, h)

kept_facts :
    (c : ℕ)
    → is_kept c ≡ true
    → ((c == b'%') ≡ false) × ((lower c == b'%') ≡ false) × ((c == b'/') ≡ false)
unfolding has_byte
kept_facts c h = (ground (arith, h), ground (arith, h), ground (arith, h))

digit_facts :
    (d : ℕ)
    → d < 16
    → ((hex_digit d == b'%') ≡ false)
      × ((lower (hex_digit d) == b'%') ≡ false)
      × ((hex_digit d == b'/') ≡ false)
digit_facts d h = (ground (arith, h), ground (arith, h), ground (arith, h))

unescape_from-escaped :
    (c : ℕ) (t : Bytes)
    → c < 256
    → unescape_from plain (b'%' ∷ hex_digit (c / 16) ∷ hex_digit (c % 16) ∷ t)
      ≡ cons_some c (unescape_from plain t)
unfolding unescape_from
unescape_from-escaped c t h =
    rw (hex_value-hex_digit (c / 16) (omega (arith, h)), unescape_from)
      (rw (hex_value-hex_digit (c % 16) (omega arith), unescape_from)
        (ap (λ d. cons_some d (unescape_from plain t)) (omega (arith, h))))

unescape_from-kept :
    (c : ℕ) (t : Bytes)
    → (c == b'%') ≡ false
    → unescape_from plain (c ∷ t) ≡ cons_some c (unescape_from plain t)
unfolding unescape_from
unescape_from-kept c t h = rw (h, unescape_from) refl

-- Every row of bytes is read back from its escaped form.
pub path_unescape-path_escape :
    (s : Bytes) → All (λ c. c < 256) s → path_unescape (path_escape s) ≡ some s
unfolding path_unescape path_escape cons_some unescape_from
path_unescape-path_escape [] h = refl
path_unescape-path_escape (c ∷ s) (small, h) =
    let rest = path_unescape-path_escape s h in
    elim (Bool-cases (is_kept c)) [
      | inl kept ↦ rw kept (
          unescape_from-kept c (path_escape s) (kept_facts c kept).0 ∙ ap (λ t. cons_some c t) rest)
      | inr not_kept ↦
          rw not_kept (unescape_from-escaped c (path_escape s) small ∙ ap (λ t. cons_some c t) rest)
    ]

-- A slash is always escaped.
pub has_byte-path_escape :
    (s : Bytes) → All (λ c. c < 256) s → has_byte b'/' (path_escape s) ≡ false
unfolding path_escape has_byte
has_byte-path_escape [] h = refl
has_byte-path_escape (c ∷ s) (small, h) =
    let rest = has_byte-path_escape s h in
    let high = digit_facts (c / 16) (omega (arith, small)) in
    let low = digit_facts (c % 16) (omega arith) in
    elim (Bool-cases (is_kept c)) [
      | inl kept ↦ rw kept (ground (arith, rest, kept_facts c kept))
      | inr not_kept ↦ rw not_kept (ground (arith, rest, high, low))
    ]

pub is_nil-path_escape : (s : Bytes) → is_nil (path_escape s) ≡ is_nil s
unfolding path_escape
is_nil-path_escape [] = refl
is_nil-path_escape (c ∷ s) = ground arith

-- Whether the escape of a byte, in lower case, has these two digits.
abbrev pub is_escape_of : ℕ → ℕ → ℕ → Bool
is_escape_of x y c = lower (hex_digit (c / 16)) == x && lower (hex_digit (c % 16)) == y

pub contains-path_escape :
    (x y : ℕ) (s : Bytes)
    → All (λ c. (c < 256) × (is_escape_of x y c ≡ false)) s
    → contains (to_lower (path_escape s)) (b'%' ∷ x ∷ y ∷ []) ≡ false
unfolding path_escape contains has_prefix to_lower
contains-path_escape x y [] h = refl
contains-path_escape x y (c ∷ s) ((small, other), h) =
    let rest = contains-path_escape x y s h in
    let high = digit_facts (c / 16) (omega (arith, small)) in
    let low = digit_facts (c % 16) (omega arith) in
    elim (Bool-cases (is_kept c)) [
      | inl kept ↦ rw kept (ground (arith, rest, kept_facts c kept))
      | inr not_kept ↦ rw not_kept (ground (arith, rest, high, low, other))
    ]
