-- ===== src/Std/Url.antt =====
-- Go's `net/url`: the escaping of a path segment.
pub mod Laws
use forwardproxy.Base.{
  ℕ, ◌+◌, ◌-◌, ◌*◌, ◌/◌, ◌%◌, Bool, true, false, ◌&&◌, ◌||◌, [], ◌∷◌, Option, none, some, Bytes,
  codes, leb, ltb, ◌==◌, if◌then◌else◌,
}
use forwardproxy.Std.Strconv.{is_digit}
use forwardproxy.Std.Strings.{has_byte, lower}

abbrev pub hex_value : ℕ → Option ℕ
hex_value c =
    if is_digit c
    then some (c - b'0')
    else if leb b'a' (lower c) && leb (lower c) b'f'
    then some (lower c - b'a' + 10)
    else none

-- Where the decoding of a percent sign stands.
pub data Escape : Type 0 where
  plain first : Escape
  second : ℕ → Escape

unfoldable pub cons_some : ℕ → Option Bytes → Option Bytes
cons_some c none = none
cons_some c (some s) = some (c ∷ s)

unescape_from : Escape → Bytes → Option Bytes
unfolding cons_some
unescape_from plain [] = some []
unescape_from first [] = none
unescape_from (second d) [] = none
unescape_from plain (c ∷ s) = elim (c == b'%') [
  | true ↦ unescape_from first s
  | false ↦ cons_some c (unescape_from plain s)
]
unescape_from first (c ∷ s) = elim (hex_value c) [
  | none ↦ none
  | some d ↦ unescape_from (second d) s
]
unescape_from (second d) (c ∷ s) = elim (hex_value c) [
  | none ↦ none
  | some e ↦ cons_some (d * 16 + e) (unescape_from plain s)
]

-- `url.PathUnescape`
unfoldable pub path_unescape : Bytes → Option Bytes
unfolding unescape_from
path_unescape = unescape_from plain

-- The bytes that `url.PathEscape` keeps.
abbrev pub is_kept : ℕ → Bool
is_kept c =
    leb b'a' (lower c) && leb (lower c) b'z' || is_digit c || has_byte c (codes "-_.~$&+=:@")

abbrev pub hex_digit : ℕ → ℕ
hex_digit d = if ltb d 10 then b'0' + d else 55 + d

-- `url.PathEscape`
unfoldable pub path_escape : Bytes → Bytes
path_escape [] = []
path_escape (c ∷ s) =
    let rest = path_escape s in
    if is_kept c then c ∷ rest else b'%' ∷ hex_digit (c / 16) ∷ hex_digit (c % 16) ∷ rest
