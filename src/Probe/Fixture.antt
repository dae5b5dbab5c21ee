-- ===== src/Probe/Fixture.antt =====
-- experiments/w2w3/realprobe/main.go: `parseQuery`, `buildResponse`, `answerRR`, the behaviour table
-- and the handler of `serveLoop`. The letters of a name are ASCII.
use forwardproxy.Base.{
  ℕ, zero, suc, ◌+◌, ◌-◌, ◌*◌, ◌/◌, ◌%◌, [], ◌∷◌, ◌++◌, List, Option, none, some, Bytes, ltb, ◌==◌,
  if◌then◌else◌, length, take, drop, is_nil,
}
use forwardproxy.Base.Dict.{lookup, insert}
use forwardproxy.Std.Strings.{to_lower}
use forwardproxy.Std.Strconv.{itoa}

pub data BehaviorKind : Type 0 where
  answer : BehaviorKind
  nodata : BehaviorKind
  servfail : BehaviorKind
  dropped : BehaviorKind

-- The delay is in milliseconds.
abbrev pub Behavior : Type 0
Behavior = record { kind : BehaviorKind; delay : ℕ }

abbrev pub Table : Type 0
Table = List (Bytes × List (Bytes × Behavior))

-- The table of a name, which is nil for a name that is not set.
unfoldable pub row : Bytes → Table → List (Bytes × Behavior)
unfolding lookup
row name table = elim (lookup name table) [ none ↦ [] | some r ↦ r ]

unfoldable pub set_behavior : Bytes → Bytes → Behavior → Table → Table
unfolding row insert
set_behavior name qtype b table = insert name (insert qtype b (row name table)) table

abbrev pub Query : Type 0
Query = record { id : Bytes; question : Bytes; name : Bytes; qtype : ℕ }

-- `strings.Join(parts, ".")`
unfoldable pub join : List Bytes → Bytes
join [] = []
join (part ∷ []) = part
join (part ∷ parts) = part ++ 46 ∷ join parts

abbrev pub with_part : Bytes → Option (List Bytes × Bytes) → Option (List Bytes × Bytes)
with_part part none = none
with_part part (some (parts, left)) = some (part ∷ parts, left)

-- The loop over the labels, on the bytes from `off`: the parts, and the bytes from the last `off`.
unfoldable pub take_parts : ℕ → Bytes → Option (List Bytes × Bytes)
take_parts zero s = some ([], s)
take_parts (suc fuel) [] = some ([], [])
take_parts (suc fuel) (l ∷ rest) =
    let parts = take_parts fuel (drop l rest) in
    if l == 0
    then some ([], rest)
    else if ltb (length rest) l
    then none
    else with_part (take l rest) parts

-- The two bytes of the type, and the two of the class.
unfoldable pub parsed : Bytes → List Bytes → Bytes → Option Query
unfolding join to_lower
parsed buf parts (hi ∷ lo ∷ c ∷ d ∷ left) = some record {
  id = take 2 buf;
  question = take (length buf - 12 - length left) (drop 12 buf);
  name = to_lower (join parts);
  qtype = hi * 256 + lo;
}
parsed buf parts left = none

unfoldable pub parse_query : Bytes → Option Query
unfolding parsed take_parts
parse_query buf =
    if ltb (length buf) 12 then none else elim (take_parts (length buf) (drop 12 buf)) [
      | none ↦ none
      | some (parts, left) ↦ parsed buf parts left
    ]

-- `put16`
abbrev pub put16 : ℕ → Bytes
put16 v = (v / 256) % 256 ∷ v % 256 ∷ []

-- The code is an argument, as in the source, which does not read it.
unfoldable pub build_response : Bytes → Bytes → ℕ → Bytes → Bytes
build_response id question rcode record_bytes =
    id
    ++ (129
        ∷ 128
        ∷ 0
        ∷ 1
        ∷ 0
        ∷ (if is_nil record_bytes then 0 else 1)
        ∷ 0
        ∷ 0
        ∷ 0
        ∷ 0
        ∷ (question ++ record_bytes))

unfoldable pub answer_rr : ℕ × ℕ → ℕ → Bytes → Bytes
answer_rr (p, q) rrtype rdata =
    p ∷ q ∷ put16 rrtype ++ 0 ∷ 1 ∷ 0 ∷ 0 ∷ 0 ∷ 60 ∷ put16 (length rdata) ++ rdata

-- `aAnswer` and `aaaaAnswer`
abbrev pub a_answer : Bytes
a_answer = 192 ∷ 0 ∷ 2 ∷ 20 ∷ []

abbrev pub aaaa_answer : Bytes
aaaa_answer = 32 ∷ 1 ∷ 13 ∷ 184 ∷ 0 ∷ 32 ∷ 0 ∷ 0 ∷ 0 ∷ 0 ∷ 0 ∷ 0 ∷ 0 ∷ 0 ∷ 0 ∷ 32 ∷ []

-- The records that the handler answers with.
unfoldable pub records : BehaviorKind → ℕ → Bytes
unfolding answer_rr
records answer qtype =
    if qtype == 1 then answer_rr (192, 12) 1 a_answer else answer_rr (192, 12) 28 aaaa_answer
records k qtype = []

abbrev pub rcode_of : BehaviorKind → ℕ
rcode_of servfail = 2
rcode_of k = 0

-- A goroutine's reply: the milliseconds it waits, and the datagram it sends.
unfoldable pub reply_with : Query → ℕ → BehaviorKind → Option (ℕ × Bytes)
unfolding build_response records
reply_with q delay dropped = none
reply_with q delay k = some (delay, build_response q.id q.question (rcode_of k) (records k q.qtype))

unfoldable pub behavior_of : Table → Query → Behavior
unfolding row lookup itoa
behavior_of table q = elim (lookup (itoa q.qtype) (row q.name table)) [
  | none ↦ record { kind = nodata; delay = 0 }
  | some b ↦ b
]

-- `serveLoop` on one datagram, of which its buffer holds 1500 bytes.
unfoldable pub serve_datagram : Table → Bytes → Option (ℕ × Bytes)
unfolding parse_query reply_with behavior_of
serve_datagram table datagram = elim (parse_query (take 1500 datagram)) [
  | none ↦ none
  | some q ↦ reply_with q (behavior_of table q).delay (behavior_of table q).kind
]
