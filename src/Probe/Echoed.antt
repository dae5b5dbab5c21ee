-- ===== src/Probe/Echoed.antt =====
-- experiments/w2w3/realprobe/main.go: a query written out, and the reply of the name server to it.
use forwardproxy.Base.{
  ℕ, zero, suc, ◌+◌, ◌-◌, ◌*◌, ◌≤◌, ◌<◌, ◌≡◌, refl, sym, ap, ◌∙◌, [], ◌∷◌, ◌++◌, List, some, Bytes,
  length, take, drop, All, length-append, take-append, drop-append, arith,
}
use mathlib.Core.Path.{ap₂}
use forwardproxy.Std.Strings.{to_lower}
use forwardproxy.Probe.Fixture.{take_parts, with_part, parsed, parse_query, Query, join}

-- The labels of a name, and the root's.
unfoldable pub wire : List Bytes → Bytes
wire [] = 0 ∷ []
wire (part ∷ parts) = length part ∷ part ++ wire parts

append_assoc : (a b c : Bytes) → (a ++ b) ++ c ≡ a ++ (b ++ c)
append_assoc [] b c = refl
append_assoc (x ∷ a) b c = ap (◌∷◌ x) (append_assoc a b c)

take_parts-label :
    (l : ℕ) (rest left : Bytes) (parts : List Bytes) (fuel : ℕ)
    → 0 < l
    → l ≤ length rest
    → take_parts fuel (drop l rest) ≡ some (parts, left)
    → take_parts (suc fuel) (l ∷ rest) ≡ some (take l rest ∷ parts, left)
unfolding take_parts
take_parts-label l rest left parts fuel h le e = ground (arith, ap (with_part (take l rest)) e)

-- The loop reads the labels it is given, with as much fuel as they are long.
take_parts-wire :
    (parts : List Bytes) (s : Bytes) (fuel : ℕ)
    → All (λ p. 0 < length p) parts
    → length (wire parts) ≤ fuel
    → take_parts fuel (wire parts ++ s) ≡ some (parts, s)
unfolding wire take_parts
take_parts-wire [] s zero h le = absurd (omega arith)
take_parts-wire [] s (suc fuel) h le = refl
take_parts-wire (p ∷ parts) s zero h le = absurd (omega arith)
take_parts-wire (p ∷ parts) s (suc fuel) h le =
    let rest = p ++ (wire parts ++ s) in
    ap (λ r. take_parts (suc fuel) (length p ∷ r)) (append_assoc p (wire parts) s)
    ∙ take_parts-label (length p) rest s parts fuel h.0
        (omega (arith, length-append p (wire parts ++ s)))
        (ap (take_parts fuel) (drop-append p (wire parts ++ s))
          ∙ take_parts-wire parts s fuel h.1 (omega (arith, le, length-append p (wire parts))))
    ∙ ap (λ q. some (q ∷ parts, s)) (take-append p (wire parts ++ s))

-- What stands behind the labels: the type and the class.
abbrev pub question_of : List Bytes → ℕ → ℕ → ℕ → ℕ → Bytes
question_of parts hi lo c d = wire parts ++ hi ∷ lo ∷ c ∷ d ∷ []

unfoldable pub query_of : Bytes → List Bytes → ℕ → ℕ → ℕ → ℕ → Query
unfolding wire to_lower join
query_of id parts hi lo c d = record {
  id = id;
  question = question_of parts hi lo c d;
  name = to_lower (join parts);
  qtype = hi * 256 + lo;
}

module _ (id header : Bytes) (is_id : length id ≡ 2) (is_header : length header ≡ 10)
    (body : Bytes) where
  id-taken : take 2 (id ++ (header ++ body)) ≡ id
  id-taken = ap (λ n. take n (id ++ (header ++ body))) (sym is_id) ∙ take-append id (header ++ body)

  header-dropped : drop 12 (id ++ (header ++ body)) ≡ body
  header-dropped =
      let e : 12 ≡ length (id ++ header) =
        omega (arith, is_id, is_header, length-append id header) in
      ap (λ n. drop n (id ++ (header ++ body))) e
      ∙ ap (drop (length (id ++ header))) (sym (append_assoc id header body))
      ∙ drop-append (id ++ header) body

  length-message : length (id ++ (header ++ body)) ≡ 12 + length body
  length-message =
      omega (arith, is_id, is_header, length-append id (header ++ body), length-append header body)

module _ (parts : List Bytes) (hi lo c d : ℕ) (s : Bytes) where
  question-split : wire parts ++ hi ∷ lo ∷ c ∷ d ∷ s ≡ question_of parts hi lo c d ++ s
  question-split = sym (append_assoc (wire parts) (hi ∷ lo ∷ c ∷ d ∷ []) s)

  question-taken :
      (n : ℕ)
      → n ≡ 12 + length (question_of parts hi lo c d ++ s)
      → take (n - 12 - length s) (question_of parts hi lo c d ++ s) ≡ question_of parts hi lo c d
  question-taken n e =
      let size : n - 12 - length s ≡ length (question_of parts hi lo c d) =
        omega (arith, e, length-append (question_of parts hi lo c d) s) in
      ap (λ k. take k (question_of parts hi lo c d ++ s)) size
      ∙ take-append (question_of parts hi lo c d) s

parse_query-read :
    (buf : Bytes) (parts : List Bytes) (hi lo c d : ℕ) (s : Bytes)
    → 12 ≤ length buf
    → take_parts (length buf) (drop 12 buf) ≡ some (parts, hi ∷ lo ∷ c ∷ d ∷ s)
    → parse_query buf ≡ parsed buf parts (hi ∷ lo ∷ c ∷ d ∷ s)
unfolding parse_query
parse_query-read buf parts hi lo c d s le e = ground (arith, e)

-- A query as it is written out: two bytes of ID, ten of header, the question and what follows.
module _ (id header : Bytes) (is_id : length id ≡ 2) (is_header : length header ≡ 10)
    (parts : List Bytes) (labels : All (λ p. 0 < length p) parts) (hi lo c d : ℕ) (s : Bytes) where
  pub parse_query-written :
      parse_query (id ++ (header ++ (question_of parts hi lo c d ++ s)))
      ≡ some (query_of id parts hi lo c d)
  unfolding parse_query parsed query_of
  parse_query-written =
      let body = question_of parts hi lo c d ++ s in
      let buf = id ++ (header ++ body) in
      let size = length-message id header is_id is_header body in
      let fuel : length (wire parts) ≤ length buf = omega (
        arith,
        size,
        length-append (question_of parts hi lo c d) s,
        length-append (wire parts) (hi ∷ lo ∷ c ∷ d ∷ []),
      ) in
      let read : take_parts (length buf) (drop 12 buf) ≡ some (parts, hi ∷ lo ∷ c ∷ d ∷ s) =
        ap (take_parts (length buf))
          (header-dropped id header is_id is_header body ∙ sym (question-split parts hi lo c d s))
        ∙ take_parts-wire parts (hi ∷ lo ∷ c ∷ d ∷ s) (length buf) labels fuel in
      let question : take (length buf - 12 - length s) (drop 12 buf) ≡ question_of parts hi lo c d =
        ap (take (length buf - 12 - length s)) (header-dropped id header is_id is_header body)
        ∙ question-taken parts hi lo c d s (length buf) size in
      parse_query-read buf parts hi lo c d s (omega (arith, size)) read
      ∙ ap₂
          (λ i q.
            some (record {
              id = i;
              question = q;
              name = to_lower (join parts);
              qtype = hi * 256 + lo;
            }))
          (id-taken id header is_id is_header body) question
