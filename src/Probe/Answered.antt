-- ===== src/Probe/Answered.antt =====
-- experiments/w2w3/realprobe/main.go: `serveLoop` on a query written out, and the reply read back.
use forwardproxy.Base.{
  ℕ, zero, suc, ◌+◌, ◌*◌, ◌≤◌, ◌<◌, ◌≡◌, ◌≢◌, refl, ap, ◌∙◌, [], ◌∷◌, ◌++◌, List, none, some, Bytes,
  length, take, All, is_nil, if◌then◌else◌, arith,
}
use forwardproxy.Probe.Fixture.{
  BehaviorKind, answer, nodata, servfail, dropped, Query, Table, parse_query, build_response,
  behavior_of, reply_with, rcode_of, records, serve_datagram,
}
use forwardproxy.Probe.Echoed.{question_of, query_of, parse_query-written}

take-whole : (n : ℕ) (s : Bytes) → length s ≤ n → take n s ≡ s
take-whole zero [] h = refl
take-whole zero (c ∷ s) h = absurd (omega arith)
take-whole (suc n) [] h = refl
take-whole (suc n) (c ∷ s) h = ap (◌∷◌ c) (take-whole n s (omega arith))

reply_with-answers :
    (q : Query) (delay : ℕ) (k : BehaviorKind)
    → k ≢ dropped
    → reply_with q delay k
      ≡ some (delay, build_response q.id q.question (rcode_of k) (records k q.qtype))
unfolding reply_with
reply_with-answers q delay answer h = refl
reply_with-answers q delay nodata h = refl
reply_with-answers q delay servfail h = refl
reply_with-answers q delay dropped h = absurd (h refl)

serve_datagram-replies :
    (table : Table) (datagram : Bytes) (q : Query)
    → length datagram ≤ 1500
    → parse_query datagram ≡ some q
    → (behavior_of table q).kind ≢ dropped
    → serve_datagram table datagram
      ≡ some (
        (behavior_of table q).delay,
        build_response q.id q.question
            (rcode_of (behavior_of table q).kind)
            (records (behavior_of table q).kind q.qtype),
      )
unfolding serve_datagram
serve_datagram-replies table datagram q le e h =
    ap
      (λ s. elim (parse_query s) [
        | none ↦ none
        | some r ↦ reply_with r (behavior_of table r).delay (behavior_of table r).kind
      ])
      (take-whole 1500 datagram le)
    ∙ ap
        (λ o. elim o [
          | none ↦ none
          | some r ↦ reply_with r (behavior_of table r).delay (behavior_of table r).kind
        ])
        e
    ∙ reply_with-answers q (behavior_of table q).delay (behavior_of table q).kind h

module _ (id header : Bytes) (parts : List Bytes) (hi lo c d : ℕ) (rest : Bytes) where
  -- A query written out: the ID, ten bytes of header, the question and what follows it.
  unfoldable pub written : Bytes
  written = id ++ (header ++ (question_of parts hi lo c d ++ rest))

  -- A query of at most 1500 bytes, with an ID of two bytes, a header of ten and labels none of
  -- which is empty, whose behaviour is not to be dropped, is replied to after the behaviour's delay,
  -- and the reply reads back as the query: the same ID, question, name and type.
  pub serve_datagram-echoes :
      length id ≡ 2
      → length header ≡ 10
      → All (λ p. 0 < length p) parts
      → length written ≤ 1500
      → (table : Table) → (behavior_of table (query_of id parts hi lo c d)).kind ≢ dropped
      → (response : Bytes) × ((serve_datagram table written
            ≡ some ((behavior_of table (query_of id parts hi lo c d)).delay, response))
          × (parse_query response ≡ some (query_of id parts hi lo c d)))
  unfolding written build_response query_of
  serve_datagram-echoes is_id is_header labels le table sent =
      let q = query_of id parts hi lo c d in
      let k = (behavior_of table q).kind in
      (
        build_response id (question_of parts hi lo c d) (rcode_of k) (records k (hi * 256 + lo)),
        (
          serve_datagram-replies table written q le
              (parse_query-written id header is_id is_header parts labels hi lo c d rest) sent,
          parse_query-written id
              (129
                ∷ 128
                ∷ 0
                ∷ 1
                ∷ 0
                ∷ (if is_nil (records k (hi * 256 + lo)) then 0 else 1)
                ∷ 0
                ∷ 0
                ∷ 0
                ∷ 0
                ∷ [])
              is_id refl parts labels hi lo c d (records k (hi * 256 + lo)),
        ),
      )
