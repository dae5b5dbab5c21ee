-- ===== src/Interop/Limits/Seats/Passing.antt =====
-- The run at the limit of a client.
use forwardproxy.Base.Dict.{count_at}
use forwardproxy.Base.{
  ℕ, suc, ◌+◌, ◌-◌, ◌≤◌, ◌<◌, ◌≡◌, ◌∙◌, refl, ap, true, false, List, [], ◌∷◌, ◌++◌, some, Bytes,
  codes, leb, arith, Bool-cases, inl, inr,
}
use forwardproxy.Interop.Limits.{
  Kept, drop_first, fill_places, full_run, limits_body, reuse, run_limits, close_all,
}
use forwardproxy.Interop.Matrix.{loopback}
use forwardproxy.Interop.Session.{and_then, ok}
use forwardproxy.Udp.Admission.Counting.{count_at-insert}
use forwardproxy.Udp.Admission.{
  Limiter, acquire, client_limit, drop_client, global_limit, refused, release_locked,
}
use forwardproxy.Interop.Limits.Seats.Taking.{
  Taken, acquire-free, fill_places-Taken, granted_by, opens-free, seated,
}
use forwardproxy.Interop.Limits.Seats.{Seats, at, leave, seat, seats}

module _ (client : Bytes) where
  acquire-full :
      (l : Limiter)
      → client_limit l ≤ count_at client l.by_client
      → (limit : Bytes) × (acquire l client ≡ refused limit)
  unfolding acquire
  acquire-full l full =
      let c : leb (client_limit l) (count_at client l.by_client) ≡ true = ground (arith, full) in
      elim (Bool-cases (leb (global_limit l) l.active)) [
        | inl g ↦ (codes "global", rw g refl)
        | inr g ↦ (codes "source", rw g (rw c refl))
      ]

  -- The attempt beyond the limit, whose stream has no place to give back.
  refused_open :
      (port k a head : ℕ) (host : Bytes) (rest : List ℕ) (w : Seats) (streams : List ℕ)
      → Taken client k a head rest (w, streams)
      → 128 ≤ k
      → ((seats client).open_stream host port w
          ≡ (some (w.next, 503), record w { next = w.next + 1 }))
        × ((seats client).close_stream w.next (record w { next = w.next + 1 })
            ≡ record w { next = w.next + 1 })
  unfolding seats seat leave
  refused_open port k a head host rest w streams t full =
      let (limit, e) = acquire-full w.limiter (omega (arith, t.limit_is, t.count_is, full)) in
      (rw e refl, rw (t.fresh w.next (omega arith)) refl)

  count_at-drop_client :
      (m : List (Bytes × ℕ))
      → 1 < count_at client m
      → count_at client (drop_client client m) ≡ count_at client m - 1
  unfolding drop_client
  count_at-drop_client m h =
      let n = count_at client m - 1 in
      let same = count_at-insert client n m in ground (arith, h, same)

  freed : ℕ → Seats → Seats
  freed head w = record w {
    limiter = release_locked w.limiter client;
    holds = at head false w.holds;
  }

  -- A place that is given back can be taken again at once.
  reopened :
      (port a head : ℕ) (host : Bytes) (rest : List ℕ) (w : Seats) (streams : List ℕ)
      → Taken client 128 a head rest (w, streams)
      → (w' : Seats) × ((seats client).open_stream host port (freed head w)
          ≡ (some (w.next, 200), w'))
  unfolding seats seat freed granted_by release_locked seated
  reopened port a head host rest w streams t =
      let l = release_locked w.limiter client in
      let less = count_at-drop_client w.limiter.by_client (omega (arith, t.count_is)) in
      (
        seated client (freed head w),
        rw
            (acquire-free client l (omega (arith, t.active_is, t.room))
              (omega (arith, less, t.count_is, t.limit_is)))
            refl,
      )

  -- No place is taken by the client yet, and the server has 128 more beside the `a` taken by others.
  pub record IsFree (a : ℕ) (w : Seats) : Type 0 where
    pub limit_is : client_limit w.limiter ≡ 128
    pub room : a + 128 ≤ global_limit w.limiter
    pub active_is : w.limiter.active ≡ a
    pub count_is : count_at client w.limiter.by_client ≡ 0
    pub fresh : (i : ℕ) → w.next ≤ i → w.holds i ≡ false

  first-Taken :
      (a : ℕ) (w : Seats) → IsFree a w → Taken client 1 a w.next [] (seated client w, w.next ∷ [])
  unfolding seated
  first-Taken a w v = record {
    limit_is = v.limit_is;
    room = v.room;
    active_is = omega (arith, v.active_is);
    count_is =
        count_at-insert client (count_at client w.limiter.by_client + 1) w.limiter.by_client
        ∙ ap (λ n. n + 1) v.count_is;
    streams_are = refl;
    held = ground arith;
    newer = omega arith;
    fresh = λ i h. ground (arith, h, v.fresh i (omega (arith, h)));
  }

  fill_full :
      (port a : ℕ) (w : Seats)
      → IsFree a w
      → (rest : List ℕ) × (v : Kept Seats) × (fill_places
            (seats client)
            (seats client)
            port
            128
            0
            (w, [])
          ≡ (ok tt, v))
        × Taken client 128 a w.next rest v
  unfolding fill_places
  fill_full port a w free =
      let (rest, v, e, t) =
        fill_places-Taken client 127 1 port 1 a w.next [] (seated client w, w.next ∷ [])
          (first-Taken a w free) (omega arith) in
      (
        rest,
        v,
        rw
            (opens-free client 0 port loopback w (omega (arith, free.room, free.active_is))
              (omega (arith, free.limit_is, free.count_is)))
            e,
        t,
      )

  past_refusal :
      (w : Seats) (k a head : ℕ) (rest streams : List ℕ)
      → Taken client k a head rest (w, streams)
      → Taken client k a head rest (record w { next = w.next + 1 }, streams)
  past_refusal w k a head rest streams t = record {
    limit_is = t.limit_is;
    room = t.room;
    active_is = t.active_is;
    count_is = t.count_is;
    streams_are = t.streams_are;
    held = t.held;
    newer = omega (arith, t.newer);
    fresh = λ i h. t.fresh i (omega (arith, h));
  }

  reuse_at_once :
      (n port s : ℕ) (w w' : Seats) (streams : List ℕ)
      → (seats client).open_stream loopback port w ≡ (some (s, 200), w')
      → reuse (seats client) (seats client) port (suc n) (w, streams)
        ≡ (ok tt, (w', streams ++ s ∷ []))
  unfolding reuse seats
  reuse_at_once n port s w w' streams e = rw e refl

  close_first :
      (k port a head : ℕ) (rest streams : List ℕ) (w : Seats)
      → Taken client k a head rest (w, streams)
      → drop_first (seats client) (seats client) port (w, streams) ≡ (ok tt, (freed head w, rest))
  unfolding seats leave freed
  close_first k port a head rest streams w t = rw t.streams_are (rw t.held refl)

  full_run-passes :
      (port a head : ℕ) (rest streams : List ℕ) (w : Seats)
      → Taken client 128 a head rest (w, streams)
      → (v : Kept Seats) × (full_run (seats client) (seats client) port 20 (w, streams)
          ≡ (ok tt, v))
  unfolding full_run
  full_run-passes port a head rest streams w t =
      let (refusing, closing) =
        refused_open port 128 a head loopback rest w streams t (omega arith) in
      let next = record w { next = w.next + 1 } in
      let t' = past_refusal w 128 a head rest streams t in
      let (w', reopening) = reopened port a head loopback rest next streams t' in
      (
        (w', rest ++ next.next ∷ []),
        rw refusing (
            ap
              (λ x.
                and_then (drop_first (seats client) (seats client) port (x, streams))
                  (λ _. reuse (seats client) (seats client) port 20))
              closing
            ∙ rw (close_first 128 port a head rest streams next t')
                (reuse_at_once 19 port next.next (freed head next) w' rest reopening)),
      )

  -- Client and admission fit together: where the server admits 128 associations of one client and has
  -- these places free, `runLimits`, which opens 128 streams, wants the next one refused with 503 and
  -- then the place of a closed one taken again, returns no error. Both connections lead to the same
  -- admission, and a stream that is closed gives its place back at once.
  pub run_limits-passes :
      (port a : ℕ) (hang_up : Seats → Seats) (w : Seats)
      → IsFree a w
      → (w' : Seats) × (run_limits (seats client) (seats client) port true hang_up w ≡ (ok tt, w'))
  unfolding run_limits limits_body
  run_limits-passes port a hang_up w free =
      let (rest, (w₁, streams), filled, t) = fill_full port a w free in
      let (v, e) = full_run-passes port a w.next rest streams w₁ t in
      (hang_up (close_all (seats client) (seats client) port v.1 v.0), rw filled (rw e refl))
