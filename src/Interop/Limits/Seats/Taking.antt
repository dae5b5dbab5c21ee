-- ===== src/Interop/Limits/Seats/Taking.antt =====
-- The places that the run takes.
use forwardproxy.Base.Dict.{count_at, insert}
use forwardproxy.Base.{
  ℕ, zero, suc, ◌+◌, ◌%◌, ◌^◌, ◌≤◌, ◌<◌, ◌≡◌, ◌∙◌, refl, ap, true, false, List, [], ◌∷◌, ◌++◌, some,
  Bytes, leb, arith, Bool-cases, inl, inr,
}
use forwardproxy.Interop.Limits.{Kept, fill_places, owner}
use forwardproxy.Interop.Matrix.{loopback}
use forwardproxy.Interop.Session.{ok}
use forwardproxy.Udp.Admission.Counting.{count_at-insert}
use forwardproxy.Udp.Admission.{Acquired, Limiter, acquire, client_limit, global_limit, granted}
use forwardproxy.Interop.Limits.Seats.{Seats, at, seat, seats}

module _ (client : Bytes) where
  -- With `k` places taken by the client and `a` by others, and the first stream among its holders.
  pub record Taken (k a head : ℕ) (rest : List ℕ) (v : Kept Seats) : Type 0 where
    pub limit_is : client_limit v.0.limiter ≡ 128
    pub room : a + 128 ≤ global_limit v.0.limiter
    pub active_is : v.0.limiter.active ≡ a + k
    pub count_is : count_at client v.0.limiter.by_client ≡ k
    pub streams_are : v.1 ≡ head ∷ rest
    pub held : v.0.holds head ≡ true
    pub newer : head < v.0.next
    pub fresh : (i : ℕ) → v.0.next ≤ i → v.0.holds i ≡ false

  unfoldable pub granted_by : Limiter → Acquired
  granted_by l = granted ((l.next_id + 1) % 2 ^ 64) ((l.active + 1) % 2 ^ 64) (record l {
    active = l.active + 1;
    by_client = insert client (count_at client l.by_client + 1) l.by_client;
    next_id = (l.next_id + 1) % 2 ^ 64;
  })

  pub acquire-free :
      (l : Limiter)
      → l.active < global_limit l
      → count_at client l.by_client < client_limit l
      → acquire l client ≡ granted_by l
  unfolding acquire granted_by
  acquire-free l room free =
      let g : leb (global_limit l) l.active ≡ false = ground (arith, room) in
      let c : leb (client_limit l) (count_at client l.by_client) ≡ false = ground (arith, free) in
      rw g (rw c refl)

  unfoldable pub seated : Seats → Seats
  seated w = record w {
    limiter = record w.limiter {
      active = w.limiter.active + 1;
      by_client = insert client (count_at client w.limiter.by_client + 1) w.limiter.by_client;
      next_id = (w.limiter.next_id + 1) % 2 ^ 64;
    };
    next = w.next + 1;
    holds = at w.next true w.holds;
  }

  pub opens-free :
      (i port : ℕ) (host : Bytes) (w : Seats)
      → w.limiter.active < global_limit w.limiter
      → count_at client w.limiter.by_client < client_limit w.limiter
      → (owner (seats client) (seats client) port i).open_stream host port w
        ≡ (some (w.next, 200), seated w)
  unfolding seats seat granted_by seated
  opens-free i port host w room free = elim (Bool-cases (leb 64 i)) [
    | inl e ↦ rw (e, owner) (rw (acquire-free w.limiter room free) refl)
    | inr e ↦ rw (e, owner) (rw (acquire-free w.limiter room free) refl)
  ]

  seated-Taken :
      (k a head : ℕ) (rest : List ℕ) (v : Kept Seats)
      → Taken k a head rest v
      → Taken (k + 1) a head (rest ++ v.0.next ∷ []) (seated v.0, v.1 ++ v.0.next ∷ [])
  unfolding seated
  seated-Taken k a head rest (w, streams) v = record {
    limit_is = v.limit_is;
    room = v.room;
    active_is = omega (arith, v.active_is);
    count_is =
        count_at-insert client (count_at client w.limiter.by_client + 1) w.limiter.by_client
        ∙ ap (λ n. n + 1) v.count_is;
    streams_are = ap (λ l. l ++ w.next ∷ []) v.streams_are;
    held = ground (arith, v.held);
    newer = omega (arith, v.newer);
    fresh = λ i h. ground (arith, h, v.fresh i (omega (arith, h)));
  }

  pub fill_places-Taken :
      (n i port k a head : ℕ) (rest : List ℕ) (v : Kept Seats)
      → Taken k a head rest v
      → k + n ≤ 128
      → (rest' : List ℕ) × (v' : Kept Seats) × (fill_places (seats client) (seats client) port n i v
          ≡ (ok tt, v'))
        × Taken (k + n) a head rest' v'
  unfolding fill_places
  fill_places-Taken zero i port k a head rest v t fits =
      let same : k ≡ k + 0 = omega arith in (rest, v, refl, rw same at t)
  fill_places-Taken (suc n) i port k a head rest (w, streams) t fits =
      let (rest', v', e, t') =
        fill_places-Taken n (i + 1) port (k + 1) a head (rest ++ w.next ∷ [])
          (seated w, streams ++ w.next ∷ []) (seated-Taken k a head rest (w, streams) t)
          (omega (arith, fits)) in
      let same : k + 1 + n ≡ k + suc n = omega arith in
      (
        rest',
        v',
        rw
            (opens-free i port loopback w (omega (arith, t.room, t.active_is, fits))
              (omega (arith, t.limit_is, t.count_is, fits)))
            e,
        rw same at t',
      )
