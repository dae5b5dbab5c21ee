-- ===== src/Udp/Admission/Peak.antt =====
-- The peak of concurrent associations: the atomic value follows the requests exactly, the gauge
-- that is set after the swap does not.
use Prim.Native.Nat.{max}
use forwardproxy.Base.Sums.{max_by, max_by-append, max_by-set, le-max_by}
use forwardproxy.Base.{
  ℕ, ◌≤◌, ◌<◌, ◌≡◌, ◌≢◌, ◌∙◌, refl, sym, some, Bytes, ℤ, arith, List, [], ◌∷◌, inl, inr, get_elem?,
  leb, leb→le, Option-cases, Bool-cases, get_elem?-set_ne,
}
use forwardproxy.Udp.Admission.{
  Acquired, acquire, granted, refused, global_limit, Phase, admitted, counted, peaking, serving,
  leaving, closed, Ticket, World, Action, admit, count, swap, publish, release, unlock, ticket_step,
  admit_step, step, run, idle, at_ticket, move, release_locked,
}
use forwardproxy.Udp.Metrics.{Metrics, record_admission, set_peak}

abbrev seen_in : Phase → ℕ → ℕ
seen_in admitted n = 0
seen_in counted n = 0
seen_in _ n = n

-- What a ticket has offered to the peak value so far.
abbrev offered : Ticket → ℕ
offered t = seen_in t.phase t.seen

abbrev seen_by : Ticket → ℕ
seen_by t = t.seen

seen_in-le : (p : Phase) (n : ℕ) → seen_in p n ≤ n
seen_in-le admitted n = omega arith
seen_in-le _ n = omega arith

pub record PeakInv (w : World) : Type 0 where
  pub value_is : w.metrics.active_peak_value ≡ max_by offered w.tickets
  pub published : w.metrics.active_peak ≤ w.metrics.active_peak_value
  pub seen_within : max_by seen_by w.tickets ≤ global_limit w.limiter
  pub offered_within : max_by offered w.tickets ≤ global_limit w.limiter

acquire_seen :
    (w : World) (client : Bytes) {id seen : ℕ} {l : _}
    → acquire w.limiter client ≡ granted id seen l
    → (seen ≤ global_limit w.limiter) × (global_limit l ≡ global_limit w.limiter)
unfolding acquire
acquire_seen w client e = ground arith

admit_step-PeakInv :
    (w : World) (client : Bytes) (r : Acquired)
    → acquire w.limiter client ≡ r
    → PeakInv w
    → PeakInv (admit_step w client r)
unfolding admit_step record_admission
admit_step-PeakInv w client (refused limit) e v = record {
  value_is = v.value_is;
  published = v.published;
  seen_within = v.seen_within;
  offered_within = v.offered_within;
}
admit_step-PeakInv w client (granted id seen l) e v =
    let (low, same) = acquire_seen w client e in
    let new : Ticket = record { id = id; client = client; seen = seen; phase = admitted } in
    let more = max_by-append offered w.tickets (new ∷ []) in
    let more_seen = max_by-append seen_by w.tickets (new ∷ []) in
    record {
      value_is = omega (arith, v.value_is, more);
      published = v.published;
      seen_within = omega (arith, v.seen_within, more_seen, low, same);
      offered_within = omega (arith, v.offered_within, more, same);
    }

-- A ticket moves on and has offered `seen`, or nothing, as its phase says.
move-PeakInv :
    (w : World) (i : ℕ) (t : Ticket) (p : Phase) (m : Metrics)
    → get_elem? w.tickets i ≡ some t
    → offered t ≤ seen_in p t.seen
    → m.active_peak_value ≡ max w.metrics.active_peak_value (seen_in p t.seen)
    → m.active_peak ≤ m.active_peak_value
    → PeakInv w
    → PeakInv (record w { metrics = m; tickets = move w i t p })
move-PeakInv w i t p m found grows value gauge v =
    let t' = record t { phase = p } in
    let offer = max_by-set offered w.tickets i t t' found grows in
    let sight = max_by-set seen_by w.tickets i t t' found (omega arith) in
    let seen = le-max_by seen_by w.tickets i t found in
    record {
      value_is = omega (arith, value, v.value_is, offer);
      published = gauge;
      seen_within = omega (arith, v.seen_within, sight, seen);
      offered_within =
          omega (arith, v.offered_within, v.seen_within, offer, seen, seen_in-le p t.seen);
    }

ticket_step-PeakInv :
    (w : World) (a : Action) (i : ℕ) (t : Ticket) (p : Phase)
    → get_elem? w.tickets i ≡ some t
    → t.phase ≡ p
    → PeakInv w
    → PeakInv (ticket_step w a i t p)
unfolding ticket_step release_locked
ticket_step-PeakInv w (count _) i t admitted found at v =
    move-PeakInv w i t counted _ found (ground arith) (omega arith) v.published v
ticket_step-PeakInv w (swap _) i t counted found at v =
    elim (Bool-cases (leb t.seen w.metrics.active_peak_value)) [
      | inl low ↦ rw low (
          move-PeakInv w i t serving _ found (ground arith) (omega (arith, leb→le _ _ low))
            v.published v)
      | inr high ↦ rw high (
          move-PeakInv w i t peaking _ found (ground arith) (ground arith)
            (ground (arith, v.published)) v)
    ]
ticket_step-PeakInv w (publish _) i t peaking found at v =
    move-PeakInv w i t serving _ found (ground arith)
      (ground (arith, v.value_is, le-max_by offered w.tickets i t found))
      (ground (arith, v.value_is, le-max_by offered w.tickets i t found)) v
ticket_step-PeakInv w (release _ reason duration) i t serving found at v =
    move-PeakInv w i t leaving _ found (ground arith)
      (ground (arith, v.value_is, le-max_by offered w.tickets i t found)) v.published v
ticket_step-PeakInv w (unlock _) i t leaving found at v =
    let moved =
      move-PeakInv w i t closed w.metrics found (ground arith)
        (ground (arith, v.value_is, le-max_by offered w.tickets i t found)) v.published v in
    record {
      value_is = moved.value_is;
      published = moved.published;
      seen_within = moved.seen_within;
      offered_within = moved.offered_within;
    }
ticket_step-PeakInv w _ i t _ found at v = v

at_ticket-PeakInv : (w : World) (a : Action) (i : ℕ) → PeakInv w → PeakInv (at_ticket w a i)
at_ticket-PeakInv w a i v = elim (Option-cases (get_elem? w.tickets i)) [
  | inl e ↦ rw (e, at_ticket) v
  | inr (t, e) ↦ rw (e, at_ticket) (ticket_step-PeakInv w a i t t.phase e refl v)
]

step-PeakInv : (w : World) (a : Action) → PeakInv w → PeakInv (step w a)
unfolding step
step-PeakInv w (admit client) v = admit_step-PeakInv w client (acquire w.limiter client) refl v
step-PeakInv w (count i) v = at_ticket-PeakInv w (count i) i v
step-PeakInv w (swap i) v = at_ticket-PeakInv w (swap i) i v
step-PeakInv w (publish i) v = at_ticket-PeakInv w (publish i) i v
step-PeakInv w (release i reason duration) v = at_ticket-PeakInv w (release i reason duration) i v
step-PeakInv w (unlock i) v = at_ticket-PeakInv w (unlock i) i v

run-PeakInv : (w : World) (actions : List Action) → PeakInv w → PeakInv (run w actions)
unfolding run
run-PeakInv w [] v = v
run-PeakInv w (a ∷ rest) v = run-PeakInv (step w a) rest (step-PeakInv w a v)

-- However the requests interleave: the atomic peak value is the largest number active that a
-- request past its compare-and-swap saw, it never passes the global limit, and the published gauge
-- never passes it.
pub run-idle-PeakInv :
    (max_active max_client_active : ℤ) (actions : List Action)
    → PeakInv (run (idle max_active max_client_active) actions)
run-idle-PeakInv a b actions = run-PeakInv (idle a b) actions (record {
  value_is = refl;
  published = omega arith;
  seen_within = omega arith;
  offered_within = omega arith;
})

published_world : World → ℕ → Ticket → World
published_world w i t = record w {
  metrics = set_peak t.seen w.metrics;
  tickets = move w i t serving;
}

at_ticket-publish :
    (w : World) (i : ℕ) (t : Ticket)
    → get_elem? w.tickets i ≡ some t
    → t.phase ≡ peaking
    → at_ticket w (publish i) i ≡ published_world w i t
unfolding ticket_step published_world
at_ticket-publish w i t e at = rw (e, at_ticket) (rw (at, ticket_step))

-- Two requests that have both won the swap may set the gauge in the other order: it then stays
-- below the peak value, at the smaller of the two numbers, though neither has a set left to make.
pub publish_lags :
    (w : World) (i j : ℕ) (s t : Ticket)
    → PeakInv w
    → i ≢ j
    → get_elem? w.tickets i ≡ some s
    → get_elem? w.tickets j ≡ some t
    → s.phase ≡ peaking
    → t.phase ≡ peaking
    → s.seen < t.seen
    → ((run w (publish j ∷ publish i ∷ [])).metrics.active_peak ≡ s.seen)
      × (s.seen < (run w (publish j ∷ publish i ∷ [])).metrics.active_peak_value)
unfolding run step published_world set_peak
publish_lags w i j s t v ne fi fj si tj lt =
    let w' = published_world w j t in
    let other : get_elem? w'.tickets i ≡ some s =
      get_elem?-set_ne w.tickets j i _ (λ e. ne (sym e)) ∙ fi in
    rw (at_ticket-publish w j t fj tj, at_ticket-publish w' i s other si)
      (refl, ground (arith, v.value_is, le-max_by offered w.tickets j t fj))
