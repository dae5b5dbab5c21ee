-- ===== src/Udp/Admission/Invariant.antt =====
-- What holds of the handler's counts and of the gauges after any interleaving of requests.
use forwardproxy.Base.Dict.{lookup}
use forwardproxy.Base.Sums.{sum_by, sum_by-append, sum_by-set, le-sum_by}
use forwardproxy.Base.{
  ℕ, ◌+◌, ◌≤◌, ◌≡◌, refl, some, Bytes, equal, equal_iff, ℤ, equal_refl, arith, if◌then◌else◌, List,
  [], ◌∷◌, Option-cases, Bool-cases, leb, inl, inr, get_elem?, ap, ◌∙◌,
}
use forwardproxy.Udp.Admission.Counting.{
  HasCounts, present, drop_at, insert-HasCounts, drop_client-HasCounts, acquire_granted,
  count_at-present,
}
use forwardproxy.Udp.Admission.{
  Acquired, acquire, granted, refused, release_locked, global_limit, client_limit, Phase, admitted,
  counted, peaking, serving, leaving, closed, Ticket, World, Action, admit, count, swap, publish,
  release, unlock, ticket_step, admit_step, step, run, idle, at_ticket, move,
}
use forwardproxy.Udp.Metrics.{Metrics, record_admission}

abbrev pub holds_place : Phase → ℕ
holds_place closed = 0
holds_place admitted = 1
holds_place counted = 1
holds_place peaking = 1
holds_place serving = 1
holds_place leaving = 1

abbrev pub in_gauge : Phase → ℕ
in_gauge admitted = 0
in_gauge counted = 1
in_gauge peaking = 1
in_gauge serving = 1
in_gauge leaving = 0
in_gauge closed = 0

abbrev holds : Ticket → ℕ
holds t = holds_place t.phase

abbrev holds_of : Bytes → Ticket → ℕ
holds_of c t = if equal t.client c then holds_place t.phase else 0

abbrev gauges : Ticket → ℕ
gauges t = in_gauge t.phase

abbrev pub live : List Ticket → ℕ
live = sum_by holds

abbrev pub live_of : Bytes → List Ticket → ℕ
live_of c = sum_by (holds_of c)

abbrev pub gauged : List Ticket → ℕ
gauged = sum_by gauges

-- The counts are exactly the requests that hold a place, and stay within the limits.
pub record Inv (w : World) : Type 0 where
  pub active_counts : w.limiter.active ≡ live w.tickets
  pub clients_count : HasCounts w.limiter.by_client (λ c. live_of c w.tickets)
  pub gauge_counts : w.metrics.active ≡ gauged w.tickets
  pub within : w.limiter.active ≤ global_limit w.limiter
  pub client_within : (c : Bytes) → live_of c w.tickets ≤ client_limit w.limiter

pub idle-Inv : (max_active max_client_active : ℤ) → Inv (idle max_active max_client_active)
unfolding lookup
idle-Inv a b = record {
  active_counts = refl;
  clients_count = λ c. refl;
  gauge_counts = refl;
  within = omega arith;
  client_within = λ c. omega arith;
}

admit_step-Inv :
    (w : World) (client : Bytes) (r : Acquired)
    → acquire w.limiter client ≡ r
    → Inv w
    → Inv (admit_step w client r)
unfolding admit_step record_admission
admit_step-Inv w client (refused limit) e v = record {
  active_counts = v.active_counts;
  clients_count = v.clients_count;
  gauge_counts = v.gauge_counts;
  within = v.within;
  client_within = v.client_within;
}
admit_step-Inv w client (granted id seen l) e v =
    let (room, client_room, more, map_is, same, client_same) = acquire_granted w.limiter client e in
    record {
      active_counts =
          omega (arith, more, v.active_counts, sum_by-append holds w.tickets (new ∷ []));
      clients_count = λ c. rw map_is (
          ground (
            arith,
            insert-HasCounts client w.limiter.by_client (λ c. live_of c w.tickets) v.clients_count
                c,
            sum_by-append (holds_of c) w.tickets (new ∷ []),
          ));
      gauge_counts = omega (arith, v.gauge_counts, sum_by-append gauges w.tickets (new ∷ []));
      within = omega (arith, room, more, same, v.within);
      client_within = λ c. ground (
        arith,
        sum_by-append (holds_of c) w.tickets (new ∷ []),
        v.client_within c,
        equal_iff client c,
        count_at-present w.limiter.by_client client (live_of client w.tickets)
            (v.clients_count client),
        client_room,
        client_same,
      );
    }
  where
    new : Ticket
    new = record { id = id; client = client; seen = seen; phase = admitted }

-- A ticket that keeps its place moves on; the gauge follows its phase.
keep-Inv :
    (w : World) (i : ℕ) (t : Ticket) (p : Phase) (m : Metrics)
    → get_elem? w.tickets i ≡ some t
    → holds_place p ≡ holds_place t.phase
    → m.active + in_gauge t.phase ≡ w.metrics.active + in_gauge p
    → Inv w
    → Inv (record w { metrics = m; tickets = move w i t p })
keep-Inv w i t p m found place gauge v = record {
  active_counts = omega (arith, v.active_counts, place, sum_by-set holds w.tickets i t t' found);
  clients_count = λ c. v.clients_count c ∙ ap present (same c);
  gauge_counts = omega (arith, v.gauge_counts, gauge, sum_by-set gauges w.tickets i t t' found);
  within = v.within;
  client_within = λ c. omega (arith, v.client_within c, same c);
}
  where
    t' : Ticket
    t' = record t { phase = p }

    same : (c : Bytes) → live_of c w.tickets ≡ live_of c (move w i t p)
    same c = ground (arith, place, sum_by-set (holds_of c) w.tickets i t t' found)

-- The release function gives back one place of the ticket's client.
unlock-Inv :
    (w : World) (i : ℕ) (t : Ticket)
    → get_elem? w.tickets i ≡ some t
    → t.phase ≡ leaving
    → Inv w
    → Inv (record w { limiter = release_locked w.limiter t.client; tickets = move w i t closed })
unfolding release_locked
unlock-Inv w i t found phase v = record {
  active_counts = ground (
    arith,
    v.active_counts,
    sum_by-set holds w.tickets i t t' found,
    le-sum_by holds w.tickets i t found,
  );
  clients_count = λ c.
      drop_client-HasCounts t.client w.limiter.by_client (λ c. live_of c w.tickets) v.clients_count
        (ground (arith, le-sum_by (holds_of t.client) w.tickets i t found, equal_refl t.client)) c
      ∙ ap present (one_less c);
  gauge_counts = ground (arith, v.gauge_counts, sum_by-set gauges w.tickets i t t' found);
  within = omega (arith, v.within);
  client_within = λ c. ground (arith, v.client_within c, one_less c);
}
  where
    t' : Ticket
    t' = record t { phase = closed }

    one_less :
        (c : Bytes) → drop_at t.client (λ c. live_of c w.tickets) c ≡ live_of c (move w i t closed)
    one_less c = ground (arith, sum_by-set (holds_of c) w.tickets i t t' found)

ticket_step-Inv :
    (w : World) (a : Action) (i : ℕ) (t : Ticket) (p : Phase)
    → get_elem? w.tickets i ≡ some t
    → t.phase ≡ p
    → Inv w
    → Inv (ticket_step w a i t p)
unfolding ticket_step
ticket_step-Inv w (count _) i t admitted found at v =
    keep-Inv w i t counted _ found (ground arith) (ground arith) v
ticket_step-Inv w (swap _) i t counted found at v =
    elim (Bool-cases (leb t.seen w.metrics.active_peak_value)) [
      | inl low ↦ rw low (keep-Inv w i t serving _ found (ground arith) (ground arith) v)
      | inr high ↦ rw high (keep-Inv w i t peaking _ found (ground arith) (ground arith) v)
    ]
ticket_step-Inv w (publish _) i t peaking found at v =
    keep-Inv w i t serving _ found (ground arith) (ground arith) v
ticket_step-Inv w (release _ reason duration) i t serving found at v =
    keep-Inv w i t leaving _ found (ground arith)
      (ground (arith, v.gauge_counts, le-sum_by gauges w.tickets i t found)) v
ticket_step-Inv w (unlock _) i t leaving found at v = unlock-Inv w i t found at v
ticket_step-Inv w _ i t _ found at v = v

at_ticket-Inv : (w : World) (a : Action) (i : ℕ) → Inv w → Inv (at_ticket w a i)
at_ticket-Inv w a i v = elim (Option-cases (get_elem? w.tickets i)) [
  | inl e ↦ rw (e, at_ticket) v
  | inr (t, e) ↦ rw (e, at_ticket) (ticket_step-Inv w a i t t.phase e refl v)
]

pub step-Inv : (w : World) (a : Action) → Inv w → Inv (step w a)
unfolding step
step-Inv w (admit client) v = admit_step-Inv w client (acquire w.limiter client) refl v
step-Inv w (count i) v = at_ticket-Inv w (count i) i v
step-Inv w (swap i) v = at_ticket-Inv w (swap i) i v
step-Inv w (publish i) v = at_ticket-Inv w (publish i) i v
step-Inv w (release i reason duration) v = at_ticket-Inv w (release i reason duration) i v
step-Inv w (unlock i) v = at_ticket-Inv w (unlock i) i v

pub run-Inv : (w : World) (actions : List Action) → Inv w → Inv (run w actions)
unfolding run
run-Inv w [] v = v
run-Inv w (a ∷ rest) v = run-Inv (step w a) rest (step-Inv w a v)

-- However the requests interleave, from an idle handler on: the number active is the number of
-- requests that hold a place, each client's entry is its own number of such requests and is absent
-- when there is none, the active gauge is the number of requests between their two metrics calls,
-- and both limits hold, the global one and that of each client.
pub run-idle-Inv :
    (max_active max_client_active : ℤ) (actions : List Action)
    → Inv (run (idle max_active max_client_active) actions)
run-idle-Inv a b actions = run-Inv (idle a b) actions (idle-Inv a b)
