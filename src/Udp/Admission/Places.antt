-- ===== src/Udp/Admission/Places.antt =====
-- What the counts' invariant gives: no place leaks, a refusal means a full limit, and a release
-- function gives its place back once.
use forwardproxy.Base.Dict.{lookup, insert, count_at}
use forwardproxy.Base.{
  ℕ, ◌+◌, ◌%◌, ◌^◌, ◌∙◌, ◌≤◌, ◌<◌, ◌≡◌, refl, none, some, Bytes, equal_refl, ℤ, arith, codes, List,
  [], ◌∷◌, get_elem?, get_elem?-set_self, All, ap,
}
use forwardproxy.Udp.Admission.Counting.{count_at-present, count_at-insert}
use forwardproxy.Udp.Admission.Invariant.{Inv, live, live_of, run-idle-Inv}
use forwardproxy.Udp.Admission.{
  acquire, granted, refused, global_limit, client_limit, serving, Limiter, leaving, closed, Ticket,
  World, Action, release, unlock, step, run, idle, at_ticket, ticket_step,
}

abbrev pub AllClosed : List Ticket → Type 0
AllClosed = All (λ t. t.phase ≡ closed)

live-AllClosed : (ts : List Ticket) → AllClosed ts → live ts ≡ 0
live-AllClosed [] h = refl
live-AllClosed (t ∷ ts) h = ground (arith, h.0, live-AllClosed ts h.1)

live_of-AllClosed : (c : Bytes) (ts : List Ticket) → AllClosed ts → live_of c ts ≡ 0
live_of-AllClosed c [] h = refl
live_of-AllClosed c (t ∷ ts) h = ground (arith, h.0, live_of-AllClosed c ts h.1)

empty_of_lookup : (m : List (Bytes × ℕ)) → ((c : Bytes) → lookup c m ≡ none) → m ≡ []
unfolding lookup
empty_of_lookup [] h = refl
empty_of_lookup ((k, v) ∷ m) h = ground (arith, h k, equal_refl k)

-- However the requests interleave: once every admitted request has run its release function to the
-- end, the number active is 0 and the per-client map is empty again, so nothing leaks.
pub run-AllClosed :
    (max_active max_client_active : ℤ) (actions : List Action)
    → AllClosed (run (idle max_active max_client_active) actions).tickets
    → ((run (idle max_active max_client_active) actions).limiter.active ≡ 0)
      × ((run (idle max_active max_client_active) actions).limiter.by_client ≡ [])
run-AllClosed a b actions h =
    let w = run (idle a b) actions in
    let v = run-idle-Inv a b actions in
    (
      omega (arith, v.active_counts, live-AllClosed w.tickets h),
      empty_of_lookup w.limiter.by_client
          λ c. rw (live_of-AllClosed c w.tickets h) at (v.clients_count c),
    )

-- In a world that keeps the invariant, `acquireConnectUDP` refuses a client with the global limit
-- exactly when that many requests hold a place, with the source limit exactly when there is room
-- but that many of this client's requests hold one, and grants in every other case.
pub acquire-refused_iff :
    (w : World) (client : Bytes)
    → Inv w
    → (global_limit w.limiter ≤ live w.tickets
        → acquire w.limiter client ≡ refused (codes "global"))
      × (live w.tickets < global_limit w.limiter
          → client_limit w.limiter ≤ live_of client w.tickets
          → acquire w.limiter client ≡ refused (codes "source"))
      × (live w.tickets < global_limit w.limiter
          → live_of client w.tickets < client_limit w.limiter
          → (l' : Limiter) × (acquire w.limiter client
              ≡ granted ((w.limiter.next_id + 1) % 2 ^ 64) ((live w.tickets + 1) % 2 ^ 64) l')
            × (l'.active ≡ live w.tickets + 1)
            × (count_at client l'.by_client ≡ live_of client w.tickets + 1))
unfolding acquire
acquire-refused_iff w client v = (
  λ full. ground (arith, v.active_counts),
  λ room full. ground (arith, v.active_counts, counted),
  λ room client_room. (
    record w.limiter {
      active = w.limiter.active + 1;
      by_client = insert client (count_at client w.limiter.by_client + 1) w.limiter.by_client;
      next_id = (w.limiter.next_id + 1) % 2 ^ 64;
    },
    ground (arith, v.active_counts, counted),
    omega (arith, v.active_counts),
    count_at-insert client _ w.limiter.by_client ∙ ap (λ n. n + 1) counted,
  ),
)
  where
    counted : count_at client w.limiter.by_client ≡ live_of client w.tickets
    counted =
        count_at-present w.limiter.by_client client (live_of client w.tickets)
          (v.clients_count client)

at_ticket-found :
    (w : World) (a : Action) (i : ℕ) (t : Ticket)
    → get_elem? w.tickets i ≡ some t
    → at_ticket w a i ≡ ticket_step w a i t t.phase
at_ticket-found w a i t e = rw (e, at_ticket)

-- A ticket that has come to an end takes no further step.
at_ticket-closed :
    (w : World) (a : Action) (i : ℕ) (t : Ticket)
    → get_elem? w.tickets i ≡ some t
    → t.phase ≡ closed
    → at_ticket w a i ≡ w
unfolding ticket_step
at_ticket-closed w a i t e at = at_ticket-found w a i t e ∙ ground (arith)

-- A first call of the release function, and the unlocking that ends it.
released-leaving :
    (w : World) (i d : ℕ) (reason : List Bytes) (t : Ticket)
    → get_elem? w.tickets i ≡ some t
    → t.phase ≡ serving
    → get_elem? (at_ticket w (release i reason d) i).tickets i ≡ some (record t { phase = leaving })
unfolding ticket_step
released-leaving w i d reason t e at =
    rw (at_ticket-found w (release i reason d) i t e, at) (get_elem?-set_self w.tickets i t _ e)

unlocked-closed :
    (w : World) (i : ℕ) (t : Ticket)
    → get_elem? w.tickets i ≡ some t
    → t.phase ≡ leaving
    → get_elem? (at_ticket w (unlock i) i).tickets i ≡ some (record t { phase = closed })
unfolding ticket_step
unlocked-closed w i t e at =
    rw (at_ticket-found w (unlock i) i t e, at) (get_elem?-set_self w.tickets i t _ e)

-- A second call of a release function, with any arguments, changes nothing: neither the counts nor
-- the metrics.
pub release_once :
    (w : World) (i d d' : ℕ) (reason reason' : List Bytes) (t : Ticket)
    → get_elem? w.tickets i ≡ some t
    → t.phase ≡ serving
    → run w (release i reason d ∷ unlock i ∷ release i reason' d' ∷ unlock i ∷ [])
      ≡ run w (release i reason d ∷ unlock i ∷ [])
unfolding run step
release_once w i d d' r r' t found at =
    let w1 = at_ticket w (release i r d) i in
    let w2 = at_ticket w1 (unlock i) i in
    let out = unlocked-closed w1 i _ (released-leaving w i d r t found at) refl in
    let again = at_ticket-closed w2 (release i r' d') i _ out refl in
    ap (λ x. at_ticket x (unlock i) i) again ∙ at_ticket-closed w2 (unlock i) i _ out refl
