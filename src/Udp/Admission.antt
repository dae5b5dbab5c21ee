-- ===== src/Udp/Admission.antt =====
-- native_udp_association.go, `acquireConnectUDP` and its release function. The critical sections
-- under `connectUDPMu` are single steps; the metrics calls between them are steps of their own, so
-- that any number of requests interleave. A ticket is one admitted request and how far it has come.
pub mod Counting
pub mod Invariant
pub mod Places
pub mod Peak
mod Tests
use forwardproxy.Base.Dict.{insert, delete, count_at}
use forwardproxy.Base.{
  ℕ, zero, suc, ◌+◌, ◌-◌, ◌%◌, ◌^◌, ℤ, pos, negsuc, Bool, true, false, List, [], ◌∷◌, ◌++◌, none,
  some, Bytes, codes, leb, ◌==◌, if◌then◌else◌, get_elem?, set,
}
use forwardproxy.Udp.Metrics.{
  Metrics, record_admission, count_accepted, swap_peak, set_peak, record_admission_released,
}

-- The handler's fields that `connectUDPMu` guards, and its two limits.
pub record Limiter : Type 0 where
  pub max_active : ℤ
  pub max_client_active : ℤ
  pub active : ℕ
  pub by_client : List (Bytes × ℕ)
  pub next_id : ℕ

abbrev pub max_associations : ℕ
max_associations = 512

abbrev pub max_per_client : ℕ
max_per_client = 128

-- `if limit <= 0 { limit = default }`
unfoldable pub limit_or : ℤ → ℕ → ℕ
limit_or (pos zero) default = default
limit_or (pos (suc n)) default = suc n
limit_or (negsuc n) default = default

abbrev pub global_limit : Limiter → ℕ
global_limit l = limit_or l.max_active max_associations

abbrev pub client_limit : Limiter → ℕ
client_limit l = limit_or l.max_client_active max_per_client

pub data Acquired : Type 0 where
  -- The admission limit that refused.
  refused : Bytes → Acquired
  -- The new association's id, the number now active, and the handler.
  granted : ℕ → ℕ → Limiter → Acquired

-- The critical section of `acquireConnectUDP`.
unfoldable pub acquire : Limiter → Bytes → Acquired
acquire l client =
    if leb (global_limit l) l.active
    then refused (codes "global")
    else if leb (client_limit l) (count_at client l.by_client)
    then refused (codes "source")
    else granted ((l.next_id + 1) % 2 ^ 64) ((l.active + 1) % 2 ^ 64) (record l {
      active = l.active + 1;
      by_client = insert client (count_at client l.by_client + 1) l.by_client;
      next_id = (l.next_id + 1) % 2 ^ 64;
    })

-- `connectUDPByClient[client]--`, and the entry goes when it reaches 0.
unfoldable pub drop_client : Bytes → List (Bytes × ℕ) → List (Bytes × ℕ)
drop_client client m =
    let m' = insert client (count_at client m - 1) m in
    if count_at client m' == 0 then delete client m' else m'

-- The critical section of the release function.
unfoldable pub release_locked : Limiter → Bytes → Limiter
release_locked l client = record l {
  active = l.active - 1;
  by_client = drop_client client l.by_client;
}

-- The reason that a release records.
unfoldable pub close_reason : List Bytes → Bytes
close_reason [] = codes "request_end"
close_reason ([] ∷ rest) = codes "request_end"
close_reason (reason ∷ rest) = reason

-- Where a request stands: `admitted` has left the critical section, `counted` has added itself to
-- the gauges, `peaking` has won the swap of the peak value, `serving` has its release function,
-- `leaving` has recorded its end, and `closed` has given its place back.
pub data Phase : Type 0 where
  admitted counted peaking serving leaving closed : Phase

pub record Ticket : Type 0 where
  pub id : ℕ
  pub client : Bytes
  -- The number active that the critical section saw.
  pub seen : ℕ
  pub phase : Phase

pub record World : Type 0 where
  pub limiter : Limiter
  pub metrics : Metrics
  pub tickets : List Ticket

pub data Action : Type 0 where
  admit : Bytes → Action
  count swap publish : ℕ → Action
  -- A call of the release function, with its arguments and the time since the start.
  release : ℕ → List Bytes → ℕ → Action
  unlock : ℕ → Action

abbrev pub move : World → ℕ → Ticket → Phase → List Ticket
move w i t p = set w.tickets i (record t { phase = p })

unfoldable pub admit_step : World → Bytes → Acquired → World
admit_step w client (refused limit) = elim (record_admission limit (some w.metrics)) [
  | none ↦ w
  | some m ↦ record w { metrics = m }
]
admit_step w client (granted id active l) = record w {
  limiter = l;
  tickets = w.tickets ++ record { id = id; client = client; seen = active; phase = admitted } ∷ [];
}

swap_step : World → ℕ → Ticket → Metrics × Bool → World
swap_step w i t (m, true) = record w { metrics = m; tickets = move w i t peaking }
swap_step w i t (m, false) = record w { metrics = m; tickets = move w i t serving }

release_step : World → ℕ → Ticket → Bytes → ℕ → World
release_step w i t reason duration =
    elim (record_admission_released reason duration (some w.metrics)) [
      | none ↦ w
      | some m ↦ record w { metrics = m; tickets = move w i t leaving }
    ]

-- One step of ticket `i`. An action that the ticket's phase does not allow does nothing: in
-- particular only the first call of a release function acts (`sync.Once`).
unfoldable pub ticket_step : World → Action → ℕ → Ticket → Phase → World
unfolding swap_step release_step count_accepted swap_peak set_peak record_admission_released
ticket_step w (count _) i t admitted = record w {
  metrics = count_accepted w.metrics;
  tickets = move w i t counted;
}
ticket_step w (swap _) i t counted = swap_step w i t (swap_peak t.seen w.metrics)
ticket_step w (publish _) i t peaking = record w {
  metrics = set_peak t.seen w.metrics;
  tickets = move w i t serving;
}
ticket_step w (release _ reason duration) i t serving =
    release_step w i t (close_reason reason) duration
ticket_step w (unlock _) i t leaving = record w {
  limiter = release_locked w.limiter t.client;
  tickets = move w i t closed;
}
ticket_step w _ i t _ = w

abbrev pub at_ticket : World → Action → ℕ → World
at_ticket w a i = elim (get_elem? w.tickets i) [ none ↦ w | some t ↦ ticket_step w a i t t.phase ]

unfoldable pub step : World → Action → World
unfolding admit_step ticket_step
step w (admit client) = admit_step w client (acquire w.limiter client)
step w (count i) = at_ticket w (count i) i
step w (swap i) = at_ticket w (swap i) i
step w (publish i) = at_ticket w (publish i) i
step w (release i reason duration) = at_ticket w (release i reason duration) i
step w (unlock i) = at_ticket w (unlock i) i

unfoldable pub run : World → List Action → World
run w [] = w
run w (a ∷ rest) = run (step w a) rest

-- A handler as `Provision` leaves it, with nothing admitted yet.
abbrev pub idle : ℤ → ℤ → World
idle max_active max_client_active = record {
  limiter = record {
    max_active = max_active;
    max_client_active = max_client_active;
    active = 0;
    by_client = [];
    next_id = 0;
  };
  metrics = record {
    active = 0;
    active_peak = 0;
    active_peak_value = 0;
    associations = 0;
    admission_rejections = [];
    closures = [];
    duration = [];
  };
  tickets = [];
}
