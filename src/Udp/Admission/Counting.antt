-- ===== src/Udp/Admission/Counting.antt =====
-- The two critical sections against the number of live requests of each client.
use forwardproxy.Base.Dict.{lookup, insert, count_at, lookup-insert, lookup-delete}
use forwardproxy.Base.{
  ℕ, zero, suc, ◌+◌, ◌-◌, ◌<◌, ◌≡◌, Option, none, some, Bytes, equal, equal_iff, equal_refl, arith,
  if◌then◌else◌, List,
}
use forwardproxy.Udp.Admission.{Limiter, acquire, granted, drop_client, global_limit, client_limit}

-- A count as the map holds it: no entry stands for 0.
abbrev pub present : ℕ → Option ℕ
present zero = none
present (suc n) = some (suc n)

abbrev pub HasCounts : List (Bytes × ℕ) → (Bytes → ℕ) → Type 0
HasCounts m f = (c : Bytes) → lookup c m ≡ present (f c)

pub count_at-present :
    (m : List (Bytes × ℕ)) (c : Bytes) (n : ℕ) → lookup c m ≡ present n → count_at c m ≡ n
unfolding count_at
count_at-present m c zero e = ground arith
count_at-present m c (suc n) e = ground arith

pub count_at-insert : (k : Bytes) (v : ℕ) (m : List (Bytes × ℕ)) → count_at k (insert k v m) ≡ v
unfolding count_at
count_at-insert k v m = ground (arith, lookup-insert k k v m, equal_refl k)

abbrev pub bump_at : Bytes → (Bytes → ℕ) → Bytes → ℕ
bump_at client f c = if equal client c then f c + 1 else f c

abbrev pub drop_at : Bytes → (Bytes → ℕ) → Bytes → ℕ
drop_at client f c = if equal client c then f c - 1 else f c

pub insert-HasCounts :
    (client : Bytes) (m : List (Bytes × ℕ)) (f : Bytes → ℕ)
    → HasCounts m f
    → HasCounts (insert client (count_at client m + 1) m) (bump_at client f)
insert-HasCounts client m f h c = ground (
  arith,
  lookup-insert client c (count_at client m + 1) m,
  count_at-present m client (f client) (h client),
  equal_iff client c,
  h c,
)

pub drop_client-HasCounts :
    (client : Bytes) (m : List (Bytes × ℕ)) (f : Bytes → ℕ)
    → HasCounts m f
    → 0 < f client
    → HasCounts (drop_client client m) (drop_at client f)
unfolding drop_client
drop_client-HasCounts client m f h p c =
    rw
      (
        drop_client,
        count_at-insert client (count_at client m - 1) m,
        count_at-present m client (f client) (h client),
      )
      (ground (
        arith,
        lookup-delete client c (insert client (f client - 1) m),
        lookup-insert client c (f client - 1) m,
        equal_iff client c,
        h c,
      ))

-- What `acquire` does when it grants: both limits leave room, both counts go up by one.
pub acquire_granted :
    (l : Limiter) (client : Bytes) {id seen : ℕ} {l' : Limiter}
    → acquire l client ≡ granted id seen l'
    → (l.active < global_limit l)
      × (count_at client l.by_client < client_limit l)
      × (l'.active ≡ l.active + 1)
      × (l'.by_client ≡ insert client (count_at client l.by_client + 1) l.by_client)
      × (global_limit l' ≡ global_limit l)
      × (client_limit l' ≡ client_limit l)
unfolding acquire
acquire_granted l client e = ground arith
