-- ===== src/Dial/Feed.antt =====
-- connect_dial_incremental.go, `tcpFamilyFeed`: the candidates of each family that the dial race may
-- still start. The methods run under the feed's mutex, so each is one step. `C` is the type of the
-- errors that lookups and dials return.
pub mod Allowed
pub mod Pops
use forwardproxy.Acl.{AclRule, host_is_allowed}
use forwardproxy.Base.{
  ℕ, zero, suc, ◌+◌, Bool, true, false, not, ◌&&◌, List, [], ◌∷◌, ◌++◌, Option, none, some, Bytes,
  if◌then◌else◌, ◌==◌, length,
}
use forwardproxy.Dial.Interleave.{Network, Family, v4, v6, ip_family, same_family, wrong_family}
use forwardproxy.Policy.{member}
use forwardproxy.Std.Net.{Ip, IpText, join_host_port}

pub record Feed (C : Type 0) : Type 0 where
  pub queue_v4 : List Bytes
  pub queue_v6 : List Bytes
  -- The keys of the `seen` map.
  pub seen : List Bytes
  pub closed : Bool
  -- Whether the one-place wake channel is full.
  pub wake : Bool
  pub err_v4 : Option C
  pub err_v6 : Option C
  pub passed_acl : ℕ

-- What `advance` returns: a candidate, or whether the feed is closed and empty.
pub data Advanced (C : Type 0) : Type 0 where
  candidate : Bytes → Feed C → Advanced C
  idle : Bool → Bool → Advanced C

-- What the resolver returns for one family.
pub data Lookup (C : Type 0) : Type 0 where
  answers : List Ip → Lookup C
  fails : C → Lookup C

abbrev pub is_empty : List Bytes → Bool
is_empty [] = true
is_empty (a ∷ rest) = false

-- What the race ends with when nothing is left to dial.
pub data FinalError (C : Type 0) : Type 0 where
  dial_failed : FinalError C
  last_dial : C → FinalError C
  lookup_failed : C → FinalError C
  no_allowed_address : FinalError C

module _ {C : Type 0} where
  abbrev pub new_feed : Feed C
  new_feed = record {
    queue_v4 = [];
    queue_v6 = [];
    seen = [];
    closed = false;
    wake = false;
    err_v4 = none;
    err_v6 = none;
    passed_acl = 0;
  }

  unfoldable pub pulse : Feed C → Feed C
  pulse f = record f { wake = true }

  pop_v6 : Feed C → List Bytes → Option (Bytes × Feed C)
  pop_v6 f [] = none
  pop_v6 f (a ∷ rest) = some (a, record f { queue_v6 = rest })

  pop_v4 : Feed C → List Bytes → Option (Bytes × Feed C)
  pop_v4 f [] = none
  pop_v4 f (a ∷ rest) = some (a, record f { queue_v4 = rest })

  -- Whether the next candidate is an IPv6 one; `none` is `lastFamily == 0`.
  unfoldable pub take_v6 : Feed C → Option Family → Bool
  take_v6 f none = not (is_empty f.queue_v6)
  take_v6 f (some v4) = not (is_empty f.queue_v6)
  take_v6 f (some v6) = is_empty f.queue_v4

  -- `popLocked`
  unfoldable pub pop_locked : Option Family → Feed C → Option (Bytes × Feed C)
  unfolding pop_v4 pop_v6 take_v6
  pop_locked last f =
      if is_empty f.queue_v4 && is_empty f.queue_v6
      then none
      else if take_v6 f last
      then pop_v6 f f.queue_v6
      else pop_v4 f f.queue_v4

  -- `advance`
  unfoldable pub advance : Bool → Option Family → Feed C → Advanced C
  unfolding pop_locked
  advance due last f =
      let empty = is_empty f.queue_v4 && is_empty f.queue_v6 in
      if due && not empty
      then elim (pop_locked last f) [ some (a, f') ↦ candidate a f' | none ↦ idle f.closed empty ]
      else idle f.closed empty

  both_failed : ℕ → Option C → Option C → FinalError C
  both_failed passed (some e) (some e') = lookup_failed e
  both_failed zero _ _ = no_allowed_address
  both_failed (suc n) _ _ = dial_failed

  -- `finalError`
  unfoldable pub final_error : Feed C → ℕ → Option C → FinalError C
  unfolding both_failed
  final_error f zero last_err = both_failed f.passed_acl f.err_v4 f.err_v6
  final_error f (suc started) none = dial_failed
  final_error f (suc started) (some e) = last_dial e

  module _ (text : IpText) (rules : List AclRule) (network : Network) (host port : Bytes) where
    enqueue : Family → Bytes → Feed C → Feed C
    enqueue v4 a f = record f { queue_v4 = f.queue_v4 ++ a ∷ []; seen = a ∷ f.seen }
    enqueue v6 a f = record f { queue_v6 = f.queue_v6 ++ a ∷ []; seen = a ∷ f.seen }

    -- One answer of the resolver for `family`, with whether anything has been added before.
    unfoldable pub admit_answer : Family → Ip → Feed C × Bool → Feed C × Bool
    unfolding enqueue
    admit_answer family ip (f, added) =
        let address = join_host_port (text.ip_string ip) port in
        let passed = record f { passed_acl = f.passed_acl + 1 } in
        if length ip == 0
        then (f, added)
        else if not (host_is_allowed rules host ip)
        then (f, added)
        else if not (same_family (ip_family ip) family)
        then (passed, added)
        else if wrong_family network (ip_family ip)
        then (passed, added)
        else if member address f.seen
        then (passed, added)
        else (enqueue family address passed, true)

    unfoldable pub admit_answers : Family → List Ip → Feed C × Bool → Feed C × Bool
    unfolding admit_answer
    admit_answers family [] r = r
    admit_answers family (ip ∷ ips) r = admit_answers family ips (admit_answer family ip r)

    fail_family : Family → C → Feed C → Feed C
    fail_family v4 e f = record f { err_v4 = some e }
    fail_family v6 e f = record f { err_v6 = some e }

    -- The goroutine of one family, from the lookup's return on.
    unfoldable pub resolve : Family → Lookup C → Feed C → Feed C
    unfolding admit_answers fail_family
    resolve family (fails e) f = fail_family family e f
    resolve family (answers ips) f =
        let (f', added) = admit_answers family ips (f, false) in if added then pulse f' else f'

  -- After both families: `closed` is set, and the race is woken.
  unfoldable pub close_feed : Feed C → Feed C
  close_feed f = record f { closed = true; wake = true }
