-- ===== src/Serve/Racing.antt =====
-- forwardproxy.go, `dialContextCheckACL`, over connect_dial_incremental.go, `dialTCPIncremental`: the
-- direct dial of a request as a run of the race. `E` is the type of the errors.
mod Tests
use forwardproxy.Base.{
  ℕ, zero, suc, ◌+◌, ◌<◌, Bool, true, false, List, [], ◌∷◌, Option, none, some, Bytes, codes, ◌≡◌,
  refl, sym, ◌∙◌, ap, arith, All, ◌==◌, if◌then◌else◌,
}
use forwardproxy.Base.Sums.{sum_by}
use forwardproxy.Dial.Feed.{
  FinalError, dial_failed, last_dial, lookup_failed as no_lookup,
  no_allowed_address as none_allowed,
}
use forwardproxy.Dial.Incremental.Owners.{winners, run-new_race-IsOwned}
use forwardproxy.Dial.Incremental.Starts.{IsDialable, run-new_race-StartsAllowed}
use forwardproxy.Dial.Incremental.{
  Action, Ended, Place, Race, context_ended, gave_up, new_race, returned, run, won,
}
use forwardproxy.Dial.Interleave.{tcp}
use forwardproxy.Dial.Pool.Owners.{count, holds}
use forwardproxy.Policy.{
  FailureKind, lookup_failed, no_allowed_address, admitted, prepare_target_policy,
}
use forwardproxy.Serve.Dialing.{Raced, wins, policy_failure, other_failure}
use forwardproxy.Serve.Headers.{Header}
use forwardproxy.Serve.Requests.{Handler, Request}
use forwardproxy.Serve.Rewriting.{or_else}
use forwardproxy.Serve.Routing.Dials.{connection_of, serve_http-admitted}
use forwardproxy.Serve.Routing.{Outside, serve_http}
use forwardproxy.Std.Net.{IpText}

-- What the ends of `dialTCPIncremental` are to its caller. `times_out` is the test of `tcpDialError`;
-- the errors of the dials and of the context are no `targetPolicyFailure`.
unfoldable pub race_result : {E : Type 0} → (E → Bool) → Ended E → Raced ℕ
race_result times_out (won c) = wins c
race_result times_out (gave_up dial_failed) = other_failure false
race_result times_out (gave_up (last_dial e)) = other_failure (times_out e)
race_result times_out (gave_up (no_lookup e)) = policy_failure lookup_failed (times_out e)
race_result times_out (gave_up none_allowed) = policy_failure no_allowed_address false
race_result times_out (context_ended e) = other_failure (times_out e)

race_result-wins :
    {E : Type 0} (times_out : E → Bool) (x : Ended E) (c : ℕ)
    → race_result times_out x ≡ wins c
    → x ≡ won c
unfolding race_result
race_result-wins times_out x c e = ground arith

self_count : (c : ℕ) → count c (c ∷ []) ≡ 1
self_count c = ground arith

won_counts : {E : Type 0} (c : ℕ) (p : Place E) → p ≡ returned (won c) → count c (winners p) ≡ 1
won_counts c p e = rw e (self_count c)

module _ {E : Type 0} (text : IpText) (unconnected canceled : E) (out : Outside ℕ)
    (h : Handler) where
  -- The race for a host and a port, as far as these actions bring it.
  abbrev pub race_for : Bytes → Bytes → Option E → List (Action E) → Race E
  race_for host port c actions =
      run text h.rules.acl_rules tcp host port unconnected canceled (new_race c) actions

  -- Every direct dial is a run of the race that has returned.
  pub record RunsRaces (times_out : E → Bool) : Type 0 where
    pub context_error : Bytes → Bytes → Option E
    pub actions : Bytes → Bytes → List (Action E)
    pub ends_with : Bytes → Bytes → Ended E
    pub returns :
        (host port : Bytes)
        → (race_for host port (context_error host port) (actions host port)).place
          ≡ returned (ends_with host port)
    pub gives :
        (host port : Bytes)
        → out.race (codes "tcp") host port ≡ race_result times_out (ends_with host port)

  abbrev pub race_of : {times_out : E → Bool} → RunsRaces times_out → Bytes → Bytes → Race E
  race_of races host port =
      race_for host port (races.context_error host port) (races.actions host port)

  won_open :
      (host port : Bytes) (c : ℕ) (e : Option E) (actions : List (Action E))
      → (race_for host port e actions).place ≡ returned (won c)
      → count c (race_for host port e actions).pool.closed
        < count c (race_for host port e actions).pool.opened
  won_open host port c e actions ends =
      let r = race_for host port e actions in
      let owned =
        run-new_race-IsOwned text h.rules.acl_rules tcp host port unconnected canceled e actions in
      omega (arith, owned.owned c, won_counts c r.place ends)

  -- With no upstream and the race as the direct dial: every tunnel that `ServeHTTP` opens is over a
  -- connection with which the race for the request's own target returned. The target passed the port
  -- policy and the hostname rules; every address that this race dialled is an IP that the whole access
  -- list allows for the target's host, joined with its port; and the connection is still open, being
  -- one that the race's dials gave more often than it was closed.
  pub serve_http-tunnels :
      (times_out : E → Bool) (r : Request) (w : Header) (c : ℕ) (races : RunsRaces times_out)
      → h.upstream ≡ none
      → connection_of (serve_http out h r w) ≡ some c
      → (host port : Bytes) × (prepare_target_policy h.rules (or_else r.url_host r.host)
          ≡ admitted host port)
        × ((race_of races host port).place ≡ returned (won c))
        × All (IsDialable text h.rules.acl_rules tcp host port) (race_of races host port).starts
        × (count c (race_of races host port).pool.closed
            < count c (race_of races host port).pool.opened)
  serve_http-tunnels times_out r w c races direct e =
      let (host, port, prepared, raced) = serve_http-admitted out h r w c direct e in
      let ended =
        races.returns host port
        ∙ ap returned (
            race_result-wins times_out (races.ends_with host port) c
              (sym (races.gives host port) ∙ raced)) in
      (
        host,
        port,
        prepared,
        ended,
        (run-new_race-StartsAllowed text h.rules.acl_rules tcp host port unconnected canceled
            (races.context_error host port) (races.actions host port)).dialled,
        won_open host port c _ _ ended,
      )
