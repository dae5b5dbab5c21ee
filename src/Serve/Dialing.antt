-- ===== src/Serve/Dialing.antt =====
-- forwardproxy.go, `dialContextCheckACL`, and connect_dial.go, `tcpDialError`.
use forwardproxy.Base.{
  Bool, false, ◌||◌, not, Option, none, some, ℕ, Bytes, codes, equal, if◌then◌else◌,
}
use forwardproxy.Policy.{
  FailureKind, lookup_failed, Prepared, admitted, rejected, prepare_target_policy,
  legacy_target_policy_error,
}
use forwardproxy.Serve.Requests.{Handler}

-- What a dial through the upstream gives: a connection, an error, and the context's error; each
-- error with whether it is a timeout.
pub record UpstreamDial (C : Type 0) : Type 0 where
  pub conn : Option C
  pub failure : Option Bool
  pub context_error : Option Bool

-- What the race of the direct dial ends with. `policy_failure` carries whether a failed lookup's
-- cause is a timeout.
pub data Raced (C : Type 0) : Type 0 where
  wins : C → Raced C
  policy_failure : FailureKind → Bool → Raced C
  other_failure : Bool → Raced C

pub data Dialled (C : Type 0) : Type 0 where
  connected : C → Dialled C
  -- The status of the error.
  dial_error : ℕ → Dialled C

-- `tcpDialError`, by whether the error is a timeout.
unfoldable pub tcp_dial_error : Bool → ℕ
tcp_dial_error timed_out = if timed_out then 504 else 502

upstream_status : Option Bool → Option Bool → ℕ
unfolding tcp_dial_error
upstream_status _ (some timed_out) = tcp_dial_error timed_out
upstream_status (some timed_out) none = tcp_dial_error timed_out
upstream_status none none = tcp_dial_error false

is_tcp : Bytes → Bool
is_tcp network =
    equal network (codes "tcp") || equal network (codes "tcp4") || equal network (codes "tcp6")

module _ {C : Type 0} where
  settle : Option C → Option Bool → Option Bool → Dialled C
  unfolding upstream_status
  settle (some c) none none = connected c
  settle _ failure context_error = dial_error (upstream_status failure context_error)

  -- A connection that comes with an error is closed, and not returned.
  unfoldable pub through_upstream : UpstreamDial C → Dialled C
  unfolding settle
  through_upstream d = settle d.conn d.failure d.context_error

  unfoldable pub raced : Raced C → Dialled C
  unfolding tcp_dial_error legacy_target_policy_error
  raced (wins c) = connected c
  raced (policy_failure lookup_failed timed_out) = dial_error (tcp_dial_error timed_out)
  raced (policy_failure kind _) = dial_error (legacy_target_policy_error kind)
  raced (other_failure timed_out) = dial_error (tcp_dial_error timed_out)

  unfoldable pub dial_prepared : (Bytes → Bytes → Bytes → Raced C) → Bytes → Prepared → Dialled C
  unfolding raced
  dial_prepared race network (rejected kind) = dial_error (legacy_target_policy_error kind)
  dial_prepared race network (admitted host port) = raced (race network host port)

  -- `dialContextCheckACL`, with the handler's `dialContext` and `dialTCPIncremental` as arguments.
  unfoldable pub dial_context_check_acl :
      (Bytes → Bytes → UpstreamDial C)
      → (Bytes → Bytes → Bytes → Raced C)
      → Handler
      → Bytes
      → Bytes
      → Dialled C
  unfolding dial_prepared is_tcp through_upstream
  dial_context_check_acl upstream race h network host_port =
      if not (is_tcp network) then dial_error 400 else elim h.upstream [
        | some _ ↦ through_upstream (upstream network host_port)
        | none ↦ dial_prepared race network (prepare_target_policy h.rules host_port)
      ]
