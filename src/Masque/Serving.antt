-- ===== src/Masque/Serving.antt =====
-- native_udp_association.go, `serveConnectUDP` and `dialConnectUDPTarget`, for one request with no
-- other in between. What the server's writer, the network and the association's own run give is an
-- argument.
pub mod Places
pub mod Replies
pub mod Lives
use forwardproxy.Base.{
  ℕ, Bool, true, false, List, [], ◌∷◌, Option, none, some, Bytes, codes, if◌then◌else◌, not,
}
use forwardproxy.Masque.Target.{
  Target, UrlRest, client_address_key, parse_connect_udp_target, redact_connect_udp_request,
}
use forwardproxy.Policy.{
  FailureKind, Resolved, ResolvedTarget, Rules, failed, resolve_target_check_acl, resolved,
  status_code,
}
use forwardproxy.Serve.Requests.{Request}
use forwardproxy.Std.Net.{Ip, IpText}
use forwardproxy.Udp.Admission.{
  Acquired, Limiter, acquire, close_reason, granted, refused, release_locked,
}

-- How an association's run ends: by the idle timer, by a cancelled context, or in another way.
pub data Ending : Type 0 where
  deadline_exceeded cancelled other_end : Ending

-- `connectUDPAssociationCloseReason`
unfoldable pub association_close_reason : Ending → Bytes
association_close_reason deadline_exceeded = codes "idle_expired"
association_close_reason cancelled = codes "canceled"
association_close_reason other_end = codes "closed"

-- What a call answers with: a status, the context's error, or 200 and then a tunnel, which has run
-- to its end unless the writer gave no stream.
pub data Reply : Type 0 where
  error_status : ℕ → Reply
  context_error : Reply
  no_stream : Reply
  ran : Bytes → Ending → Reply

pub record Outside : Type 0 where
  pub text : IpText
  pub to_ascii : Bytes → Option Bytes
  pub lookup : Bytes → Option (List Ip)
  -- Whether the response writer has the HTTP/3 interfaces.
  pub has_capabilities : Bool
  -- The peer's settings, `none` where the request ends before they come: whether datagrams are on.
  pub settings : Option Bool
  -- Whether a dial gives a connection and no error.
  pub dials : Bytes → Bool
  pub has_stream : Bool
  pub ending : Ending

-- The loop of `dialConnectUDPTarget`: the first address whose dial gives a connection.
unfoldable pub dial_connect_udp_target : (Bytes → Bool) → List Bytes → Option Bytes
dial_connect_udp_target dials [] = none
dial_connect_udp_target dials (a ∷ addresses) =
    let rest = dial_connect_udp_target dials addresses in if dials a then some a else rest

module _ (out : Outside) where
  on_dial : Option Bytes → Reply × Bytes
  unfolding association_close_reason
  on_dial none = (error_status 502, codes "setup_failed")
  on_dial (some address) =
      if out.has_stream
      then (ran address out.ending, association_close_reason out.ending)
      else (no_stream, codes "setup_failed")

  on_settings : List Bytes → Option Bool → Reply × Bytes
  unfolding on_dial
  on_settings addresses none = (context_error, codes "setup_failed")
  on_settings addresses (some false) = (error_status 501, codes "setup_failed")
  on_settings addresses (some true) = on_dial (dial_connect_udp_target out.dials addresses)

  on_resolved : Resolved → Reply × Bytes
  unfolding on_settings
  on_resolved (failed kind) = (error_status (status_code kind), codes "setup_failed")
  on_resolved (resolved t) =
      if out.has_capabilities
      then on_settings t.addresses out.settings
      else (error_status 501, codes "setup_failed")

  -- From the admission on, with the reason that the deferred release records.
  unfoldable pub admitted_udp : Rules → Target → Reply × Bytes
  unfolding on_resolved
  admitted_udp rules t =
      on_resolved (resolve_target_check_acl out.text out.lookup rules t.host_port)

  with_place : Rules → Target → Bytes → Limiter → Acquired → Reply × Limiter
  with_place rules t client l (refused limit) = (error_status 503, l)
  with_place rules t client l (granted id active l') =
      ((admitted_udp rules t).0, release_locked l' client)

  on_target : Rules → Bool → Bytes → Limiter → Option Target → Reply × Limiter
  unfolding with_place
  on_target rules has_upstream client l none = (error_status 400, l)
  on_target rules has_upstream client l (some t) =
      if has_upstream then (error_status 501, l) else with_place rules t client l (acquire l client)

  -- `serveConnectUDP`
  unfoldable pub serve_connect_udp :
      Rules → Bool → Request → Option UrlRest → Limiter → Reply × Limiter
  unfolding on_target
  serve_connect_udp rules has_upstream r u l =
      on_target rules has_upstream (client_address_key out.text r.remote_addr) l
        (parse_connect_udp_target out.text out.to_ascii r u)
