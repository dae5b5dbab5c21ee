-- ===== src/Upstream/Client/Tests.antt =====
-- Runs of the client: a proxy over HTTP/1 that answers 200, and one over HTTP/2 whose requests fail.
use forwardproxy.Base.{ℕ, true, [], ◌∷◌, Option, none, some, Bytes, codes, ◌≡◌, ◌⊎◌, refl, equal}
use forwardproxy.Upstream.Client.Outcomes.{dial_context-loses_error}
use forwardproxy.Upstream.Client.Settled.{Redialled, Reused, dial_context-IsSettled}
use forwardproxy.Upstream.Client.{
  Dialer, Network, dial_by_scheme, dial_context, dialled, fails, status,
}

abbrev network : Bytes → Network ℕ
network protocol = record {
  dial_proxy = λ u. dialled 7 [];
  dial_tls = none;
  tls_dial = λ u. dialled 7 protocol;
  handshake = λ raw. none;
  can_take_new_request = λ client. true;
  round_trip = λ client address header. fails 13;
  write_request = λ raw address header. none;
  read_response = λ raw. status 200;
  new_client_conn = λ raw. (1, none);
  close = λ raw closed. none;
}

abbrev dialer : Option (ℕ × ℕ) → Dialer
dialer cached = record {
  proxy_url = record { scheme = codes "https"; host = codes "proxy:443"; user = none };
  default_header = [];
  enable_h2_conn_reuse = true;
  cached = cached;
}

dial_context-IsSettled_example :
    Reused (network []) (dialer (some (3, 1))) none (codes "good.com:80")
    ⊎ Redialled (network []) (dialer (some (3, 1))) none (codes "good.com:80") 7
unfolding dial_by_scheme equal
dial_context-IsSettled_example =
    dial_context-IsSettled (network []) (dialer (some (3, 1))) none (codes "good.com:80") 7 [] refl

dial_context-loses_error_example :
    dial_context (network (codes "h2")) (dialer none) none (codes "good.com:80")
    ≡ record { conn = none; err = none; cached = some (7, 1); closed = 7 ∷ [] }
unfolding dial_by_scheme equal
dial_context-loses_error_example =
    dial_context-loses_error (network (codes "h2")) (dialer none) none (codes "good.com:80") 7 1 13
      refl refl refl refl refl refl
