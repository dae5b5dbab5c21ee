-- ===== src/Masque/Serving/Replies.antt =====
-- What `serveConnectUDP` answers to a target that it understands.
use forwardproxy.Base.{ℕ, ◌≡◌, refl, false, Option, some}
use forwardproxy.Masque.Serving.{Outside, admitted_udp, on_target, serve_connect_udp, with_place}
use forwardproxy.Masque.Target.{Target, UrlRest, client_address_key, parse_connect_udp_target}
use forwardproxy.Policy.{Rules}
use forwardproxy.Serve.Requests.{Request}
use forwardproxy.Udp.Admission.{Limiter, acquire, granted}

pub serve_connect_udp-granted :
    (out : Outside) (rules : Rules) (r : Request) (u : Option UrlRest) (l l' : Limiter) (t : Target)
    (id active : ℕ)
    → parse_connect_udp_target out.text out.to_ascii r u ≡ some t
    → acquire l (client_address_key out.text r.remote_addr) ≡ granted id active l'
    → (serve_connect_udp out rules false r u l).0 ≡ (admitted_udp out rules t).0
unfolding serve_connect_udp on_target with_place
serve_connect_udp-granted out rules r u l l' t id active parsed place = rw (parsed) (rw place refl)
