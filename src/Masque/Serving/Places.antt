-- ===== src/Masque/Serving/Places.antt =====
-- What a request for an association leaves behind, and what it dials.
use forwardproxy.Base.{
  ℕ, ◌<◌, Bool, true, false, Option, none, some, Bytes, ◌≡◌, refl, sym, ap, ◌∙◌, arith, equal_refl,
}
use forwardproxy.Base.Dict.{lookup}
use forwardproxy.Masque.Serving.{Outside, serve_connect_udp, on_target, with_place}
use forwardproxy.Masque.Target.{Target, UrlRest, client_address_key, parse_connect_udp_target}
use forwardproxy.Policy.{Rules}
use forwardproxy.Serve.Requests.{Request}
use forwardproxy.Udp.Admission.Counting.{
  HasCounts, acquire_granted, bump_at, drop_at, drop_client-HasCounts, insert-HasCounts, present,
}
use forwardproxy.Udp.Admission.{Acquired, Limiter, acquire, granted, refused, release_locked}

-- The number active and every client's entry are what they were.
pub record SamePlaces (l l' : Limiter) : Type 0 where
  pub same_active : l'.active ≡ l.active
  pub same_clients : (c : Bytes) → lookup c l'.by_client ≡ lookup c l.by_client

drop_bump : (client c : Bytes) (f : Bytes → ℕ) → drop_at client (bump_at client f) c ≡ f c
drop_bump client c f = ground arith

bump_positive : (client : Bytes) (f : Bytes → ℕ) → 0 < bump_at client f client
bump_positive client f = ground (arith, equal_refl client)

module _ (out : Outside) (rules : Rules) where
  granted-SamePlaces :
      (l l' : Limiter) (client : Bytes) (f : Bytes → ℕ) (id active : ℕ)
      → HasCounts l.by_client f
      → acquire l client ≡ granted id active l'
      → SamePlaces l (release_locked l' client)
  unfolding release_locked
  granted-SamePlaces l l' client f id active h e =
      let (_, _, up, entry, _, _) = acquire_granted l client e in
      record {
        same_active = omega (arith, up);
        same_clients = λ c.
            rw entry (
              drop_client-HasCounts client _ (bump_at client f)
                (insert-HasCounts client l.by_client f h) (bump_positive client f) c)
            ∙ ap present (drop_bump client c f)
            ∙ sym (h c);
      }

  with_place-SamePlaces :
      (l : Limiter) (t : Target) (client : Bytes) (f : Bytes → ℕ) (a : Acquired)
      → HasCounts l.by_client f
      → acquire l client ≡ a
      → SamePlaces l (with_place out rules t client l a).1
  unfolding with_place
  with_place-SamePlaces l t client f (refused limit) h e = record {
    same_active = refl;
    same_clients = λ c. refl;
  }
  with_place-SamePlaces l t client f (granted id active l') h e =
      granted-SamePlaces l l' client f id active h e

  on_target-SamePlaces :
      (has_upstream : Bool) (l : Limiter) (client : Bytes) (f : Bytes → ℕ) (t : Option Target)
      → HasCounts l.by_client f
      → SamePlaces l (on_target out rules has_upstream client l t).1
  unfolding on_target
  on_target-SamePlaces up l client f none h = record {
    same_active = refl;
    same_clients = λ c. refl;
  }
  on_target-SamePlaces true l client f (some t) h = record {
    same_active = refl;
    same_clients = λ c. refl;
  }
  on_target-SamePlaces false l client f (some t) h =
      with_place-SamePlaces l t client f (acquire l client) h refl

  -- However a call of `serveConnectUDP` ends, by a malformed request, a refused place, a denied
  -- target, missing HTTP/3 support, a failed dial or the association's own end, it has given back the
  -- place that it took: the number active and every client's entry are what they were before. The map
  -- is taken to hold no zero entries.
  pub serve_connect_udp-SamePlaces :
      (has_upstream : Bool) (r : Request) (u : Option UrlRest) (l : Limiter) (f : Bytes → ℕ)
      → HasCounts l.by_client f
      → SamePlaces l (serve_connect_udp out rules has_upstream r u l).1
  unfolding serve_connect_udp
  serve_connect_udp-SamePlaces up r u l f h =
      on_target-SamePlaces up l (client_address_key out.text r.remote_addr) f
        (parse_connect_udp_target out.text out.to_ascii r u) h
