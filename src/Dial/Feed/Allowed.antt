-- ===== src/Dial/Feed/Allowed.antt =====
-- What the feed may hand to the race.
use forwardproxy.Acl.{AclRule, host_is_allowed}
use forwardproxy.Base.{
  ◌+◌, Bool, true, false, List, [], ◌∷◌, Bytes, ◌≡◌, inl, inr, refl, All, All-append, Bool-cases,
  if◌then◌else◌, length, ◌==◌,
}
use forwardproxy.Dial.Feed.{
  Feed, Lookup, admit_answer, admit_answers, answers, enqueue, fail_family, fails, pulse, resolve,
}
use forwardproxy.Dial.Interleave.{Family, Network, ip_family, same_family, v4, v6, wrong_family}
use forwardproxy.Policy.{member}
use forwardproxy.Std.Net.{Ip, IpText, join_host_port}

module _ (text : IpText) (rules : List AclRule) (network : Network) (host port : Bytes) where
  -- An address of the family that the whole access list allows and the network's name permits.
  pub record IsAllowed (family : Family) (address : Bytes) : Type 0 where
    pub ip : Ip
    pub allowed : host_is_allowed rules host ip ≡ true
    pub family_is : same_family (ip_family ip) family ≡ true
    pub fits_network : wrong_family network (ip_family ip) ≡ false
    pub address_is : address ≡ join_host_port (text.ip_string ip) port

  pub record OnlyAllowed {C : Type 0} (f : Feed C) : Type 0 where
    pub in_v4 : All (λ a. IsAllowed v4 a) f.queue_v4
    pub in_v6 : All (λ a. IsAllowed v6 a) f.queue_v6

  module _ {C : Type 0} where
    enqueue-OnlyAllowed :
        (family : Family) (a : Bytes) (f : Feed C)
        → IsAllowed family a
        → OnlyAllowed f
        → OnlyAllowed (enqueue text rules network host port family a f)
    unfolding enqueue
    enqueue-OnlyAllowed v4 a f h v = record {
      in_v4 = All-append _ f.queue_v4 (a ∷ []) v.in_v4 (h, tt);
      in_v6 = v.in_v6;
    }
    enqueue-OnlyAllowed v6 a f h v = record {
      in_v4 = v.in_v4;
      in_v6 = All-append _ f.queue_v6 (a ∷ []) v.in_v6 (h, tt);
    }

    admit_answer-OnlyAllowed :
        (family : Family) (ip : Ip) (f : Feed C) (added : Bool)
        → OnlyAllowed f
        → OnlyAllowed (admit_answer text rules network host port family ip (f, added)).0
    unfolding admit_answer
    admit_answer-OnlyAllowed family ip f added v = elim (Bool-cases (length ip == 0)) [
      | inl h ↦ rw h v
      | inr h1 ↦ elim (Bool-cases (host_is_allowed rules host ip)) [
        | inr h ↦ rw (h1, h) v
        | inl h2 ↦ elim (Bool-cases (same_family (ip_family ip) family)) [
          | inr h ↦ rw (h1, h2, h) (passed v)
          | inl h3 ↦ elim (Bool-cases (wrong_family network (ip_family ip))) [
            | inl h ↦ rw (h1, h2, h3, h) (passed v)
            | inr h4 ↦ elim (Bool-cases (member (join_host_port (text.ip_string ip) port) f.seen)) [
              | inl h ↦ rw (h1, h2, h3, h4, h) (passed v)
              | inr h5 ↦
                  rw (h1, h2, h3, h4, h5)
                    (enqueue-OnlyAllowed family (join_host_port (text.ip_string ip) port) _
                      (record {
                        ip = ip;
                        allowed = h2;
                        family_is = h3;
                        fits_network = h4;
                        address_is = refl;
                      })
                      (passed v))
            ]
          ]
        ]
      ]
    ]
      where
        passed : OnlyAllowed f → OnlyAllowed (record f { passed_acl = f.passed_acl + 1 })
        passed v = record { in_v4 = v.in_v4; in_v6 = v.in_v6 }

    admit_answers-OnlyAllowed :
        (family : Family) (ips : List Ip) (r : Feed C × Bool)
        → OnlyAllowed r.0
        → OnlyAllowed (admit_answers text rules network host port family ips r).0
    unfolding admit_answers
    admit_answers-OnlyAllowed family [] r v = v
    admit_answers-OnlyAllowed family (ip ∷ ips) (f, added) v =
        admit_answers-OnlyAllowed family ips _ (admit_answer-OnlyAllowed family ip f added v)

    pulsed :
        (added : Bool) (f : Feed C) → OnlyAllowed f → OnlyAllowed (if added then pulse f else f)
    unfolding pulse
    pulsed true f v = record { in_v4 = v.in_v4; in_v6 = v.in_v6 }
    pulsed false f v = v

    -- Whatever a lookup returns for a family, the feed then still queues only addresses that the whole
    -- access list allows for this host, that are of their queue's family, and that fit a `tcp4` or
    -- `tcp6` dial.
    pub resolve-OnlyAllowed :
        (family : Family) (found : Lookup C) (f : Feed C)
        → OnlyAllowed f
        → OnlyAllowed (resolve text rules network host port family found f)
    unfolding resolve fail_family
    resolve-OnlyAllowed v4 (fails e) f v = record { in_v4 = v.in_v4; in_v6 = v.in_v6 }
    resolve-OnlyAllowed v6 (fails e) f v = record { in_v4 = v.in_v4; in_v6 = v.in_v6 }
    resolve-OnlyAllowed family (answers ips) f v =
        pulsed _ _ (admit_answers-OnlyAllowed family ips (f, false) v)
