-- ===== src/Dial/Addresses/Tests.antt =====
-- A call with two addresses: the first dial fails, the second gives connection 7.
use forwardproxy.Base.{
  ℕ, List, [], ◌∷◌, none, some, Bytes, codes, if◌then◌else◌, length, ◌==◌, replicate,
}
use forwardproxy.Dial.Addresses.Outcomes.{dial_tcp_addresses-IsSound}
use forwardproxy.Dial.Addresses.Soundness.{IsSound}
use forwardproxy.Dial.Addresses.{Action, dial_tcp_addresses, ends_dial, fires, passes, receives}
use forwardproxy.Dial.Interleave.{interleave_tcp_addresses, tcp}
use forwardproxy.Std.Net.{IpText}

abbrev short_text : IpText
short_text = record {
  parse_ip = λ s. some (if length s == 1 then 1 ∷ 1 ∷ 1 ∷ 1 ∷ [] else replicate 16 1);
  parse_cidr = λ s. none;
  ip_string = λ ip. ip;
}

abbrev addresses : List Bytes
addresses = codes "1:80" ∷ codes "[::1]:80" ∷ []

abbrev actions : List (Action ℕ)
actions =
    ends_dial 0 none (some 13) none
    ∷ receives 0
    ∷ passes 100
    ∷ fires 0
    ∷ ends_dial 1 (some 7) none none
    ∷ receives 1
    ∷ []

dial_tcp_addresses-IsSound_example :
    IsSound
      (interleave_tcp_addresses short_text tcp addresses)
      (dial_tcp_addresses 1 2 short_text tcp none addresses actions)
dial_tcp_addresses-IsSound_example =
    dial_tcp_addresses-IsSound short_text tcp 1 2 none addresses actions
