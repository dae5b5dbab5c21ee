-- ===== src/Dial/Incremental/Tests.antt =====
-- A run of the race: two IPv4 answers, of which the list allows one; its dial gives connection 7.
use forwardproxy.Acl.{AclRule, all_rule, host_is_allowed, ip_rule, try_match}
use forwardproxy.Base.{
  if◌then◌else◌, ◌==◌, length, replicate, arith, ℕ, ◌+◌, true, false, List, [], ◌∷◌, none, some,
  codes, ◌≡◌, ◌↔◌, ◌⊎◌, refl,
}
use forwardproxy.Dial.Feed.{Feed, new_feed, Lookup, advance, answers, pulse, resolve}
use forwardproxy.Dial.Incremental.Order.{drain, drain-interleave_tcp_addresses_iff}
use forwardproxy.Dial.Interleave.Laws.{family_only, leading}
use forwardproxy.Dial.Incremental.Owners.{run-new_race-IsOver, winners}
use forwardproxy.Dial.Incremental.Spacing.{Spaced, run-new_race-Spaced}
use forwardproxy.Dial.Incremental.{
  Action, Race, checks, ends_dial, looks_up, new_race, passes, receives, run, step,
}
use forwardproxy.Dial.Interleave.{
  interleave_tcp_addresses, kept_family, parsed_family, ip_family, same_family, tcp, v4, v6,
  wrong_family,
}
use forwardproxy.Dial.Pool.Owners.{count}
use forwardproxy.Dial.Pool.{dial_ends, launch, take_result}
use forwardproxy.Policy.{member}
use forwardproxy.Std.Net.{IpText, contains_ip, split_host_port, to4}

abbrev raw_text : IpText
raw_text = record { parse_ip = λ s. none; parse_cidr = λ s. none; ip_string = λ ip. ip }

abbrev rules : List AclRule
rules =
    ip_rule (record { ip = 10 ∷ 0 ∷ 0 ∷ 0 ∷ []; mask = 255 ∷ 0 ∷ 0 ∷ 0 ∷ [] }) false
    ∷ all_rule true
    ∷ []

abbrev found : Lookup ℕ
found = answers ((10 ∷ 0 ∷ 0 ∷ 1 ∷ []) ∷ (11 ∷ 0 ∷ 0 ∷ 1 ∷ []) ∷ [])

abbrev actions : List (Action ℕ)
actions =
    looks_up v4 found
    ∷ checks 1
    ∷ passes 20
    ∷ ends_dial 0 (some 7) none none
    ∷ checks 0
    ∷ receives 0
    ∷ []

abbrev raced : Race ℕ
raced = run raw_text rules tcp (codes "good.com") (codes "80") 1 2 (new_race none) actions

run-new_race-Spaced_example : Spaced raced
run-new_race-Spaced_example =
    run-new_race-Spaced raw_text rules tcp (codes "good.com") (codes "80") 1 2 none actions

run-new_race-IsOver_example :
    count 7 raced.pool.opened ≡ count 7 raced.pool.closed + count 7 (winners raced.place)
unfolding run step advance resolve host_is_allowed try_match contains_ip same_family ip_family
    wrong_family member pulse dial_ends launch take_result
run-new_race-IsOver_example =
    run-new_race-IsOver raw_text rules tcp (codes "good.com") (codes "80") 1 2 none actions 7
      (refl, tt)

-- Any text of one byte is an IPv4 address, any other an IPv6 one.
abbrev short_text : IpText
short_text = record {
  parse_ip = λ s. if length s == 1 then some (1 ∷ 1 ∷ 1 ∷ 1 ∷ []) else some (replicate 16 1);
  parse_cidr = λ s. none;
  ip_string = λ ip. ip;
}

abbrev both : Feed ℕ
both = record new_feed {
  queue_v4 = codes "1:80" ∷ codes "2:80" ∷ [];
  queue_v6 = codes "[::1]:80" ∷ [];
}

drain-interleave_tcp_addresses_iff_example :
    (drain short_text 3 none both
      ≡ interleave_tcp_addresses short_text tcp
          (codes "[::1]:80" ∷ codes "1:80" ∷ codes "2:80" ∷ []))
    ↔ ((leading short_text tcp (codes "[::1]:80" ∷ codes "1:80" ∷ codes "2:80" ∷ []) ≡ some v6)
        ⊎ (family_only short_text tcp v6 (codes "[::1]:80" ∷ codes "1:80" ∷ codes "2:80" ∷ [])
            ≡ []))
unfolding family_only leading kept_family parsed_family split_host_port wrong_family same_family to4
drain-interleave_tcp_addresses_iff_example =
    drain-interleave_tcp_addresses_iff short_text tcp
      (codes "[::1]:80" ∷ codes "1:80" ∷ codes "2:80" ∷ []) both 3 refl refl (omega arith)
