-- ===== src/Dial/Interleave.antt =====
-- connect_dial.go, `interleaveTCPAddresses`.
pub mod Laws
use forwardproxy.Base.{
  ℕ, Bool, true, false, not, ◌&&◌, ◌||◌, List, [], ◌∷◌, ◌++◌, Option, none, some, Bytes,
  if◌then◌else◌,
}
use forwardproxy.Std.Net.{Ip, IpText, host_port, bad_address, split_host_port, to4}

pub data Network : Type 0 where
  tcp tcp4 tcp6 : Network

pub data Family : Type 0 where
  v4 v6 : Family

unfoldable pub same_family : Family → Family → Bool
same_family v4 v4 = true
same_family v6 v6 = true
same_family _ _ = false

-- `ip.To4() != nil`
unfoldable pub ip_family : Ip → Family
ip_family ip = elim (to4 ip) [ some _ ↦ v4 | none ↦ v6 ]

-- Whether a `tcp4` or `tcp6` dial leaves this family out.
unfoldable pub wrong_family : Network → Family → Bool
wrong_family tcp4 v6 = true
wrong_family tcp6 v4 = true
wrong_family _ _ = false

unfoldable pub parsed_family : IpText → Bytes → Option Family
unfolding ip_family
parsed_family text address = elim (split_host_port address) [
  | bad_address _ ↦ none
  | host_port host _ ↦ elim (text.parse_ip host) [ none ↦ none | some ip ↦ some (ip_family ip) ]
]

-- The family of an address that the loop keeps.
unfoldable pub kept_family : IpText → Network → Bytes → Option Family
unfolding parsed_family
kept_family text network address = elim (parsed_family text address) [
  | none ↦ none
  | some f ↦ if wrong_family network f then none else some f
]

-- The loop's variables; `primary_family` is what was read when `primary` was last empty.
pub record Sorted : Type 0 where
  pub primary : List Bytes
  pub fallback : List Bytes
  pub primary_family : Family

put_address : Family → Bytes → Sorted → Sorted
put_address f address s =
    if same_family f s.primary_family
    then record s { primary = s.primary ++ address ∷ [] }
    else record s { fallback = s.fallback ++ address ∷ [] }

first_family : Family → List Bytes → Family → Family
first_family f [] old = f
first_family f (a ∷ primary) old = old

sort_address : Bytes → Option Family → Sorted → Sorted
unfolding put_address first_family
sort_address address none s = s
sort_address address (some f) s =
    put_address f address (record s { primary_family = first_family f s.primary s.primary_family })

unfoldable pub sort_addresses : IpText → Network → List Bytes → Sorted → Sorted
unfolding sort_address
sort_addresses text network [] s = s
sort_addresses text network (a ∷ addresses) s =
    sort_addresses text network addresses (sort_address a (kept_family text network a) s)

-- The second loop: one address of each list in turn, while there is one.
unfoldable pub alternate : List Bytes → List Bytes → List Bytes
alternate [] [] = []
alternate (p ∷ primary) [] = p ∷ alternate primary []
alternate [] (f ∷ fallback) = f ∷ alternate [] fallback
alternate (p ∷ primary) (f ∷ fallback) = p ∷ f ∷ alternate primary fallback

abbrev pub unsorted : Sorted
unsorted = record { primary = []; fallback = []; primary_family = v6 }

unfoldable pub interleave_tcp_addresses : IpText → Network → List Bytes → List Bytes
unfolding sort_addresses alternate
interleave_tcp_addresses text network addresses =
    let s = sort_addresses text network addresses unsorted in alternate s.primary s.fallback
