-- ===== src/Std/Net.antt =====
-- Go's `net`: host-port strings, and IP addresses as the byte slices that they are. The text of an
-- address is read and written by the library, which the model takes as a parameter.
use Prim.Native.Nat.{bit_and}
use forwardproxy.Base.{
  ℕ, suc, Bool, true, false, ◌&&◌, ◌||◌, [], ◌∷◌, ◌++◌, Option, none, some, Bytes, equal, ◌==◌,
  if◌then◌else◌, length, drop, take, replicate,
}
use forwardproxy.Std.Strings.{index_byte, last_index_byte, has_byte}

pub data AddressError : Type 0 where
  missing_port too_many_colons missing_bracket unexpected_bracket : AddressError

pub data HostPort : Type 0 where
  host_port : Bytes → Bytes → HostPort
  bad_address : AddressError → HostPort

-- The checks behind the host: no `[` from `j` on and no `]` from `k` on.
after_host : Bytes → Bytes → ℕ → ℕ → ℕ → HostPort
after_host s host i j k =
    if has_byte b'[' (drop j s) || has_byte b']' (drop k s)
    then bad_address unexpected_bracket
    else host_port host (drop (suc i) s)

in_brackets : Bytes → ℕ → Option ℕ → HostPort
unfolding after_host
in_brackets s i none = bad_address missing_bracket
in_brackets s i (some end) =
    if suc end == length s
    then bad_address missing_port
    else if suc end == i
    then after_host s (drop 1 (take end s)) i 1 (suc end)
    else if has_byte b':' (take 1 (drop (suc end) s))
    then bad_address too_many_colons
    else bad_address missing_port

at_colon : Bytes → Option ℕ → HostPort
unfolding after_host in_brackets
at_colon s none = bad_address missing_port
at_colon s (some i) =
    if has_byte b'[' (take 1 s)
    then in_brackets s i (index_byte b']' s)
    else if has_byte b':' (take i s)
    then bad_address too_many_colons
    else after_host s (take i s) i 0 0

-- `net.SplitHostPort`
unfoldable pub split_host_port : Bytes → HostPort
unfolding at_colon has_byte index_byte last_index_byte
split_host_port s = at_colon s (last_index_byte b':' s)

-- `net.JoinHostPort`
unfoldable pub join_host_port : Bytes → Bytes → Bytes
unfolding has_byte
join_host_port host port =
    if has_byte b':' host then b'[' ∷ (host ++ (b']' ∷ b':' ∷ port)) else host ++ (b':' ∷ port)

-- `net.IP`: 4 or 16 bytes, or none for nil.
abbrev pub Ip : Type 0
Ip = Bytes

abbrev pub v4_in_v6_prefix : Bytes
v4_in_v6_prefix = replicate 10 0 ++ (255 ∷ 255 ∷ [])

-- `ip.To4()`, `none` for nil.
unfoldable pub to4 : Ip → Option Ip
unfolding equal
to4 ip =
    if length ip == 4
    then some ip
    else if length ip == 16 && equal (take 12 ip) v4_in_v6_prefix
    then some (drop 12 ip)
    else none

-- Whether `ip.To16()` is not nil.
abbrev pub has_to16 : Ip → Bool
has_to16 ip = length ip == 4 || length ip == 16

pub record IpNet : Type 0 where
  pub ip : Ip
  pub mask : Bytes

masked_mask : Ip → Bytes → Option (Ip × Bytes)
masked_mask ip mask =
    if length mask == 4
    then (if length ip == 4 then some (ip, mask) else none)
    else if length mask == 16
    then some (ip, if length ip == 4 then drop 12 mask else mask)
    else none

-- `networkNumberAndMask`, `none` for (nil, nil).
unfoldable pub network_number_and_mask : IpNet → Option (Ip × Bytes)
unfolding masked_mask
network_number_and_mask n = elim (to4 n.ip) [
  | some ip ↦ masked_mask ip n.mask
  | none ↦ if length n.ip == 16 then masked_mask n.ip n.mask else none
]

masked_equal : Ip → Bytes → Ip → Bool
masked_equal [] m [] = true
masked_equal (a ∷ as') (m ∷ ms) (b ∷ bs) = bit_and a m == bit_and b m && masked_equal as' ms bs
masked_equal _ _ _ = false

shorten : Ip → Option Ip → Ip
shorten ip none = ip
shorten ip (some x) = x

-- `n.Contains(ip)`
unfoldable pub contains_ip : IpNet → Ip → Bool
unfolding network_number_and_mask to4 masked_equal shorten
contains_ip n ip = elim (network_number_and_mask n) [
  | none ↦ length (shorten ip (to4 ip)) == 0
  | some (number, mask) ↦ masked_equal number mask (shorten ip (to4 ip))
]

-- The textual forms: `net.ParseIP`, `net.ParseCIDR` and `ip.String()`.
pub record IpText : Type 0 where
  pub parse_ip : Bytes → Option Ip
  pub parse_cidr : Bytes → Option IpNet
  pub ip_string : Ip → Bytes
