-- ===== src/Interop/Dns.antt =====
-- cmd/m4-rfc9298-client/main.go: the name server of `startDNSFixture`, and the query and the check of
-- `runMatrix`.
use forwardproxy.Base.{
  ℕ, ◌+◌, Bool, false, ◌&&◌, [], ◌∷◌, Option, none, some, Bytes, leb, ltb, ◌==◌, if◌then◌else◌,
  length, take,
}

-- `b | 0x80` on a byte.
abbrev pub with_high_bit : ℕ → ℕ
with_high_bit b = if leb 128 b then b else b + 128

-- The header's flags, and no answer records.
unfoldable pub answered_header : Bytes → Bytes
answered_header (a ∷ b ∷ c ∷ d ∷ e ∷ f ∷ g ∷ h ∷ rest) =
    a ∷ b ∷ with_high_bit c ∷ with_high_bit d ∷ e ∷ f ∷ 0 ∷ 0 ∷ rest
answered_header s = s

-- The fixture's loop for one datagram, of which its buffer holds 512 bytes.
unfoldable pub dns_answer : Bytes → Option Bytes
unfolding answered_header
dns_answer datagram =
    if ltb (length (take 512 datagram)) 12 then none else some (answered_header (take 512 datagram))

-- `dnsQuery`
abbrev pub dns_query : Bytes
dns_query =
    77 ∷ 52 ∷ 1 ∷ 0 ∷ 0 ∷ 1 ∷ 0 ∷ 0 ∷ 0 ∷ 0 ∷ 0 ∷ 0 ∷ 2 ∷ 109 ∷ 52 ∷ 7 ∷ 101 ∷ 120 ∷ 97 ∷ 109 ∷ 112
    ∷ 108 ∷ 101 ∷ 0 ∷ 0 ∷ 1 ∷ 0 ∷ 1 ∷ []

unfoldable pub has_header : Bytes → Bool
has_header (a ∷ b ∷ c ∷ rest) = a == 77 && b == 52 && leb 128 c
has_header s = false

-- The test of `runMatrix` on the response.
unfoldable pub is_dns_response : Bytes → Bool
unfolding has_header
is_dns_response response = leb 12 (length response) && has_header response
