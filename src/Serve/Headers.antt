-- ===== src/Serve/Headers.antt =====
-- Go's `http.Header`, and what forwardproxy.go does with headers: the padding negotiation and
-- `removeHopByHop`. A header maps canonical names to values; only the order of one name's values
-- matters to the program.
pub mod Hops
use forwardproxy.Base.{
  ℕ, zero, suc, ◌+◌, ◌-◌, ◌/◌, ◌%◌, Bool, true, false, not, ◌&&◌, ◌||◌, List, [], ◌∷◌, ◌++◌, Option,
  none, some, Bytes, codes, equal, leb, ◌==◌, if◌then◌else◌, replicate,
}
use forwardproxy.Std.Strconv.{itoa}
use forwardproxy.Std.Strings.{has_byte, lower, split, trim_space}

abbrev pub Header : Type 0
Header = List (Bytes × List Bytes)

abbrev pub upper : ℕ → ℕ
upper c = if leb b'a' c && leb c b'z' then c - 32 else c

-- Whether a byte may stand in a header's name.
abbrev pub is_token_byte : ℕ → Bool
is_token_byte c =
    leb b'a' c && leb c b'z'
    || leb b'A' c && leb c b'Z'
    || leb b'0' c && leb c b'9'
    || has_byte c (codes "!#$%&'*+-.^_`|~")

unfoldable pub all_token_bytes : Bytes → Bool
unfolding has_byte
all_token_bytes [] = true
all_token_bytes (c ∷ s) = is_token_byte c && all_token_bytes s

-- A letter at the start or behind a dash is upper case, any other lower case.
unfoldable pub capitalise : Bool → Bytes → Bytes
capitalise start [] = []
capitalise start (c ∷ s) = (if start then upper c else lower c) ∷ capitalise (c == b'-') s

-- `http.CanonicalHeaderKey`
unfoldable pub canonical_key : Bytes → Bytes
unfolding all_token_bytes capitalise
canonical_key name = if all_token_bytes name then capitalise true name else name

unfoldable pub values : Bytes → Header → Option (List Bytes)
values key [] = none
values key ((k, vs) ∷ h) = if equal k key then some vs else values key h

first_value : Option (List Bytes) → Bytes
first_value (some (v ∷ vs)) = v
first_value _ = []

-- `header.Get(name)`
unfoldable pub get : Bytes → Header → Bytes
unfolding first_value
get name h = first_value (values (canonical_key name) h)

unfoldable pub without : Bytes → Header → Header
without key [] = []
without key ((k, vs) ∷ h) = let rest = without key h in if equal k key then rest else (k, vs) ∷ rest

-- `header.Del(name)`
unfoldable pub del : Bytes → Header → Header
del name h = without (canonical_key name) h

-- `header.Set(name, value)`
unfoldable pub set_value : Bytes → Bytes → Header → Header
set_value name value h = (canonical_key name, value ∷ []) ∷ without (canonical_key name) h

or_none : Option (List Bytes) → List Bytes
or_none none = []
or_none (some vs) = vs

-- `header.Add(name, value)`
unfoldable pub add_value : Bytes → Bytes → Header → Header
unfolding or_none
add_value name value h =
    let key = canonical_key name in (key, or_none (values key h) ++ value ∷ []) ∷ without key h

pub data Negotiated : Type 0 where
  unpadded variant1 invalid_type no_type : Negotiated

-- One candidate decides: the inner loop returns in every case.
unfoldable pub candidate : Bytes → Negotiated
candidate c =
    if equal (trim_space c) (codes "1")
    then variant1
    else if equal (trim_space c) (codes "0")
    then unpadded
    else invalid_type

first_candidate : List Bytes → Negotiated → Negotiated
first_candidate [] rest = rest
first_candidate (c ∷ candidates) rest = candidate c

-- The loops over the values of `Padding-Type-Request`.
unfoldable pub candidates_of : List Bytes → Negotiated
unfolding first_candidate
candidates_of [] = no_type
candidates_of (v ∷ vs) = first_candidate (split b',' v) (candidates_of vs)

negotiate : Option (List Bytes) → Bytes → Negotiated
negotiate none [] = unpadded
negotiate none (c ∷ padding) = variant1
negotiate (some vs) padding = candidates_of vs

-- `negotiateNaivePadding`; the last two constructors are its errors.
unfoldable pub negotiate_naive_padding : Header → Negotiated
unfolding negotiate
negotiate_naive_padding h =
    negotiate (values (canonical_key (codes "Padding-Type-Request")) h) (get (codes "Padding") h)

byte_at : ℕ → Bytes → ℕ
byte_at i [] = 0
byte_at zero (x ∷ xs) = x
byte_at (suc i) (x ∷ xs) = byte_at i xs

-- The first sixteen bytes: four bits of the random word each, the lowest first.
unfoldable pub random_codes : ℕ → ℕ → Bytes
unfolding byte_at
random_codes zero bits = []
random_codes (suc n) bits =
    byte_at (bits % 16) (codes "!#$()+<>?@[]^`{}") ∷ random_codes n (bits / 16)

unfoldable pub padding_value : ℕ → ℕ → Bytes
padding_value extra bits = random_codes 16 bits ++ replicate (extra % 32 + 30 - 16) b'~'

-- `setNaivePaddingResponseHeaders`, for the two random numbers that it draws.
unfoldable pub set_naive_padding_response_headers : ℕ → ℕ → Header → Header → ℕ → Header
unfolding padding_value random_codes
set_naive_padding_response_headers extra bits response request padding_type =
    let padded = set_value (codes "Padding") (padding_value extra bits) response in
    elim (values (canonical_key (codes "Padding-Type-Request")) request) [
      | none ↦ padded
      | some _ ↦ set_value (codes "Padding-Type-Reply") (itoa padding_type) padded
    ]

unfoldable pub del_all : List Bytes → Header → Header
del_all [] h = h
del_all (name ∷ names) h = del_all names (del name h)

unfoldable pub del_trimmed : List Bytes → Header → Header
del_trimmed [] h = h
del_trimmed (name ∷ names) h = del_trimmed names (del (trim_space name) h)

abbrev pub hop_by_hop_headers : List Bytes
hop_by_hop_headers =
    codes "Keep-Alive"
    ∷ codes "Proxy-Authenticate"
    ∷ codes "Proxy-Authorization"
    ∷ codes "Upgrade"
    ∷ codes "Connection"
    ∷ codes "Proxy-Connection"
    ∷ codes "Te"
    ∷ codes "Trailer"
    ∷ codes "Transfer-Encoding"
    ∷ []

-- `removeHopByHop`
unfoldable pub remove_hop_by_hop : Header → Header
unfolding del_all del_trimmed
remove_hop_by_hop h =
    del_all hop_by_hop_headers (del_trimmed (split b',' (get (codes "Connection") h)) h)
