-- ===== src/Serve/Headers/Hops.antt =====
-- What `removeHopByHop` leaves of a header.
use forwardproxy.Base.{
  Bool, false, ◌||◌, List, [], ◌∷◌, none, Bytes, codes, equal, equal_iff, ◌≡◌, refl, arith,
  if◌then◌else◌,
}
use forwardproxy.Serve.Headers.{
  Header, values, get, del, without, del_all, del_trimmed, canonical_key, hop_by_hop_headers,
  remove_hop_by_hop,
}
use forwardproxy.Std.Strings.{split, trim_space}

values-without :
    (k key : Bytes) (h : Header)
    → values k (without key h) ≡ (if equal key k then none else values k h)
unfolding values without
values-without k key [] = ground (arith)
values-without k key ((k', vs) ∷ h) =
    ground (arith, values-without k key h, equal_iff k' key, equal_iff k' k, equal_iff key k)

-- Whether a key is the canonical form of one of the names.
abbrev pub names_key : Bytes → List Bytes → Bool
names_key k [] = false
names_key k (name ∷ names) = equal (canonical_key name) k || names_key k names

abbrev pub trims_key : Bytes → List Bytes → Bool
trims_key k [] = false
trims_key k (name ∷ names) = equal (canonical_key (trim_space name)) k || trims_key k names

values-del_all :
    (k : Bytes) (names : List Bytes) (h : Header)
    → values k (del_all names h) ≡ (if names_key k names then none else values k h)
unfolding del_all del
values-del_all k [] h = refl
values-del_all k (name ∷ names) h = ground (
  arith,
  values-del_all k names (without (canonical_key name) h),
  values-without k (canonical_key name) h,
)

values-del_trimmed :
    (k : Bytes) (names : List Bytes) (h : Header)
    → values k (del_trimmed names h) ≡ (if trims_key k names then none else values k h)
unfolding del_trimmed del
values-del_trimmed k [] h = refl
values-del_trimmed k (name ∷ names) h = ground (
  arith,
  values-del_trimmed k names (without (canonical_key (trim_space name)) h),
  values-without k (canonical_key (trim_space name)) h,
)

-- `removeHopByHop` takes out exactly the nine hop-by-hop fields and those that the first value of
-- `Connection` names, and keeps every other field with all its values.
pub values-remove_hop_by_hop :
    (k : Bytes) (h : Header)
    → values k (remove_hop_by_hop h) ≡ (
        if names_key k hop_by_hop_headers || trims_key k (split b',' (get (codes "Connection") h))
        then none
        else values k h)
unfolding remove_hop_by_hop
values-remove_hop_by_hop k h = ground (
  arith,
  values-del_all k hop_by_hop_headers (del_trimmed (split b',' (get (codes "Connection") h)) h),
  values-del_trimmed k (split b',' (get (codes "Connection") h)) h,
)
