-- ===== src/Dial/Pool/Owners.antt =====
-- Every connection that a dial gives has one owner: it is closed, or an attempt still offers it, or
-- the race has it.
use forwardproxy.Base.{
  ℕ, ◌+◌, Bool, true, false, All, List, [], ◌∷◌, ◌++◌, Option, none, some, ◌≡◌, refl, arith, ◌==◌,
  if◌then◌else◌, get_elem?,
}
use forwardproxy.Base.Sums.{sum_by, sum_by-append, sum_by-set}
use forwardproxy.Dial.Pool.{
  Attempt, Pool, Result, as_list, close_conn, dial_ends, dialing, drop_attempt, drop_of, dropped,
  end_of, ended_attempt, failed, first_error, offer_of, offered, take_result, launch, made,
  offering, settled, taken,
}

abbrev pub is_conn : ℕ → ℕ → ℕ
is_conn x y = if x == y then 1 else 0

abbrev pub count : ℕ → List ℕ → ℕ
count x = sum_by (is_conn x)

module _ {E : Type 0} where
  abbrev pub holds : ℕ → Attempt E → ℕ
  holds x (offering (made c)) = is_conn x c
  holds x (offering (failed e)) = 0
  holds x dialing = 0
  holds x taken = 0
  holds x dropped = 0

  -- The attempts whose result the race has not received.
  abbrev pub is_pending : Attempt E → ℕ
  is_pending taken = 0
  is_pending dialing = 1
  is_pending (offering r) = 1
  is_pending dropped = 1

  abbrev pub pending_of : Pool E → ℕ
  pending_of p = sum_by is_pending p.attempts

  -- `kept` are the connections that the race itself owns.
  abbrev pub Owned : Pool E → List ℕ → Type 0
  Owned p kept =
      (x : ℕ) → count x p.opened ≡ count x p.closed + sum_by (holds x) p.attempts + count x kept

  pub launch-Owned : (p : Pool E) (kept : List ℕ) → Owned p kept → Owned (launch p) kept
  unfolding launch
  launch-Owned p kept h x = omega (arith, h x, sum_by-append (holds x) p.attempts (dialing ∷ []))

  pub launch-pending_of : (p : Pool E) → pending_of (launch p) ≡ pending_of p + 1
  unfolding launch
  launch-pending_of p = sum_by-append is_pending p.attempts (dialing ∷ [])

  -- A dial's connection goes into the result or is closed.
  settled-owner :
      (u : E) (conn : Option ℕ) (err : Option E) (x : ℕ)
      → count x (as_list conn)
        ≡ count x (settled u conn err).1 + holds x (offering (settled u conn err).0)
  unfolding settled
  settled-owner u none none x = refl
  settled-owner u none (some e) x = refl
  settled-owner u (some c) none x = omega arith
  settled-owner u (some c) (some e) x = omega arith

  end_of-Owned :
      (u : E) (p : Pool E) (i : ℕ) (conn : Option ℕ) (err attempt_err : Option E)
      (a : Option (Attempt E)) (kept : List ℕ)
      → get_elem? p.attempts i ≡ a
      → Owned p kept
      → Owned (end_of u p i conn err attempt_err a) kept
  unfolding end_of ended_attempt
  end_of-Owned u p i conn err attempt_err none kept e h = h
  end_of-Owned u p i conn err attempt_err (some (offering r)) kept e h = h
  end_of-Owned u p i conn err attempt_err (some taken) kept e h = h
  end_of-Owned u p i conn err attempt_err (some dropped) kept e h = h
  end_of-Owned u p i conn err attempt_err (some dialing) kept e h = λ x.
      let out = settled u conn (first_error attempt_err err) in
      omega (
        arith,
        h x,
        settled-owner u conn (first_error attempt_err err) x,
        sum_by-set (holds x) p.attempts i dialing (offering out.0) e,
        sum_by-append (is_conn x) (as_list conn) p.opened,
        sum_by-append (is_conn x) out.1 p.closed,
      )

  end_of-pending_of :
      (u : E) (p : Pool E) (i : ℕ) (conn : Option ℕ) (err attempt_err : Option E)
      (a : Option (Attempt E))
      → get_elem? p.attempts i ≡ a
      → pending_of (end_of u p i conn err attempt_err a) ≡ pending_of p
  unfolding end_of ended_attempt
  end_of-pending_of u p i conn err attempt_err none e = refl
  end_of-pending_of u p i conn err attempt_err (some (offering r)) e = refl
  end_of-pending_of u p i conn err attempt_err (some taken) e = refl
  end_of-pending_of u p i conn err attempt_err (some dropped) e = refl
  end_of-pending_of u p i conn err attempt_err (some dialing) e =
      omega (arith, sum_by-set is_pending p.attempts i dialing (offering _) e)

  pub dial_ends-Owned :
      (u : E) (i : ℕ) (conn : Option ℕ) (err attempt_err : Option E) (p : Pool E) (kept : List ℕ)
      → Owned p kept
      → Owned (dial_ends u i conn err attempt_err p) kept
  unfolding dial_ends
  dial_ends-Owned u i conn err attempt_err p kept h =
      end_of-Owned u p i conn err attempt_err _ kept refl h

  pub dial_ends-pending_of :
      (u : E) (i : ℕ) (conn : Option ℕ) (err attempt_err : Option E) (p : Pool E)
      → pending_of (dial_ends u i conn err attempt_err p) ≡ pending_of p
  unfolding dial_ends
  dial_ends-pending_of u i conn err attempt_err p =
      end_of-pending_of u p i conn err attempt_err _ refl

  drop_of-Owned :
      (p : Pool E) (i : ℕ) (a : Option (Attempt E)) (kept : List ℕ)
      → get_elem? p.attempts i ≡ a
      → Owned p kept
      → Owned (drop_of p i a) kept
  unfolding drop_of
  drop_of-Owned p i (some (offering (made c))) kept e h =
      λ x. omega (arith, h x, sum_by-set (holds x) p.attempts i (offering (made c)) dropped e)
  drop_of-Owned p i (some (offering (failed d))) kept e h =
      λ x. omega (arith, h x, sum_by-set (holds x) p.attempts i (offering (failed d)) dropped e)
  drop_of-Owned p i (some dialing) kept e h = h
  drop_of-Owned p i (some taken) kept e h = h
  drop_of-Owned p i (some dropped) kept e h = h
  drop_of-Owned p i none kept e h = h

  drop_of-pending_of :
      (p : Pool E) (i : ℕ) (a : Option (Attempt E))
      → get_elem? p.attempts i ≡ a
      → pending_of (drop_of p i a) ≡ pending_of p
  unfolding drop_of
  drop_of-pending_of p i (some (offering (made c))) e =
      omega (arith, sum_by-set is_pending p.attempts i (offering (made c)) dropped e)
  drop_of-pending_of p i (some (offering (failed d))) e =
      omega (arith, sum_by-set is_pending p.attempts i (offering (failed d)) dropped e)
  drop_of-pending_of p i (some dialing) e = refl
  drop_of-pending_of p i (some taken) e = refl
  drop_of-pending_of p i (some dropped) e = refl
  drop_of-pending_of p i none e = refl

  pub drop_attempt-Owned :
      (i : ℕ) (p : Pool E) (kept : List ℕ) → Owned p kept → Owned (drop_attempt i p) kept
  unfolding drop_attempt
  drop_attempt-Owned i p kept h = drop_of-Owned p i _ kept refl h

  pub drop_attempt-pending_of : (i : ℕ) (p : Pool E) → pending_of (drop_attempt i p) ≡ pending_of p
  unfolding drop_attempt
  drop_attempt-pending_of i p = drop_of-pending_of p i _ refl

  abbrev pub result_conn : Result E → List ℕ
  result_conn (made c) = c ∷ []
  result_conn (failed e) = []

  offer_of-some :
      (a : Option (Attempt E)) (r : Result E) → offer_of a ≡ some r → a ≡ some (offering r)
  offer_of-some (some (offering r')) r q = ground (arith, q)
  offer_of-some (some dialing) r q = absurd (cc)
  offer_of-some (some taken) r q = absurd (cc)
  offer_of-some (some dropped) r q = absurd (cc)
  offer_of-some none r q = absurd (cc)

  -- A result that is received is no longer the attempt's: its connection is the race's.
  pub take_result-Owned :
      (i : ℕ) (p : Pool E) (r : Result E) (kept : List ℕ)
      → offered i p ≡ some r
      → Owned p kept
      → Owned (take_result i p) (result_conn r ++ kept)
  unfolding take_result
  take_result-Owned i p (made c) kept q h x = omega (
    arith,
    h x,
    sum_by-set (holds x) p.attempts i (offering (made c)) taken (offer_of-some _ (made c) q),
  )
  take_result-Owned i p (failed d) kept q h x = omega (
    arith,
    h x,
    sum_by-set (holds x) p.attempts i (offering (failed d)) taken (offer_of-some _ (failed d) q),
  )

  pub take_result-pending_of :
      (i : ℕ) (p : Pool E) (r : Result E)
      → offered i p ≡ some r
      → pending_of p ≡ pending_of (take_result i p) + 1
  unfolding take_result
  take_result-pending_of i p r q =
      omega (arith, sum_by-set is_pending p.attempts i (offering r) taken (offer_of-some _ r q))

  -- A connection that the race gives up is closed.
  pub close_conn-Owned :
      (c : ℕ) (p : Pool E) (kept : List ℕ) → Owned p (c ∷ kept) → Owned (close_conn c p) kept
  unfolding close_conn
  close_conn-Owned c p kept h x = omega (arith, h x)

  -- Once every attempt has ended, the open connections are those that the race has.
  abbrev pub is_over : Attempt E → Bool
  is_over taken = true
  is_over dropped = true
  is_over dialing = false
  is_over (offering r) = false

  pub held-over :
      (x : ℕ) (attempts : List (Attempt E))
      → All (λ a. is_over a ≡ true) attempts
      → sum_by (holds x) attempts ≡ 0
  held-over x [] h = refl
  held-over x (taken ∷ rest) h = omega (arith, held-over x rest h.1)
  held-over x (dropped ∷ rest) h = omega (arith, held-over x rest h.1)
  held-over x (dialing ∷ rest) h = absurd (cc h.0)
  held-over x (offering r ∷ rest) h = absurd (cc h.0)
