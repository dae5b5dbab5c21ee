-- ===== src/Dial/Addresses/Soundness.antt =====
-- What a call of dialTCPAddresses owns, and what its parts keep of that.
use mathlib.Core.List.{append_assoc}
use forwardproxy.Base.{ℕ, List, [], ◌∷◌, ◌++◌, Option, none, some, Bytes, ◌≡◌, refl, ◌∙◌, arith}
use forwardproxy.Dial.Addresses.{
  Call, Ended, Place, at_choosing, choosing, context_ended, finish, gave_up, launch_first,
  nothing_to_dial, returned, start_if, won,
}
use forwardproxy.Dial.Pool.Owners.{Owned, launch-Owned, launch-pending_of, pending_of}

module _ {E : Type 0} (order : List Bytes) where
  abbrev pub winners : Place E → List ℕ
  winners choosing = []
  winners (returned (won c)) = c ∷ []
  winners (returned (gave_up e)) = []
  winners (returned (nothing_to_dial e)) = []
  winners (returned (context_ended e)) = []

  -- A call that gives up has started every address and received every result.
  abbrev pub IsDone : Place E → List Bytes → ℕ → Type 0
  IsDone (returned (gave_up e)) waiting pending = (waiting ≡ []) × (pending ≡ 0)
  IsDone (returned (nothing_to_dial e)) waiting pending = order ≡ []
  IsDone (returned (won c)) waiting pending = Unit
  IsDone (returned (context_ended e)) waiting pending = Unit
  IsDone choosing waiting pending = Unit

  pub record IsSound (r : Call E) : Type 0 where
    pub in_order : r.started ++ r.waiting ≡ order
    pub owned : Owned r.pool (winners r.place)
    pub pending_is : r.pending ≡ pending_of r.pool
    pub done : IsDone r.place r.waiting r.pending

  pub record IsRunning (r : Call E) : Type 0 where
    pub in_order : r.started ++ r.waiting ≡ order
    pub owned : Owned r.pool []
    pub pending_is : r.pending ≡ pending_of r.pool

  pub choosing-IsRunning : (r : Call E) → r.place ≡ choosing → IsSound r → IsRunning r
  choosing-IsRunning r e v = record {
    in_order = v.in_order;
    owned = λ x. rw e at (v.owned x);
    pending_is = v.pending_is;
  }

  pub choosing-IsSound : (r : Call E) → r.place ≡ choosing → IsRunning r → IsSound r
  choosing-IsSound r p v = record {
    in_order = v.in_order;
    owned = rw p v.owned;
    pending_is = v.pending_is;
    done = rw p tt;
  }

  pub retimed-IsSound : (r : Call E) (t : Option ℕ) → IsSound r → IsSound (record r { timer = t })
  retimed-IsSound r t v = record {
    in_order = v.in_order;
    owned = v.owned;
    pending_is = v.pending_is;
    done = v.done;
  }

  pub at_choosing-IsSound :
      (p : Place E) (next r : Call E)
      → (p ≡ choosing → IsSound next)
      → IsSound r
      → IsSound (at_choosing p next r)
  unfolding at_choosing
  at_choosing-IsSound choosing next r f h = f refl
  at_choosing-IsSound (returned out) next r f h = h

  pub finish-IsSound :
      (canceled : E) (out : Ended E) (r : Call E)
      → r.started ++ r.waiting ≡ order
      → Owned r.pool (winners (returned out))
      → r.pending ≡ pending_of r.pool
      → IsDone (returned out) r.waiting r.pending
      → IsSound (finish canceled out r)
  unfolding finish
  finish-IsSound canceled out r o h p d = record {
    in_order = o;
    owned = h;
    pending_is = p;
    done = d;
  }

  -- A start takes the first of the waiting addresses.
  pub start_if-IsSound :
      (canceled : E) (c : Option E) (a : Bytes) (rest : List Bytes) (now : ℕ) (r : Call E)
      → r.place ≡ choosing
      → r.waiting ≡ a ∷ rest
      → IsRunning r
      → IsSound (start_if canceled c a rest now r)
  unfolding start_if launch_first
  start_if-IsSound canceled none a rest now r p w v = record {
    in_order = append_assoc r.started (a ∷ []) rest ∙ (rw w at v.in_order);
    owned = rw p (launch-Owned r.pool [] v.owned);
    pending_is = omega (arith, v.pending_is, launch-pending_of r.pool);
    done = rw p tt;
  }
  start_if-IsSound canceled (some e) a rest now r p w v =
      finish-IsSound canceled (context_ended e) r v.in_order v.owned v.pending_is tt
