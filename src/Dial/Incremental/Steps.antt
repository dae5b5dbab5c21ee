-- ===== src/Dial/Incremental/Steps.antt =====
-- What a step keeps, by what its parts keep.
use forwardproxy.Acl.{AclRule}
use forwardproxy.Base.{Bool, true, false, List, [], ◌∷◌, Bytes, ◌≡◌, refl}
use forwardproxy.Dial.Incremental.{
  Action, Place, Race, at_checking, at_choosing, checking, choosing, returned, run, step, unless,
}
use forwardproxy.Dial.Interleave.{Network}
use forwardproxy.Std.Net.{IpText}

module _ {E : Type 0} where
  pub at_checking-keeps :
      (P : Race E → Type 0) (p : Place E) (next r : Race E)
      → (p ≡ checking → P next)
      → P r
      → P (at_checking p next r)
  unfolding at_checking
  at_checking-keeps P checking next r f h = f refl
  at_checking-keeps P choosing next r f h = h
  at_checking-keeps P (returned out) next r f h = h

  pub at_choosing-keeps :
      (P : Race E → Type 0) (p : Place E) (next r : Race E)
      → (p ≡ choosing → P next)
      → P r
      → P (at_choosing p next r)
  unfolding at_choosing
  at_choosing-keeps P checking next r f h = h
  at_choosing-keeps P choosing next r f h = f refl
  at_choosing-keeps P (returned out) next r f h = h

  pub unless-keeps :
      (P : Race E → Type 0) (b : Bool) (next r : Race E) → P next → P r → P (unless b next r)
  unfolding unless
  unless-keeps P true next r n h = h
  unless-keeps P false next r n h = n

  module _ (text : IpText) (rules : List AclRule) (network : Network) (host port : Bytes)
      (unconnected canceled : E) where
    pub run-keeps :
        (P : Race E → Type 0)
        → ((r : Race E) (a : Action E)
            → P r
            → P (step text rules network host port unconnected canceled r a))
        → (actions : List (Action E)) (r : Race E) → P r
        → P (run text rules network host port unconnected canceled r actions)
    unfolding run
    run-keeps P keep [] r h = h
    run-keeps P keep (a ∷ actions) r h = run-keeps P keep actions _ (keep r a h)
