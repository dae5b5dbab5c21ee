-- ===== src/Masque/Running/Finishing.antt =====
-- The end of `connectUDPAssociation.run`: it returns.
use forwardproxy.Base.{
  ℕ, zero, suc, ◌+◌, ◌<◌, Bool, false, List, [], ◌∷◌, Option, ◌≡◌, refl, ap, ◌∙◌, arith, length,
}
use forwardproxy.Masque.Running.{
  Action, Association, Place, Result, begin, drained, draining, returned, run, step, take_result,
  takes_result,
}
use forwardproxy.Masque.Running.Accounts.{run-begin-IsAccounted}
use forwardproxy.Masque.Running.Releases.{at_drain, running}

not_running : (b : Bool) → b ≡ false → running b ≡ 0
not_running b e = rw e refl

module _ {E : Type 0} where
  drained-place :
      (result : Result E) (n : ℕ) (a : Association E)
      → n ≡ 2
      → (drained result n a).place ≡ returned result
  unfolding drained
  drained-place result zero a h = absurd (omega arith)
  drained-place result (suc zero) a h = absurd (omega arith)
  drained-place result (suc (suc n)) a h = refl

  abbrev received : Association E → Association E
  received a = take_result a.place a.results a

  received-drained :
      (result : Result E) (r : Option E) (rest : List (Option E)) (a : Association E)
      → a.place ≡ draining result
      → a.results ≡ r ∷ rest
      → received a
        ≡ drained result
            (a.completed + 1)
            (record a { results = rest; completed = a.completed + 1 })
  unfolding take_result
  received-drained result r rest a p q =
      ap (λ x. take_result x a.results a) p ∙ ap (λ rs. take_result (draining result) rs a) q

  received-last :
      (result : Result E) (r : Option E) (rest : List (Option E)) (a : Association E)
      → a.place ≡ draining result
      → a.results ≡ r ∷ rest
      → a.completed ≡ 1
      → (received a).place ≡ returned result
  received-last result r rest a p q c =
      ap (λ (x : Association E). x.place) (received-drained result r rest a p q)
      ∙ drained-place result (a.completed + 1) _ (omega (arith, c))

  received-returned :
      (result : Result E) (a : Association E)
      → a.place ≡ returned result
      → (received a).place ≡ returned result
  unfolding take_result
  received-returned result a p = ap (λ (x : Place E). (take_result x a.results a).place) p ∙ p

  received-first :
      (result : Result E) (n : ℕ) (a : Association E)
      → n ≡ 1
      → drained result n a ≡ record a { place = draining result }
  unfolding drained
  received-first result zero a h = refl
  received-first result (suc zero) a h = refl
  received-first result (suc (suc n)) a h = absurd (omega arith)

  -- Two receives behind the loop are enough.
  received_twice :
      (result : Result E) (results : List (Option E)) (a : Association E)
      → a.place ≡ draining result
      → a.results ≡ results
      → a.completed < 2
      → a.completed + length results ≡ 2
      → (received (received a)).place ≡ returned result
  received_twice result [] a p q c t = absurd (omega arith)
  received_twice result (r ∷ []) a p q c t =
      received-returned result (received a) (received-last result r [] a p q (omega arith))
  received_twice result (r ∷ r' ∷ []) a p q c t =
      ap (λ x. (received x).place)
        (received-drained result r (r' ∷ []) a p q
          ∙ received-first result (a.completed + 1) _ (omega arith))
      ∙ received-last result r' [] _ refl refl (omega arith)
  received_twice result (r ∷ r' ∷ r'' ∷ results) a p q c t = absurd (omega arith)

  -- Once its loop has a result and both pumps have returned, the run of an association returns, with
  -- that result, after at most two receives.
  pub run-returns :
      (idle_timeout : ℕ) (parent stream : Option E) (actions : List (Action E)) (result : Result E)
      → (run (begin idle_timeout parent stream) actions).place ≡ draining result
      → (run (begin idle_timeout parent stream) actions).h3_runs ≡ false
      → (run (begin idle_timeout parent stream) actions).udp_runs ≡ false
      → (run
          (run (begin idle_timeout parent stream) actions)
          (takes_result ∷ takes_result ∷ [])).place
        ≡ returned result
  unfolding run step
  run-returns idle_timeout parent stream actions result p h u =
      let a = run (begin idle_timeout parent stream) actions in
      let v = run-begin-IsAccounted idle_timeout parent stream actions in
      received_twice result a.results a p refl
        (at_drain a.place result a.completed a.cancels a.udp_closes a.stream_closes p v.released).0
        (omega (arith, v.total, not_running a.h3_runs h, not_running a.udp_runs u))
