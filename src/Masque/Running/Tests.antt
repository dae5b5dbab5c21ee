-- ===== src/Masque/Running/Tests.antt =====
-- A run that is idle until its timer fires, while both pumps return behind it.
use forwardproxy.Base.{ℕ, List, [], ◌∷◌, none, some, ◌≡◌, refl}
use forwardproxy.Masque.Running.Accounts.{run-begin-IsAccounted}
use forwardproxy.Masque.Running.Releases.{IsAccounted}
use forwardproxy.Masque.Running.Finishing.{run-returns}
use forwardproxy.Masque.Running.{
  Action, begin, deadline_exceeded, h3_to_udp, notes, passes, pump_returns, returned, run, step,
  takes_activity, takes_result, timer_fires, udp_to_h3,
}

abbrev actions : List (Action ℕ)
actions =
    passes 50
    ∷ notes h3_to_udp
    ∷ takes_activity
    ∷ passes 120
    ∷ timer_fires
    ∷ pump_returns h3_to_udp (some 9)
    ∷ pump_returns udp_to_h3 (some 9)
    ∷ []

run-begin-IsAccounted_example : IsAccounted (run (begin 120 none none) actions)
run-begin-IsAccounted_example = run-begin-IsAccounted 120 none none actions

run-returns_example :
    (run (run (begin 120 none none) actions) (takes_result ∷ takes_result ∷ [])).place
    ≡ returned deadline_exceeded
unfolding run step begin
run-returns_example = run-returns 120 none none actions deadline_exceeded refl refl refl
