-- ===== src/Masque/Serving/Lives/Tests.antt =====
-- A call whose association is idle until its timer fires.
use forwardproxy.Acl.{all_rule}
use forwardproxy.Base.{ℕ, true, List, [], ◌∷◌, none, some, codes}
use forwardproxy.Masque.Running.{
  Action, deadline_exceeded as timer_expired, h3_to_udp, passes, pump_returns, takes_result,
  timer_fires, udp_to_h3,
}
use forwardproxy.Masque.Serving.{Ending, Outside, deadline_exceeded, other_end}
use forwardproxy.Masque.Target.{Target}
use forwardproxy.Policy.{Rules}

abbrev outside : Outside
outside = record {
  text = record { parse_ip = λ s. some s; parse_cidr = λ s. none; ip_string = λ ip. ip };
  to_ascii = λ s. none;
  lookup = λ s. some ((1 ∷ 1 ∷ 1 ∷ 1 ∷ []) ∷ []);
  has_capabilities = true;
  settings = some true;
  dials = λ a. true;
  has_stream = true;
  ending = deadline_exceeded;
}

abbrev rules : Rules
rules = record { acl_rules = all_rule true ∷ []; allowed_ports = [] }

abbrev target : Target
target = record { host = codes "h"; port = codes "53"; host_port = codes "h:53" }

abbrev actions : List (Action ℕ)
actions =
    passes 120
    ∷ timer_fires
    ∷ pump_returns h3_to_udp none
    ∷ pump_returns udp_to_h3 none
    ∷ takes_result
    ∷ takes_result
    ∷ []

abbrev other : ℕ → Ending
other e = other_end
