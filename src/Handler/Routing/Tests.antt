-- ===== src/Handler/Routing/Tests.antt =====
-- Examples of manageRouting.
use mmw_agent.Base.{
  ◌≡◌, refl, Bool, true, false, Option, none, some, List, [], ◌∷◌, Text, text, take,
}
use mmw_agent.Json.{str, array, object, Object}
use mmw_agent.Base.Int.{pos}
use mmw_agent.Handler.Config.Rules.Edit.{RoutingRequest, absent}
use mmw_agent.Handler.Transaction.{World, bytes_of}
use mmw_agent.Handler.Transaction.Actions.{ConfigOps}
use mmw_agent.Handler.Routing.{rejected, manage_routing}
use mmw_agent.Handler.Routing.Reports.{Reported, asked, manage_routing-Reported}

-- A configuration for each text, and one text for each configuration.
abbrev test_ops : ConfigOps Object
test_ops = record {
  unmarshal = λ t. some ((text "log", str t) ∷ []);
  dedupe = λ c. c;
  unique_clients = λ c. true;
  marshal = λ c. some (text "new");
  xray_test = λ t. true;
  hash = λ t. t;
}

abbrev half : Option Text → Text → Option Text
half old new = some (take 1 new)

abbrev world : List Bool → World
world outcomes = record {
  config = some (text "old");
  dirs = [];
  running = some (text "old");
  outcomes = outcomes;
}

abbrev add_rule_request : RoutingRequest
add_rule_request = record {
  action = text "add_rule";
  routing = none;
  rule = some ((text "outboundTag", str (text "direct")) ∷ []);
  index = pos 0;
  observatory = absent;
  burst_observatory = absent;
  marktag = [];
  user_email = [];
  no_restart = false;
}

-- The restart fails and stops xray, the rollback does not fail.
abbrev bad_start : List Bool
bad_start = false ∷ false ∷ true ∷ true ∷ false ∷ []

test_rejected : (manage_routing half test_ops (world bad_start) add_rule_request).1 ≡ rejected true
unfolding manage_routing
test_rejected = refl

test_rolled_back :
    (manage_routing half test_ops (world bad_start) add_rule_request).0.config ≡ some (text "old")
unfolding manage_routing
test_rolled_back = refl

manage_routing-Reported_example :
    Reported half
      (world bad_start)
      false
      (text "old")
      (asked half test_ops add_rule_request (some ((text "log", str (text "old")) ∷ [])))
      (manage_routing half test_ops (world bad_start) add_rule_request)
unfolding bytes_of
manage_routing-Reported_example =
    manage_routing-Reported half test_ops (world bad_start) add_rule_request

-- A file with one rule.
abbrev one_rule : Object
one_rule =
    (text "log", str (text "old"))
    ∷ (
      text "routing",
      object ((text "rules", array (object ((text "outboundTag", str (text "b")) ∷ []) ∷ [])) ∷ []),
    )
    ∷ []

abbrev rule_ops : ConfigOps Object
rule_ops = record test_ops { unmarshal = λ t. some one_rule }

abbrev direct : Object
direct = (text "outboundTag", str (text "direct")) ∷ []
