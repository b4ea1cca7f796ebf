-- ===== src/Handler/Routing/Effects.antt =====
-- manageRouting: where no call fails, the new rule is in the file and in use.
use mmw_agent.Base.{◌≡◌, Bool, Option, some, [], Text, text, if◌then◌else◌}
use mmw_agent.Json.{Object, object, object_at, items_at}
use mmw_agent.Handler.Config.Rules.{classify_rule_priority, insert_rule, with_rules}
use mmw_agent.Handler.Config.Rules.Edit.{Edit, routing_or_empty}
use mmw_agent.Handler.Transaction.{World}
use mmw_agent.Handler.Transaction.Actions.{ConfigOps}
use mmw_agent.Handler.Routing.{RoutingResponse, deferred, restarted}

module _ (torn : Option Text → Text → Option Text) (ops : ConfigOps Object) where
  -- The content is in the file, and xray runs with it or is left to the caller.
  abbrev Accepted : World → Bool → Text → World × RoutingResponse → Type 0
  Accepted w no_restart new (w', r) =
      (r ≡ (if no_restart then deferred else restarted))
      × ((w'.config ≡ some new) × (w'.running ≡ (if no_restart then w.running else some new)))

  module _ (w : World) (old new : Text) where
    unfailing : World
    unfailing = record w { outcomes = [] }

  -- The configuration with the rule in it.
  abbrev with_rule : Object → Object → Object
  with_rule config rule =
      let routing = routing_or_empty (object_at (text "routing") config) in
      with_rules config routing (
        insert_rule (classify_rule_priority (some rule)) (object rule)
          (items_at (text "rules") routing))
