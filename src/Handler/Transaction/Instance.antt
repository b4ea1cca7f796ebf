-- ===== src/Handler/Transaction/Instance.antt =====
-- The operations on configurations of the transactions, over JSON values.
use mmw_agent.Base.{Bool, Option, Text, text_eq, nat_eq}
use mmw_agent.Json.{Object}
use mmw_agent.Handler.Config.Unique.{validate_unique_clients}
use mmw_agent.Handler.Routing.Batch.{dedupe_config}
use mmw_agent.Handler.Transaction.Actions.{ConfigOps}

-- The texts of configurations, their check by xray and their hash stay parameters.
module _ (unmarshal : Text → Option Object) (marshal : Object → Option Text)
    (xray_test : Text → Bool) (hash : Text → Text) where
  abbrev pub json_ops : ConfigOps Object
  json_ops = record {
    unmarshal = unmarshal;
    dedupe = dedupe_config;
    unique_clients = validate_unique_clients;
    marshal = marshal;
    xray_test = xray_test;
    hash = hash;
  }
