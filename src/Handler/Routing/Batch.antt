-- ===== src/Handler/Routing/Batch.antt =====
-- HandleBatchApply: several clients and users of rules in one change of the file.
use mmw_agent.Base.{
  ℕ, Bool, true, false, not, ◌&&◌, ◌||◌, Option, none, some, List, [], ◌∷◌, Text, text, text_eq,
  nat_eq, ◌==◌, if◌then◌else◌, contains,
}
use mmw_agent.Json.{Object}
use mmw_agent.Handler.Config.Clients.{ClientResult, changed, apply_add_client}
use mmw_agent.Handler.Config.Dedupe.{dedupe_tagged_array}
use mmw_agent.Handler.Config.Rules.{RouteResult, added, apply_add_user_to_route}
use mmw_agent.Handler.Transaction.{World, attempt, read_config, write_config, restart_xray}
use mmw_agent.Handler.Transaction.Actions.{ConfigOps}
use mmw_agent.Handler.Routing.{roll_back}

-- BatchInboundClient and BatchRoutingAddition
pub record BatchClient : Type 0 where
  pub tag : Text
  pub client : Option Object

pub record BatchUser : Type 0 where
  pub marktag : Text
  pub outbound_tag : Text
  pub user_email : Text

pub record BatchRequest : Type 0 where
  pub inbound_clients : List BatchClient
  pub routing_users : List BatchUser
  pub no_restart : Bool

-- An item without its tag or client, or what applyAddClientToConfig says.
pub data ItemResult : Type 0 where
  incomplete : ItemResult
  applied : ClientResult → ItemResult

-- What BatchApplyResult says of the start of xray.
pub data Restart : Type 0 where
  not_started started : Restart
  start_failed : Bool → Restart

pub record BatchResult : Type 0 where
  pub inbound_results : List ItemResult
  pub routing_results : List RouteResult
  pub runtime_warnings : List Text
  pub restart : Restart

pub data BatchResponse : Type 0 where
  failure : ℕ → BatchResponse
  nothing_to_apply : BatchResponse
  answered : BatchResult → BatchResponse

-- The configuration, the results so far and the tags of the inbounds that changed.
unfoldable pub apply_client : Object → BatchClient → Option Object → Object × ItemResult
unfolding text_eq apply_add_client
apply_client config item none = (config, incomplete)
apply_client config item (some client) =
    let (config', result) = apply_add_client config item.tag client in
    if item.tag == [] then (config, incomplete) else (config', applied result)

unfoldable pub apply_clients : Object → List BatchClient → Object × List ItemResult
unfolding apply_client
apply_clients config [] = (config, [])
apply_clients config (item ∷ items) =
    let (config1, result) = apply_client config item item.client in
    let (config2, results) = apply_clients config1 items in (config2, result ∷ results)

unfoldable pub apply_users : Object → List BatchUser → Object × List RouteResult
unfolding apply_add_user_to_route
apply_users config [] = (config, [])
apply_users config (item ∷ items) =
    let (config1, result) =
      apply_add_user_to_route config item.marktag item.outbound_tag item.user_email in
    let (config2, results) = apply_users config1 items in (config2, result ∷ results)

abbrev pub is_changed : ItemResult → Bool
is_changed (applied changed) = true
is_changed _ = false

abbrev pub is_added : RouteResult → Bool
is_added added = true
is_added _ = false

-- The keys of affectedInbounds.
unfoldable pub affected_tags : List BatchClient → List ItemResult → List Text
unfolding contains text_eq
affected_tags [] results = []
affected_tags (item ∷ items) [] = []
affected_tags (item ∷ items) (r ∷ results) =
    let rest = affected_tags items results in
    if is_changed r && not (contains item.tag rest) then item.tag ∷ rest else rest

unfoldable pub any_added : List RouteResult → Bool
any_added [] = false
any_added (r ∷ rs) = is_added r || any_added rs

unfoldable pub is_empty : List Text → Bool
is_empty [] = true
is_empty (t ∷ ts) = false

unfoldable pub failing_tags : (Text → Bool) → List Text → List Text
failing_tags fails [] = []
failing_tags fails (t ∷ ts) = let rest = failing_tags fails ts in if fails t then t ∷ rest else rest

unfoldable pub nothing_given : BatchRequest → Bool
nothing_given req = elim req.inbound_clients [
  | _ ∷ _ ↦ false
  | [] ↦ elim req.routing_users [ _ ∷ _ ↦ false | [] ↦ true ]
]

-- The two calls of dedupeTaggedArrayInPlace.
unfoldable pub dedupe_config : Object → Object
unfolding dedupe_tagged_array
dedupe_config config =
    (dedupe_tagged_array (dedupe_tagged_array config (text "inbounds")).0 (text "outbounds")).0

-- `runtime_fails` tells for which inbounds the running xray refuses the replacement.
module _ (torn : Option Text → Text → Option Text) (runtime_fails : Text → Bool) where
  unfoldable pub restart_batch : World → Bool → Text → BatchResult → World × BatchResponse
  unfolding restart_xray roll_back
  restart_batch w wanted content result =
      let (w1, failed) = restart_xray w in
      let (w2, rolled_back) = roll_back torn content w1 in
      if not wanted
      then (w, answered result)
      else (if failed
          then (w2, answered (record result { restart = start_failed rolled_back }))
          else (w1, answered (record result { restart = started })))

  -- The file is written under another name and renamed.
  unfoldable pub write_batch :
      World → Bool → Text → BatchResult → Option Text → World × BatchResponse
  unfolding attempt write_config restart_batch
  write_batch w wanted content result none = (w, failure 500)
  write_batch w wanted content result (some new_content) =
      let (w1, no_tmp) = attempt w in
      let (w2, no_rename) = write_config new_content w1 in
      if no_tmp
      then (w1, failure 500)
      else (if no_rename then (w2, failure 500) else restart_batch w2 wanted content result)

  module _ (ops : ConfigOps Object) where
    unfoldable pub apply_parsed :
        World → BatchRequest → Text → Option Object → World × BatchResponse
    unfolding apply_clients apply_users affected_tags any_added is_empty failing_tags dedupe_config
        write_batch
    apply_parsed w req content none = (w, failure 500)
    apply_parsed w req content (some config) =
        let (config1, inbound_results) = apply_clients config req.inbound_clients in
        let (config2, routing_results) = apply_users config1 req.routing_users in
        let tags = affected_tags req.inbound_clients inbound_results in
        let routing_changed = any_added routing_results in
        let result : BatchResult = record {
          inbound_results = inbound_results;
          routing_results = routing_results;
          runtime_warnings = failing_tags runtime_fails tags;
          restart = not_started;
        } in
        if is_empty tags && not routing_changed
        then (w, answered result)
        else write_batch w (routing_changed && not req.no_restart) content result
            (ops.marshal (dedupe_config config2))

    unfoldable pub apply_content : BatchRequest → World × Option Text → World × BatchResponse
    unfolding apply_parsed
    apply_content req (w, none) = (w, failure 500)
    apply_content req (w, some content) = apply_parsed w req content (ops.unmarshal content)

    -- HandleBatchApply, once the body is decoded and the path of the configuration is found.
    unfoldable pub batch_apply : World → BatchRequest → World × BatchResponse
    unfolding nothing_given apply_content read_config
    batch_apply w req =
        if nothing_given req then (w, nothing_to_apply) else apply_content req (read_config w)
