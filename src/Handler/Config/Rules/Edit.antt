-- ===== src/Handler/Config/Rules/Edit.antt =====
-- manageRouting: the edit of the configuration by action, or the status of the refusal.
use mmw_agent.Base.{
  ℕ, suc, Bool, not, ◌||◌, Option, none, some, List, [], ◌++◌, Text, text, text_eq, nat_eq, ◌==◌,
  if◌then◌else◌, length, take, drop,
}
use mmw_agent.Json.{Json, Object, object, object_at, items_at}
use mmw_agent.Base.Int.{ℤ, pos, is_neg, ltb_ℤ, to_ℕ}
use mmw_agent.Base.Strings.{to_lower, trim_space}
use mmw_agent.Base.Dict.{insert, erase}
use mmw_agent.Handler.Config.Rules.{
  classify_rule_priority, insert_rule, change_users, add_user, drop_user, with_rules,
}

-- The three states of a json.RawMessage for an object: absent, null, an object; other values and
-- texts that do not parse are left alone.
pub data RawObject : Type 0 where
  absent cleared ignored : RawObject
  given : Object → RawObject

unfoldable pub apply_observatory : Object → Text → RawObject → Object
apply_observatory config key absent = config
apply_observatory config key cleared = erase key config
apply_observatory config key ignored = config
apply_observatory config key (given o) = insert key (object o) config

pub record RoutingRequest : Type 0 where
  pub action : Text
  pub routing : Option Object
  pub rule : Option Object
  pub index : ℤ
  pub observatory : RawObject
  pub burst_observatory : RawObject
  pub marktag : Text
  pub user_email : Text
  pub no_restart : Bool

-- A status, or the new configuration.
pub data Edit : Type 0 where
  refused : ℕ → Edit
  edited : Object → Edit

unfoldable pub set_routing : Object → RoutingRequest → Option Object → Edit
unfolding apply_observatory
set_routing config req none = refused 400
set_routing config req (some routing) = edited (
    apply_observatory
      (apply_observatory (insert (text "routing") (object routing) config) (text "observatory")
        req.observatory)
      (text "burstObservatory") req.burst_observatory)

unfoldable pub routing_or_empty : Option Object → Object
routing_or_empty none = []
routing_or_empty (some r) = r

unfoldable pub add_rule : Object → Option Object → Edit
unfolding routing_or_empty with_rules insert_rule classify_rule_priority
add_rule config none = refused 400
add_rule config (some rule) =
    let routing = routing_or_empty (object_at (text "routing") config) in
    edited (
      with_rules config routing (
        insert_rule (classify_rule_priority (some rule)) (object rule)
          (items_at (text "rules") routing)))

unfoldable pub remove_rule : Object → ℤ → Option Object → Edit
unfolding with_rules
remove_rule config index none = refused 400
remove_rule config index (some routing) =
    let rules = items_at (text "rules") routing in
    if is_neg index || not (ltb_ℤ index (pos (length rules)))
    then refused 400
    else edited
        (with_rules config routing (take (to_ℕ index) rules ++ drop (suc (to_ℕ index)) rules))

unfoldable pub edit_changed : Object → Object → Option (List Json) → Edit
unfolding with_rules
edit_changed config routing none = refused 404
edit_changed config routing (some rules) = edited (with_rules config routing rules)

unfoldable pub change_rule_users : Object → Text → (List Json → List Json) → Option Object → Edit
unfolding change_users edit_changed
change_rule_users config marktag f none = refused 400
change_rule_users config marktag f (some routing) =
    edit_changed config routing
      (change_users (text "marktag") marktag f (items_at (text "rules") routing))

unfoldable pub edit_rule_users : Object → RoutingRequest → (Text → List Json → List Json) → Edit
unfolding change_rule_users trim_space text_eq
edit_rule_users config req f =
    if trim_space req.marktag == [] || trim_space req.user_email == []
    then refused 400
    else change_rule_users config req.marktag (f req.user_email) (object_at (text "routing") config)

unfoldable pub routing_action : Text → Text
unfolding to_lower trim_space text_eq
routing_action a = let b = to_lower (trim_space a) in if b == [] then text "set" else b

unfoldable pub edit_by_action : Text → Object → RoutingRequest → Edit
unfolding set_routing add_rule remove_rule edit_rule_users add_user drop_user text_eq
edit_by_action action config req =
    if action == text "set"
    then set_routing config req req.routing
    else (if action == text "add_rule"
        then add_rule config req.rule
        else (if action == text "remove_rule"
            then remove_rule config req.index (object_at (text "routing") config)
            else (if action == text "add_user_to_rule"
                then edit_rule_users config req add_user
                else (if action == text "remove_user_from_rule"
                    then edit_rule_users config req drop_user
                    else refused 400))))

unfoldable pub edit_routing : Object → RoutingRequest → Edit
unfolding routing_action edit_by_action
edit_routing config req = edit_by_action (routing_action req.action) config req
