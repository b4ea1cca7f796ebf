-- ===== src/Handler/Config/Tests.antt =====
-- Examples of the edits of a configuration.
use mmw_agent.Base.{
  ℕ, ◌≡◌, refl, ◌≢◌, true, false, none, some, List, [], ◌∷◌, ◌++◌, arith, text, text_eq, nat_eq,
  take, drop,
}
use mmw_agent.Json.{Json, str, Object, array, object, as_object, array_at, object_at, string_at}
use mmw_agent.Base.Int.{pos}
use mmw_agent.Base.Strings.{trim_space}
use mmw_agent.Base.Dict.{lookup, insert}
use mmw_agent.Handler.Config.Clients.{clients_key, merged_protocol, merge_inbound_clients}
use mmw_agent.Handler.Config.Dedupe.{dedupe_tagged_array}
use mmw_agent.Handler.Config.Dedupe.Distinct.{Cleaned, dedupe_tagged_array-Cleaned}
use mmw_agent.Handler.Config.Dedupe.Kept.{Merged, merge_inbound_clients-Merged}
use mmw_agent.Handler.Config.Inbounds.{remove_inbound}
use mmw_agent.Handler.Config.Inbounds.Removed.{Removed, remove_inbound-Removed}
use mmw_agent.Handler.Config.Rules.{classify_rule_priority, insert_rule, apply_add_user_to_route}
use mmw_agent.Handler.Config.Rules.Order.{Ordered, insert_rule-Ordered}
use mmw_agent.Handler.Config.Rules.Edit.{RoutingRequest, absent, routing_action, edit_routing}
use mmw_agent.Handler.Config.Dedupe.{dedupe_loop}
use mmw_agent.Handler.Config.Rules.Equivalence.{as_edit, apply_add_user_to_route-edit_routing}

abbrev client_a : Object
client_a = (text "id", str (text "u-1")) ∷ (text "email", str (text "a")) ∷ []

abbrev client_b : Object
client_b = (text "id", str (text "u-2")) ∷ (text "email", str (text "b")) ∷ []

abbrev settings_with : List Json → Object
settings_with clients = (text "clients", array clients) ∷ []

abbrev inbound_with : List Json → Object
inbound_with clients =
    (text "tag", str (text "in"))
    ∷ (text "protocol", str (text "vless"))
    ∷ (text "settings", object (settings_with clients))
    ∷ []

abbrev first_copy : Object
first_copy = inbound_with (object client_a ∷ [])

abbrev second_copy : Object
second_copy = inbound_with (object client_a ∷ object client_b ∷ [])

abbrev two_inbounds : List Json
two_inbounds = object first_copy ∷ object second_copy ∷ []

abbrev user_rule : Object
user_rule =
    (text "marktag", str (text "routed:1:2:3"))
    ∷ (text "inboundTag", array (str (text "in") ∷ []))
    ∷ (text "user", array (str (text "a") ∷ []))
    ∷ []

abbrev plain_rule : Object
plain_rule =
    (text "inboundTag", str (text "other")) ∷ (text "outboundTag", str (text "direct")) ∷ []

abbrev two_rules : List Json
two_rules = object user_rule ∷ object plain_rule ∷ []

abbrev config : Object
config =
    (text "inbounds", array two_inbounds)
    ∷ (text "routing", object ((text "rules", array two_rules) ∷ []))
    ∷ []

test_dedupe : (dedupe_tagged_array config (text "inbounds")).1 ≡ 1
unfolding dedupe_tagged_array array_at lookup dedupe_loop string_at
test_dedupe = refl

test_remove : (remove_inbound config (text "in")).1 ≡ true
unfolding remove_inbound object_at lookup insert array_at
test_remove = refl

dedupe_tagged_array-Cleaned_example :
    Cleaned (text "inbounds") two_inbounds (dedupe_tagged_array config (text "inbounds"))
unfolding array_at lookup text_eq
dedupe_tagged_array-Cleaned_example =
    dedupe_tagged_array-Cleaned config (text "inbounds") two_inbounds refl

merge_inbound_clients-Merged_example :
    Merged
      (merged_protocol first_copy second_copy)
      (text "clients")
      (settings_with (object client_a ∷ []))
      (settings_with (object client_a ∷ object client_b ∷ []))
      (merge_inbound_clients first_copy second_copy)
unfolding object_at clients_key merged_protocol lookup string_at
merge_inbound_clients-Merged_example =
    merge_inbound_clients-Merged first_copy second_copy (settings_with (object client_a ∷ []))
      (settings_with (object client_a ∷ object client_b ∷ [])) (text "clients") refl refl refl

remove_inbound-Removed_example : Removed (text "in") config (remove_inbound config (text "in")).0
remove_inbound-Removed_example = remove_inbound-Removed config (text "in")

user_rule-priority : classify_rule_priority (as_object (object user_rule)) ≡ pos 1
unfolding classify_rule_priority string_at lookup
user_rule-priority = refl

plain_rule-priority : classify_rule_priority (as_object (object plain_rule)) ≡ pos 4
unfolding classify_rule_priority string_at lookup
plain_rule-priority = refl

two_rules-Ordered : Ordered two_rules
two_rules-Ordered = ((ground (arith, user_rule-priority, plain_rule-priority), tt), (tt, tt))

abbrev new_rule : Object
new_rule = (text "marktag", str (text "speedtest_warp")) ∷ []

insert_rule-Ordered_example :
    Ordered (insert_rule (classify_rule_priority (some new_rule)) (object new_rule) two_rules)
    × ((n : ℕ) × (insert_rule (classify_rule_priority (some new_rule)) (object new_rule) two_rules
          ≡ take n two_rules ++ (object new_rule ∷ drop n two_rules)))
insert_rule-Ordered_example = insert_rule-Ordered new_rule two_rules two_rules-Ordered

abbrev add_request : RoutingRequest
add_request = record {
  action = text " Add_User_To_Rule";
  routing = none;
  rule = none;
  index = pos 0;
  observatory = absent;
  burst_observatory = absent;
  marktag = text "routed:1:2:3";
  user_email = text "b";
  no_restart = false;
}

marked : trim_space (text "routed:1:2:3") ≢ []
unfolding trim_space
marked = λ e. ground (arith, e)

apply_add_user_to_route-edit_routing_example :
    as_edit (apply_add_user_to_route config (text "routed:1:2:3") (text "direct") (text "b"))
    ≡ edit_routing config add_request
unfolding routing_action nat_eq
apply_add_user_to_route-edit_routing_example =
    apply_add_user_to_route-edit_routing config (text "direct") add_request refl marked
