-- ===== src/Handler/Config/Rules.antt =====
-- Routing rules: their priorities, and the actions of manageRouting and of the batch.
pub mod Edit
pub mod Order
pub mod Equivalence
use mmw_agent.Base.{
  ℕ, zero, suc, ◌+◌, ◌-◌, ◌*◌, ◌/◌, ◌%◌, ◌^◌, ◌≤◌, ◌<◌, ◌≡◌, refl, sym, ap, ◌∙◌, ◌≢◌, ◌↔◌, ◌⊎◌, inl,
  inr, ite, Bool, true, false, not, ◌&&◌, ◌||◌, Option, none, some, List, [], ◌∷◌, ◌++◌, map, arith,
  Text, text, text_eq, nat_eq, ◌==◌, ltb, leb, if◌then◌else◌, ltb→lt, lt→ltb, le→ltb, Bool-cases,
  Option-cases, length, take, drop, All, length-append, length-drop, take-append, drop-append,
  length-take, take-drop, drop-length-take, Eq, contains,
}
use mmw_agent.Json.{
  Json, null, bool, num, str, arr, obj, Items, nil, cons, Fields, end, field, Object, list_of,
  items_of, dict_of, fields_of, array, object, as_array, as_object, as_string, as_bool, then_as,
  or_none, or_nil, array_at, object_at, string_at, items_at, list_of-items_of, dict_of-fields_of,
  as_array-array, as_object-object, items_at-insert, object_at-insert, array_at-insert,
  string_at-insert, sprint, sprint_at,
}
use mmw_agent.Base.Int.{ℤ, pos, negsuc, is_pos, is_neg, ltb_ℤ, add_one, sub_one, to_ℕ}
use mmw_agent.Base.Strings.{
  show_int, has_prefix, is_space, is_blank, to_lower, trim_space, join, text_le,
}
use mmw_agent.Base.Dict.{
  Dict, lookup, insert, erase, lookup-cons, lookup-insert, lookup-erase, keys, is_some,
  contains-keys,
}
use mmw_agent.Handler.Config.Clients.{object_or_empty}

-- len(strings.Split(s, ":"))
unfoldable pub split_count : Text → ℕ
unfolding nat_eq
split_count [] = 1
split_count (c ∷ cs) = if c == b':' then suc (split_count cs) else split_count cs

-- ClassifyRulePriority
unfoldable pub classify_marktag : Text → ℤ
unfolding has_prefix split_count nat_eq text_eq contains
classify_marktag marktag =
    if has_prefix marktag (text "routed:")
    then (if split_count marktag == 4 then pos 1 else pos 2)
    else (if contains marktag (text "home_broadband_warp" ∷ text "speedtest_warp" ∷ [])
        then pos 3
        else pos 4)

unfoldable pub classify_rule_priority : Option Object → ℤ
unfolding classify_marktag text_eq has_prefix
classify_rule_priority none = pos 4
classify_rule_priority (some rule) =
    let outbound = string_at (text "outboundTag") rule in
    if outbound == text "nginx"
    then negsuc 0
    else (if has_prefix outbound (text "tunnel-")
        then pos 0
        else classify_marktag (string_at (text "marktag") rule))

-- Whether the new rule goes before this one: items that are no objects are passed over.
unfoldable pub goes_before : ℤ → Option Object → Bool
unfolding classify_rule_priority
goes_before p none = false
goes_before p (some rule) = not (ltb_ℤ (classify_rule_priority (some rule)) p)

-- The new rule at the first place where a rule of at least its priority number stands.
unfoldable pub insert_rule : ℤ → Json → List Json → List Json
unfolding goes_before
insert_rule p rule [] = rule ∷ []
insert_rule p rule (r ∷ rs) =
    let rest = insert_rule p rule rs in
    if goes_before p (as_object r) then rule ∷ r ∷ rs else r ∷ rest

unfoldable pub is_user : Text → Json → Bool
unfolding text_eq
is_user email u = or_none (as_string u) == email

unfoldable pub has_user : Text → List Json → Bool
unfolding is_user
has_user email [] = false
has_user email (u ∷ us) = is_user email u || has_user email us

unfoldable pub drop_user : Text → List Json → List Json
unfolding is_user
drop_user email [] = []
drop_user email (u ∷ us) =
    let rest = drop_user email us in if is_user email u then rest else u ∷ rest

-- append if absent
unfoldable pub add_user : Text → List Json → List Json
unfolding has_user
add_user email users = if has_user email users then users else users ++ (str email ∷ [])

unfoldable pub with_users : Object → List Json → Json
with_users rule users = object (insert (text "user") (array users) rule)

-- A rule whose field has that value.
unfoldable pub is_marked : Text → Text → Option Object → Bool
unfolding text_eq
is_marked key value none = false
is_marked key value (some rule) = string_at key rule == value

unfoldable pub cons_rule : Json → Option (List Json) → Option (List Json)
cons_rule r none = none
cons_rule r (some rs) = some (r ∷ rs)

-- The users of the first such rule changed; none if there is no such rule.
unfoldable pub change_users : Text → Text → (List Json → List Json) → List Json → Option (List Json)
unfolding is_marked with_users cons_rule
change_users key value f [] = none
change_users key value f (r ∷ rs) =
    let rest = change_users key value f rs in
    let rule = object_or_empty (as_object r) in
    if is_marked key value (as_object r)
    then some (with_users rule (f (items_at (text "user") rule)) ∷ rs)
    else cons_rule r rest

unfoldable pub with_rules : Object → Object → List Json → Object
with_rules config routing rules =
    insert (text "routing") (object (insert (text "rules") (array rules) routing)) config

-- An edit that was made, one that changes nothing, and an error.
pub data RouteResult : Type 0 where
  added present email_missing mark_missing no_routing rule_missing : RouteResult

-- The rule that is found, and whether the email is new to it.
unfoldable pub route_users : Text → Text → List Json → Option (List Json)
unfolding is_marked
route_users key value [] = none
route_users key value (r ∷ rs) =
    let rest = route_users key value rs in
    let rule = object_or_empty (as_object r) in
    if is_marked key value (as_object r) then some (items_at (text "user") rule) else rest

unfoldable pub added_rules : Object → Object → Option (List Json) → Object × RouteResult
added_rules config routing none = (config, rule_missing)
added_rules config routing (some rules) = (with_rules config routing rules, added)

-- By the users of the rule that is found.
unfoldable pub add_found :
    Object → Object → Text → Option (List Json) → Option (List Json) → Object × RouteResult
unfolding has_user added_rules
add_found config routing email none rules = (config, rule_missing)
add_found config routing email (some users) rules =
    if has_user email users then (config, present) else added_rules config routing rules

unfoldable pub add_to_rule : Object → Text → Text → Text → Option Object → Object × RouteResult
unfolding route_users change_users add_user add_found
add_to_rule config key value email none = (config, no_routing)
add_to_rule config key value email (some routing) =
    let rules = items_at (text "rules") routing in
    add_found config routing email (route_users key value rules)
      (change_users key value (add_user email) rules)

-- applyAddUserToRouteInConfig: by marktag if there is one, else by outbound tag.
unfoldable pub apply_add_user_to_route : Object → Text → Text → Text → Object × RouteResult
unfolding add_to_rule trim_space text_eq
apply_add_user_to_route config marktag outbound_tag email =
    if trim_space email == []
    then (config, email_missing)
    else (if trim_space marktag == [] && trim_space outbound_tag == []
        then (config, mark_missing)
        else (if marktag == []
            then add_to_rule config (text "outboundTag") outbound_tag email
                (object_at (text "routing") config)
            else add_to_rule config (text "marktag") marktag email
                (object_at (text "routing") config)))
