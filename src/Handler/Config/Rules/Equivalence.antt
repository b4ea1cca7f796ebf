-- ===== src/Handler/Config/Rules/Equivalence.antt =====
-- A user for a rule by manageRouting and by the batch.
use mmw_agent.Base.{
  ◌≡◌, refl, sym, ap, ◌∙◌, ◌≢◌, inl, inr, true, Option, none, some, List, [], ◌∷◌, arith, Text,
  text, text_eq, nat_eq, Bool-cases,
}
use mmw_agent.Json.{Json, Object, array, object, as_object, or_nil, array_at, object_at, items_at}
use mmw_agent.Base.Strings.{trim_space}
use mmw_agent.Base.Dict.{insert}
use mmw_agent.Json.{insert-array_at, insert-object_at, object-as_object}
use mmw_agent.Handler.Config.Rules.{
  RouteResult, added, present, email_missing, mark_missing, no_routing, rule_missing, has_user,
  add_user, is_marked, with_users, cons_rule, added_rules, add_found, change_users, route_users,
  with_rules, add_to_rule, apply_add_user_to_route,
}
use mmw_agent.Handler.Config.Clients.{object_or_empty}
use mmw_agent.Handler.Config.Rules.Edit.{
  RoutingRequest, Edit, refused, edited, edit_changed, change_rule_users, edit_rule_users,
  edit_routing, edit_by_action, routing_action,
}

-- What manageRouting answers where the batch has that result.
abbrev pub as_edit : Object × RouteResult → Edit
as_edit (config, added) = edited config
as_edit (config, present) = edited config
as_edit (config, email_missing) = refused 400
as_edit (config, mark_missing) = refused 400
as_edit (config, no_routing) = refused 400
as_edit (config, rule_missing) = refused 404

module _ (key value email : Text) where
  change_users-none :
      (rs : List Json)
      → route_users key value rs ≡ none
      → change_users key value (add_user email) rs ≡ none
  unfolding route_users change_users cons_rule
  change_users-none [] h = refl
  change_users-none (r ∷ rs) h = ground (arith, change_users-none rs)

  -- A rule with the user, written again, is the same.
  users_again :
      (r : Json) (rule : Object) (o : Option (List Json))
      → as_object r ≡ some rule
      → array_at (text "user") rule ≡ o
      → has_user email (or_nil o) ≡ true
      → with_users rule (add_user email (or_nil o)) ≡ r
  unfolding with_users add_user has_user
  users_again r rule none e a h = ground arith
  users_again r rule (some us) e a h =
      let kept : add_user email us ≡ us = ground (arith, h) in
      ap (λ xs. object (insert (text "user") (array xs) rule)) kept
      ∙ ap object (insert-array_at (text "user") rule us a)
      ∙ object-as_object r rule e

  with_users-same :
      (r : Json) (o : Option Object)
      → as_object r ≡ o
      → is_marked key value o ≡ true
      → has_user email (items_at (text "user") (object_or_empty o)) ≡ true
      → with_users (object_or_empty o) (add_user email (items_at (text "user") (object_or_empty o)))
        ≡ r
  unfolding is_marked items_at object_or_empty
  with_users-same r none e m h = ground arith
  with_users-same r (some rule) e m h = users_again r rule (array_at (text "user") rule) e refl h

  change_users-same :
      (rs users : List Json)
      → route_users key value rs ≡ some users
      → has_user email users ≡ true
      → change_users key value (add_user email) rs ≡ some rs
  unfolding route_users change_users cons_rule
  change_users-same [] users h p = ground arith
  change_users-same (r ∷ rs) users h p = elim (Bool-cases (is_marked key value (as_object r))) [
    | inl same ↦ ground (arith, same, with_users-same r (as_object r) refl same)
    | inr other ↦ ground (arith, other, change_users-same rs users)
  ]

module _ (config routing : Object) (email : Text) where
  rules_again :
      (o : Option (List Json))
      → object_at (text "routing") config ≡ some routing
      → array_at (text "rules") routing ≡ o
      → o ≢ none
      → with_rules config routing (or_nil o) ≡ config
  unfolding with_rules
  rules_again none e a h = ground (arith, h refl)
  rules_again (some rules) e a h =
      ap (λ x. insert (text "routing") (object x) config)
        (insert-array_at (text "rules") routing rules a)
      ∙ insert-object_at (text "routing") config routing e

  edit_users :
      (users rules : Option (List Json))
      → (users ≡ none → rules ≡ none)
      → ((us : List Json)
          → users ≡ some us
          → has_user email us ≡ true
          → edit_changed config routing rules ≡ edited config)
      → as_edit (add_found config routing email users rules) ≡ edit_changed config routing rules
  unfolding add_found added_rules edit_changed with_rules
  edit_users none none f g = refl
  edit_users none (some rs) f g = ground (arith, f refl)
  edit_users (some us) none f g = ground (arith, g us refl)
  edit_users (some us) (some rs) f g = ground (arith, g us refl)

  -- The rules with the user in them already are those of the configuration.
  present_again :
      (marktag : Text) (o : Option (List Json)) (us : List Json)
      → object_at (text "routing") config ≡ some routing
      → array_at (text "rules") routing ≡ o
      → route_users (text "marktag") marktag (or_nil o) ≡ some us
      → has_user email us ≡ true
      → edit_changed config routing
          (change_users (text "marktag") marktag (add_user email) (or_nil o))
        ≡ edited config
  unfolding edit_changed route_users
  present_again marktag none us e a found p = ground arith
  present_again marktag (some rules) us e a found p =
      ap (edit_changed config routing)
        (change_users-same (text "marktag") marktag email rules us found p)
      ∙ ap edited (rules_again (some rules) e a (λ h. ground (arith, h)))

module _ (config : Object) (marktag email : Text) where
  add_to_rule-as_edit :
      (o : Option Object)
      → object_at (text "routing") config ≡ o
      → as_edit (add_to_rule config (text "marktag") marktag email o)
        ≡ change_rule_users config marktag (add_user email) o
  unfolding add_to_rule change_rule_users items_at
  add_to_rule-as_edit none e = refl
  add_to_rule-as_edit (some routing) e =
      let rules = items_at (text "rules") routing in
      edit_users config routing email (route_users (text "marktag") marktag rules)
        (change_users (text "marktag") marktag (add_user email) rules)
        (change_users-none (text "marktag") marktag email rules)
        (λ us found p.
          present_again config routing email marktag (array_at (text "rules") routing) us e refl
            found p)

add_user-edit_by_action :
    (config : Object) (req : RoutingRequest)
    → edit_by_action (text "add_user_to_rule") config req ≡ edit_rule_users config req add_user
unfolding edit_by_action text_eq nat_eq
add_user-edit_by_action config req = refl

trim_space-nil : (t : Text) → trim_space t ≢ [] → t ≢ []
unfolding trim_space
trim_space-nil [] h = λ _. h refl
trim_space-nil (c ∷ cs) h = λ e. ground arith

by_marktag :
    (config : Object) (outbound_tag : Text) (req : RoutingRequest)
    → trim_space req.marktag ≢ []
    → as_edit (apply_add_user_to_route config req.marktag outbound_tag req.user_email)
      ≡ edit_rule_users config req add_user
unfolding apply_add_user_to_route edit_rule_users
by_marktag config outbound_tag req m =
    let same =
      add_to_rule-as_edit config req.marktag req.user_email (object_at (text "routing") config)
        refl in
    let given = trim_space-nil req.marktag m in ground (arith, same, given, m)

-- For a marktag that is not blank, adding a user to a rule by the batch gives the configuration or the
-- refusal that the action add_user_to_rule of manageRouting gives, whatever the outbound tag.
pub apply_add_user_to_route-edit_routing :
    (config : Object) (outbound_tag : Text) (req : RoutingRequest)
    → routing_action req.action ≡ text "add_user_to_rule"
    → trim_space req.marktag ≢ []
    → as_edit (apply_add_user_to_route config req.marktag outbound_tag req.user_email)
      ≡ edit_routing config req
unfolding edit_routing
apply_add_user_to_route-edit_routing config outbound_tag req a m =
    by_marktag config outbound_tag req m
    ∙ sym (ap (λ action. edit_by_action action config req) a ∙ add_user-edit_by_action config req)
