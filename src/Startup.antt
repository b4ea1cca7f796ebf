-- ===== src/Startup.antt =====
-- cmd/mmw-agent/main.go: what the agent does to the configuration of xray when it starts.
pub mod Signature
pub mod Patch
pub mod Restart
pub mod Tests
use mmw_agent.Base.{
  ℕ, zero, suc, ◌+◌, ◌-◌, ◌*◌, ◌/◌, ◌%◌, ◌^◌, ◌≤◌, ◌<◌, ◌≡◌, refl, sym, ap, ◌∙◌, ◌≢◌, ◌↔◌, ◌⊎◌, inl,
  inr, ite, Bool, true, false, not, ◌&&◌, ◌||◌, Option, none, some, List, [], ◌∷◌, ◌++◌, map, arith,
  Text, text, text_eq, nat_eq, ◌==◌, ltb, leb, if◌then◌else◌, ltb→lt, lt→ltb, le→ltb, Bool-cases,
  Option-cases, length, take, drop, All, length-append, length-drop, take-append, drop-append,
  length-take, take-drop, drop-length-take, Eq, contains,
}
use mmw_agent.Json.{
  Json, null, bool, num, str, arr, obj, Items, nil, cons, Fields, end, field, Object, list_of,
  items_of, dict_of, fields_of, array, object, as_array, as_object, as_string, as_bool, then_as,
  or_none, or_nil, array_at, object_at, string_at, items_at, list_of-items_of, dict_of-fields_of,
  as_array-array, as_object-object, items_at-insert, object_at-insert, array_at-insert,
  string_at-insert, sprint, sprint_at,
}
use mmw_agent.Base.Int.{ℤ, pos, negsuc, is_pos, is_neg, ltb_ℤ, add_one, sub_one, to_ℕ}
use mmw_agent.Base.Strings.{
  show_int, has_prefix, is_space, is_blank, to_lower, trim_space, join, text_le,
}
use mmw_agent.Base.Dict.{
  Dict, lookup, insert, erase, lookup-cons, lookup-insert, lookup-erase, keys, is_some,
  contains-keys,
}
use mmw_agent.Handler.Config.Clients.{object_or_empty}
use mmw_agent.Handler.Config.Rules.{classify_rule_priority}
use mmw_agent.Startup.Signature.{rule_signature}

-- obj["tag"] and the like, empty for an item that is no object.
unfoldable pub field_of : Text → Json → Text
field_of key item = string_at key (object_or_empty (as_object item))

-- tplTags[tag] and the like: some item has that value, which is not empty.
unfoldable pub has_field : Text → Text → List Json → Bool
unfolding field_of text_eq
has_field key value [] = false
has_field key value (x ∷ xs) =
    (not (value == []) && field_of key x == value) || has_field key value xs

unfoldable pub keep_untagged : List Json → List Json → List Json
unfolding has_field field_of
keep_untagged template [] = []
keep_untagged template (x ∷ xs) =
    let rest = keep_untagged template xs in
    if has_field (text "tag") (field_of (text "tag") x) template then rest else x ∷ rest

-- mergeTaggedArray
unfoldable pub merge_tagged_array : List Json → List Json → List Json
unfolding keep_untagged
merge_tagged_array existing template = template ++ keep_untagged template existing

unfoldable pub signatures : List Json → List Text
signatures [] = []
signatures (r ∷ rs) = rule_signature r ∷ signatures rs

-- The template has a rule with the same marktag or of the same content.
unfoldable pub is_replaced : List Json → Json → Bool
unfolding has_field field_of signatures contains text_eq
is_replaced template r =
    is_some (as_object r)
    && (has_field (text "marktag") (field_of (text "marktag") r) template
        || contains (rule_signature r) (signatures template))

unfoldable pub keep_rules : List Json → List Json → List Json
unfolding is_replaced
keep_rules template [] = []
keep_rules template (r ∷ rs) =
    let rest = keep_rules template rs in if is_replaced template r then rest else r ∷ rest

unfoldable pub priority : Json → ℤ
priority r = classify_rule_priority (as_object r)

-- sort.SliceStable by priority
unfoldable pub insert_stable : Json → List Json → List Json
unfolding priority
insert_stable r [] = r ∷ []
insert_stable r (x ∷ xs) =
    let rest = insert_stable r xs in
    if ltb_ℤ (priority x) (priority r) then x ∷ rest else r ∷ x ∷ xs

unfoldable pub sort_stable : List Json → List Json
unfolding insert_stable
sort_stable [] = []
sort_stable (r ∷ rs) = insert_stable r (sort_stable rs)

unfoldable pub merge_rules : List Json → List Json → List Json
unfolding sort_stable keep_rules
merge_rules existing template = sort_stable (template ++ keep_rules template existing)

unfoldable pub override_fields : Object → Object → Object
unfolding text_eq
override_fields merged [] = merged
override_fields merged ((k, v) ∷ template) =
    override_fields (if k == text "rules" then merged else insert k v merged) template

-- mergeRouting; a nil map is written as null.
unfoldable pub merge_routing : Option Object → Option Object → Json
unfolding override_fields merge_rules
merge_routing none none = null
merge_routing (some existing) none = object existing
merge_routing none (some template) = object template
merge_routing (some existing) (some template) = object (
    insert (text "rules")
      (array (merge_rules (items_at (text "rules") existing) (items_at (text "rules") template)))
      (override_fields existing template))

unfoldable pub merged_field : Object → Text → Json → Json
unfolding merge_tagged_array merge_routing text_eq
merged_field existing k v =
    if k == text "inbounds" || k == text "outbounds"
    then array (merge_tagged_array (items_at k existing) (or_nil (as_array v)))
    else (if k == text "routing" then merge_routing (object_at k existing) (as_object v) else v)

unfoldable pub merge_template : Object → Object → Object → Object
unfolding merged_field
merge_template existing result [] = result
merge_template existing result ((k, v) ∷ template) =
    merge_template existing (insert k (merged_field existing k v) result) template

-- mergeXrayConfig on the parsed files; none for a file that does not parse.
unfoldable pub merge_xray_config : Option Object → Option Object → Option Object
unfolding merge_template
merge_xray_config none template = none
merge_xray_config (some existing) none = none
merge_xray_config (some existing) (some template) = some (merge_template existing existing template)
