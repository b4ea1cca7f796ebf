-- ===== src/Handler/Config/Inbounds.antt =====
-- Inbounds: tags for those without one, storing, removing with the rules that refer to them, listing.
pub mod Removal
pub mod Narrowed
pub mod Removed
use mmw_agent.Base.{
  ℕ, zero, suc, ◌+◌, ◌-◌, ◌*◌, ◌/◌, ◌%◌, ◌^◌, ◌≤◌, ◌<◌, ◌≡◌, refl, sym, ap, ◌∙◌, ◌≢◌, ◌↔◌, ◌⊎◌, inl,
  inr, ite, Bool, true, false, not, ◌&&◌, ◌||◌, Option, none, some, List, [], ◌∷◌, ◌++◌, map, arith,
  Text, text, text_eq, nat_eq, ◌==◌, ltb, leb, if◌then◌else◌, ltb→lt, lt→ltb, le→ltb, Bool-cases,
  Option-cases, length, take, drop, All, length-append, length-drop, take-append, drop-append,
  length-take, take-drop, drop-length-take, Eq, contains,
}
use mmw_agent.Json.{
  Json, null, bool, num, str, arr, obj, Items, nil, cons, Fields, end, field, Object, list_of,
  items_of, dict_of, fields_of, array, object, as_array, as_object, as_string, as_bool, then_as,
  or_none, or_nil, array_at, object_at, string_at, items_at, list_of-items_of, dict_of-fields_of,
  as_array-array, as_object-object, items_at-insert, object_at-insert, array_at-insert,
  string_at-insert, sprint, sprint_at,
}
use mmw_agent.Base.Int.{ℤ, pos, negsuc, is_pos, is_neg, ltb_ℤ, add_one, sub_one, to_ℕ}
use mmw_agent.Base.Strings.{
  show_int, has_prefix, is_space, is_blank, to_lower, trim_space, join, text_le,
}
use mmw_agent.Base.Dict.{
  Dict, lookup, insert, erase, lookup-cons, lookup-insert, lookup-erase, keys, is_some,
  contains-keys,
}
use mmw_agent.Handler.Config.Dedupe.{tag_of, dedupe_tagged_array}

unfoldable pub port_number : Option Json → ℤ
port_number (some (num n t)) = n
port_number (some null) = pos 0
port_number (some (bool b)) = pos 0
port_number (some (str t)) = pos 0
port_number (some (arr xs)) = pos 0
port_number (some (obj fs)) = pos 0
port_number none = pos 0

-- int(m["port"].(float64)), 0 where it is no number.
unfoldable pub port_of : Object → ℤ
unfolding port_number
port_of m = port_number (lookup (text "port") m)

-- fmt.Sprintf("%s-%d", protocol, port)
unfoldable pub generated_tag : Text → ℤ → Text
unfolding show_int
generated_tag protocol port = protocol ++ (b'-' ∷ show_int port)

-- The object with its tag, and whether one was made.
unfoldable pub promote_one_inbound_tag : Object → Object × Bool
unfolding text_eq port_of generated_tag
promote_one_inbound_tag m =
    let protocol = string_at (text "protocol") m in
    let port = port_of m in
    if not (string_at (text "tag") m == [])
    then (m, false)
    else (if protocol == []
        then (m, false)
        else (if not (is_pos port)
            then (m, false)
            else (insert (text "tag") (str (generated_tag protocol port)) m, true)))

unfoldable pub promote_item : Json → Option Object → Json × Bool
unfolding promote_one_inbound_tag
promote_item item none = (item, false)
promote_item item (some m) =
    let (m', made) = promote_one_inbound_tag m in (if made then object m' else item, made)

unfoldable pub promote_items : List Json → List Json × Bool
promote_items [] = ([], false)
promote_items (item ∷ items) =
    let (item', made) = promote_item item (as_object item) in
    let (rest, more) = promote_items items in (item' ∷ rest, made || more)

-- The file's content: none if it stays as it is.
unfoldable pub promote_inbound_tags : Object → Option Object
promote_inbound_tags raw = elim (array_at (text "inbounds") raw) [
  | some items ↦
      let (items', made) = promote_items items in
      if made then some (insert (text "inbounds") (array items') raw) else none
  | none ↦
      let (raw', made) = promote_one_inbound_tag raw in
      elim (then_as as_string (lookup (text "protocol") raw)) [
        | none ↦ none
        | some _ ↦ if made then some raw' else none
      ]
]

unfoldable pub inbound_matches_removal_tag : Object → Text → Bool
unfolding text_eq port_of generated_tag
inbound_matches_removal_tag m tag =
    let protocol = string_at (text "protocol") m in
    if not (string_at (text "tag") m == [])
    then string_at (text "tag") m == tag
    else not (protocol == []) && (is_pos (port_of m) && tag == generated_tag protocol (port_of m))

-- The loop that replaces the first item with the tag, and whether there is one.
unfoldable pub replace_tagged : Text → Json → List Json → List Json × Bool
unfolding tag_of text_eq
replace_tagged tag item [] = ([], false)
replace_tagged tag item (x ∷ xs) =
    let rest = replace_tagged tag item xs in
    if is_some (as_object x) && tag_of x == tag then (item ∷ xs, true) else (x ∷ rest.0, rest.1)

-- Replaces the item with the tag, or appends it.
unfoldable pub upsert : Text → Json → List Json → List Json
unfolding replace_tagged
upsert tag item xs =
    let (xs', found) = replace_tagged tag item xs in if found then xs' else xs' ++ (item ∷ [])

-- What persistInbound makes of the configuration.
unfoldable pub persist_inbound : Object → Object → Object
unfolding upsert text_eq dedupe_tagged_array
persist_inbound config inbound =
    let tag = string_at (text "tag") inbound in
    let inbounds = items_at (text "inbounds") config in
    let stored =
      if tag == []
      then inbounds ++ (object inbound ∷ [])
      else upsert tag (object inbound) inbounds in
    let config' = insert (text "inbounds") (array stored) config in
    (dedupe_tagged_array (dedupe_tagged_array config' (text "inbounds")).0 (text "outbounds")).0

-- Whether an item has the tag, or would get it.
abbrev pub is_removed : Text → Option Object → Bool
is_removed tag none = false
is_removed tag (some m) = inbound_matches_removal_tag m tag

unfoldable pub drop_inbounds : Text → List Json → List Json
drop_inbounds tag [] = []
drop_inbounds tag (x ∷ xs) =
    let rest = drop_inbounds tag xs in if is_removed tag (as_object x) then rest else x ∷ rest

unfoldable pub is_text : Text → Json → Bool
unfolding text_eq
is_text tag x = elim (as_string x) [ none ↦ false | some t ↦ t == tag ]

-- The tags of a rule without that one, and how many went.
unfoldable pub drop_tags : Text → List Json → List Json × ℕ
unfolding is_text
drop_tags tag [] = ([], 0)
drop_tags tag (t ∷ ts) =
    let (rest, n) = drop_tags tag ts in if is_text tag t then (rest, suc n) else (t ∷ rest, n)

-- The field inboundTag of a rule: the rule, if it stays, and the number of references that went.
unfoldable pub narrow_list : Text → Json → Object → List Json → Option Json × ℕ
unfolding drop_tags nat_eq
narrow_list tag raw rule tags =
    let (rest, n) = drop_tags tag tags in
    if length rest == 0 && not (length tags == 0) then (none, n) else (
      some (
          if length rest == length tags
          then raw
          else object (insert (text "inboundTag") (array rest) rule)),
      n,
    )

unfoldable pub narrow_tags : Text → Json → Object → Option Json → Option Json × ℕ
unfolding narrow_list text_eq
narrow_tags tag raw rule none = (some raw, 0)
narrow_tags tag raw rule (some (arr tags)) = narrow_list tag raw rule (list_of tags)
narrow_tags tag raw rule (some (str t)) = if t == tag then (none, 1) else (some raw, 0)
narrow_tags tag raw rule (some null) = (some raw, 0)
narrow_tags tag raw rule (some (bool b)) = (some raw, 0)
narrow_tags tag raw rule (some (num i t)) = (some raw, 0)
narrow_tags tag raw rule (some (obj fs)) = (some raw, 0)

unfoldable pub narrow_rule : Text → Json → Option Object → Option Json × ℕ
unfolding narrow_tags
narrow_rule tag raw none = (some raw, 0)
narrow_rule tag raw (some rule) = narrow_tags tag raw rule (lookup (text "inboundTag") rule)

unfoldable pub cons_some : Option Json → List Json → List Json
cons_some none xs = xs
cons_some (some x) xs = x ∷ xs

unfoldable pub narrow_rules : Text → List Json → List Json × ℕ
unfolding narrow_rule cons_some
narrow_rules tag [] = ([], 0)
narrow_rules tag (r ∷ rs) =
    let (r', n) = narrow_rule tag r (as_object r) in
    let (rs', m) = narrow_rules tag rs in (cons_some r' rs', n + m)

unfoldable pub narrow_routing : Object → Text → Object → Option (List Json) → Object × ℕ
unfolding narrow_rules nat_eq
narrow_routing config tag routing none = (config, 0)
narrow_routing config tag routing (some rules) =
    let (kept, changed) = narrow_rules tag rules in
    (
      if changed == 0
          then config
          else insert (text "routing") (object (insert (text "rules") (array kept) routing)) config,
      changed,
    )

unfoldable pub narrow_object : Object → Text → Option Object → Object × ℕ
unfolding narrow_routing
narrow_object config tag none = (config, 0)
narrow_object config tag (some routing) =
    narrow_routing config tag routing (array_at (text "rules") routing)

unfoldable pub remove_inbound_routing_references : Object → Text → Object × ℕ
unfolding narrow_object
remove_inbound_routing_references config tag =
    narrow_object config tag (object_at (text "routing") config)

-- The value that marshals a slice that was only appended to: null if nothing was.
unfoldable pub nil_array : List Json → Json
nil_array [] = null
nil_array (x ∷ xs) = array (x ∷ xs)

-- What removeInboundFromConfig makes of the main file, and whether the routing changed.
unfoldable pub remove_inbound : Object → Text → Object × Bool
unfolding drop_inbounds nil_array remove_inbound_routing_references nat_eq
remove_inbound config tag =
    let config' =
      insert (text "inbounds") (nil_array (drop_inbounds tag (items_at (text "inbounds") config)))
        config in
    let (config'', changed) = remove_inbound_routing_references config' tag in
    (config'', not (changed == 0))

-- mergeInbounds: the listing of the configured and the running inbounds.
unfoldable pub listed_tag : Object → Object → Object
unfolding text_eq port_of generated_tag
listed_tag ib copy =
    let protocol = string_at (text "protocol") ib in
    if string_at (text "tag") ib == [] && (not (protocol == []) && is_pos (port_of ib))
    then insert (text "_generated_tag") (bool true)
        (insert (text "tag") (str (generated_tag protocol (port_of ib))) copy)
    else copy

unfoldable pub listed_inbound : List Text → Object → Object
unfolding listed_tag text_eq
listed_inbound running ib = insert (text "_source") (str (text "config")) (
    insert (text "_runtime_status")
      (str (
        if contains (string_at (text "tag") ib) running
        then text "running"
        else text "not_running"))
      (listed_tag ib ib))

unfoldable pub listed_inbounds : List Text → List Object → List Object
unfolding listed_inbound text_eq
listed_inbounds running [] = []
listed_inbounds running (ib ∷ ibs) =
    let rest = listed_inbounds running ibs in
    if string_at (text "tag") ib == text "api" then rest else listed_inbound running ib ∷ rest

unfoldable pub config_tags : List Object → List Text
config_tags [] = []
config_tags (ib ∷ ibs) = elim (then_as as_string (lookup (text "tag") ib)) [
  | none ↦ config_tags ibs
  | some t ↦ t ∷ config_tags ibs
]

unfoldable pub runtime_only : List Text → List Text → List Object
runtime_only known [] = []
runtime_only known (t ∷ ts) =
    let rest = runtime_only known ts in
    if contains t known
    then rest
    else ((text "tag", str t)
        ∷ (text "_runtime_status", str (text "running"))
        ∷ (text "_source", str (text "runtime_only"))
        ∷ (text "_warning", str (text "This inbound is not persisted and will be lost on restart"))
        ∷ [])
      ∷ rest

unfoldable pub merge_inbounds : List Object → List Text → List Object
unfolding listed_inbounds config_tags runtime_only
merge_inbounds configured running =
    listed_inbounds running configured ++ runtime_only (config_tags configured) running
