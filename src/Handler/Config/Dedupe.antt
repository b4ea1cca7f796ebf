-- ===== src/Handler/Config/Dedupe.antt =====
-- dedupeTaggedArrayInPlace: one inbound or outbound for each tag, with the clients of all copies.
pub mod Loop
pub mod Distinct
pub mod Kept
use mmw_agent.Base.{
  ℕ, zero, suc, ◌+◌, ◌-◌, ◌*◌, ◌/◌, ◌%◌, ◌^◌, ◌≤◌, ◌<◌, ◌≡◌, refl, sym, ap, ◌∙◌, ◌≢◌, ◌↔◌, ◌⊎◌, inl,
  inr, ite, Bool, true, false, not, ◌&&◌, ◌||◌, Option, none, some, List, [], ◌∷◌, ◌++◌, map, arith,
  Text, text, text_eq, nat_eq, ◌==◌, ltb, leb, if◌then◌else◌, ltb→lt, lt→ltb, le→ltb, Bool-cases,
  Option-cases, length, take, drop, All, length-append, length-drop, take-append, drop-append,
  length-take, take-drop, drop-length-take, Eq, contains,
}
use mmw_agent.Json.{
  Json, null, bool, num, str, arr, obj, Items, nil, cons, Fields, end, field, Object, list_of,
  items_of, dict_of, fields_of, array, object, as_array, as_object, as_string, as_bool, then_as,
  or_none, or_nil, array_at, object_at, string_at, items_at, list_of-items_of, dict_of-fields_of,
  as_array-array, as_object-object, items_at-insert, object_at-insert, array_at-insert,
  string_at-insert, sprint, sprint_at,
}
use mmw_agent.Base.Int.{ℤ, pos, negsuc, is_pos, is_neg, ltb_ℤ, add_one, sub_one, to_ℕ}
use mmw_agent.Base.Strings.{
  show_int, has_prefix, is_space, is_blank, to_lower, trim_space, join, text_le,
}
use mmw_agent.Base.Dict.{
  Dict, lookup, insert, erase, lookup-cons, lookup-insert, lookup-erase, keys, is_some,
  contains-keys,
}
use mmw_agent.Handler.Config.Clients.{merge_inbound_clients}

-- The tag of an item, empty for an item that is no object or has none.
unfoldable pub tag_of : Json → Text
tag_of item = elim (as_object item) [ none ↦ [] | some m ↦ string_at (text "tag") m ]

-- seen[tag]: an item with that tag was kept.
unfoldable pub has_tag : Text → List Json → Bool
unfolding tag_of text_eq
has_tag tag [] = false
has_tag tag (x ∷ xs) = tag_of x == tag || has_tag tag xs

unfoldable pub merge_item : Json → Json → Json
merge_item first copy = elim (as_object first) [
  | none ↦ first
  | some dst ↦ elim (as_object copy) [
    | none ↦ first
    | some src ↦ object (merge_inbound_clients dst src)
  ]
]

-- The clients of a copy go into the first item with its tag.
unfoldable pub merge_into_first : Text → Json → List Json → List Json
unfolding tag_of text_eq
merge_into_first tag copy [] = []
merge_into_first tag copy (x ∷ xs) =
    let rest = merge_into_first tag copy xs in
    if tag_of x == tag then merge_item x copy ∷ xs else x ∷ rest

-- The loop: the items that are kept and the number that was removed.
unfoldable pub dedupe_loop : Bool → List Json → ℕ → List Json → List Json × ℕ
unfolding text_eq tag_of has_tag
dedupe_loop merging kept removed [] = (kept, removed)
dedupe_loop merging kept removed (item ∷ items) =
    let tag = tag_of item in
    let next = dedupe_loop merging (kept ++ (item ∷ [])) removed items in
    let merged =
      dedupe_loop merging (if merging then merge_into_first tag item kept else kept) (suc removed)
        items in
    if tag == [] then next else (if has_tag tag kept then merged else next)

unfoldable pub dedupe_array : Object → Text → Option (List Json) → Object × ℕ
unfolding text_eq nat_eq
dedupe_array config key none = (config, 0)
dedupe_array config key (some items) =
    let (kept, removed) = dedupe_loop (key == text "inbounds") [] 0 items in
    (if removed == 0 then config else insert key (array kept) config, removed)

unfoldable pub dedupe_tagged_array : Object → Text → Object × ℕ
unfolding dedupe_array
dedupe_tagged_array config key = dedupe_array config key (array_at key config)
