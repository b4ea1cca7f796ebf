-- ===== src/Handler/Config/Outbounds.antt =====
-- Outbounds: storing, replacing, removing, reordering, and tags for those without one.
use mmw_agent.Base.{
  ℕ, suc, Bool, true, false, not, ◌&&◌, ◌||◌, Option, none, some, List, [], ◌∷◌, ◌++◌, Text, text,
  text_eq, nat_eq, ◌==◌, if◌then◌else◌,
}
use mmw_agent.Json.{Json, str, Object, array, object, as_object, array_at, string_at, items_at}
use mmw_agent.Base.Int.{pos}
use mmw_agent.Base.Dict.{insert}
use mmw_agent.Handler.Config.Dedupe.{tag_of}
use mmw_agent.Handler.Config.Inbounds.{generated_tag, upsert, nil_array}

-- What persistOutbound makes of the configuration.
unfoldable pub persist_outbound : Object → Object → Object
persist_outbound config outbound =
    insert (text "outbounds") (array (items_at (text "outbounds") config ++ (object outbound ∷ [])))
      config

-- What replaceOutboundInConfig makes of it.
unfoldable pub replace_outbound : Object → Text → Object → Object
unfolding upsert
replace_outbound config old_tag outbound =
    insert (text "outbounds")
      (array (upsert old_tag (object outbound) (items_at (text "outbounds") config))) config

unfoldable pub drop_outbounds : Text → List Json → List Json
unfolding text_eq
drop_outbounds tag [] = []
drop_outbounds tag (x ∷ xs) =
    let rest = drop_outbounds tag xs in
    elim (as_object x) [
      | none ↦ x ∷ rest
      | some m ↦ if string_at (text "tag") m == tag then rest else x ∷ rest
    ]

-- What removeOutboundFromConfig makes of it.
unfoldable pub remove_outbound : Object → Text → Object
unfolding drop_outbounds nil_array
remove_outbound config tag =
    insert (text "outbounds") (nil_array (drop_outbounds tag (items_at (text "outbounds") config)))
      config

-- The first item with the tag, taken out of the list: the queue of unused indices of a tag.
unfoldable pub take_tagged : Text → List Json → Option (Json × List Json)
unfolding tag_of text_eq
take_tagged tag [] = none
take_tagged tag (x ∷ xs) =
    let rest = take_tagged tag xs in
    if not (tag == []) && tag_of x == tag
    then some (x, xs)
    else elim rest [ none ↦ none | some (y, ys) ↦ some (y, x ∷ ys) ]

-- The action reorder on the array: the items with the tags in that order, then the others.
unfoldable pub reorder : List Text → List Json → List Json
unfolding take_tagged
reorder [] xs = xs
reorder (tag ∷ tags) xs = elim (take_tagged tag xs) [
  | none ↦ reorder tags xs
  | some (x, rest) ↦ x ∷ reorder tags rest
]

unfoldable pub reorder_outbounds : Object → List Text → Object
unfolding reorder
reorder_outbounds config tags =
    insert (text "outbounds") (array (reorder tags (items_at (text "outbounds") config))) config

-- promoteOutboundTagsInFile: tags of the protocol and the index.
unfoldable pub promote_outbound : ℕ → Json → Option Object → Json × Bool
unfolding text_eq generated_tag
promote_outbound i item none = (item, false)
promote_outbound i item (some m) =
    let protocol = string_at (text "protocol") m in
    if not (string_at (text "tag") m == [])
    then (item, false)
    else (if protocol == []
        then (item, false)
        else (object (insert (text "tag") (str (generated_tag protocol (pos i))) m), true))

unfoldable pub promote_outbounds_from : ℕ → List Json → List Json × Bool
unfolding promote_outbound
promote_outbounds_from i [] = ([], false)
promote_outbounds_from i (item ∷ items) =
    let (item', made) = promote_outbound i item (as_object item) in
    let (rest, more) = promote_outbounds_from (suc i) items in (item' ∷ rest, made || more)

-- The file's content: none if it stays as it is.
unfoldable pub promote_outbound_tags : Object → Option Object
unfolding promote_outbounds_from
promote_outbound_tags config = elim (array_at (text "outbounds") config) [
  | none ↦ none
  | some items ↦
      let (items', made) = promote_outbounds_from 0 items in
      if made then some (insert (text "outbounds") (array items') config) else none
]
