-- ===== src/Startup/Patch.antt =====
-- protectMasterHTTPSPort443 and patchTunnelForwardUDPFullcone, on the parsed file.
use mmw_agent.Base.{
  Bool, true, false, not, ◌&&◌, ◌||◌, Option, none, some, List, [], ◌∷◌, Text, text, text_eq,
  nat_eq, ◌==◌, if◌then◌else◌, contains,
}
use mmw_agent.Json.{
  Json, num, str, Object, array, object, as_object, as_string, or_none, array_at, object_at,
  string_at, items_at,
}
use mmw_agent.Base.Strings.{has_prefix, has_text}
use mmw_agent.Base.Dict.{lookup, insert, is_some}
use mmw_agent.Handler.Config.Clients.{object_or_empty}

-- removedTags: the tag of a removed item, unless it is empty.
unfoldable pub note_tag : Text → List Text → List Text
unfolding text_eq
note_tag tag tags = if tag == [] then tags else tag ∷ tags

-- filter: the items that stay, and the tags removed by then.
unfoldable pub filter_items :
    (List Text → Object → Bool) → List Text → List Json → List Json × List Text
unfolding note_tag
filter_items remove tags [] = ([], tags)
filter_items remove tags (x ∷ xs) =
    let m = object_or_empty (as_object x) in
    let kept = filter_items remove tags xs in
    let dropped = filter_items remove (note_tag (string_at (text "tag") m) tags) xs in
    if is_some (as_object x) && remove tags m then dropped else (x ∷ kept.0, kept.1)

abbrev pub is_443 : Option Json → Bool
is_443 (some (num n t)) = t == text "443"
is_443 _ = false

unfoldable pub is_port_443 : List Text → Object → Bool
is_port_443 tags m = is_443 (lookup (text "port") m)

unfoldable pub is_nginx : List Text → Object → Bool
unfolding text_eq
is_nginx tags m = string_at (text "tag") m == text "nginx"

-- An entry that is no string has the empty tag, which is never removed.
unfoldable pub names_removed : List Text → List Json → Bool
unfolding contains text_eq
names_removed tags [] = false
names_removed tags (t ∷ ts) = contains (or_none (as_string t)) tags || names_removed tags ts

unfoldable pub serves_removed : List Text → Object → Bool
unfolding text_eq names_removed
serves_removed tags m =
    string_at (text "outboundTag") m == text "nginx"
    || names_removed tags (items_at (text "inboundTag") m)

unfoldable pub protect_rules : List Text → Object → Option Object → Object
unfolding filter_items serves_removed
protect_rules tags cfg none = cfg
protect_rules tags cfg (some routing) =
    let (rules, _) = filter_items serves_removed tags (items_at (text "rules") routing) in
    insert (text "routing") (object (insert (text "rules") (array rules) routing)) cfg

unfoldable pub protect_master_port : Object → Object
unfolding filter_items protect_rules
protect_master_port cfg =
    let (inbounds, tags) = filter_items is_port_443 [] (items_at (text "inbounds") cfg) in
    let (outbounds, tags') = filter_items is_nginx tags (items_at (text "outbounds") cfg) in
    protect_rules tags'
      (insert (text "outbounds") (array outbounds) (insert (text "inbounds") (array inbounds) cfg))
      (object_at (text "routing") cfg)

-- The settings with the field changed, and whether they were.
unfoldable pub change_field : Text → Text → Bool → Object → Option Object → Object × Bool
change_field key value b m none = (m, false)
change_field key value b m (some settings) =
    if b
    then (insert (text "settings") (object (insert key (str value) settings)) m, true)
    else (m, false)

unfoldable pub patch_inbound : Object → Object × Bool
unfolding change_field has_text text_eq contains
patch_inbound ib =
    let settings = object_at (text "settings") ib in
    let net = string_at (text "network") (object_or_empty settings) in
    if not (contains (string_at (text "protocol") ib) (text "tunnel" ∷ text "dokodemo-door" ∷ []))
    then (ib, false)
    else (if contains (string_at (text "tag") ib) (text "api" ∷ text "tunnel-in" ∷ [])
        then (ib, false)
        else change_field (text "network") (text "tcp,udp") (not (has_text net (text "udp"))) ib
            settings)

unfoldable pub patch_outbound : Object → Object × Bool
unfolding change_field has_prefix text_eq
patch_outbound ob =
    let settings = object_at (text "settings") ob in
    let strategy = string_at (text "domainStrategy") (object_or_empty settings) in
    if not (string_at (text "protocol") ob == text "freedom")
    then (ob, false)
    else (if not (has_prefix (string_at (text "tag") ob) (text "tunnel-"))
        then (ob, false)
        else change_field (text "domainStrategy") (text "AsIs") (has_prefix strategy (text "UseIP"))
            ob settings)

unfoldable pub patch_item : (Object → Object × Bool) → Json → Option Object → Json × Bool
patch_item patch x none = (x, false)
patch_item patch x (some m) = let (m', changed) = patch m in (object m', changed)

unfoldable pub patch_items : (Object → Object × Bool) → List Json → List Json × Bool
unfolding patch_item
patch_items patch [] = ([], false)
patch_items patch (x ∷ xs) =
    let (xs', changed) = patch_items patch xs in
    let (x', here) = patch_item patch x (as_object x) in (x' ∷ xs', here || changed)

unfoldable pub patch_key : Text → (Object → Object × Bool) → Object × Bool → Object × Bool
unfolding patch_items
patch_key key patch (config, changed) = elim (array_at key config) [
  | none ↦ (config, changed)
  | some items ↦
      let (items', here) = patch_items patch items in
      (insert key (array items') config, changed || here)
]

-- patchTunnelForwardUDPFullcone: the configuration that is written, none if nothing changed.
unfoldable pub patch_tunnel_forward : Object → Option Object
unfolding patch_key patch_inbound patch_outbound
patch_tunnel_forward config =
    let (config', changed) =
      patch_key (text "outbounds") patch_outbound
        (patch_key (text "inbounds") patch_inbound (config, false)) in
    if changed then some config' else none
