-- ===== src/Handler/Config/Manage.antt =====
-- manageInboundClient, manageInboundSniffingExclude and removeInboundFromConfDir, on decoded files.
use mmw_agent.Base.{
  ℕ, Bool, true, false, not, ◌&&◌, ◌||◌, Option, none, some, List, [], ◌∷◌, ◌++◌, Text, text,
  text_eq, nat_eq, ◌==◌, if◌then◌else◌, length, contains,
}
use mmw_agent.Json.{
  Json, bool, str, Object, array, object, as_object, as_string, then_as, array_at, object_at,
  string_at, items_at,
}
use mmw_agent.Base.Strings.{has_prefix, trim_space}
use mmw_agent.Base.Dict.{lookup, insert}
use mmw_agent.Handler.Config.Clients.{
  clients_key, same_client, has_client, settings_or_empty, is_tagged, object_or_empty,
}
use mmw_agent.Handler.Config.Dedupe.{dedupe_tagged_array}
use mmw_agent.Handler.Config.Inbounds.{
  inbound_matches_removal_tag, drop_inbounds, remove_inbound_routing_references,
}

-- An error's status, a request that changes nothing, and the configuration to store.
pub data Change : Type 0 where
  refused : ℕ → Change
  no_change : Change
  store : Object → Change

pub data ClientAction : Type 0 where
  add_client remove_client : ClientAction

unfoldable pub drop_clients : Text → Object → List Json → List Json
unfolding same_client
drop_clients protocol client [] = []
drop_clients protocol client (c ∷ cs) =
    let rest = drop_clients protocol client cs in
    if same_client protocol client (as_object c) then rest else c ∷ rest

-- The new list of clients, none if it stays.
unfoldable pub change_clients : ClientAction → Text → Object → List Json → Option (List Json)
unfolding has_client drop_clients
change_clients add_client protocol client clients =
    if has_client protocol client clients then none else some (clients ++ (object client ∷ []))
change_clients remove_client protocol client clients =
    if has_client protocol client clients then some (drop_clients protocol client clients) else none

-- The fields whose names begin with _ go.
unfoldable pub strip_metadata : Object → Object
unfolding has_prefix
strip_metadata [] = []
strip_metadata ((k, v) ∷ m) =
    let rest = strip_metadata m in if has_prefix k (text "_") then rest else (k, v) ∷ rest

-- The first inbound with the tag, and the inbounds with it replaced.
unfoldable pub find_inbound : Text → List Json → Option Object
unfolding is_tagged object_or_empty
find_inbound tag [] = none
find_inbound tag (ib ∷ ibs) =
    let rest = find_inbound tag ibs in if is_tagged tag (as_object ib) then as_object ib else rest

unfoldable pub replace_inbound : Text → Object → List Json → List Json
unfolding is_tagged
replace_inbound tag m [] = []
replace_inbound tag m (ib ∷ ibs) =
    let rest = replace_inbound tag m ibs in
    if is_tagged tag (as_object ib) then object m ∷ ibs else ib ∷ rest

-- The changed inbound in its place, and both arrays without duplicates.
unfoldable pub store_inbound : Object → Text → Object → Object
unfolding replace_inbound strip_metadata dedupe_tagged_array
store_inbound config tag m =
    let inbounds = replace_inbound tag (strip_metadata m) (items_at (text "inbounds") config) in
    let config' = insert (text "inbounds") (array inbounds) config in
    (dedupe_tagged_array (dedupe_tagged_array config' (text "inbounds")).0 (text "outbounds")).0

unfoldable pub store_clients : Object → Text → Object → Object → Text → Option (List Json) → Change
unfolding store_inbound
store_clients config tag m settings key none = no_change
store_clients config tag m settings key (some clients) = store (
    store_inbound config tag
      (insert (text "settings") (object (insert key (array clients) settings)) m))

unfoldable pub change_inbound :
    Object → Text → ClientAction → Object → Object → Option Text → Change
unfolding store_clients change_clients settings_or_empty
change_inbound config tag action client m none = refused 400
change_inbound config tag action client m (some key) =
    let settings = settings_or_empty (object_at (text "settings") m) in
    store_clients config tag m settings key
      (change_clients action (string_at (text "protocol") m) client (items_at key settings))

unfoldable pub change_found : Object → Text → ClientAction → Object → Option Object → Change
unfolding change_inbound clients_key
change_found config tag action client none = refused 404
change_found config tag action client (some m) =
    change_inbound config tag action client m (clients_key (string_at (text "protocol") m))

-- manageInboundClient on the configuration.
unfoldable pub edit_client : Object → Text → ClientAction → Object → Change
unfolding change_found find_inbound
edit_client config tag action client =
    change_found config tag action client (find_inbound tag (items_at (text "inbounds") config))

-- The entries of excludeDomains that are texts.
unfoldable pub texts_of : List Json → List Text
texts_of [] = []
texts_of (v ∷ vs) = let rest = texts_of vs in elim (as_string v) [ none ↦ rest | some t ↦ t ∷ rest ]

-- The domains that are added, in order, without those that are there.
unfoldable pub new_domains : List Text → List Text → List Json
unfolding trim_space contains text_eq
new_domains existing [] = []
new_domains existing (d ∷ ds) =
    let domain = trim_space d in
    let known = domain == [] || contains domain existing in
    let rest = new_domains (if known then existing else domain ∷ existing) ds in
    if known then rest else str domain ∷ rest

abbrev pub default_sniffing : Object
default_sniffing =
    (text "enabled", bool true)
    ∷ (text "destOverride", array (str (text "http") ∷ str (text "tls") ∷ []))
    ∷ []

unfoldable pub sniffing_or_default : Option Object → Object
sniffing_or_default none = default_sniffing
sniffing_or_default (some s) = s

unfoldable pub store_excludes : Object → Text → Object → Object → List Json → Change
unfolding store_inbound
store_excludes config tag m sniffing [] = no_change
store_excludes config tag m sniffing (d ∷ ds) =
    let excludes = items_at (text "excludeDomains") sniffing ++ (d ∷ ds) in
    store (
      store_inbound config tag (
        insert (text "sniffing") (object (insert (text "excludeDomains") (array excludes) sniffing))
          m))

unfoldable pub exclude_found : Object → Text → List Text → Option Object → Change
unfolding store_excludes sniffing_or_default new_domains texts_of
exclude_found config tag domains none = refused 404
exclude_found config tag domains (some m) =
    let sniffing = sniffing_or_default (object_at (text "sniffing") m) in
    store_excludes config tag m sniffing
      (new_domains (texts_of (items_at (text "excludeDomains") sniffing)) domains)

-- manageInboundSniffingExclude on the configuration.
unfoldable pub exclude_domains : Object → Text → List Text → Change
unfolding exclude_found find_inbound
exclude_domains config tag domains =
    exclude_found config tag domains (find_inbound tag (items_at (text "inbounds") config))

-- What becomes of a fragment: it goes, it stays, or it is written again; and whether its routing
-- changed.
pub data Fragment : Type 0 where
  deleted untouched : Fragment
  rewritten : Object → Bool → Fragment

unfoldable pub drop_array : Object → Text → Option (List Json) → Object × Bool
unfolding drop_inbounds nat_eq
drop_array config tag none = (config, false)
drop_array config tag (some inbounds) =
    let kept = drop_inbounds tag inbounds in
    if length kept == length inbounds
    then (config, false)
    else (insert (text "inbounds") (array kept) config, true)

unfoldable pub clean_sections : Object → Text → Fragment
unfolding drop_array remove_inbound_routing_references nat_eq
clean_sections config tag =
    let (config1, dropped) = drop_array config tag (array_at (text "inbounds") config) in
    let (config2, changed) = remove_inbound_routing_references config1 tag in
    if not dropped && changed == 0 then untouched else rewritten config2 (not (changed == 0))

-- The body of the loop of removeInboundFromConfDir: a file of a single inbound, or one of sections.
unfoldable pub clean_fragment : Object → Text → Fragment
unfolding clean_sections inbound_matches_removal_tag
clean_fragment config tag = elim (then_as as_string (lookup (text "protocol") config)) [
  | none ↦ clean_sections config tag
  | some _ ↦ if inbound_matches_removal_tag config tag then deleted else untouched
]
