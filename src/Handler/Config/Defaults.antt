-- ===== src/Handler/Config/Defaults.antt =====
-- What EnsureXrayConfig and its callers check and add: the API inbound and rule, the outbounds direct
-- and block, default rules, the policy.
use mmw_agent.Base.{
  ℕ, suc, Bool, true, false, ◌&&◌, ◌||◌, Option, none, some, List, [], ◌∷◌, ◌++◌, Text, text,
  text_eq, nat_eq, ◌==◌, if◌then◌else◌,
}
use mmw_agent.Json.{
  Json, bool, num, str, Object, array, object, as_object, array_at, object_at, string_at, items_at,
}
use mmw_agent.Base.Int.{pos}
use mmw_agent.Base.Dict.{lookup, insert}

-- An object of the list with that value of the field.
unfoldable pub has_object : Text → Text → List Json → Bool
unfolding text_eq
has_object key value [] = false
has_object key value (x ∷ xs) =
    let rest = has_object key value xs in
    elim (as_object x) [ none ↦ rest | some m ↦ string_at key m == value || rest ]

unfoldable pub has_api_inbound : Object → Bool
unfolding has_object
has_api_inbound config = elim (array_at (text "inbounds") config) [
  | none ↦ false
  | some inbounds ↦ has_object (text "tag") (text "api") inbounds
]

abbrev pub api_inbound : Object
api_inbound =
    (text "tag", str (text "api"))
    ∷ (text "port", num (pos 46736) (text "46736"))
    ∷ (text "listen", str (text "127.0.0.1"))
    ∷ (text "protocol", str (text "dokodemo-door"))
    ∷ (text "settings", object ((text "address", str (text "127.0.0.1")) ∷ []))
    ∷ []

unfoldable pub add_api_inbound : Object → Object
add_api_inbound config =
    insert (text "inbounds") (array (object api_inbound ∷ items_at (text "inbounds") config)) config

abbrev pub api_rule : Object
api_rule =
    (text "type", str (text "field"))
    ∷ (text "inboundTag", array (str (text "api") ∷ []))
    ∷ (text "outboundTag", str (text "api"))
    ∷ []

abbrev pub default_routing : Object
default_routing = (text "domainStrategy", str (text "IPIfNonMatch")) ∷ (text "rules", array []) ∷ []

unfoldable pub has_api_routing_rule : Object → Bool
unfolding has_object
has_api_routing_rule config = elim (object_at (text "routing") config) [
  | none ↦ false
  | some routing ↦ elim (array_at (text "rules") routing) [
    | none ↦ false
    | some rules ↦ has_object (text "outboundTag") (text "api") rules
  ]
]

unfoldable pub routing_or_default : Object → Object
routing_or_default config = elim (object_at (text "routing") config) [
  | none ↦ default_routing
  | some routing ↦ routing
]

unfoldable pub add_api_routing_rule : Object → Object
unfolding routing_or_default
add_api_routing_rule config =
    let routing = routing_or_default config in
    insert (text "routing")
      (object
        (insert (text "rules") (array (object api_rule ∷ items_at (text "rules") routing)) routing))
      config

unfoldable pub ensure_api_routing_rule : Object → Object
unfolding routing_or_default has_object add_api_routing_rule
ensure_api_routing_rule config =
    if has_object (text "outboundTag") (text "api")
      (items_at (text "rules") (routing_or_default config))
    then config
    else add_api_routing_rule config

unfoldable pub keep_other_rules : List Json → List Json
unfolding text_eq
keep_other_rules [] = []
keep_other_rules (r ∷ rs) =
    let rest = keep_other_rules rs in
    elim (as_object r) [
      | none ↦ rest
      | some m ↦ if string_at (text "outboundTag") m == text "api" then rest else r ∷ rest
    ]

unfoldable pub remove_api_routing_rule : Object → Object
unfolding keep_other_rules
remove_api_routing_rule config = elim (object_at (text "routing") config) [
  | none ↦ config
  | some routing ↦ elim (array_at (text "rules") routing) [
    | none ↦ config
    | some rules ↦
        insert (text "routing")
          (object (insert (text "rules") (array (keep_other_rules rules)) routing)) config
  ]
]

unfoldable pub has_required_outbounds : Object → Bool
unfolding has_object
has_required_outbounds config = elim (array_at (text "outbounds") config) [
  | none ↦ false
  | some outbounds ↦
      has_object (text "tag") (text "direct") outbounds
      && has_object (text "tag") (text "block") outbounds
]

unfoldable pub with_outbound : Text → Text → List Json → List Json → List Json
unfolding has_object
with_outbound tag protocol before outbounds =
    if has_object (text "tag") tag before
    then outbounds
    else outbounds ++ (object ((text "tag", str tag) ∷ (text "protocol", str protocol) ∷ []) ∷ [])

unfoldable pub add_required_outbounds : Object → Object
unfolding with_outbound
add_required_outbounds config =
    let outbounds = items_at (text "outbounds") config in
    insert (text "outbounds")
      (array (
        with_outbound (text "block") (text "blackhole") outbounds
          (with_outbound (text "direct") (text "freedom") outbounds outbounds)))
      config

abbrev pub default_rules : List Json
default_rules =
    object (
      (text "type", str (text "field"))
      ∷ (text "protocol", array (str (text "bittorrent") ∷ []))
      ∷ (text "marktag", str (text "ban_bt"))
      ∷ (text "outboundTag", str (text "block"))
      ∷ [])
    ∷ object (
        (text "type", str (text "field"))
        ∷ (text "ip", array (str (text "geoip:private") ∷ []))
        ∷ (text "outboundTag", str (text "block"))
        ∷ [])
    ∷ []

-- The configuration, and whether rules were added.
unfoldable pub ensure_routing_rules : Object → Object × Bool
ensure_routing_rules config = elim (object_at (text "routing") config) [
  | none ↦ (
    insert (text "routing")
        (object (
          (text "domainStrategy", str (text "IPIfNonMatch"))
          ∷ (text "rules", array default_rules)
          ∷ []))
        config,
    true,
  )
  | some routing ↦ elim (array_at (text "rules") routing) [
    | some _ ↦ (config, false)
    | none ↦ (
      insert (text "routing") (object (insert (text "rules") (array default_rules) routing)) config,
      true,
    )
  ]
]

unfoldable pub drop_deprecated : List Json → List Json × ℕ
unfolding text_eq
drop_deprecated [] = ([], 0)
drop_deprecated (r ∷ rs) =
    let (rest, n) = drop_deprecated rs in
    elim (as_object r) [
      | none ↦ (r ∷ rest, n)
      | some m ↦
          if string_at (text "marktag") m == text "fix_openai" then (rest, suc n) else (r ∷ rest, n)
    ]

unfoldable pub remove_deprecated_routing_rules : Object → Object × Bool
unfolding drop_deprecated nat_eq
remove_deprecated_routing_rules config = elim (object_at (text "routing") config) [
  | none ↦ (config, false)
  | some routing ↦
      let (kept, removed) = drop_deprecated (items_at (text "rules") routing) in
      if removed == 0 then (config, false) else (
        insert (text "routing") (object (insert (text "rules") (array kept) routing)) config,
        true,
      )
]

abbrev pub is_true : Option Json → Bool
is_true (some (bool b)) = b
is_true _ = false

unfoldable pub valid_level : Option Object → Bool
valid_level none = false
valid_level (some level) =
    is_true (lookup (text "statsUserUplink") level)
    && is_true (lookup (text "statsUserDownlink") level)

unfoldable pub valid_levels : Option Object → Bool
unfolding valid_level
valid_levels none = false
valid_levels (some levels) = valid_level (object_at (text "0") levels)

unfoldable pub has_valid_policy : Object → Bool
unfolding valid_levels
has_valid_policy config = elim (object_at (text "policy") config) [
  | none ↦ false
  | some policy ↦ valid_levels (object_at (text "levels") policy)
]
