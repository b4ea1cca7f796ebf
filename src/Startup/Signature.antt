-- ===== src/Startup/Signature.antt =====
-- routingRuleSignature: the content of a rule, whatever the order of its lists.
use mmw_agent.Base.{
  Bool, true, false, Option, none, some, List, [], ◌∷◌, ◌++◌, Text, text, text_eq, nat_eq,
  if◌then◌else◌,
}
use mmw_agent.Json.{Json, null, Object, as_array, as_object, sprint}
use mmw_agent.Base.Strings.{join, text_le}
use mmw_agent.Base.Dict.{lookup}

unfoldable pub insert_text : Text → List Text → List Text
unfolding text_le
insert_text t [] = t ∷ []
insert_text t (u ∷ us) = let rest = insert_text t us in if text_le t u then t ∷ u ∷ us else u ∷ rest

-- sort.Strings of what fmt prints of the items.
unfoldable pub sorted_texts : List Json → List Text
unfolding insert_text sprint
sorted_texts [] = []
sorted_texts (x ∷ xs) = insert_text (sprint x) (sorted_texts xs)

unfoldable pub value_part : Json → Text
unfolding sorted_texts join sprint
value_part v = elim (as_array v) [
  | none ↦ sprint v
  | some xs ↦ b'[' ∷ (join (text ",") (sorted_texts xs) ++ text "]")
]

abbrev pub is_null : Json → Bool
is_null null = true
is_null _ = false

unfoldable pub key_part : Text → Option Json → List Text
unfolding value_part
key_part k none = []
key_part k (some v) = if is_null v then [] else (k ++ (b':' ∷ value_part v)) ∷ []

unfoldable pub parts : List Text → Object → List Text
unfolding key_part
parts [] rule = []
parts (k ∷ ks) rule = key_part k (lookup k rule) ++ parts ks rule

abbrev pub signature_keys : List Text
signature_keys =
    text "type"
    ∷ text "outboundTag"
    ∷ text "balancerTag"
    ∷ text "inboundTag"
    ∷ text "ip"
    ∷ text "domain"
    ∷ text "user"
    ∷ text "protocol"
    ∷ text "network"
    ∷ text "source"
    ∷ text "port"
    ∷ text "sourcePort"
    ∷ text "marktag"
    ∷ []

unfoldable pub rule_signature : Json → Text
unfolding parts join
rule_signature r = elim (as_object r) [
  | none ↦ []
  | some rule ↦ join (text "|") (parts signature_keys rule)
]
