-- ===== src/Handler/Config/Unique.antt =====
-- validateUniqueInboundClients: no two clients of an inbound have an email or a credential in common.
use mmw_agent.Base.{
  Bool, true, ◌&&◌, Option, none, some, List, [], ◌∷◌, ◌++◌, Text, text, text_eq, nat_eq, ◌==◌,
  if◌then◌else◌, contains,
}
use mmw_agent.Json.{Json, Object, as_object, object_at, items_at, sprint_at}
use mmw_agent.Base.Strings.{trim_space}
use mmw_agent.Base.Dict.{is_some}

infixl 5 ◌>>=◌
abbrev pub ◌>>=◌ {ℓ κ} : {A : Type ℓ} {B : Type κ} → Option A → (A → Option B) → Option B
none >>= f = none
some a >>= f = f a

-- strings.TrimSpace of fmt.Sprint(entry[key]), empty also for a missing value.
unfoldable pub value_of : Text → Object → Text
unfolding sprint_at trim_space text_eq
value_of key entry = let v = trim_space (sprint_at key entry) in if v == text "<nil>" then [] else v

-- The first of id, password and user that is there, with its key; empty if none is.
unfoldable pub first_identity : List Text → Object → Text
unfolding value_of text_eq
first_identity [] entry = []
first_identity (k ∷ ks) entry =
    let rest = first_identity ks entry in
    let v = value_of k entry in if v == [] then rest else k ++ (b':' ∷ v)

unfoldable pub identity_of : Object → Text
unfolding first_identity
identity_of entry = first_identity (text "id" ∷ text "password" ∷ text "user" ∷ []) entry

-- seenEmail and seenCredential.
pub record Seen : Type 0 where
  pub emails : List Text
  pub credentials : List Text

abbrev pub nothing_seen : Seen
nothing_seen = record { emails = []; credentials = [] }

-- An empty value is not recorded; none for one that was seen.
unfoldable pub see : Text → List Text → Option (List Text)
unfolding text_eq contains
see v seen = if v == [] then some seen else (if contains v seen then none else some (v ∷ seen))

unfoldable pub see_entry : Seen → Option Object → Option Seen
unfolding see value_of identity_of
see_entry seen none = some seen
see_entry seen (some entry) = do
  emails ← see (value_of (text "email") entry) seen.emails
  credentials ← see (identity_of entry) seen.credentials
  some (record { emails = emails; credentials = credentials })

unfoldable pub see_entries : Seen → List Json → Option Seen
unfolding see_entry
see_entries seen [] = some seen
see_entries seen (e ∷ es) = do seen' ← see_entry seen (as_object e); see_entries seen' es

-- The entries of clients, users and accounts, in this order.
unfoldable pub entries_of : Object → List Json
entries_of settings =
    items_at (text "clients") settings
    ++ (items_at (text "users") settings ++ items_at (text "accounts") settings)

unfoldable pub unique_settings : Option Object → Bool
unfolding see_entries entries_of
unique_settings none = true
unique_settings (some settings) = is_some (see_entries nothing_seen (entries_of settings))

unfoldable pub unique_inbound : Option Object → Bool
unfolding unique_settings
unique_inbound none = true
unique_inbound (some inbound) = unique_settings (object_at (text "settings") inbound)

unfoldable pub unique_inbounds : List Json → Bool
unfolding unique_inbound
unique_inbounds [] = true
unique_inbounds (ib ∷ ibs) = unique_inbound (as_object ib) && unique_inbounds ibs

unfoldable pub validate_unique_clients : Object → Bool
unfolding unique_inbounds
validate_unique_clients config = unique_inbounds (items_at (text "inbounds") config)
