-- ===== src/Handler/Config/Clients.antt =====
-- Clients of inbounds: whether two are the same one, and adding those of one list to another.
use mmw_agent.Base.{
  Bool, true, false, not, ◌&&◌, ◌||◌, Option, none, some, List, [], ◌∷◌, ◌++◌, Text, text, text_eq,
  nat_eq, ◌==◌, if◌then◌else◌, contains,
}
use mmw_agent.Json.{
  Json, Object, array, object, as_object, object_at, string_at, items_at, sprint_at,
}
use mmw_agent.Base.Strings.{to_lower}
use mmw_agent.Base.Dict.{insert}

unfoldable pub is_nil : List Json → Bool
is_nil [] = true
is_nil (x ∷ xs) = false

-- fmt.Sprint gives "" or "<nil>".
unfoldable pub is_unset : Text → Bool
unfolding text_eq
is_unset v = v == [] || v == text "<nil>"

unfoldable pub both_non_empty_eq : Text → Object → Object → Bool
unfolding is_unset sprint_at text_eq
both_non_empty_eq k a b =
    let av = sprint_at k a in
    let bv = sprint_at k b in if is_unset av || is_unset bv then false else av == bv

unfoldable pub has_non_empty : Object → Text → Bool
unfolding is_unset sprint_at
has_non_empty m k = not (is_unset (sprint_at k m))

-- The switch of matchClientCredential; empty where no case fits.
unfoldable pub primary_key : Text → Text
unfolding to_lower contains text_eq
primary_key protocol =
    let p = to_lower protocol in
    if contains p (text "vless" ∷ text "vmess" ∷ [])
    then text "id"
    else (if contains p (text "trojan" ∷ text "shadowsocks" ∷ text "anytls" ∷ [])
        then text "password"
        else (if p == text "snell"
            then text "psk"
            else (if p == text "mieru"
                then text "username"
                else (if p == text "hysteria"
                    then text "auth"
                    else (if contains p (text "socks" ∷ text "http" ∷ [])
                        then text "user"
                        else [])))))

unfoldable pub match_client_credential : Object → Object → Text → Bool
unfolding primary_key has_non_empty both_non_empty_eq text_eq
match_client_credential a b protocol =
    let key = primary_key protocol in
    if not (key == []) && (has_non_empty a key && has_non_empty b key)
    then both_non_empty_eq key a b
    else both_non_empty_eq (text "email") a b

-- The field of the settings that lists the clients of a protocol.
unfoldable pub clients_key : Text → Option Text
unfolding to_lower contains text_eq
clients_key protocol =
    let p = to_lower protocol in
    if contains p
      (text "vless" ∷ text "vmess" ∷ text "trojan" ∷ text "shadowsocks" ∷ text "hysteria" ∷ [])
    then some (text "clients")
    else (if contains p (text "anytls" ∷ text "snell" ∷ text "mieru" ∷ [])
        then some (text "users")
        else (if contains p (text "socks" ∷ text "http" ∷ [])
            then some (text "accounts")
            else none))

unfoldable pub same_client : Text → Object → Option Object → Bool
same_client protocol client none = false
same_client protocol client (some c) = match_client_credential c client protocol

-- Whether some object of the list is the same client.
unfoldable pub has_client : Text → Object → List Json → Bool
has_client protocol client [] = false
has_client protocol client (c ∷ cs) =
    same_client protocol client (as_object c) || has_client protocol client cs

-- The body of the loop over the clients of the copy.
unfoldable pub add_client : Text → List Json → Json → Option Object → List Json
add_client protocol dst sc none = dst ++ (sc ∷ [])
add_client protocol dst sc (some sm) = if has_client protocol sm dst then dst else dst ++ (sc ∷ [])

unfoldable pub merge_clients : Text → List Json → List Json → List Json
merge_clients protocol dst [] = dst
merge_clients protocol dst (sc ∷ src) =
    merge_clients protocol (add_client protocol dst sc (as_object sc)) src

unfoldable pub merge_listed : Text → Option Text → Object → Object → Object → Object
merge_listed protocol none dst dst_settings src_settings = dst
merge_listed protocol (some key) dst dst_settings src_settings =
    let src = items_at key src_settings in
    if is_nil src
    then dst
    else insert (text "settings")
        (object (
          insert key (array (merge_clients protocol (items_at key dst_settings) src)) dst_settings))
        dst

-- The protocol of the copy, or that of the first if the copy has none.
unfoldable pub merged_protocol : Object → Object → Text
unfolding text_eq
merged_protocol dst src =
    let p = string_at (text "protocol") src in
    if p == [] then string_at (text "protocol") dst else p

unfoldable pub merge_settings : Object → Object → Option Object → Option Object → Object
merge_settings dst src none s = dst
merge_settings dst src (some dst_settings) none = dst
merge_settings dst src (some dst_settings) (some src_settings) =
    let protocol = merged_protocol dst src in
    merge_listed protocol (clients_key protocol) dst dst_settings src_settings

unfoldable pub merge_inbound_clients : Object → Object → Object
merge_inbound_clients dst src =
    merge_settings dst src (object_at (text "settings") dst) (object_at (text "settings") src)

-- What applyAddClientToConfig answers: whether the inbound changed, or an error.
pub data ClientResult : Type 0 where
  changed unchanged unsupported not_found : ClientResult

unfoldable pub settings_or_empty : Option Object → Object
settings_or_empty none = []
settings_or_empty (some s) = s

-- Settings that are missing are made, also where the protocol turns out to be unsupported.
unfoldable pub with_settings : Object → Object
with_settings m = elim (object_at (text "settings") m) [
  | none ↦ insert (text "settings") (object []) m
  | some _ ↦ m
]

-- The inbound once it is found.
unfoldable pub add_to_inbound : Object → Object → Option Text → Object × ClientResult
add_to_inbound m client none = (with_settings m, unsupported)
add_to_inbound m client (some key) =
    let settings = settings_or_empty (object_at (text "settings") m) in
    let clients = items_at key settings in
    if has_client (string_at (text "protocol") m) client clients then (m, unchanged) else (
      insert (text "settings")
          (object (insert key (array (clients ++ (object client ∷ []))) settings)) m,
      changed,
    )

unfoldable pub is_tagged : Text → Option Object → Bool
unfolding text_eq
is_tagged tag none = false
is_tagged tag (some m) = string_at (text "tag") m == tag

unfoldable pub object_or_empty : Option Object → Object
object_or_empty none = []
object_or_empty (some m) = m

unfoldable pub add_to_inbounds : List Json → Text → Object → List Json × ClientResult
add_to_inbounds [] tag client = ([], not_found)
add_to_inbounds (ib ∷ ibs) tag client =
    let rest = add_to_inbounds ibs tag client in
    let m = object_or_empty (as_object ib) in
    let here = add_to_inbound m client (clients_key (string_at (text "protocol") m)) in
    if is_tagged tag (as_object ib) then (object here.0 ∷ ibs, here.1) else (ib ∷ rest.0, rest.1)

unfoldable pub apply_add_client : Object → Text → Object → Object × ClientResult
apply_add_client config tag client =
    let r = add_to_inbounds (items_at (text "inbounds") config) tag client in
    (
      elim r.1 [
        | changed ↦ insert (text "inbounds") (array r.0) config
        | unchanged ↦ config
        | unsupported ↦ insert (text "inbounds") (array r.0) config
        | not_found ↦ config
      ],
      r.1,
    )
