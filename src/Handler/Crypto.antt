-- ===== src/Handler/Crypto.antt =====
-- internal/handler/crypto_middleware.go: key exchanges and encrypted requests in front of a handler.
-- A session is shared by all requests with its token, so that what a request does to it stays in the
-- cache.
use mmw_agent.Base.{
  ℕ, Bool, false, not, ◌&&◌, Option, none, some, [], ◌∷◌, Text, text, text_eq, nat_eq, ◌==◌,
  if◌then◌else◌, length, drop,
}
use mmw_agent.Base.Strings.{has_prefix}
use mmw_agent.Base.Dict.{lookup, insert}
use mmw_agent.Securechan.Session.{
  Aead, Session, DerivedKeys, DecryptResult, decrypted, too_short, unknown_version, replayed,
  open_failed, derive_session, encrypt, decrypt,
}
use mmw_agent.Securechan.Cache.{SessionCache, get, set}

-- What the middleware reads of a request; a header that is missing is empty.
pub record CryptoRequest : Type 0 where
  pub key_exchange : Text
  pub encrypted : Text
  pub authorization : Text
  pub remote_token : Text
  pub body : Text

-- An error's status; the handler's status and answer, with the key of a key exchange; the same
-- encrypted.
pub data CryptoResponse : Type 0 where
  refused : ℕ → CryptoResponse
  plain : ℕ → Text → CryptoResponse
  exchanged : Text → ℕ → Text → CryptoResponse
  sealed : ℕ → Text → CryptoResponse

-- The calls of the crypto packages and base64, and the handler behind the middleware.
pub record CryptoOps : Type 0 where
  pub decode_base64 : Text → Option Text
  pub encode_base64 : Text → Text
  pub verify : Text → Text → Text → Bool
  pub generate_ephemeral : Option (Text × Text)
  pub compute_shared_secret : Text → Text → Option Text
  pub hkdf : Text → Text → Option DerivedKeys
  pub new_gcm : Text → Option Aead
  pub serve : Text → ℕ × Text

unfoldable pub pull_extract_token : CryptoRequest → Text
unfolding has_prefix
pull_extract_token r =
    if has_prefix r.authorization (text "Bearer ") then drop 7 r.authorization else r.remote_token

-- strings.SplitN(s, "|", 2), none for one part.
unfoldable pub split_bar : Text → Option (Text × Text)
unfolding nat_eq
split_bar [] = none
split_bar (c ∷ cs) =
    let rest = split_bar cs in
    if c == b'|' then some ([], cs) else elim rest [ none ↦ none | some (a, b) ↦ some (c ∷ a, b) ]

-- A key of 32 bytes.
unfoldable pub as_key : Option Text → Option Text
unfolding nat_eq
as_key none = none
as_key (some k) = if length k == 32 then some k else none

-- The session of a token, with the time it expires as before.
unfoldable pub put_session : Text → Session → SessionCache → SessionCache
put_session token s c = elim (lookup token c.entries) [
  | none ↦ c
  | some e ↦ record c { entries = insert token (record e { session = s }) c.entries }
]

unfoldable pub plain_answer : ℕ × Text → CryptoResponse
plain_answer (status, answer) = plain status answer

module _ (ops : CryptoOps) (master_key : Text) where
  unfoldable pub store_session :
      SessionCache → ℕ → CryptoRequest → Text → Option Session → SessionCache × CryptoResponse
  unfolding set pull_extract_token text_eq
  store_session c now r agent_pub none = (c, refused 500)
  store_session c now r agent_pub (some s) =
      let token = pull_extract_token r in
      let (status, answer) = ops.serve r.body in
      (
        if token == [] then c else set c now token s,
        exchanged (ops.encode_base64 agent_pub) status answer,
      )

  unfoldable pub derive :
      SessionCache → ℕ → CryptoRequest → Text → Text → Option Text → SessionCache × CryptoResponse
  unfolding store_session derive_session
  derive c now r agent_pub master_pub none = (c, refused 500)
  derive c now r agent_pub master_pub (some secret) =
      store_session c now r agent_pub
        (derive_session ops.hkdf ops.new_gcm secret agent_pub master_pub false)

  unfoldable pub generate :
      SessionCache → ℕ → CryptoRequest → Text → Option (Text × Text) → SessionCache × CryptoResponse
  unfolding derive
  generate c now r master_pub none = (c, refused 500)
  generate c now r master_pub (some (agent_priv, agent_pub)) =
      derive c now r agent_pub master_pub (ops.compute_shared_secret agent_priv master_pub)

  unfoldable pub check_signature :
      SessionCache → ℕ → CryptoRequest → Option Text → Option Text → SessionCache × CryptoResponse
  unfolding generate
  check_signature c now r none sig = (c, refused 400)
  check_signature c now r (some master_pub) none = (c, refused 400)
  check_signature c now r (some master_pub) (some sig) =
      if ops.verify master_key master_pub sig
      then generate c now r master_pub ops.generate_ephemeral
      else (c, refused 403)

  unfoldable pub exchange_keys :
      SessionCache → ℕ → CryptoRequest → Option (Text × Text) → SessionCache × CryptoResponse
  unfolding check_signature as_key
  exchange_keys c now r none = (c, refused 400)
  exchange_keys c now r (some (key, sig)) =
      check_signature c now r (as_key (ops.decode_base64 key)) (ops.decode_base64 sig)

  -- The answer is encrypted with the session as the request left it.
  unfoldable pub seal_answer :
      SessionCache → Text → Session × DecryptResult → SessionCache × CryptoResponse
  unfolding put_session encrypt
  seal_answer c token (s, decrypted body) =
      let (status, answer) = ops.serve body in
      let (s', envelope) = encrypt s answer in (put_session token s' c, sealed status envelope)
  seal_answer c token (s, too_short) = (put_session token s c, refused 400)
  seal_answer c token (s, unknown_version v) = (put_session token s c, refused 400)
  seal_answer c token (s, replayed n) = (put_session token s c, refused 400)
  seal_answer c token (s, open_failed) = (put_session token s c, refused 400)

  -- An empty body is not decrypted.
  unfoldable pub decrypt_body : Session → Text → Session × DecryptResult
  unfolding decrypt
  decrypt_body s [] = (s, decrypted [])
  decrypt_body s (b ∷ bs) = decrypt s (b ∷ bs)

  unfoldable pub serve_encrypted :
      SessionCache → Text → CryptoRequest → Option Session → SessionCache × CryptoResponse
  unfolding seal_answer decrypt_body
  serve_encrypted c token r none = (c, refused 412)
  serve_encrypted c token r (some s) = seal_answer c token (decrypt_body s r.body)

  -- CryptoMiddleware with a public key of the master; without one the handler serves all requests.
  unfoldable pub crypto_middleware :
      SessionCache → ℕ → CryptoRequest → SessionCache × CryptoResponse
  unfolding exchange_keys split_bar serve_encrypted get pull_extract_token plain_answer text_eq
  crypto_middleware c now r =
      let token = pull_extract_token r in
      if not (r.key_exchange == [])
      then exchange_keys c now r (split_bar r.key_exchange)
      else (if r.encrypted == text "1" && not (token == [])
          then serve_encrypted c token r (get c now token)
          else (c, plain_answer (ops.serve r.body)))
