-- ===== src/Securechan/Session.antt =====
-- Session of internal/securechan/securechan.go: keys, nonces and envelopes. AES-GCM and HKDF are
-- parameters: an Aead is what cipher.NewGCM returns for a key.
pub mod Channel
pub mod Order
use mmw_agent.Base.{
  ℕ, zero, suc, ◌+◌, ◌-◌, ◌*◌, ◌/◌, ◌%◌, ◌^◌, ◌≤◌, ◌<◌, ◌≡◌, refl, sym, ap, ◌∙◌, ◌≢◌, ◌↔◌, ◌⊎◌, inl,
  inr, ite, Bool, true, false, not, ◌&&◌, ◌||◌, Option, none, some, List, [], ◌∷◌, ◌++◌, map, arith,
  Text, text, text_eq, nat_eq, ◌==◌, ltb, leb, if◌then◌else◌, ltb→lt, lt→ltb, le→ltb, Bool-cases,
  Option-cases, length, take, drop, All, length-append, length-drop, take-append, drop-append, Eq,
  contains,
}
use mmw_agent.Base.Int.{ℤ, pos, negsuc, is_pos, is_neg, ltb_ℤ, add_one, sub_one, to_ℕ}
use mmw_agent.Base.Dict.{
  Dict, lookup, insert, erase, lookup-cons, lookup-insert, lookup-erase, keys, is_some,
  contains-keys,
}
use Prim.Native.Nat.{bit_xor}
use mmw_agent.Securechan.Window.{ReplayWindow, empty_window, check}
use mmw_agent.Securechan.Words.{put_uint64, uint64}

abbrev pub envelope_version : ℕ
envelope_version = 1

abbrev pub envelope_header : ℕ
envelope_header = 9

abbrev pub gcm_tag_size : ℕ
gcm_tag_size = 16

-- Seal and Open by nonce, without additional data.
pub record Aead : Type 0 where
  pub seal : List ℕ → List ℕ → List ℕ
  pub open_sealed : List ℕ → List ℕ → Option (List ℕ)

pub record Session : Type 0 where
  pub send_cipher : Aead
  pub recv_cipher : Aead
  pub send_seq : ℕ
  pub send_nonce : List ℕ
  pub recv_nonce : List ℕ
  pub recv_window : ReplayWindow

-- The four outputs of HKDF in order.
pub record DerivedKeys : Type 0 where
  pub m2a_key : List ℕ
  pub a2m_key : List ℕ
  pub m2a_nonce : List ℕ
  pub a2m_nonce : List ℕ

-- The session that a pair of ciphers gives.
unfoldable pub session_of : Option Aead → Option Aead → List ℕ → List ℕ → Option Session
session_of none recv send_nonce recv_nonce = none
session_of (some send) none send_nonce recv_nonce = none
session_of (some send) (some recv) send_nonce recv_nonce = some (record {
  send_cipher = send;
  recv_cipher = recv;
  send_seq = 0;
  send_nonce = send_nonce;
  recv_nonce = recv_nonce;
  recv_window = empty_window;
})

-- The keys by direction.
unfoldable pub directed : (List ℕ → Option Aead) → DerivedKeys → Bool → Option Session
unfolding session_of
directed new_gcm k is_master =
    if is_master
    then session_of (new_gcm k.m2a_key) (new_gcm k.a2m_key) k.m2a_nonce k.a2m_nonce
    else session_of (new_gcm k.a2m_key) (new_gcm k.m2a_key) k.a2m_nonce k.m2a_nonce

unfoldable pub derive_from : (List ℕ → Option Aead) → Bool → Option DerivedKeys → Option Session
unfolding directed
derive_from new_gcm is_master none = none
derive_from new_gcm is_master (some keys) = directed new_gcm keys is_master

unfoldable pub derive_session :
    (List ℕ → List ℕ → Option DerivedKeys)
    → (List ℕ → Option Aead)
    → List ℕ
    → List ℕ
    → List ℕ
    → Bool
    → Option Session
unfolding derive_from
derive_session hkdf new_gcm shared_secret agent_eph_pub master_eph_pub is_master =
    derive_from new_gcm is_master (hkdf shared_secret (agent_eph_pub ++ master_eph_pub))

unfoldable pub xor_bytes : List ℕ → List ℕ → List ℕ
xor_bytes [] bs = []
xor_bytes (a ∷ more) [] = a ∷ more
xor_bytes (a ∷ more) (b ∷ bs) = bit_xor a b ∷ xor_bytes more bs

unfoldable pub make_nonce : List ℕ → ℕ → List ℕ
unfolding xor_bytes put_uint64
make_nonce base seq = xor_bytes base (0 ∷ 0 ∷ 0 ∷ 0 ∷ put_uint64 seq)

unfoldable pub encrypt : Session → List ℕ → Session × List ℕ
unfolding make_nonce put_uint64
encrypt s plaintext =
    let seq = (s.send_seq + 1) % 2 ^ 64 in
    let ciphertext = s.send_cipher.seal (make_nonce s.send_nonce seq) plaintext in
    (record s { send_seq = seq }, envelope_version ∷ (put_uint64 seq ++ ciphertext))

pub data DecryptResult : Type 0 where
  decrypted : List ℕ → DecryptResult
  too_short : DecryptResult
  unknown_version : ℕ → DecryptResult
  replayed : ℕ → DecryptResult
  open_failed : DecryptResult

unfoldable pub opened : Option (List ℕ) → DecryptResult
opened none = open_failed
opened (some p) = decrypted p

unfoldable pub envelope_seq : List ℕ → ℕ
unfolding uint64
envelope_seq envelope = uint64 (drop 1 envelope)

unfoldable pub accept : Session → List ℕ → Session × DecryptResult
unfolding check envelope_seq make_nonce opened
accept s envelope =
    let seq = envelope_seq envelope in
    let checked = check s.recv_window seq in
    let s' = record s { recv_window = checked.0 } in
    if checked.1
    then (
      s',
      opened
          (s.recv_cipher.open_sealed (make_nonce s.recv_nonce seq) (drop envelope_header envelope)),
    )
    else (s', replayed seq)

unfoldable pub decrypt_versioned : Session → ℕ → List ℕ → Session × DecryptResult
unfolding nat_eq accept
decrypt_versioned s version envelope =
    if version == envelope_version then accept s envelope else (s, unknown_version version)

unfoldable pub decrypt : Session → List ℕ → Session × DecryptResult
unfolding decrypt_versioned
decrypt s [] = (s, too_short)
decrypt s (version ∷ body) =
    if ltb (length (version ∷ body)) (envelope_header + gcm_tag_size)
    then (s, too_short)
    else decrypt_versioned s version (version ∷ body)

-- Messages sent one by one, each received before the next is sent.
unfoldable pub transmit : Session → Session → List (List ℕ) → List DecryptResult
unfolding encrypt decrypt
transmit s r [] = []
transmit s r (p ∷ ps) =
    let sent = encrypt s p in let got = decrypt r sent.1 in got.1 ∷ transmit sent.0 got.0 ps
