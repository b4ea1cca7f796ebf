-- ===== src/Securechan/Session/Order.antt =====
-- The two ends of a derived session understand each other.
use mmw_agent.Base.{
  ℕ, ◌+◌, ◌^◌, ◌≤◌, ◌<◌, ◌≡◌, refl, ap, ◌∙◌, inl, inr, true, false, Option, none, some, List, [],
  ◌∷◌, ◌++◌, map, arith, text_eq, nat_eq, ◌==◌, ltb, Bool-cases, length,
}
use mmw_agent.Securechan.Window.{empty_window, check}
use mmw_agent.Securechan.Window.History.{is_fresh, latest, Represents, contains-latest}
use mmw_agent.Securechan.Session.{
  Aead, Session, DerivedKeys, session_of, directed, derive_session, derive_from, encrypt, decrypted,
  accept, decrypt, transmit, envelope_seq, envelope_version, envelope_header, gcm_tag_size,
  decrypt_versioned,
}
use mmw_agent.Securechan.Session.Channel.{Matched, expected, remembered, decrypt-encrypt}

new-is_fresh : (h : List ℕ) (n : ℕ) → latest h ≤ n → is_fresh h (n + 1) ≡ true
unfolding is_fresh nat_eq
new-is_fresh h n behind = ground (arith, behind, contains-latest h (n + 1))

encrypt-Matched : (s r : Session) (p : List ℕ) → Matched s r → Matched (encrypt s p).0 r
unfolding encrypt
encrypt-Matched s r p m = record { opens = m.opens; tagged = m.tagged; nonce = m.nonce }

accept-Matched : (s r : Session) (e : List ℕ) → Matched s r → Matched s (accept r e).0
unfolding accept
accept-Matched s r e m = elim (Bool-cases (check r.recv_window (envelope_seq e)).1) [
  | inl good ↦ rw good (record { opens = m.opens; tagged = m.tagged; nonce = m.nonce })
  | inr bad ↦ rw bad (record { opens = m.opens; tagged = m.tagged; nonce = m.nonce })
]

decrypt_versioned-Matched :
    (s r : Session) (v : ℕ) (e : List ℕ) → Matched s r → Matched s (decrypt_versioned r v e).0
unfolding decrypt_versioned
decrypt_versioned-Matched s r v e m = elim (Bool-cases (v == envelope_version)) [
  | inl good ↦ rw good (accept-Matched s r e m)
  | inr bad ↦ rw bad m
]

decrypt-Matched : (s r : Session) (e : List ℕ) → Matched s r → Matched s (decrypt r e).0
unfolding decrypt
decrypt-Matched s r [] m = m
decrypt-Matched s r (v ∷ e) m =
    elim (Bool-cases (ltb (length (v ∷ e)) (envelope_header + gcm_tag_size))) [
      | inl short ↦ rw short m
      | inr whole ↦ rw whole (decrypt_versioned-Matched s r v (v ∷ e) m)
    ]

next_seq :
    (s : Session) (p : List ℕ) → s.send_seq + 1 < 2 ^ 64 → (encrypt s p).0.send_seq ≡ s.send_seq + 1
unfolding encrypt
next_seq s p room = omega (arith, room)

remembered-latest : (h : List ℕ) (n : ℕ) → latest h ≤ n → latest (remembered h (n + 1)) ≡ n + 1
unfolding remembered latest
remembered-latest h n behind = rw (new-is_fresh h n behind) (omega (arith, behind))

new-expected : (h : List ℕ) (n : ℕ) (p : List ℕ) → latest h ≤ n → expected h (n + 1) p ≡ decrypted p
unfolding expected
new-expected h n p behind = rw (new-is_fresh h n behind) refl

-- Messages received in the order they are sent all decrypt to what was sent.
transmit_in_order :
    (s r : Session) (h : List ℕ) (ps : List (List ℕ))
    → Matched s r
    → Represents r.recv_window h
    → latest h ≤ s.send_seq
    → s.send_seq + length ps < 2 ^ 64
    → transmit s r ps ≡ map decrypted ps
unfolding transmit
transmit_in_order s r h [] m known behind room = refl
transmit_in_order s r h (p ∷ ps) m known behind room =
    let here = decrypt-encrypt s r h p m known (omega (arith, room)) in
    let sent = (encrypt s p).0 in
    let got = (decrypt r (encrypt s p).1).0 in
    let next = next_seq s p (omega (arith, room)) in
    ap (λ x. x ∷ transmit sent got ps) (here.0 ∙ new-expected h s.send_seq p behind)
    ∙ ap (λ xs. decrypted p ∷ xs)
        (transmit_in_order sent got (remembered h (s.send_seq + 1)) ps
          (encrypt-Matched s got p (decrypt-Matched s r (encrypt s p).1 m)) here.1
          (omega (arith, next, remembered-latest h s.send_seq behind)) (omega (arith, next, room)))

-- What the sessions rely on: a cipher opens what it seals, with a tag of 16 bytes.
pub record IsAead (a : Aead) : Type 0 where
  pub opens : (n p : List ℕ) → a.open_sealed n (a.seal n p) ≡ some p
  pub tagged : (n p : List ℕ) → length (a.seal n p) ≡ length p + gcm_tag_size

the_session : Session → Option Session → Session
the_session s none = s
the_session s (some s') = s'

empty-Represents : Represents empty_window []
unfolding latest
empty-Represents = record {
  greatest = refl;
  bits = λ d small inside. absurd (omega (arith, inside));
}

-- A sender at the start and a receiver that has seen nothing.
record Fresh (s r : Session) : Type 0 where
  matched : Matched s r
  unseen : Represents r.recv_window []
  unsent : s.send_seq ≡ 0

-- The two ends of one pair of ciphers, seen from the end that sends with the first.
paired-Fresh :
    (a b : Option Aead) (m n : List ℕ) (s r : Session)
    → ((x : Aead) → a ≡ some x → IsAead x)
    → session_of a b m n ≡ some s
    → session_of b a n m ≡ some r
    → Fresh s r
unfolding session_of the_session
paired-Fresh none b m n s r law e e' = ground (arith, e)
paired-Fresh (some a) none m n s r law e e' = ground (arith, e)
paired-Fresh (some a) (some b) m n s r law e e' =
    coe 0 1 (i. Fresh (the_session s (e i)) (the_session r (e' i))) (record {
      matched = record { opens = (law a refl).opens; tagged = (law a refl).tagged; nonce = refl };
      unseen = empty-Represents;
      unsent = refl;
    })

Fresh-transmit :
    (s r : Session) (ps : List (List ℕ))
    → Fresh s r
    → length ps < 2 ^ 64
    → transmit s r ps ≡ map decrypted ps
unfolding latest
Fresh-transmit s r ps f few =
    transmit_in_order s r [] ps f.matched f.unseen (omega arith) (omega (arith, few, f.unsent))

derived-Fresh :
    (new_gcm : List ℕ → Option Aead)
    → ((k : List ℕ) (a : Aead) → new_gcm k ≡ some a → IsAead a)
    → (keys : Option DerivedKeys) (master agent : Session)
    → derive_from new_gcm true keys ≡ some master
    → derive_from new_gcm false keys ≡ some agent
    → Fresh master agent × Fresh agent master
unfolding derive_from directed
derived-Fresh new_gcm gcm none master agent e e' = ground (arith, e)
derived-Fresh new_gcm gcm (some k) master agent e e' = (
  paired-Fresh (new_gcm k.m2a_key) (new_gcm k.a2m_key) k.m2a_nonce k.a2m_nonce master agent
      (gcm k.m2a_key) e e',
  paired-Fresh (new_gcm k.a2m_key) (new_gcm k.m2a_key) k.a2m_nonce k.m2a_nonce agent master
      (gcm k.a2m_key) e' e,
)

-- Both ends of a session derived from one secret.
module _ (hkdf : List ℕ → List ℕ → Option DerivedKeys) (new_gcm : List ℕ → Option Aead)
    (gcm : (k : List ℕ) (a : Aead) → new_gcm k ≡ some a → IsAead a)
    (secret agent_pub master_pub : List ℕ) (master agent : Session)
    (master_derived : derive_session hkdf new_gcm secret agent_pub master_pub true ≡ some master)
    (agent_derived : derive_session hkdf new_gcm secret agent_pub master_pub false
      ≡ some agent) where
  -- Whatever one end sends, in order and fewer than 2 ^ 64 messages, the other decrypts, in both directions.
  pub derived-transmit :
      (ps : List (List ℕ))
      → length ps < 2 ^ 64
      → (transmit master agent ps ≡ map decrypted ps)
        × (transmit agent master ps ≡ map decrypted ps)
  unfolding derive_session
  derived-transmit ps few =
      let fresh =
        derived-Fresh new_gcm gcm (hkdf secret (agent_pub ++ master_pub)) master agent
          master_derived agent_derived in
      (Fresh-transmit master agent ps fresh.0 few, Fresh-transmit agent master ps fresh.1 few)
