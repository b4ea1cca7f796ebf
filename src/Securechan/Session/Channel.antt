-- ===== src/Securechan/Session/Channel.antt =====
-- Two sessions with matching keys: what one encrypts the other decrypts, in any order the window
-- allows, and nothing twice.
use mmw_agent.Base.{
  ℕ, ◌+◌, ◌%◌, ◌^◌, ◌<◌, ◌≡◌, refl, sym, ap, ◌∙◌, inl, inr, Bool, true, false, ◌&&◌, some, List, [],
  ◌∷◌, arith, text_eq, nat_eq, ◌==◌, leb, if◌then◌else◌, Bool-cases, length, drop, length-append,
  drop-append, contains,
}
use mmw_agent.Securechan.Window.{check}
use mmw_agent.Securechan.Window.History.{is_fresh, Represents, Refines, check-Refines}
use mmw_agent.Securechan.Words.{put_uint64, uint64-put_uint64, length-put_uint64}
use mmw_agent.Securechan.Session.{
  envelope_version, envelope_header, gcm_tag_size, Session, make_nonce, encrypt, DecryptResult,
  decrypted, replayed, opened, envelope_seq, accept, decrypt_versioned, decrypt,
}

-- The receiver's cipher opens what the sender's seals, and a seal is 16 bytes longer.
pub record Matched (s r : Session) : Type 0 where
  pub opens : (n p : List ℕ) → r.recv_cipher.open_sealed n (s.send_cipher.seal n p) ≡ some p
  pub tagged : (n p : List ℕ) → length (s.send_cipher.seal n p) ≡ length p + gcm_tag_size
  pub nonce : r.recv_nonce ≡ s.send_nonce

-- An envelope that is long enough and of this version.
unfoldable pub is_envelope : List ℕ → Bool
unfolding nat_eq
is_envelope [] = false
is_envelope (version ∷ body) =
    leb (envelope_header + gcm_tag_size) (length (version ∷ body)) && version == envelope_version

decrypt-accept :
    (r : Session) (envelope : List ℕ)
    → is_envelope envelope ≡ true
    → decrypt r envelope ≡ accept r envelope
unfolding decrypt decrypt_versioned is_envelope nat_eq
decrypt-accept r [] h = ground arith
decrypt-accept r (version ∷ body) h = ground (arith, h)

encrypt-is_envelope :
    (s r : Session) (p : List ℕ) → Matched s r → is_envelope (encrypt s p).1 ≡ true
unfolding encrypt is_envelope nat_eq
encrypt-is_envelope s r p m =
    let seq = (s.send_seq + 1) % 2 ^ 64 in
    let ct = s.send_cipher.seal (make_nonce s.send_nonce seq) p in
    ground (
      arith,
      m.tagged (make_nonce s.send_nonce seq) p,
      length-put_uint64 seq,
      length-append (put_uint64 seq) ct,
    )

encrypt-seq : (s : Session) (p : List ℕ) → envelope_seq (encrypt s p).1 ≡ (s.send_seq + 1) % 2 ^ 64
unfolding encrypt envelope_seq
encrypt-seq s p =
    let seq = (s.send_seq + 1) % 2 ^ 64 in
    uint64-put_uint64 seq (s.send_cipher.seal (make_nonce s.send_nonce seq) p) (omega arith)

encrypt-body :
    (s : Session) (p : List ℕ)
    → drop envelope_header (encrypt s p).1
      ≡ s.send_cipher.seal (make_nonce s.send_nonce ((s.send_seq + 1) % 2 ^ 64)) p
unfolding encrypt
encrypt-body s p =
    let seq = (s.send_seq + 1) % 2 ^ 64 in
    drop-append 8 (put_uint64 seq) (s.send_cipher.seal (make_nonce s.send_nonce seq) p)
      (length-put_uint64 seq)

encrypt-opened :
    (s r : Session) (p : List ℕ)
    → Matched s r
    → r.recv_cipher.open_sealed
        (make_nonce r.recv_nonce (envelope_seq (encrypt s p).1))
        (drop envelope_header (encrypt s p).1)
      ≡ some p
encrypt-opened s r p m =
    rw (encrypt-seq s p, encrypt-body s p, m.nonce)
      (m.opens (make_nonce s.send_nonce ((s.send_seq + 1) % 2 ^ 64)) p)

-- What a receiver that knows the history makes of the next envelope of its peer.
unfoldable pub expected : List ℕ → ℕ → List ℕ → DecryptResult
expected h seq p = if is_fresh h seq then decrypted p else replayed seq

-- The history after an envelope with that number.
unfoldable pub remembered : List ℕ → ℕ → List ℕ
remembered h seq = if is_fresh h seq then seq ∷ h else h

accept-window :
    (r : Session) (h : List ℕ) (e : List ℕ)
    → Represents r.recv_window h
    → Represents (accept r e).0.recv_window (remembered h (envelope_seq e))
unfolding accept Refines remembered
accept-window r h e known =
    let refines = check-Refines r.recv_window h (envelope_seq e) known in
    elim (Bool-cases (check r.recv_window (envelope_seq e)).1) [
      | inl good ↦ rw good refines.1
      | inr bad ↦ rw bad refines.1
    ]

accept-result :
    (r : Session) (h e p : List ℕ)
    → Represents r.recv_window h
    → r.recv_cipher.open_sealed (make_nonce r.recv_nonce (envelope_seq e)) (drop envelope_header e)
      ≡ some p
    → (accept r e).1 ≡ expected h (envelope_seq e) p
unfolding accept Refines expected opened
accept-result r h e p known opens = rw (check-Refines r.recv_window h (envelope_seq e) known).0 (
    rw opens (elim (Bool-cases (is_fresh h (envelope_seq e))) [
      | inl good ↦ rw good refl
      | inr bad ↦ rw bad refl
    ]))

-- An envelope of the peer decrypts to what was sent if its number is good for the history of the
-- receiver, is refused as a replay if not, and is remembered.
pub decrypt-encrypt :
    (s r : Session) (h p : List ℕ)
    → Matched s r
    → Represents r.recv_window h
    → s.send_seq + 1 < 2 ^ 64
    → ((decrypt r (encrypt s p).1).1 ≡ expected h (s.send_seq + 1) p)
      × Represents (decrypt r (encrypt s p).1).0.recv_window (remembered h (s.send_seq + 1))
decrypt-encrypt s r h p m known room =
    let e = (encrypt s p).1 in
    let seq : envelope_seq e ≡ s.send_seq + 1 = encrypt-seq s p ∙ omega (arith, room) in
    rw (decrypt-accept r e (encrypt-is_envelope s r p m)) (
      accept-result r h e p known (encrypt-opened s r p m) ∙ ap (λ n. expected h n p) seq,
      coe 0 1 (i. Represents (accept r e).0.recv_window (remembered h (seq i)))
          (accept-window r h e known),
    )

stale_again : (h : List ℕ) (seq : ℕ) → is_fresh (remembered h seq) seq ≡ false
unfolding remembered is_fresh nat_eq contains
stale_again h seq = elim (Bool-cases (is_fresh h seq)) [
  | inl good ↦ rw good (ground arith)
  | inr bad ↦ rw bad bad
]

accept-stale :
    (r : Session) (h e : List ℕ)
    → Represents r.recv_window h
    → is_fresh h (envelope_seq e) ≡ false
    → (accept r e).1 ≡ replayed (envelope_seq e)
unfolding accept Refines
accept-stale r h e known stale =
    let answer : (check r.recv_window (envelope_seq e)).1 ≡ false =
      (check-Refines r.recv_window h (envelope_seq e) known).0 ∙ stale in
    rw answer refl

-- Of two envelopes with one number the second is refused as a replay, even if the first was not
-- genuine: the number is spent before the cipher has opened the first.
pub decrypt_spent :
    (r : Session) (h e e' : List ℕ)
    → Represents r.recv_window h
    → is_envelope e ≡ true
    → is_envelope e' ≡ true
    → envelope_seq e ≡ envelope_seq e'
    → (decrypt (decrypt r e).0 e').1 ≡ replayed (envelope_seq e')
decrypt_spent r h e e' known good good' same = rw (decrypt-accept r e good) (
    rw (decrypt-accept (accept r e).0 e' good') (
      accept-stale (accept r e).0 (remembered h (envelope_seq e)) e' (accept-window r h e known) (
        ap (λ n. is_fresh (remembered h (envelope_seq e)) n) (sym same)
        ∙ stale_again h (envelope_seq e))))
