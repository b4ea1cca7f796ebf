-- ===== src/Securechan/Tests.antt =====
-- Runs of the secure channel with a toy cipher that adds a tag of zeros, and the laws at them.
use mmw_agent.Base.{
  ℕ, zero, suc, ◌-◌, ◌≡◌, refl, ap, true, false, Option, none, some, List, [], ◌∷◌, ◌++◌, map,
  arith, text, text_eq, nat_eq, length, take, length-append, take-append,
}
use mmw_agent.Securechan.Window.{empty_window, check}
use mmw_agent.Securechan.Window.History.{latest, Represents, Refines, check-Refines}
use mmw_agent.Securechan.Session.{
  Aead, Session, DerivedKeys, derive_session, encrypt, decrypted, replayed, decrypt, transmit,
  envelope_seq,
}
use mmw_agent.Securechan.Session.Channel.{
  expected, remembered, is_envelope, decrypt-encrypt, decrypt_spent,
}
use mmw_agent.Securechan.Session.Order.{IsAead, derived-transmit}
use mmw_agent.Securechan.Cache.{
  SessionCache, get, cleanup, keys_distinct, CacheCall, set_call, delete_call, cleanup_call,
  cache_calls, answer_after, get-cache_calls,
}

abbrev zeros : ℕ → List ℕ
zeros zero = []
zeros (suc n) = 0 ∷ zeros n

abbrev toy : Aead
toy = record { seal = λ n p. p ++ zeros 16; open_sealed = λ n c. some (take (length c - 16) c) }

toy-IsAead : IsAead toy
toy-IsAead = record {
  opens = λ n p. ap some (
      take-append (length (p ++ zeros 16) - 16) p (zeros 16)
        (omega (arith, length-append p (zeros 16))));
  tagged = λ n p. omega (arith, length-append p (zeros 16));
}

abbrev toy_gcm : List ℕ → Option Aead
toy_gcm k = some toy

abbrev the_aead : Option Aead → Aead
the_aead none = toy
the_aead (some a) = a

toy_gcm-IsAead : (k : List ℕ) (a : Aead) → toy_gcm k ≡ some a → IsAead a
toy_gcm-IsAead k a e = coe 0 1 (i. IsAead (the_aead (e i))) toy-IsAead

abbrev toy_hkdf : List ℕ → List ℕ → Option DerivedKeys
toy_hkdf secret salt = some (record {
  m2a_key = 1 ∷ secret;
  a2m_key = 2 ∷ secret;
  m2a_nonce = 1 ∷ 2 ∷ 3 ∷ 4 ∷ 5 ∷ 6 ∷ 7 ∷ 8 ∷ 9 ∷ 10 ∷ 11 ∷ 12 ∷ [];
  a2m_nonce = 9 ∷ 9 ∷ 9 ∷ 9 ∷ 9 ∷ 9 ∷ 9 ∷ 9 ∷ 9 ∷ 9 ∷ 9 ∷ 9 ∷ [];
})

abbrev master : Session
master = record {
  send_cipher = toy;
  recv_cipher = toy;
  send_seq = 0;
  send_nonce = 1 ∷ 2 ∷ 3 ∷ 4 ∷ 5 ∷ 6 ∷ 7 ∷ 8 ∷ 9 ∷ 10 ∷ 11 ∷ 12 ∷ [];
  recv_nonce = 9 ∷ 9 ∷ 9 ∷ 9 ∷ 9 ∷ 9 ∷ 9 ∷ 9 ∷ 9 ∷ 9 ∷ 9 ∷ 9 ∷ [];
  recv_window = empty_window;
}

abbrev agent : Session
agent = record master { send_nonce = master.recv_nonce; recv_nonce = master.send_nonce }

unseen : Represents empty_window []
unfolding latest
unseen = record { greatest = refl; bits = λ d small inside. absurd (omega (arith, inside)) }

-- Four checks: 3 and 1 are good, 3 again and 0 are not.
window_run :
    (check empty_window 3 ≡ (record { max_seq = 3; bitmap = 1 }, true))
    × (check (record { max_seq = 3; bitmap = 1 }) 1 ≡ (record { max_seq = 3; bitmap = 5 }, true))
    × ((check (record { max_seq = 3; bitmap = 5 }) 3).1 ≡ false)
    × ((check (record { max_seq = 3; bitmap = 5 }) 0).1 ≡ false)
unfolding check
window_run = (refl, refl, refl, refl)

check-Refines_example : Refines empty_window [] 3 (check empty_window 3)
check-Refines_example = check-Refines empty_window [] 3 unseen

decrypt-encrypt_example :
    ((decrypt agent (encrypt master (104 ∷ 105 ∷ [])).1).1 ≡ expected [] 1 (104 ∷ 105 ∷ []))
    × Represents (decrypt agent (encrypt master (104 ∷ 105 ∷ [])).1).0.recv_window (remembered [] 1)
decrypt-encrypt_example =
    decrypt-encrypt master agent [] (104 ∷ 105 ∷ [])
      (record { opens = toy-IsAead.opens; tagged = toy-IsAead.tagged; nonce = refl }) unseen
      (omega arith)

-- An envelope with the number 1 and a body of zeros.
abbrev forged : List ℕ
forged = 1 ∷ 0 ∷ 0 ∷ 0 ∷ 0 ∷ 0 ∷ 0 ∷ 0 ∷ 1 ∷ zeros 16

abbrev genuine : List ℕ
genuine = 1 ∷ 0 ∷ 0 ∷ 0 ∷ 0 ∷ 0 ∷ 0 ∷ 0 ∷ 1 ∷ 104 ∷ 105 ∷ zeros 16

genuine_sent : (encrypt master (104 ∷ 105 ∷ [])).1 ≡ genuine
unfolding encrypt
genuine_sent = refl

decrypt_spent_example :
    (decrypt (decrypt agent forged).0 genuine).1 ≡ replayed (envelope_seq genuine)
unfolding is_envelope envelope_seq
decrypt_spent_example = decrypt_spent agent [] forged genuine unseen refl refl refl

derived-transmit_example :
    (transmit master agent ((7 ∷ []) ∷ (8 ∷ []) ∷ []) ≡ map decrypted ((7 ∷ []) ∷ (8 ∷ []) ∷ []))
    × (transmit agent master ((7 ∷ []) ∷ (8 ∷ []) ∷ []) ≡ map decrypted ((7 ∷ []) ∷ (8 ∷ []) ∷ []))
unfolding derive_session
derived-transmit_example =
    derived-transmit toy_hkdf toy_gcm toy_gcm-IsAead [] [] [] master agent refl refl
      ((7 ∷ []) ∷ (8 ∷ []) ∷ []) (omega arith)

abbrev cached : SessionCache
cached = record {
  entries =
      (text "t", record { session = master; expires_at = 50 })
      ∷ (text "u", record { session = agent; expires_at = 70 })
      ∷ [];
  ttl = 30;
}

-- A session is set again after its first one was deleted, and the clean-up runs in between.
abbrev some_calls : List CacheCall
some_calls =
    set_call 55 (text "t") agent
    ∷ delete_call (text "t")
    ∷ cleanup_call 60
    ∷ set_call 61 (text "t") master
    ∷ []

get-cache_calls_example :
    get (cache_calls cached some_calls) 91 (text "t")
    ≡ answer_after 30 91 (text "t") some_calls (get cached 91 (text "t"))
unfolding keys_distinct text_eq
get-cache_calls_example =
    get-cache_calls cached some_calls 91 (text "t") refl
      (omega arith, (tt, (omega arith, (omega arith, tt))))

-- The first entry has expired, the second has not.
cache_run :
    (cleanup cached 60).entries ≡ (text "u", record { session = agent; expires_at = 70 }) ∷ []
unfolding cleanup
cache_run = refl
