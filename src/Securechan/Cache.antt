-- ===== src/Securechan/Cache.antt =====
-- internal/securechan/session_cache.go: sessions by token, each with the time it expires.
use mmw_agent.Base.{
  ℕ, ◌+◌, ◌≤◌, ◌≡◌, refl, sym, ap, ◌∙◌, inl, inr, Bool, true, false, not, ◌&&◌, Option, none, some,
  List, [], ◌∷◌, arith, Text, text_eq, nat_eq, ◌==◌, ltb, leb, if◌then◌else◌, Option-cases, All,
  contains,
}
use mmw_agent.Base.Dict.{
  Dict, lookup, insert, erase, lookup-insert, lookup-erase, keys, is_some, contains-keys,
}
use mmw_agent.Securechan.Session.{Session}

pub record CacheEntry : Type 0 where
  pub session : Session
  pub expires_at : ℕ

pub record SessionCache : Type 0 where
  pub entries : Dict Text CacheEntry
  pub ttl : ℕ

-- time.Time.After
unfoldable pub after : ℕ → ℕ → Bool
after now t = ltb t now

unfoldable pub live_session : ℕ → Option CacheEntry → Option Session
unfolding after
live_session now none = none
live_session now (some e) = if after now e.expires_at then none else some e.session

unfoldable pub get : SessionCache → ℕ → Text → Option Session
unfolding live_session
get c now token = live_session now (lookup token c.entries)

unfoldable pub set : SessionCache → ℕ → Text → Session → SessionCache
unfolding insert
set c now token s = record c {
  entries = insert token (record { session = s; expires_at = now + c.ttl }) c.entries;
}

unfoldable pub delete : SessionCache → Text → SessionCache
unfolding erase
delete c token = record c { entries = erase token c.entries }

unfoldable pub drop_expired : ℕ → Dict Text CacheEntry → Dict Text CacheEntry
unfolding after
drop_expired now [] = []
drop_expired now ((k, e) ∷ rest) =
    let kept = drop_expired now rest in if after now e.expires_at then kept else (k, e) ∷ kept

-- One round of the clean-up loop.
unfoldable pub cleanup : SessionCache → ℕ → SessionCache
unfolding drop_expired
cleanup c now = record c { entries = drop_expired now c.entries }

-- A Go map has each key once.
unfoldable pub keys_distinct : Dict Text CacheEntry → Bool
unfolding keys contains
keys_distinct [] = true
keys_distinct ((k, e) ∷ rest) = not (contains k (keys rest)) && keys_distinct rest

lookup-drop_expired :
    (now later : ℕ) (k : Text) (d : Dict Text CacheEntry)
    → now ≤ later
    → keys_distinct d ≡ true
    → live_session later (lookup k (drop_expired now d)) ≡ live_session later (lookup k d)
unfolding lookup drop_expired keys_distinct live_session after
lookup-drop_expired now later k [] order distinct = refl
lookup-drop_expired now later k ((j, e) ∷ rest) order distinct =
    let inner = lookup-drop_expired now later k rest order (ground (arith, distinct)) in
    elim (text_eq.dec k j) [
      | yes same ↦
          let absent : contains k (keys rest) ≡ false =
            ap (λ n. contains n (keys rest)) same ∙ ground (arith, distinct) in
          let gone : is_some (lookup k rest) ≡ false = sym (contains-keys k rest) ∙ absent in
          elim (Option-cases (lookup k rest)) [
            | inl missing ↦ ground (arith, same, missing, inner, order)
            | inr (v, found) ↦ ground (arith, gone, found)
          ]
      | no other ↦ ground (arith, other, inner)
    ]

delete_answer :
    (c : SessionCache) (later : ℕ) (t u : Text)
    → get (delete c t) later u ≡ (if u == t then none else get c later u)
unfolding get delete live_session
delete_answer c later t u = ap (live_session later) (lookup-erase u t c.entries) ∙ ground arith

pub cache_answers :
    (c : SessionCache) (now later : ℕ) (t u : Text) (s : Session)
    → now ≤ later
    → keys_distinct c.entries ≡ true
    → (get (cleanup c now) later u ≡ get c later u)
      × (get (set c now t s) later u
          ≡ (if u == t then (if leb later (now + c.ttl) then some s else none) else get c later u))
      × (get (delete c t) later u ≡ (if u == t then none else get c later u))
unfolding get set delete cleanup live_session after
cache_answers c now later t u s order distinct =
    let e : CacheEntry = record { session = s; expires_at = now + c.ttl } in
    (
      lookup-drop_expired now later u c.entries order distinct,
      ap (live_session later) (lookup-insert u t e c.entries) ∙ ground arith,
      delete_answer c later t u,
    )

insert-distinct :
    (k : Text) (e : CacheEntry) (d : Dict Text CacheEntry)
    → keys_distinct d ≡ true
    → keys_distinct (insert k e d) ≡ true
unfolding insert keys_distinct contains keys
insert-distinct k e [] h = refl
insert-distinct k e ((j, f) ∷ d) h =
    let rest = insert-distinct k e d (ground (arith, h)) in
    let others = contains-keys j (insert k e d) ∙ ap is_some (lookup-insert j k e d) in
    let old = contains-keys j d in
    elim (text_eq.dec k j) [
      | yes same ↦ ground (arith, same, ap (λ n. contains n (keys d)) same, h)
      | no other ↦
          let back : ¬ (j ≡ k) = λ p. other (sym p) in
          ground (arith, other, back, rest, others, old, h)
    ]

erase-distinct :
    (k : Text) (d : Dict Text CacheEntry)
    → keys_distinct d ≡ true
    → keys_distinct (erase k d) ≡ true
unfolding erase keys_distinct contains keys
erase-distinct k [] h = refl
erase-distinct k ((j, f) ∷ d) h =
    let rest = erase-distinct k d (ground (arith, h)) in
    let others = contains-keys j (erase k d) ∙ ap is_some (lookup-erase j k d) in
    let old = contains-keys j d in
    elim (text_eq.dec k j) [
      | yes same ↦ ground (arith, same, rest)
      | no other ↦
          let back : ¬ (j ≡ k) = λ p. other (sym p) in
          ground (arith, other, back, rest, others, old, h)
    ]

drop_expired-absent :
    (now : ℕ) (k : Text) (d : Dict Text CacheEntry)
    → contains k (keys d) ≡ false
    → contains k (keys (drop_expired now d)) ≡ false
unfolding drop_expired contains keys after
drop_expired-absent now k [] h = refl
drop_expired-absent now k ((j, f) ∷ d) h = ground (arith, h, drop_expired-absent now k d)

drop_expired-distinct :
    (now : ℕ) (d : Dict Text CacheEntry)
    → keys_distinct d ≡ true
    → keys_distinct (drop_expired now d) ≡ true
unfolding drop_expired keys_distinct after
drop_expired-distinct now [] h = refl
drop_expired-distinct now ((j, f) ∷ d) h =
    ground (arith, h, drop_expired-distinct now d, drop_expired-absent now j d)

-- A call of Set or Delete, or a round of the clean-up, with its time.
pub data CacheCall : Type 0 where
  set_call : ℕ → Text → Session → CacheCall
  delete_call : Text → CacheCall
  cleanup_call : ℕ → CacheCall

unfoldable pub cache_call : SessionCache → CacheCall → SessionCache
unfolding set delete cleanup
cache_call c (set_call now t s) = set c now t s
cache_call c (delete_call t) = delete c t
cache_call c (cleanup_call now) = cleanup c now

unfoldable pub cache_calls : SessionCache → List CacheCall → SessionCache
unfolding cache_call
cache_calls c [] = c
cache_calls c (x ∷ xs) = cache_calls (cache_call c x) xs

-- A call is not later than that.
abbrev pub Before : ℕ → CacheCall → Type 0
Before later (set_call now t s) = now ≤ later
Before later (delete_call t) = Unit
Before later (cleanup_call now) = now ≤ later

-- What a lookup is to answer, by the calls and the answer without them: the last session that was set
-- for the token, until ttl after that and unless it was deleted since.
abbrev pub answer_after : ℕ → ℕ → Text → List CacheCall → Option Session → Option Session
answer_after ttl later u [] old = old
answer_after ttl later u (set_call now t s ∷ xs) old =
    answer_after ttl later u xs
      (if u == t then (if leb later (now + ttl) then some s else none) else old)
answer_after ttl later u (delete_call t ∷ xs) old =
    answer_after ttl later u xs (if u == t then none else old)
answer_after ttl later u (cleanup_call now ∷ xs) old = answer_after ttl later u xs old

-- After any calls, a lookup at no earlier time answers with the last session that was set for the
-- token, if it has neither expired nor been deleted since, whenever the clean-up ran.
pub get-cache_calls :
    (c : SessionCache) (xs : List CacheCall) (later : ℕ) (u : Text)
    → keys_distinct c.entries ≡ true
    → All (Before later) xs
    → get (cache_calls c xs) later u ≡ answer_after c.ttl later u xs (get c later u)
unfolding cache_calls cache_call set delete cleanup get
get-cache_calls c [] later u distinct early = refl
get-cache_calls c (set_call now t s ∷ xs) later u distinct (first, early) =
    get-cache_calls (set c now t s) xs later u (insert-distinct t _ c.entries distinct) early
    ∙ ap (answer_after c.ttl later u xs) (cache_answers c now later t u s first distinct).1
get-cache_calls c (delete_call t ∷ xs) later u distinct (first, early) =
    get-cache_calls (delete c t) xs later u (erase-distinct t c.entries distinct) early
    ∙ ap (answer_after c.ttl later u xs) (delete_answer c later t u)
get-cache_calls c (cleanup_call now ∷ xs) later u distinct (first, early) =
    get-cache_calls (cleanup c now) xs later u (drop_expired-distinct now c.entries distinct) early
    ∙ ap (answer_after c.ttl later u xs) (lookup-drop_expired now later u c.entries first distinct)
