-- ===== src/Limiter/Buckets/Limits.antt =====
-- Temporary limits from their beginning to their end, and what a new configuration does to them.
use mmw_agent.Base.{
  ℕ, ◌<◌, ◌≡◌, refl, sym, ap, ◌∙◌, ◌≢◌, inl, inr, true, false, some, List, [], ◌∷◌, ◌++◌, arith,
  Text, text_eq, nat_eq, ◌==◌, if◌then◌else◌, Option-cases, All, contains,
}
use mmw_agent.Base.Dict.{lookup, insert, lookup-insert}
use mathlib.Core.Option.{some-injective}
use mmw_agent.Limiter.Types.{UserInfo, InboundInfo, Limiter}
use mmw_agent.Limiter.Rate.{determine_rate, Least, determine_rate-least}
use mmw_agent.Limiter.Users.{expected_prefix, scan_users}
use mmw_agent.Limiter.Buckets.{
  rated, unlimited, user_speed_limit, add_inbound_limiter, sync_inbound_limiter,
  load_or_store_bucket, get_user_bucket, remove, get_user_static_limit, throttle, restore,
  set_user_speed,
}
use mmw_agent.Limiter.Buckets.Apart.{bucket_of, Apart, bucket_of-insert, bucket_of-found}
use mmw_agent.Limiter.Buckets.Calls.{Call, user_speed, call, calls, call-Apart}
use mmw_agent.Limiter.Buckets.Sync.{sync_rates}
use mmw_agent.Limiter.Buckets.Throttle.{Throttled, Spares, contains-remove, calls-Throttled}

-- SetUserSpeed with a speed limits the bucket that the connections of the email have, if any.
set_user_speed-Throttled :
    (l : Limiter) (tag email : Text) (speed : ℕ) {info : InboundInfo}
    → lookup tag l.inbounds ≡ some info
    → 0 < speed
    → (b : ℕ) × Throttled (set_user_speed l tag email speed) tag email speed b
      × ((c : ℕ) → bucket_of l.inbounds tag email ≡ some c → c ≡ b)
unfolding set_user_speed throttle contains
set_user_speed-Throttled l tag email speed {info} found positive =
    elim (Option-cases (lookup email info.bucket_hub)) [
      | inl e ↦ (
        l.next_bucket,
        rw (found, set_user_speed, on, e, throttle)
            (record {
              marked = ground arith;
              has = ground (
                arith,
                bucket_of-insert l.inbounds tag
                    (record info { bucket_hub = insert email l.next_bucket info.bucket_hub }) tag
                    email,
                lookup-insert email email l.next_bucket info.bucket_hub,
              );
              slow =
                  ground (arith, lookup-insert l.next_bucket l.next_bucket (rated speed) l.buckets);
            }),
        λ c q. ground (arith, q, e, bucket_of-found l.inbounds tag email found),
      )
      | inr (b, e) ↦ (
        b,
        rw (found, set_user_speed, on, e, throttle)
            (record {
              marked = ground arith;
              has = bucket_of-found l.inbounds tag email found ∙ e;
              slow = ground (arith, lookup-insert b b (rated speed) l.buckets);
            }),
        λ c q. ground (arith, q, e, bucket_of-found l.inbounds tag email found),
      )
    ]
  where
    on : (speed == 0) ≡ false
    on = ground arith

-- A connection of a limited user gets the limited bucket.
get_user_bucket-Throttled :
    (l : Limiter) (tag email ip : Text) (now speed b : ℕ)
    → Throttled l tag email speed b
    → (get_user_bucket l tag email ip now).1 ≡ some b
unfolding get_user_bucket load_or_store_bucket bucket_of
get_user_bucket-Throttled l tag email ip now speed b h =
    let has = h.has in
    elim (Option-cases (lookup tag l.inbounds)) [
      | inl e ↦ ground (arith, e)
      | inr (info, found) ↦
          rw (found, get_user_bucket)
            (let q = sym (bucket_of-found l.inbounds tag email found) ∙ h.has in ground (arith, q))
    ]

-- A temporary limit reaches the connections in use, since it is set in the bucket that they hold,
-- and every later connection, until a call means to change it.
pub throttle_holds :
    (l : Limiter) (tag email ip : Text) (speed now : ℕ) (cs : List Call) {info : InboundInfo}
    → Apart l
    → lookup tag l.inbounds ≡ some info
    → 0 < speed
    → All (Spares tag email) cs
    → let l' = calls (set_user_speed l tag email speed) cs in
      (b : ℕ) × ((c : ℕ) → bucket_of l.inbounds tag email ≡ some c → c ≡ b)
      × ((get_user_bucket l' tag email ip now).1 ≡ some b)
      × (lookup b l'.buckets ≡ some (rated speed))
unfolding call
throttle_holds l tag email ip speed now cs v found positive spared =
    let (b, h, old) = set_user_speed-Throttled l tag email speed found positive in
    let h' =
      calls-Throttled (set_user_speed l tag email speed) tag email speed b cs
        (call-Apart l (user_speed tag email speed) v) h spared in
    (
      b,
      old,
      get_user_bucket-Throttled (calls (set_user_speed l tag email speed) cs) tag email ip now speed
          b h',
      h'.slow,
    )

module _ (l : Limiter) (tag email : Text) (b : ℕ) (info : InboundInfo)
    (found : lookup tag l.inbounds ≡ some info) (has : lookup email info.bucket_hub ≡ some b) where
  set_user_speed_on :
      (speed : ℕ)
      → 0 < speed
      → set_user_speed l tag email speed ≡ record l {
        auto_limited = email ∷ remove email l.auto_limited;
        buckets = insert b (rated speed) l.buckets;
      }
  unfolding set_user_speed throttle
  set_user_speed_on speed positive = rw (found, set_user_speed) (ground (arith, has))

  set_user_speed_off :
      let own = get_user_static_limit info tag email in
      set_user_speed l tag email 0 ≡ record l {
        auto_limited = remove email l.auto_limited;
        buckets = insert b (if own == 0 then unlimited else rated own) l.buckets;
      }
  unfolding set_user_speed restore nat_eq
  set_user_speed_off = rw (found, set_user_speed) (rw (has, restore) refl)

-- The bucket that the first connection of an email gets is new and has the rate of its settings.
fresh_bucket :
    (l : Limiter) (tag email ip : Text) (now : ℕ) (info : InboundInfo)
    → let own = get_user_static_limit info tag email in
      let first =
        get_user_bucket
          (record l { inbounds = insert tag (record info { bucket_hub = [] }) l.inbounds })
          tag
          email
          ip
          now in
      (first.1 ≡ some l.next_bucket)
      × (lookup l.next_bucket first.0.buckets ≡ some (if own == 0 then unlimited else rated own))
unfolding get_user_bucket load_or_store_bucket get_user_static_limit lookup
fresh_bucket l tag email ip now info =
    let own = get_user_static_limit info tag email in
    let there : lookup tag (insert tag (record info { bucket_hub = [] }) l.inbounds)
        ≡ some (record info { bucket_hub = [] }) =
      ground (arith, lookup-insert tag tag (record info { bucket_hub = [] }) l.inbounds) in
    rw (there, get_user_bucket)
      (
        refl,
        lookup-insert l.next_bucket l.next_bucket (if own == 0 then unlimited else rated own)
              l.buckets
            ∙ ground arith,
      )

-- Setting a temporary limit and lifting it leaves the bucket at the least limit that is set for the
-- node and the user, or without one, which is the rate that a first connection would get; no other
-- bucket is changed, and the mark is taken away.
pub throttle_lifted :
    (l : Limiter) (tag email ip : Text) (speed now b : ℕ) {info : InboundInfo}
    → lookup tag l.inbounds ≡ some info
    → lookup email info.bucket_hub ≡ some b
    → 0 < speed
    → let l' = set_user_speed (set_user_speed l tag email speed) tag email 0 in
      let first =
        get_user_bucket
          (record l { inbounds = insert tag (record info { bucket_hub = [] }) l.inbounds })
          tag
          email
          ip
          now in
      ((own : ℕ) × Least info.node_speed_limit
          (user_speed_limit (scan_users (expected_prefix tag email) info.user_info))
          own
        × (lookup b l'.buckets ≡ some (if own == 0 then unlimited else rated own)))
      × ((c : ℕ) → first.1 ≡ some c → lookup b l'.buckets ≡ lookup c first.0.buckets)
      × ((c : ℕ) → c ≢ b → lookup c l'.buckets ≡ lookup c l.buckets)
      × (bucket_of l'.inbounds tag email ≡ some b)
      × (contains email l'.auto_limited ≡ false)
unfolding contains get_user_static_limit
throttle_lifted l tag email ip speed now b {info} found has positive =
    let own = get_user_static_limit info tag email in
    let limited = record l {
      auto_limited = email ∷ remove email l.auto_limited;
      buckets = insert b (rated speed) l.buckets;
    } in
    let new = if own == 0 then unlimited else rated own in
    let written : lookup b (insert b new limited.buckets) ≡ some new =
      ground (arith, lookup-insert b b new limited.buckets) in
    let (number, rate) = fresh_bucket l tag email ip now info in
    rw (set_user_speed_on l tag email b info found has speed positive) (
      rw (set_user_speed_off limited tag email b info found has) (
        (
          own,
          determine_rate-least info.node_speed_limit
              (user_speed_limit (scan_users (expected_prefix tag email) info.user_info)),
          written,
        ),
        λ c e.
            written
            ∙ sym rate
            ∙ ap
                (λ n.
                  lookup n
                    (get_user_bucket
                      (record l {
                        inbounds = insert tag (record info { bucket_hub = [] }) l.inbounds;
                      })
                      tag email ip now).0.buckets)
                (some-injective _ _ (sym number ∙ e)),
        λ c other. ground (
          arith,
          lookup-insert c b new limited.buckets,
          lookup-insert c b (rated speed) l.buckets,
        ),
        bucket_of-found l.inbounds tag email found ∙ has,
        ground (arith, contains-remove email email (email ∷ remove email l.auto_limited)),
      ))

sync-auto_limited :
    (l : Limiter) (tag : Text) (node : ℕ) (users : List UserInfo)
    → (sync_inbound_limiter l tag node users).0.auto_limited ≡ l.auto_limited
unfolding sync_inbound_limiter add_inbound_limiter
sync-auto_limited l tag node users = ground arith

rated_inj : (r s : ℕ) → rated r ≡ rated s → r ≡ s
unfolding rated
rated_inj r s e = ground arith

known_inbound :
    (l : Limiter) (tag email : Text) (b : ℕ)
    → bucket_of l.inbounds tag email ≡ some b
    → (info : InboundInfo) × (lookup tag l.inbounds ≡ some info)
unfolding bucket_of
known_inbound l tag email b has = elim (Option-cases (lookup tag l.inbounds)) [
  | inl e ↦ ground (arith, e)
  | inr found ↦ found
]

-- A configuration that arrives meanwhile and gives the user another rate lifts the limit, though the
-- email is still marked as limited.
pub sync_lifts_throttle :
    (l : Limiter) (tag : Text) (node speed : ℕ) (before : List UserInfo) (u : UserInfo)
    (after : List UserInfo) (b : ℕ)
    → Apart l
    → Throttled l tag u.email speed b
    → 0 < determine_rate node u.speed_limit
    → determine_rate node u.speed_limit ≢ speed
    → All (λ w. w.email ≢ u.email) after
    → let l' = (sync_inbound_limiter l tag node (before ++ (u ∷ after))).0 in
      (contains u.email l'.auto_limited ≡ true)
      × (bucket_of l'.inbounds tag u.email ≡ some b)
      × (lookup b l'.buckets ≡ some (rated (determine_rate node u.speed_limit)))
      × ¬ Throttled l' tag u.email speed b
sync_lifts_throttle l tag node speed before u after b v h positive differs last =
    let (info, found) = known_inbound l tag u.email b h.has in
    let (kept, new, _) = sync_rates l tag node before u after b v found h.has positive last in
    (
      ap (contains u.email) (sync-auto_limited l tag node (before ++ (u ∷ after))) ∙ h.marked,
      kept tag u.email ∙ h.has,
      new,
      λ h'. differs (rated_inj _ _ (some-injective _ _ (sym new ∙ h'.slow))),
    )
