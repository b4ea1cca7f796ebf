-- ===== src/Limiter/Buckets/Throttle.antt =====
-- A temporary limit stays on until a call that means to change it.
use mmw_agent.Base.{
  ℕ, ◌<◌, ◌≡◌, refl, sym, ap, ◌∙◌, ◌≢◌, ◌⊎◌, inl, inr, true, false, none, some, List, [], ◌∷◌,
  arith, Text, text_eq, nat_eq, ◌==◌, if◌then◌else◌, Bool-cases, Option-cases, All, contains,
}
use mmw_agent.Base.Dict.{Dict, lookup, insert, lookup-insert, lookup-erase}
use mmw_agent.Limiter.Types.{UserInfo, InboundInfo, Limiter, Bucket}
use mmw_agent.Limiter.Rate.{determine_rate}
use mmw_agent.Limiter.Buckets.{
  new_inbound, rated, unlimited, add_inbound_limiter, rerate_user, rerate, sync_inbound_limiter,
  update_inbound_limiter, delete_inbound_limiter, load_or_store_bucket, get_user_bucket, remove,
  sweep, get_online_users, get_user_static_limit, throttle, restore, set_user_speed,
}
use mmw_agent.Limiter.Buckets.Apart.{bucket_of, Apart, bucket_of-insert, bucket_of-found}
use mmw_agent.Limiter.Buckets.Calls.{
  Call, add_inbound, sync_inbound, update_inbound, delete_inbound, user_bucket, online_users,
  user_speed, call, calls, call-Apart, bucket_of-keep, lookup-sweep,
}
use mmw_agent.Limiter.Buckets.Sync.{rerate-other, rerate_user-other, elsewhere}

-- The email is marked, and its bucket has the rate of the temporary limit.
pub record Throttled (l : Limiter) (tag email : Text) (speed b : ℕ) : Type 0 where
  pub marked : contains email l.auto_limited ≡ true
  pub has : bucket_of l.inbounds tag email ≡ some b
  pub slow : lookup b l.buckets ≡ some (rated speed)

pub contains-remove :
    (x y : Text) (xs : List Text)
    → contains x (remove y xs) ≡ (if x == y then false else contains x xs)
unfolding contains remove
contains-remove x y [] = ground arith
contains-remove x y (z ∷ xs) = ground (arith, contains-remove x y xs)

-- The calls that are not about this user's limit: other users' limits, other inbounds, new
-- configurations that give the user no limit, new connections and the collection of online users.
abbrev pub Spares : Text → Text → Call → Type 0
Spares tag email (add_inbound t node users) = t ≢ tag
Spares tag email (sync_inbound t node users) =
    (t ≢ tag) ⊎ All (λ w. (w.email ≢ email) ⊎ (determine_rate node w.speed_limit ≡ 0)) users
Spares tag email (update_inbound t users) = (t ≢ tag) ⊎ All (λ w. w.email ≢ email) users
Spares tag email (delete_inbound t) = t ≢ tag
Spares tag email (user_bucket t e ip now) = Unit
Spares tag email (online_users t) = Unit
Spares tag email (user_speed t e speed) = e ≢ email

module _ (l : Limiter) (tag email : Text) (speed b : ℕ) (v : Apart l)
    (h : Throttled l tag email speed b) where
  -- The inbound is known.
  known : (t : Text) → lookup t l.inbounds ≡ none → t ≢ tag
  unfolding bucket_of
  known t missing = let has = h.has in ground arith

  add-Throttled :
      (t : Text) (node : ℕ) (users : List UserInfo)
      → t ≢ tag
      → Throttled (add_inbound_limiter l t node users) tag email speed b
  unfolding add_inbound_limiter
  add-Throttled t node users other = record {
    marked = h.marked;
    has = ground (arith, h.has, bucket_of-insert l.inbounds t (new_inbound t node users) tag email);
    slow = h.slow;
  }

  delete-Throttled : (t : Text) → t ≢ tag → Throttled (delete_inbound_limiter l t) tag email speed b
  unfolding delete_inbound_limiter bucket_of
  delete-Throttled t other = record {
    marked = h.marked;
    has = (let has = h.has in ground (arith, lookup-erase tag t l.inbounds));
    slow = h.slow;
  }

  online-Throttled : (t : Text) → Throttled (get_online_users l t).0 tag email speed b
  unfolding get_online_users
  online-Throttled t = elim (Option-cases (lookup t l.inbounds)) [
    | inl e ↦ rw (e, get_online_users) h
    | inr (info, found) ↦
        let next = record info {
          bucket_hub = sweep info.user_online_ip l.auto_limited info.bucket_hub;
          user_online_ip = [];
        } in
        rw (found, get_online_users)
          (record {
            marked = h.marked;
            has = ground (
              arith,
              h.has,
              h.marked,
              bucket_of-insert l.inbounds t next tag email,
              bucket_of-found l.inbounds t email found,
              lookup-sweep info.user_online_ip l.auto_limited info.bucket_hub email,
            );
            slow = h.slow;
          })
  ]

  below : b < l.next_bucket
  below = v.made tag email b h.has

  -- Another email gets a new bucket.
  new-has :
      (t e : Text) (info next : InboundInfo)
      → lookup t l.inbounds ≡ some info
      → lookup e info.bucket_hub ≡ none
      → next.bucket_hub ≡ insert e l.next_bucket info.bucket_hub
      → bucket_of (insert t next l.inbounds) tag email ≡ some b
  new-has t e info next found missing hub = ground (
    arith,
    h.has,
    hub,
    missing,
    bucket_of-insert l.inbounds t next tag email,
    bucket_of-found l.inbounds t email found,
    lookup-insert email e l.next_bucket info.bucket_hub,
  )

  new-slow : (x : Bucket) → lookup b (insert l.next_bucket x l.buckets) ≡ some (rated speed)
  new-slow x = ground (arith, h.slow, below, lookup-insert b l.next_bucket x l.buckets)

  stored-Throttled :
      (t e : Text) (info next : InboundInfo) (x : Bucket)
      → lookup t l.inbounds ≡ some info
      → next.bucket_hub ≡ info.bucket_hub
      → Throttled (load_or_store_bucket l t next e x).0 tag email speed b
  unfolding load_or_store_bucket
  stored-Throttled t e info next x found same = elim (Option-cases (lookup e next.bucket_hub)) [
    | inl q ↦
        rw (q, load_or_store_bucket)
          (record {
            marked = h.marked;
            has =
                new-has t e info
                  (record next { bucket_hub = insert e l.next_bucket next.bucket_hub }) found
                  (ap (lookup e) (sym same) ∙ q) (ap (insert e l.next_bucket) same);
            slow = new-slow x;
          })
    | inr (c, q) ↦
        rw (q, load_or_store_bucket)
          (record {
            marked = h.marked;
            has = bucket_of-keep l t info next found same tag email ∙ h.has;
            slow = new-slow x;
          })
  ]

  bucket-Throttled :
      (t e ip : Text) (now : ℕ) → Throttled (get_user_bucket l t e ip now).0 tag email speed b
  unfolding get_user_bucket
  bucket-Throttled t e ip now = elim (Option-cases (lookup t l.inbounds)) [
    | inl q ↦ rw (q, get_user_bucket) h
    | inr (info, found) ↦ rw (found, get_user_bucket) (stored-Throttled t e info _ _ found refl)
  ]

  -- A bucket of another email is another bucket.
  distinct :
      (t e : Text) (info : InboundInfo) (c : ℕ)
      → lookup t l.inbounds ≡ some info
      → lookup e info.bucket_hub ≡ some c
      → e ≢ email
      → c ≢ b
  distinct t e info c found q other same =
      other (
        (v.apart t e tag email b (bucket_of-found l.inbounds t e found ∙ q ∙ ap some same) h.has).1)

  throttle-Throttled :
      (t e : Text) (info : InboundInfo) (s : ℕ)
      → lookup t l.inbounds ≡ some info
      → e ≢ email
      → Throttled (throttle l t info e s) tag email speed b
  unfolding throttle contains
  throttle-Throttled t e info s found other = elim (Option-cases (lookup e info.bucket_hub)) [
    | inl q ↦
        rw (q, throttle)
          (record {
            marked = ground (arith, h.marked, contains-remove email e l.auto_limited);
            has = new-has t e info _ found q refl;
            slow = new-slow (rated s);
          })
    | inr (c, q) ↦
        rw (q, throttle)
          (record {
            marked = ground (arith, h.marked, contains-remove email e l.auto_limited);
            has = h.has;
            slow = ground (
              arith,
              h.slow,
              distinct t e info c found q other,
              lookup-insert b c (rated s) l.buckets,
            );
          })
  ]

  restore-Throttled :
      (t e : Text) (info : InboundInfo)
      → lookup t l.inbounds ≡ some info
      → e ≢ email
      → Throttled (restore l t info e) tag email speed b
  unfolding restore
  restore-Throttled t e info found other =
      let orig = get_user_static_limit info t e in
      record {
        marked = ground (arith, h.marked, contains-remove email e l.auto_limited);
        has = h.has;
        slow = elim (Option-cases (lookup e info.bucket_hub)) [
          | inl q ↦ rw (q, restore) h.slow
          | inr (c, q) ↦
              rw (q, restore)
                (ground (
                  arith,
                  h.slow,
                  distinct t e info c found q other,
                  lookup-insert b c (if orig == 0 then unlimited else rated orig) l.buckets,
                ))
        ];
      }

  speed-Throttled :
      (t e : Text) (s : ℕ) → e ≢ email → Throttled (set_user_speed l t e s) tag email speed b
  unfolding set_user_speed
  speed-Throttled t e s other = elim (Option-cases (lookup t l.inbounds)) [
    | inl q ↦ rw (q, set_user_speed) h
    | inr (info, found) ↦ elim (Bool-cases (s == 0)) [
      | inl off ↦ rw (found, set_user_speed, off) (restore-Throttled t e info found other)
      | inr on ↦ rw (found, set_user_speed, on) (throttle-Throttled t e info s found other)
    ]
  ]

  user-Throttled :
      (t : Text) (node : ℕ) (info : InboundInfo) (w : UserInfo) (m : Dict ℕ Bucket)
      → lookup t l.inbounds ≡ some info
      → (w.email ≢ email) ⊎ (determine_rate node w.speed_limit ≡ 0)
      → lookup b (rerate_user node info.bucket_hub w m) ≡ lookup b m
  unfolding rerate_user
  user-Throttled t node info w m found (inl other) =
      rerate_user-other node info.bucket_hub w m b
        (λ q. distinct t w.email info b found q other refl)
  user-Throttled t node info w m found (inr none_set) = ground arith

  -- A user of the list who gets no limit, or who is another user, leaves the bucket alone.
  rerate-Throttled :
      (t : Text) (node : ℕ) (info : InboundInfo) (users : List UserInfo) (m : Dict ℕ Bucket)
      → lookup t l.inbounds ≡ some info
      → ((t ≢ tag) ⊎ All (λ w. (w.email ≢ email) ⊎ (determine_rate node w.speed_limit ≡ 0)) users)
      → lookup b (rerate node info.bucket_hub users m) ≡ lookup b m
  unfolding rerate
  rerate-Throttled t node info users m found (inl other) =
      rerate-other node info.bucket_hub users m b
        (elsewhere l t info tag email b users v found (λ e. other (sym e)) h.has)
  rerate-Throttled t node info [] m found (inr spared) = refl
  rerate-Throttled t node info (w ∷ users) m found (inr spared) =
      rerate-Throttled t node info users (rerate_user node info.bucket_hub w m) found (inr spared.1)
      ∙ user-Throttled t node info w m found spared.0

  sync-Throttled :
      (t : Text) (node : ℕ) (users : List UserInfo)
      → Spares tag email (sync_inbound t node users)
      → Throttled (sync_inbound_limiter l t node users).0 tag email speed b
  unfolding sync_inbound_limiter
  sync-Throttled t node users spared = elim (Option-cases (lookup t l.inbounds)) [
    | inl q ↦ rw (q, sync_inbound_limiter) (add-Throttled t node users (known t q))
    | inr (info, found) ↦
        rw (found, sync_inbound_limiter)
          (record {
            marked = h.marked;
            has = bucket_of-keep l t info _ found refl tag email ∙ h.has;
            slow = rerate-Throttled t node info users l.buckets found spared ∙ h.slow;
          })
  ]

  update-Throttled :
      (t : Text) (users : List UserInfo)
      → Spares tag email (update_inbound t users)
      → Throttled (update_inbound_limiter l t users) tag email speed b
  unfolding update_inbound_limiter
  update-Throttled t users spared = elim (Option-cases (lookup t l.inbounds)) [
    | inl q ↦ rw (q, update_inbound_limiter) (add-Throttled t 0 users (known t q))
    | inr (info, found) ↦
        rw (found, update_inbound_limiter)
          (record {
            marked = h.marked;
            has = bucket_of-keep l t info _ found refl tag email ∙ h.has;
            slow =
                rerate-Throttled t info.node_speed_limit info users l.buckets found
                  (weaken info.node_speed_limit users spared)
                ∙ h.slow;
          })
  ]
    where
      all_inl :
          (node : ℕ) (us : List UserInfo)
          → All (λ w. w.email ≢ email) us
          → All (λ w. (w.email ≢ email) ⊎ (determine_rate node w.speed_limit ≡ 0)) us
      all_inl node [] a = tt
      all_inl node (w ∷ us) a = (inl a.0, all_inl node us a.1)

      weaken :
          (node : ℕ) (us : List UserInfo)
          → ((t ≢ tag) ⊎ All (λ w. w.email ≢ email) us)
          → ((t ≢ tag) ⊎ All (λ w. (w.email ≢ email) ⊎ (determine_rate node w.speed_limit ≡ 0)) us)
      weaken node us (inl o) = inl o
      weaken node us (inr a) = inr (all_inl node us a)

  call-Throttled : (c : Call) → Spares tag email c → Throttled (call l c) tag email speed b
  unfolding call
  call-Throttled (add_inbound t node users) s = add-Throttled t node users s
  call-Throttled (sync_inbound t node users) s = sync-Throttled t node users s
  call-Throttled (update_inbound t users) s = update-Throttled t users s
  call-Throttled (delete_inbound t) s = delete-Throttled t s
  call-Throttled (user_bucket t e ip now) s = bucket-Throttled t e ip now
  call-Throttled (online_users t) s = online-Throttled t
  call-Throttled (user_speed t e speed') s = speed-Throttled t e speed' s

-- A temporary limit survives all calls that spare it: the user keeps the bucket, at the
-- limited rate, however often online users are collected and whoever connects.
pub calls-Throttled :
    (l : Limiter) (tag email : Text) (speed b : ℕ) (cs : List Call)
    → Apart l
    → Throttled l tag email speed b
    → All (Spares tag email) cs
    → Throttled (calls l cs) tag email speed b
unfolding calls
calls-Throttled l tag email speed b [] v h spared = h
calls-Throttled l tag email speed b (c ∷ cs) v h spared =
    calls-Throttled (call l c) tag email speed b cs (call-Apart l c v)
      (call-Throttled l tag email speed b v h c spared.0) spared.1
