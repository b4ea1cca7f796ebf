-- ===== src/Limiter/Lookup.antt =====
-- LookupBucketByEmail of internal/limiter/conn.go: the bucket for a spliced connection, of which
-- only the email is known.
use mmw_agent.Base.{
  ℕ, ◌<◌, ◌≡◌, refl, ap, ◌∙◌, ◌≢◌, inl, inr, false, Option, none, some, [], ◌∷◌, ◌++◌, arith, Text,
  text_eq, nat_eq, ◌==◌, if◌then◌else◌, Bool-cases, Option-cases, All,
}
use mmw_agent.Base.Dict.{Dict, lookup, insert, lookup-insert}
use mmw_agent.Limiter.Types.{UserInfo, InboundInfo, Limiter}
use mmw_agent.Limiter.Rate.{determine_rate}
use mmw_agent.Limiter.Buckets.{rated, load_or_store_bucket, throttle, restore, set_user_speed}
use mmw_agent.Limiter.Buckets.Apart.{bucket_of, bucket_of-insert, bucket_of-found}

-- The inner loop: the limit of the first user with that email.
unfoldable pub limit_by_email : Text → Dict Text UserInfo → ℕ
limit_by_email email [] = 0
limit_by_email email ((_, u) ∷ users) =
    let rest = limit_by_email email users in if u.email == email then u.speed_limit else rest

-- The first inbound in the order of the range that limits the user, with the rate.
unfoldable pub first_limited : Text → Dict Text InboundInfo → Option (Text × InboundInfo × ℕ)
unfolding limit_by_email
first_limited email [] = none
first_limited email ((tag, info) ∷ inbounds) =
    let user_limit = limit_by_email email info.user_info in
    let limit = determine_rate info.node_speed_limit user_limit in
    let rest = first_limited email inbounds in
    if user_limit == 0 then rest else (if limit == 0 then rest else some (tag, info, limit))

unfoldable pub bucket_at : Limiter → Text → Text → InboundInfo → ℕ → Limiter × Option ℕ
bucket_at l email tag info limit = elim (lookup email info.bucket_hub) [
  | some b ↦ (l, some b)
  | none ↦ let (l', b) = load_or_store_bucket l tag info email (rated limit) in (l', some b)
]

unfoldable pub lookup_bucket_by_email : Limiter → Text → Limiter × Option ℕ
unfolding first_limited bucket_at
lookup_bucket_by_email l email =
    if email == [] then (l, none) else elim (first_limited email l.inbounds) [
      | none ↦ (l, none)
      | some (tag, info, limit) ↦ bucket_at l email tag info limit
    ]

unlisted-first_limited :
    (email : Text) (inbounds : Dict Text InboundInfo)
    → All (λ e. limit_by_email email e.1.user_info ≡ 0) inbounds
    → first_limited email inbounds ≡ none
unfolding first_limited
unlisted-first_limited email [] none_limited = refl
unlisted-first_limited email ((tag, info) ∷ inbounds) none_limited =
    ground (arith, none_limited.0, unlisted-first_limited email inbounds none_limited.1)

-- No user of that email has a limit of its own at the inbound.
abbrev pub Unlisted : Text → Text × InboundInfo → Type 0
Unlisted email e = limit_by_email email e.1.user_info ≡ 0

limit_by_email-listed :
    (email key : Text) (u : UserInfo) (before after : Dict Text UserInfo)
    → All (λ e. e.1.email ≢ email) before
    → u.email ≡ email
    → limit_by_email email (before ++ ((key, u) ∷ after)) ≡ u.speed_limit
unfolding limit_by_email
limit_by_email-listed email key u [] after others own = ground (arith, own)
limit_by_email-listed email key u ((j, w) ∷ before) after others own =
    ground (arith, others.0, limit_by_email-listed email key u before after others.1 own)

determine_rate-positive : (node user : ℕ) → 0 < user → (determine_rate node user == 0) ≡ false
unfolding determine_rate
determine_rate-positive node user h = ground (arith, h)

first_limited-after :
    (email tag : Text) (info : InboundInfo) (before after : Dict Text InboundInfo)
    → All (Unlisted email) before
    → 0 < limit_by_email email info.user_info
    → first_limited email (before ++ ((tag, info) ∷ after))
      ≡ some (tag, info, determine_rate info.node_speed_limit (limit_by_email email info.user_info))
unfolding first_limited
first_limited-after email tag info [] after unlisted limited = ground (
  arith,
  limited,
  determine_rate-positive info.node_speed_limit (limit_by_email email info.user_info) limited,
)
first_limited-after email tag info ((t, i) ∷ before) after unlisted limited =
    ground (arith, unlisted.0, first_limited-after email tag info before after unlisted.1 limited)

lookup-after :
    (tag : Text) (info : InboundInfo) (before after : Dict Text InboundInfo)
    → All (λ e. e.0 ≢ tag) before
    → lookup tag (before ++ ((tag, info) ∷ after)) ≡ some info
unfolding lookup
lookup-after tag info [] after other = ground arith
lookup-after tag info ((t, i) ∷ before) after other =
    ground (arith, other.0, lookup-after tag info before after other.1)

lookup_bucket_first :
    (l : Limiter) (email tag : Text) (info : InboundInfo) (limit : ℕ)
    → email ≢ []
    → first_limited email l.inbounds ≡ some (tag, info, limit)
    → lookup tag l.inbounds ≡ some info
    → let r = lookup_bucket_by_email l email in
      (b : ℕ) × (r.1 ≡ some b)
      × (bucket_of r.0.inbounds tag email ≡ some b)
      × (bucket_of l.inbounds tag email ≡ none → lookup b r.0.buckets ≡ some (rated limit))
unfolding lookup_bucket_by_email bucket_at load_or_store_bucket
lookup_bucket_first l email tag info limit named first found =
    let empty : (email == []) ≡ false = ground (arith, named) in
    let hub = bucket_of-found l.inbounds tag email found in
    rw empty (
      rw first (elim (Option-cases (lookup email info.bucket_hub)) [
        | inr (b, has) ↦
            rw (has, bucket_at) (b, refl, hub ∙ has, λ missing. ground (arith, missing, hub, has))
        | inl missing ↦
            let grown : InboundInfo = record info {
              bucket_hub = insert email l.next_bucket info.bucket_hub;
            } in
            rw (missing, bucket_at)
              (rw (missing, load_or_store_bucket)
                (
                  l.next_bucket,
                  refl,
                  bucket_of-insert l.inbounds tag grown tag email
                      ∙ ground (arith, lookup-insert email email l.next_bucket info.bucket_hub),
                  λ _.
                      lookup-insert l.next_bucket l.next_bucket (rated limit) l.buckets
                      ∙ ground arith,
                ))
      ]))

-- Where the first inbound that has a limit for the email has it in its first entry with that email,
-- the bucket that is found is the one of the email there, and a new one has the effective rate of
-- that entry's limit and the limit of the node.
pub lookup_bucket_found :
    (l : Limiter) (email tag key : Text) (u : UserInfo) (info : InboundInfo)
    (before after : Dict Text InboundInfo) (users more : Dict Text UserInfo)
    → email ≢ []
    → l.inbounds ≡ before ++ ((tag, info) ∷ after)
    → All (Unlisted email) before
    → All (λ e. e.0 ≢ tag) before
    → info.user_info ≡ users ++ ((key, u) ∷ more)
    → All (λ e. e.1.email ≢ email) users
    → u.email ≡ email
    → 0 < u.speed_limit
    → let r = lookup_bucket_by_email l email in
      (b : ℕ) × (r.1 ≡ some b)
      × (bucket_of r.0.inbounds tag email ≡ some b)
      × (bucket_of l.inbounds tag email ≡ none
          → lookup b r.0.buckets
            ≡ some (rated (determine_rate info.node_speed_limit u.speed_limit)))
lookup_bucket_found l email tag key u info before after users more named e unlisted other listed
      earlier own limited =
    let limit =
      ap (limit_by_email email) listed ∙ limit_by_email-listed email key u users more earlier own in
    lookup_bucket_first l email tag info (determine_rate info.node_speed_limit u.speed_limit) named
      (ap (first_limited email) e
        ∙ first_limited-after email tag info before after unlisted (ground (arith, limit, limited))
        ∙ ap (λ n. some (tag, info, determine_rate info.node_speed_limit n)) limit)
      (ap (lookup tag) e ∙ lookup-after tag info before after other)

insert-All :
    (email tag : Text) (info : InboundInfo) (inbounds : Dict Text InboundInfo)
    → All (Unlisted email) inbounds
    → Unlisted email (tag, info)
    → All (Unlisted email) (insert tag info inbounds)
unfolding insert
insert-All email tag info [] all new = (new, tt)
insert-All email tag info ((t, i) ∷ rest) all new = elim (Bool-cases (tag == t)) [
  | inl same ↦ rw same (new, all.1)
  | inr other ↦ rw other (all.0, insert-All email tag info rest all.1 new)
]

lookup-All :
    (email tag : Text) (info : InboundInfo) (inbounds : Dict Text InboundInfo)
    → All (Unlisted email) inbounds
    → lookup tag inbounds ≡ some info
    → Unlisted email (tag, info)
unfolding lookup
lookup-All email tag info [] all found = ground (arith, found)
lookup-All email tag info ((t, i) ∷ rest) all found = elim (Bool-cases (tag == t)) [
  | inl same ↦ ground (arith, same, found, all.0)
  | inr other ↦ lookup-All email tag info rest all.1 (ground (arith, other, found))
]

set_user_speed-All :
    (l : Limiter) (tag email : Text) (speed : ℕ)
    → All (Unlisted email) l.inbounds
    → All (Unlisted email) (set_user_speed l tag email speed).inbounds
unfolding set_user_speed throttle restore
set_user_speed-All l tag email speed all = elim (Option-cases (lookup tag l.inbounds)) [
  | inl missing ↦ rw (missing, set_user_speed) all
  | inr (info, found) ↦
      rw (found, set_user_speed)
        (elim (Bool-cases (speed == 0)) [
          | inl off ↦ rw off all
          | inr on ↦ rw on (elim (Option-cases (lookup email info.bucket_hub)) [
            | inr (b, has) ↦ rw (has, throttle) all
            | inl new ↦
                rw (new, throttle)
                  (insert-All email tag
                    (record info { bucket_hub = insert email l.next_bucket info.bucket_hub })
                    l.inbounds all (lookup-All email tag info l.inbounds all found))
          ])
        ])
]

-- A user without a limit of its own gets no bucket here, whatever the limits of the nodes are, and
-- even right after a temporary limit was set.
pub lookup_bucket-Unlisted :
    (l : Limiter) (tag email : Text) (speed : ℕ)
    → All (Unlisted email) l.inbounds
    → let l' = set_user_speed l tag email speed in lookup_bucket_by_email l' email ≡ (l', none)
unfolding lookup_bucket_by_email
lookup_bucket-Unlisted l tag email speed all =
    let l' = set_user_speed l tag email speed in
    rw (unlisted-first_limited email l'.inbounds (set_user_speed-All l tag email speed all))
      (ground arith)
