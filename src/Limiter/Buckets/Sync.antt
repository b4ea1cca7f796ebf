-- ===== src/Limiter/Buckets/Sync.antt =====
-- What a new configuration of an inbound does to the buckets and to the connections in use.
use mmw_agent.Base.{
  ℕ, ◌<◌, ◌≡◌, refl, sym, ap, ◌∙◌, ◌≢◌, inl, inr, some, List, [], ◌∷◌, ◌++◌, arith, Text, text_eq,
  nat_eq, Option-cases, All,
}
use mmw_agent.Base.Dict.{Dict, lookup, lookup-insert}
use mmw_agent.Limiter.Types.{UserInfo, InboundInfo, Limiter, Bucket}
use mmw_agent.Limiter.Rate.{determine_rate}
use mmw_agent.Limiter.Buckets.{rated, rerate_user, rerate, sync_inbound_limiter}
use mmw_agent.Limiter.Buckets.Calls.{bucket_of-keep}
use mmw_agent.Limiter.Buckets.Apart.{bucket_of, Apart, bucket_of-found}

rerate-append :
    (node : ℕ) (hub : Dict Text ℕ) (us ws : List UserInfo) (m : Dict ℕ Bucket)
    → rerate node hub (us ++ ws) m ≡ rerate node hub ws (rerate node hub us m)
unfolding rerate
rerate-append node hub [] ws m = refl
rerate-append node hub (u ∷ us) ws m = rerate-append node hub us ws (rerate_user node hub u m)

pub rerate_user-other :
    (node : ℕ) (hub : Dict Text ℕ) (u : UserInfo) (m : Dict ℕ Bucket) (b : ℕ)
    → lookup u.email hub ≢ some b
    → lookup b (rerate_user node hub u m) ≡ lookup b m
unfolding rerate_user
rerate_user-other node hub u m b other = elim (Option-cases (lookup u.email hub)) [
  | inl e ↦ rw e (ground arith)
  | inr (c, e) ↦
      rw e
        (ground (arith, e, other, lookup-insert b c (rated (determine_rate node u.speed_limit)) m))
]

-- Only the buckets of the listed users can change.
pub rerate-other :
    (node : ℕ) (hub : Dict Text ℕ) (us : List UserInfo) (m : Dict ℕ Bucket) (b : ℕ)
    → All (λ u. lookup u.email hub ≢ some b) us
    → lookup b (rerate node hub us m) ≡ lookup b m
unfolding rerate
rerate-other node hub [] m b others = refl
rerate-other node hub (u ∷ us) m b others =
    rerate-other node hub us (rerate_user node hub u m) b others.1
    ∙ rerate_user-other node hub u m b others.0

rerate_user_self :
    (node : ℕ) (hub : Dict Text ℕ) (u : UserInfo) (m : Dict ℕ Bucket) (b : ℕ)
    → lookup u.email hub ≡ some b
    → 0 < determine_rate node u.speed_limit
    → lookup b (rerate_user node hub u m) ≡ some (rated (determine_rate node u.speed_limit))
unfolding rerate_user
rerate_user_self node hub u m b e positive =
    rw e (ground (arith, lookup-insert b b (rated (determine_rate node u.speed_limit)) m))

-- Of the users with one email the last that is listed counts.
pub others_of :
    (l : Limiter) (tag : Text) (info : InboundInfo) (email : Text) (b : ℕ) (us : List UserInfo)
    → Apart l
    → lookup tag l.inbounds ≡ some info
    → lookup email info.bucket_hub ≡ some b
    → All (λ w. w.email ≢ email) us
    → All (λ w. lookup w.email info.bucket_hub ≢ some b) us
others_of l tag info email b [] v found e apart = tt
others_of l tag info email b (w ∷ us) v found e apart = (
  λ h. apart.0 (
      (v.apart tag w.email tag email b (bucket_of-found l.inbounds tag w.email found ∙ h)
        (bucket_of-found l.inbounds tag email found ∙ e)).1),
  others_of l tag info email b us v found e apart.1,
)

-- A bucket of another inbound belongs to none of the listed users.
pub elsewhere :
    (l : Limiter) (tag : Text) (info : InboundInfo) (t e : Text) (c : ℕ) (us : List UserInfo)
    → Apart l
    → lookup tag l.inbounds ≡ some info
    → t ≢ tag
    → bucket_of l.inbounds t e ≡ some c
    → All (λ w. lookup w.email info.bucket_hub ≢ some c) us
elsewhere l tag info t e c [] v found other at = tt
elsewhere l tag info t e c (w ∷ us) v found other at = (
  λ h. other ((v.apart t e tag w.email c at (bucket_of-found l.inbounds tag w.email found ∙ h)).0),
  elsewhere l tag info t e c us v found other at,
)

-- A new configuration of an inbound that is known keeps every bucket, so that connections in use
-- have it still, and the bucket of a listed user with a limit has the new rate, if no
-- later entry has the user's email. The buckets
-- of other inbounds keep their rates.
pub sync_rates :
    (l : Limiter) (tag : Text) (node : ℕ) (before : List UserInfo) (u : UserInfo)
    (after : List UserInfo) (b : ℕ) {prev : InboundInfo}
    → Apart l
    → lookup tag l.inbounds ≡ some prev
    → bucket_of l.inbounds tag u.email ≡ some b
    → 0 < determine_rate node u.speed_limit
    → All (λ w. w.email ≢ u.email) after
    → let l' = (sync_inbound_limiter l tag node (before ++ (u ∷ after))).0 in
      ((t e : Text) → bucket_of l'.inbounds t e ≡ bucket_of l.inbounds t e)
      × (lookup b l'.buckets ≡ some (rated (determine_rate node u.speed_limit)))
      × ((t e : Text) (c : ℕ)
          → t ≢ tag
          → bucket_of l.inbounds t e ≡ some c
          → lookup c l'.buckets ≡ lookup c l.buckets)
unfolding sync_inbound_limiter rerate
sync_rates l tag node before u after b {prev} v found has positive last =
    let e = sym (bucket_of-found l.inbounds tag u.email found) ∙ has in
    rw (found, sync_inbound_limiter)
      (
        bucket_of-keep l tag prev _ found refl,
        ap (lookup b) (rerate-append node prev.bucket_hub before (u ∷ after) l.buckets)
            ∙ rerate-other node prev.bucket_hub after _ b
                (others_of l tag prev u.email b after v found e last)
            ∙ rerate_user_self node prev.bucket_hub u _ b e positive,
        λ t k c other at.
            rerate-other node prev.bucket_hub (before ++ (u ∷ after)) l.buckets c
              (elsewhere l tag prev t k c (before ++ (u ∷ after)) v found other at),
      )
