-- ===== src/Limiter/Buckets/Tests.antt =====
-- The theorems on buckets at concrete data.
use mmw_agent.Base.{
  ℕ, ◌<◌, ◌≡◌, refl, ◌≢◌, inl, inr, true, false, not, ◌&&◌, some, List, [], ◌∷◌, ◌++◌, arith, Text,
  text, text_eq, nat_eq, ◌==◌, if◌then◌else◌, contains,
}
use mmw_agent.Base.Dict.{lookup, insert, keys}
use mmw_agent.Limiter.Types.{Limiter}
use mmw_agent.Limiter.Rate.{determine_rate, Least}
use mmw_agent.Limiter.Users.{expected_prefix, scan_users}
use mmw_agent.Limiter.Buckets.{
  rated, unlimited, user_conn_group, next_groups, removed_groups, kick_groups, sync_inbound_limiter,
  get_user_bucket, user_speed_limit, set_user_speed,
}
use mmw_agent.Limiter.Sample.{alice, alice_routed, bob, inbound, kickers, limiter}
use mmw_agent.Limiter.Kick.{values, set_at, kick_conn_group}
use mmw_agent.Limiter.Kick.Views.{view, Inv}
use mmw_agent.Limiter.Buckets.Apart.{bucket_of, Apart}
use mmw_agent.Limiter.Buckets.Calls.{
  Call, user_bucket, online_users, sync_inbound, user_speed, calls, calls-Apart,
}
use mmw_agent.Limiter.Buckets.Sync.{sync_rates}
use mmw_agent.Limiter.Buckets.Kicks.{in_table, in_groups, sync_kicks}
use mmw_agent.Limiter.Buckets.Throttle.{Throttled}
use mmw_agent.Limiter.Buckets.Limits.{throttle_holds, throttle_lifted, sync_lifts_throttle}

abbrev a : Text
a = text "a"

abbrev t : Text
t = text "t"

limiter-Apart : Apart limiter
unfolding bucket_of lookup
limiter-Apart = record { made = λ t e b h. ground arith; apart = λ t e t' e' b h h'. ground arith }

found : lookup t limiter.inbounds ≡ some inbound
unfolding lookup text_eq
found = refl

has : lookup a inbound.bucket_hub ≡ some 0
unfolding lookup text_eq
has = refl

bucket_of_alice : bucket_of limiter.inbounds t a ≡ some 0
unfolding bucket_of lookup text_eq
bucket_of_alice = refl

-- A cycle of reports, a new device, another user's limit, and the same settings once more.
abbrev day : List Call
day =
    online_users t
    ∷ user_bucket t a (text "10.0.0.1") 7
    ∷ user_speed t (text "b") 9000
    ∷ sync_inbound t 0 (bob ∷ alice_routed ∷ [])
    ∷ []

calls-Apart_example :
    Apart (calls limiter day)
    × ((t e ip : Text) (now : ℕ) (t' e' ip' : Text) (now' b : ℕ)
        → let first = get_user_bucket (calls limiter day) t e ip now in
          first.1 ≡ some b
          → (get_user_bucket first.0 t' e' ip' now').1 ≡ some b
          → (t ≡ t') × (e ≡ e'))
calls-Apart_example = calls-Apart limiter day limiter-Apart

sync_rates_example :
    let l' =
      (sync_inbound_limiter limiter t 300000 ((bob ∷ []) ++ (alice ∷ (alice_routed ∷ [])))).0 in
    ((t e : Text) → bucket_of l'.inbounds t e ≡ bucket_of limiter.inbounds t e)
    × (lookup 0 l'.buckets ≡ some (rated (determine_rate 300000 1000000)))
    × ((t' e : Text) (c : ℕ)
        → t' ≢ t
        → bucket_of limiter.inbounds t' e ≡ some c
        → lookup c l'.buckets ≡ lookup c limiter.buckets)
unfolding determine_rate
sync_rates_example =
    sync_rates limiter t 300000 (bob ∷ []) alice (alice_routed ∷ []) 0 limiter-Apart found
      bucket_of_alice (omega (arith, positive)) ((λ e. ground arith), tt)
  where
    positive : 0 < determine_rate 300000 1000000
    positive = omega arith

kickers-Inv : Inv kickers
unfolding lookup set_at nat_eq
kickers-Inv = record {
  made = λ g a e. ground arith;
  apart = λ g h a p q. ground arith;
  counted = λ a id p. ground arith;
}

-- Both accounts of the group are gone from the new settings.
sync_kicks_example :
    let r = sync_inbound_limiter limiter t 0 (bob ∷ []) in
    let gone = in_table (text "g") inbound.user_info && not (in_groups (text "g") (bob ∷ [])) in
    (view r.0.kickers (text "g") ≡ (if gone then [] else view kickers (text "g")))
    × ((x : ℕ)
        → gone ≡ true
        → contains x (values (view kickers (text "g"))) ≡ true
        → contains x r.1 ≡ true)
    × ((x : ℕ)
        → contains x r.1 ≡ true
        → (g' : Text) × ((in_table g' inbound.user_info && not (in_groups g' (bob ∷ []))) ≡ true)
          × (contains x (values (view kickers g')) ≡ true))
sync_kicks_example = sync_kicks limiter t 0 (bob ∷ []) (text "g") kickers-Inv found

kicked : (sync_inbound_limiter limiter t 0 (bob ∷ [])).1 ≡ 41 ∷ []
unfolding sync_inbound_limiter lookup text_eq kick_groups keys removed_groups next_groups insert
    user_conn_group kick_conn_group values set_at nat_eq
kicked = refl

throttle_holds_example :
    let l' = calls (set_user_speed limiter t a 20000) day in
    (b : ℕ) × ((c : ℕ) → bucket_of limiter.inbounds t a ≡ some c → c ≡ b)
    × ((get_user_bucket l' t a (text "10.0.0.2") 9).1 ≡ some b)
    × (lookup b l'.buckets ≡ some (rated 20000))
throttle_holds_example =
    throttle_holds limiter t a (text "10.0.0.2") 20000 9 day limiter-Apart found (omega arith) (
      tt,
      (
        tt,
        ((λ e. ground arith), (inr (inl (λ e. ground arith), (inl (λ e. ground arith), tt)), tt)),
      ),
    )

throttle_lifted_example :
    let l' = set_user_speed (set_user_speed limiter t a 20000) t a 0 in
    let first =
      get_user_bucket
        (record limiter {
          inbounds = insert t (record inbound { bucket_hub = [] }) limiter.inbounds;
        })
        t
        a
        (text "10.0.0.2")
        9 in
    ((own : ℕ) × Least inbound.node_speed_limit
        (user_speed_limit (scan_users (expected_prefix t a) inbound.user_info))
        own
      × (lookup 0 l'.buckets ≡ some (if own == 0 then unlimited else rated own)))
    × ((c : ℕ) → first.1 ≡ some c → lookup 0 l'.buckets ≡ lookup c first.0.buckets)
    × ((c : ℕ) → c ≢ 0 → lookup c l'.buckets ≡ lookup c limiter.buckets)
    × (bucket_of l'.inbounds t a ≡ some 0)
    × (contains a l'.auto_limited ≡ false)
throttle_lifted_example =
    throttle_lifted limiter t a (text "10.0.0.2") 20000 9 0 found has (omega arith)

abbrev slowed : Limiter
slowed = record limiter { auto_limited = a ∷ []; buckets = insert 0 (rated 20000) limiter.buckets }

slowed-Throttled : Throttled slowed t a 20000 0
unfolding contains insert nat_eq text_eq lookup bucket_of
slowed-Throttled = record { marked = refl; has = refl; slow = refl }

slowed-Apart : Apart slowed
slowed-Apart = record { made = limiter-Apart.made; apart = limiter-Apart.apart }

sync_lifts_throttle_example :
    let l' = (sync_inbound_limiter slowed t 0 ([] ++ (alice ∷ []))).0 in
    (contains a l'.auto_limited ≡ true)
    × (bucket_of l'.inbounds t a ≡ some 0)
    × (lookup 0 l'.buckets ≡ some (rated (determine_rate 0 1000000)))
    × ¬ Throttled l' t a 20000 0
unfolding determine_rate
sync_lifts_throttle_example =
    sync_lifts_throttle slowed t 0 20000 [] alice [] 0 slowed-Apart slowed-Throttled (omega arith)
      (omega arith) tt
