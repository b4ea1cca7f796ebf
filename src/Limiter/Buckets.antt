-- ===== src/Limiter/Buckets.antt =====
-- The speed buckets of limiter.go and conn.go: which bucket a connection gets, and what the updates
-- from the master, the temporary limits and the collection of online users do to it.
pub mod Apart
pub mod Calls
pub mod Sync
pub mod Kicks
pub mod Throttle
pub mod Limits
pub mod Tests
use mmw_agent.Base.{
  ℕ, zero, suc, ◌+◌, ◌-◌, ◌*◌, ◌/◌, ◌%◌, ◌^◌, ◌≤◌, ◌<◌, ◌≡◌, refl, sym, ap, ◌∙◌, ◌≢◌, ◌↔◌, ◌⊎◌, inl,
  inr, ite, Bool, true, false, not, ◌&&◌, ◌||◌, Option, none, some, List, [], ◌∷◌, ◌++◌, map, arith,
  Text, text, text_eq, nat_eq, ◌==◌, ltb, leb, if◌then◌else◌, ltb→lt, lt→ltb, le→ltb, Bool-cases,
  Option-cases, length, take, drop, All, length-append, length-drop, Eq,
}
use mmw_agent.Base.Int.{ℤ, pos, negsuc, is_pos, is_neg, ltb_ℤ, add_one, sub_one, to_ℕ}
use mmw_agent.Base.Dict.{
  Dict, lookup, insert, erase, lookup-cons, lookup-insert, lookup-erase, keys,
}
use mmw_agent.Base.{contains}
use mmw_agent.Limiter.Types.{
  UserInfo, IpEntry, InboundInfo, Limiter, Bucket, RateLimit, bytes_per_sec, max_float,
}
use mmw_agent.Limiter.Rate.{determine_rate, calc_burst}
use mmw_agent.Limiter.Users.{user_key, expected_prefix, scan_users}
use mmw_agent.Limiter.Kick.{Kickers, kick_conn_group}

-- `math.MaxInt`
abbrev max_int : ℕ
max_int = 9223372036854775807

-- A bucket at a rate, as `NewLimiter` makes it and as `SetLimit` and `SetBurst` leave it. The rate
-- is kept exact; the float64 of rate.Limit is so up to 2^53 bytes a second.
unfoldable pub rated : ℕ → Bucket
rated limit = record { limit = bytes_per_sec limit; burst = calc_burst limit }

unfoldable pub unlimited : Bucket
unlimited = record { limit = max_float; burst = max_int }

-- The loop that stores the users under their keys.
unfoldable pub store_users : Text → List UserInfo → Dict Text UserInfo → Dict Text UserInfo
store_users tag [] m = m
store_users tag (u ∷ us) m = store_users tag us (insert (user_key tag u) u m)

unfoldable pub new_inbound : Text → ℕ → List UserInfo → InboundInfo
new_inbound tag node users = record {
  tag = tag;
  node_speed_limit = node;
  user_info = store_users tag users [];
  bucket_hub = [];
  user_online_ip = [];
}

unfoldable pub add_inbound_limiter : Limiter → Text → ℕ → List UserInfo → Limiter
unfolding new_inbound
add_inbound_limiter l tag node users = record l {
  inbounds = insert tag (new_inbound tag node users) l.inbounds;
}

-- The body of the loops that write new rates into buckets: only a positive rate is written.
unfoldable pub rerate_user : ℕ → Dict Text ℕ → UserInfo → Dict ℕ Bucket → Dict ℕ Bucket
rerate_user node hub u buckets =
    let limit = determine_rate node u.speed_limit in
    if limit == 0
    then buckets
    else (elim (lookup u.email hub) [ none ↦ buckets | some b ↦ insert b (rated limit) buckets ])

unfoldable pub rerate : ℕ → Dict Text ℕ → List UserInfo → Dict ℕ Bucket → Dict ℕ Bucket
rerate node hub [] buckets = buckets
rerate node hub (u ∷ us) buckets = rerate node hub us (rerate_user node hub u buckets)

-- userConnGroup
unfoldable pub user_conn_group : UserInfo → Text
user_conn_group u = if u.conn_group == [] then u.email else u.conn_group

unfoldable pub next_groups : List UserInfo → Dict Text (Unit {0})
next_groups [] = []
next_groups (u ∷ us) = insert (user_conn_group u) tt (next_groups us)

-- The groups of the old users that no new user has.
unfoldable pub removed_groups : Dict Text (Unit {0}) → Dict Text UserInfo → Dict Text (Unit {0})
removed_groups kept [] = []
removed_groups kept ((_, u) ∷ users) =
    let rest = removed_groups kept users in
    elim (lookup (user_conn_group u) kept) [
      | some _ ↦ rest
      | none ↦ insert (user_conn_group u) tt rest
    ]

unfoldable pub kick_groups : Kickers → List Text → Kickers × List ℕ
kick_groups k [] = (k, [])
kick_groups k (g ∷ gs) =
    let (k', kicked) = kick_conn_group k g in
    let (k'', more) = kick_groups k' gs in (k'', kicked ++ more)

-- The second part of the result lists the connections that were kicked.
unfoldable pub sync_inbound_limiter : Limiter → Text → ℕ → List UserInfo → Limiter × List ℕ
sync_inbound_limiter l tag node users = elim (lookup tag l.inbounds) [
  | none ↦ (add_inbound_limiter l tag node users, [])
  | some prev ↦
      let removed = removed_groups (next_groups users) prev.user_info in
      let (kickers, kicked) = kick_groups l.kickers (keys removed) in
      (
        record l {
          inbounds =
              insert tag
                (record {
                  tag = tag;
                  node_speed_limit = node;
                  user_info = store_users tag users [];
                  bucket_hub = prev.bucket_hub;
                  user_online_ip = prev.user_online_ip;
                })
                l.inbounds;
          buckets = rerate node prev.bucket_hub users l.buckets;
          kickers = kickers;
        },
        kicked,
      )
]

unfoldable pub update_inbound_limiter : Limiter → Text → List UserInfo → Limiter
update_inbound_limiter l tag users = elim (lookup tag l.inbounds) [
  | none ↦ add_inbound_limiter l tag 0 users
  | some info ↦ record l {
    inbounds =
        insert tag (record info { user_info = store_users tag users info.user_info }) l.inbounds;
    buckets = rerate info.node_speed_limit info.bucket_hub users l.buckets;
  }
]

unfoldable pub delete_inbound_limiter : Limiter → Text → Limiter
delete_inbound_limiter l tag = record l { inbounds = erase tag l.inbounds }

-- `BucketHub.LoadOrStore(email, bucket)` on a bucket that was just made.
unfoldable pub load_or_store_bucket : Limiter → Text → InboundInfo → Text → Bucket → Limiter × ℕ
load_or_store_bucket l tag info email bucket =
    let made = record l {
      buckets = insert l.next_bucket bucket l.buckets;
      next_bucket = suc l.next_bucket;
    } in
    elim (lookup email info.bucket_hub) [
      | some b ↦ (record made { inbounds = insert tag info l.inbounds }, b)
      | none ↦ (
        record made {
          inbounds =
              insert tag (record info { bucket_hub = insert email l.next_bucket info.bucket_hub })
                l.inbounds;
        },
        l.next_bucket,
      )
    ]

-- The user's entry with the IP recorded.
unfoldable pub record_ip :
    Text → Text → IpEntry → Dict Text (Dict Text IpEntry) → Dict Text (Dict Text IpEntry)
record_ip email ip entry online =
    insert email (insert ip entry (elim (lookup email online) [ none ↦ [] | some m ↦ m ])) online

unfoldable pub user_speed_limit : Option UserInfo → ℕ
user_speed_limit none = 0
user_speed_limit (some u) = u.speed_limit

unfoldable pub user_uid : Option UserInfo → ℤ
user_uid none = pos 0
user_uid (some u) = u.uid

-- Results: the bucket, `hasLimit` and `reject`. `now` is `time.Now()`.
unfoldable pub get_user_bucket : Limiter → Text → Text → Text → ℕ → Limiter × Option ℕ × Bool × Bool
get_user_bucket l tag email ip now = elim (lookup tag l.inbounds) [
  | none ↦ (l, none, false, false)
  | some info ↦
      let found = scan_users (expected_prefix tag email) info.user_info in
      let entry : IpEntry = record { uid = user_uid found; last_seen = now } in
      let seen = record info { user_online_ip = record_ip email ip entry info.user_online_ip } in
      let limit = determine_rate info.node_speed_limit (user_speed_limit found) in
      let (l', b) =
        load_or_store_bucket l tag seen email (if limit == 0 then unlimited else rated limit) in
      (l', some b, true, false)
]

unfoldable pub remove : Text → List Text → List Text
remove x [] = []
remove x (y ∷ ys) = let rest = remove x ys in if x == y then rest else y ∷ rest

-- The first loop of GetOnlineUsers: buckets of emails that are neither online nor throttled go.
unfoldable pub sweep : Dict Text (Dict Text IpEntry) → List Text → Dict Text ℕ → Dict Text ℕ
sweep online auto [] = []
sweep online auto ((email, b) ∷ hub) =
    let rest = sweep online auto hub in
    elim (lookup email online) [
      | some _ ↦ (email, b) ∷ rest
      | none ↦ if contains email auto then (email, b) ∷ rest else rest
    ]

-- The second loop: the IPs of each email that has any.
unfoldable pub online_ips : Dict Text (Dict Text IpEntry) → Dict Text (List Text)
online_ips [] = []
online_ips ((email, []) ∷ online) = online_ips online
online_ips ((email, ip ∷ ips) ∷ online) = insert email (keys (ip ∷ ips)) (online_ips online)

unfoldable pub get_online_users : Limiter → Text → Limiter × Option (Dict Text (List Text))
get_online_users l tag = elim (lookup tag l.inbounds) [
  | none ↦ (l, none)
  | some info ↦ (
    record l {
      inbounds =
          insert tag
            (record info {
              bucket_hub = sweep info.user_online_ip l.auto_limited info.bucket_hub;
              user_online_ip = [];
            })
            l.inbounds;
    },
    some (online_ips info.user_online_ip),
  )
]

unfoldable pub get_user_static_limit : InboundInfo → Text → Text → ℕ
get_user_static_limit info tag email =
    determine_rate info.node_speed_limit
      (user_speed_limit (scan_users (expected_prefix tag email) info.user_info))

-- Sets the bucket of the email, or makes one.
unfoldable pub throttle : Limiter → Text → InboundInfo → Text → ℕ → Limiter
throttle l tag info email speed = elim (lookup email info.bucket_hub) [
  | some b ↦ record l {
    auto_limited = email ∷ remove email l.auto_limited;
    buckets = insert b (rated speed) l.buckets;
  }
  | none ↦ record l {
    auto_limited = email ∷ remove email l.auto_limited;
    inbounds =
        insert tag (record info { bucket_hub = insert email l.next_bucket info.bucket_hub })
          l.inbounds;
    buckets = insert l.next_bucket (rated speed) l.buckets;
    next_bucket = suc l.next_bucket;
  }
]

-- Puts the rate of the user's settings back.
unfoldable pub restore : Limiter → Text → InboundInfo → Text → Limiter
restore l tag info email =
    let orig = get_user_static_limit info tag email in
    record l {
      auto_limited = remove email l.auto_limited;
      buckets = elim (lookup email info.bucket_hub) [
        | none ↦ l.buckets
        | some b ↦ insert b (if orig == 0 then unlimited else rated orig) l.buckets
      ];
    }

unfoldable pub set_user_speed : Limiter → Text → Text → ℕ → Limiter
set_user_speed l tag email speed = elim (lookup tag l.inbounds) [
  | none ↦ l
  | some info ↦ if speed == 0 then restore l tag info email else throttle l tag info email speed
]
