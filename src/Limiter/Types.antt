-- ===== src/Limiter/Types.antt =====
-- The structs of internal/limiter/limiter.go and model.go, and the state that they keep.
use mmw_agent.Base.{ℕ, Text, List, []}
use mmw_agent.Base.Int.{ℤ}
use mmw_agent.Base.Dict.{Dict}
use mmw_agent.Limiter.Kick.{Kickers}

-- Speeds and quotas of one user. `uint64` is ℕ, `int` is ℤ.
pub record UserInfo : Type 0 where
  pub uid : ℤ
  pub email : Text
  pub speed_limit : ℕ
  pub device_limit : ℤ
  pub conn_group : Text
  pub conn_stat_group : Text

-- The argument of `SetLimit`: a speed in bytes per second, or `math.MaxFloat64`.
pub data RateLimit : Type 0 where
  bytes_per_sec : ℕ → RateLimit
  max_float : RateLimit

-- What the package sets of a `*rate.Limiter`. The tokens belong to golang.org/x/time/rate.
pub record Bucket : Type 0 where
  pub limit : RateLimit
  pub burst : ℕ

pub record IpEntry : Type 0 where
  pub uid : ℤ
  pub last_seen : ℕ

-- A bucket is named by its number in `Limiter.buckets`, since connections share it.
pub record InboundInfo : Type 0 where
  pub tag : Text
  pub node_speed_limit : ℕ
  pub user_info : Dict Text UserInfo
  pub bucket_hub : Dict Text ℕ
  pub user_online_ip : Dict Text (Dict Text IpEntry)

pub record ConnLease : Type 0 where
  pub quota_group : Text
  pub stat_group : Text

abbrev pub no_lease : ConnLease
no_lease = record { quota_group = []; stat_group = [] }

-- One Limiter with the package variables that its methods share.
pub record Limiter : Type 0 where
  pub inbounds : Dict Text InboundInfo
  pub auto_limited : List Text
  pub conn_count : Dict Text ℤ
  pub node_conn_count : Dict Text ℤ
  pub kick_counter : Dict Text ℕ
  pub buckets : Dict ℕ Bucket
  pub next_bucket : ℕ
  pub kickers : Kickers
