-- ===== src/Limiter/Sample.antt =====
-- Data for the runs of internal/limiter and of the dispatcher.
use mmw_agent.Base.{[], ◌∷◌, text, text_eq, nat_eq}
use mmw_agent.Base.Int.{pos}
use mmw_agent.Limiter.Types.{UserInfo, InboundInfo, Limiter, max_float, bytes_per_sec}
use mmw_agent.Limiter.Kick.{Kickers}

-- Two accounts of one user that share a quota of two connections, and one without a quota.
abbrev pub alice : UserInfo
alice = record {
  uid = pos 1;
  email = text "a";
  speed_limit = 1000000;
  device_limit = pos 2;
  conn_group = text "g";
  conn_stat_group = text "n1";
}

abbrev pub alice_routed : UserInfo
alice_routed = record {
  uid = pos 1;
  email = text "r";
  speed_limit = 0;
  device_limit = pos 2;
  conn_group = text "g";
  conn_stat_group = text "n2";
}

abbrev pub bob : UserInfo
bob = record {
  uid = pos 2;
  email = text "b";
  speed_limit = 0;
  device_limit = pos 0;
  conn_group = [];
  conn_stat_group = [];
}

abbrev pub inbound : InboundInfo
inbound = record {
  tag = text "t";
  node_speed_limit = 0;
  user_info = (text "t|a|1", alice) ∷ (text "t|r|1", alice_routed) ∷ (text "t|b|2", bob) ∷ [];
  bucket_hub = (text "a", 0) ∷ (text "b", 1) ∷ [];
  user_online_ip = [];
}

abbrev pub kickers : Kickers
kickers = record {
  groups = (text "g", 0) ∷ [];
  sets = (0, record { next = 1; all = (1, 41) ∷ [] }) ∷ [];
  fresh = 1;
}

abbrev pub limiter : Limiter
limiter = record {
  inbounds = (text "t", inbound) ∷ [];
  auto_limited = [];
  conn_count = [];
  node_conn_count = [];
  kick_counter = [];
  buckets =
      (0, record { limit = bytes_per_sec 1000000; burst = 250000 })
      ∷ (1, record { limit = max_float; burst = 9223372036854775807 })
      ∷ [];
  next_bucket = 2;
  kickers = kickers;
}
