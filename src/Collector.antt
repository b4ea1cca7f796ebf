-- ===== src/Collector.antt =====
-- internal/collector/metrics.go: MergeStats.
use mmw_agent.Base.{Option, none, some, [], ◌∷◌, Text, text_eq, nat_eq}
use mmw_agent.Base.Int.{ℤ}
use mmw_agent.Base.Dict.{Dict, insert}

-- TrafficData and XrayStats; a nil map is empty.
pub record TrafficData : Type 0 where
  pub uplink : ℤ
  pub downlink : ℤ

pub record XrayStats : Type 0 where
  pub inbound : Dict Text TrafficData
  pub outbound : Dict Text TrafficData
  pub user : Dict Text TrafficData

unfoldable pub put_all : Dict Text TrafficData → Dict Text TrafficData → Dict Text TrafficData
put_all dest [] = dest
put_all dest ((k, v) ∷ source) = put_all (insert k v dest) source

unfoldable pub merge_stats : XrayStats → Option XrayStats → XrayStats
unfolding put_all
merge_stats dest none = dest
merge_stats dest (some source) = record {
  inbound = put_all dest.inbound source.inbound;
  outbound = put_all dest.outbound source.outbound;
  user = put_all dest.user source.user;
}
