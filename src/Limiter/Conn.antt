-- ===== src/Limiter/Conn.antt =====
-- AcquireConn and ReleaseConn: concurrent connections counted by group.
pub mod Laws
pub mod Atomic
use mmw_agent.Base.{
  ◌+◌, ℕ, Text, text_eq, Bool, true, false, ◌&&◌, none, some, [], if◌then◌else◌, ◌==◌,
}
use mmw_agent.Base.Int.{ℤ, pos, is_pos, is_neg, ltb_ℤ, add_one, sub_one}
use mmw_agent.Base.Dict.{Dict, lookup, insert}
use mmw_agent.Limiter.Types.{UserInfo, Limiter, ConnLease, no_lease}
use mmw_agent.Limiter.Users.{lookup_user_info}

-- connCounter and nodeConnCounter, read: a missing counter is stored as 0 first.
unfoldable pub count_of : Text → Dict Text ℤ → ℤ
count_of group m = elim (lookup group m) [ none ↦ pos 0 | some n ↦ n ]

-- incrementKickCounter
unfoldable pub increment_kick_counter : Text → Dict Text ℕ → Dict Text ℕ
increment_kick_counter email m = elim (lookup email m) [
  | none ↦ insert email 1 m
  | some n ↦ insert email (n + 1) m
]

unfoldable pub quota_group_of : Text → UserInfo → Text
quota_group_of email u = if u.conn_group == [] then email else u.conn_group

unfoldable pub stat_group_of : Text → UserInfo → Text
unfolding quota_group_of
stat_group_of email u =
    if u.conn_stat_group == [] then quota_group_of email u else u.conn_stat_group

-- The part of AcquireConn behind the lookup.
unfoldable pub acquire_user : Limiter → Text → UserInfo → Limiter × Bool × ConnLease
acquire_user l email u =
    let group = quota_group_of email u in
    let n = add_one (count_of group l.conn_count) in
    let counted = insert group n l.conn_count in
    let stat = stat_group_of email u in
    if is_pos u.device_limit && ltb_ℤ u.device_limit n
    then (
      record l {
        conn_count = insert group (sub_one n) counted;
        kick_counter = increment_kick_counter email l.kick_counter;
      },
      false,
      no_lease,
    )
    else (
      record l {
        conn_count = counted;
        node_conn_count = insert stat (add_one (count_of stat l.node_conn_count)) l.node_conn_count;
      },
      true,
      record { quota_group = group; stat_group = stat },
    )

unfoldable pub acquire_conn : Limiter → Text → Text → Limiter × Bool × ConnLease
unfolding acquire_user
acquire_conn l tag email = elim (lookup_user_info l tag email) [
  | none ↦ (l, true, no_lease)
  | some u ↦ acquire_user l email u
]

-- `if c.Add(-1) < 0 { c.Store(0) }`
unfoldable pub decrement : Text → Dict Text ℤ → Dict Text ℤ
decrement group m =
    let n = sub_one (count_of group m) in insert group (if is_neg n then pos 0 else n) m

unfoldable pub release_conn : Limiter → ConnLease → Limiter
unfolding decrement
release_conn l lease = if lease.quota_group == [] then l else record l {
  conn_count = decrement lease.quota_group l.conn_count;
  node_conn_count =
      if lease.stat_group == []
      then l.node_conn_count
      else decrement lease.stat_group l.node_conn_count;
}
