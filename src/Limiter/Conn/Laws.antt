-- ===== src/Limiter/Conn/Laws.antt =====
-- Single calls of AcquireConn and ReleaseConn, on every branch.
use mmw_agent.Base.{
  zero, suc, ◌≡◌, refl, ◌≢◌, Bool, true, false, ◌&&◌, [], arith, Text, text_eq, nat_eq, ◌==◌,
  if◌then◌else◌,
}
use mmw_agent.Base.Int.{ℤ, pos, negsuc, is_pos, is_neg, ltb_ℤ, add_one, sub_one, to_ℕ}
use mmw_agent.Base.Dict.{Dict, insert, lookup-insert}
use mmw_agent.Limiter.Types.{UserInfo, Limiter, ConnLease, no_lease}
use mmw_agent.Limiter.Conn.{
  count_of, increment_kick_counter, quota_group_of, stat_group_of, acquire_user, decrement,
  release_conn,
}

sub_one-add_one : (n : ℤ) → sub_one (add_one n) ≡ n
sub_one-add_one (pos n) = refl
sub_one-add_one (negsuc zero) = refl
sub_one-add_one (negsuc (suc n)) = refl

pub count_of-insert :
    (g k : Text) (n : ℤ) (m : Dict Text ℤ)
    → count_of g (insert k n m) ≡ (if g == k then n else count_of g m)
unfolding count_of
count_of-insert g k n m = ground (arith, lookup-insert g k n m)

-- Is the quota of the user used up?
abbrev pub is_full : Limiter → Text → UserInfo → Bool
is_full l email u =
    is_pos u.device_limit
    && ltb_ℤ u.device_limit (add_one (count_of (quota_group_of email u) l.conn_count))

-- A refused connection changes no count, of quotas or of nodes, and is counted for the email.
pub acquire_user_refused :
    (l : Limiter) (email : Text) (u : UserInfo)
    → is_full l email u ≡ true
    → let r = acquire_user l email u in
      (r.1 ≡ false)
      × (r.2 ≡ no_lease)
      × ((g : Text) → count_of g r.0.conn_count ≡ count_of g l.conn_count)
      × (r.0.node_conn_count ≡ l.node_conn_count)
      × (r.0.kick_counter ≡ increment_kick_counter email l.kick_counter)
unfolding acquire_user
acquire_user_refused l email u full =
    let group = quota_group_of email u in
    let n = count_of group l.conn_count in
    rw full (
      refl,
      refl,
      λ g. ground (
        arith,
        count_of-insert g group (sub_one (add_one n)) (insert group (add_one n) l.conn_count),
        count_of-insert g group (add_one n) l.conn_count,
        sub_one-add_one n,
      ),
      refl,
      refl,
    )

-- An admitted connection adds one to its quota group and one to its node, and to nothing else.
pub acquire_user_admitted :
    (l : Limiter) (email : Text) (u : UserInfo)
    → is_full l email u ≡ false
    → let r = acquire_user l email u in
      let group = quota_group_of email u in
      let stat = stat_group_of email u in
      (r.1 ≡ true)
      × (r.2 ≡ record { quota_group = group; stat_group = stat })
      × ((g : Text)
          → count_of g r.0.conn_count
            ≡ (if g == group then add_one (count_of g l.conn_count) else count_of g l.conn_count))
      × ((g : Text)
          → count_of g r.0.node_conn_count ≡ (
              if g == stat
              then add_one (count_of g l.node_conn_count)
              else count_of g l.node_conn_count))
      × (r.0.kick_counter ≡ l.kick_counter)
unfolding acquire_user
acquire_user_admitted l email u free =
    let group = quota_group_of email u in
    let stat = stat_group_of email u in
    rw free (
      refl,
      refl,
      λ g.
          ground
            (arith, count_of-insert g group (add_one (count_of group l.conn_count)) l.conn_count),
      λ g. ground (
        arith,
        count_of-insert g stat (add_one (count_of stat l.node_conn_count)) l.node_conn_count,
      ),
      refl,
    )

count_of-decrement :
    (g k : Text) (m : Dict Text ℤ)
    → count_of g (decrement k m)
      ≡ (if g == k then pos (to_ℕ (sub_one (count_of k m))) else count_of g m)
unfolding decrement
count_of-decrement g k m =
    let n = sub_one (count_of k m) in
    ground (arith, count_of-insert g k (if is_neg n then pos 0 else n) m)

-- A release takes one from the lease's quota group and from its node, never below 0, and leaves
-- the other counts alone.
pub release_conn_counts :
    (l : Limiter) (lease : ConnLease)
    → lease.quota_group ≢ []
    → lease.stat_group ≢ []
    → ((g : Text)
        → count_of g (release_conn l lease).conn_count ≡ (
            if g == lease.quota_group
            then pos (to_ℕ (sub_one (count_of g l.conn_count)))
            else count_of g l.conn_count))
      × ((g : Text)
          → count_of g (release_conn l lease).node_conn_count ≡ (
              if g == lease.stat_group
              then pos (to_ℕ (sub_one (count_of g l.node_conn_count)))
              else count_of g l.node_conn_count))
unfolding release_conn
release_conn_counts l lease q s = (
  λ g. ground (arith, count_of-decrement g lease.quota_group l.conn_count),
  λ g. ground (arith, count_of-decrement g lease.stat_group l.node_conn_count),
)
