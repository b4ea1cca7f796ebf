-- ===== src/Dispatcher/Conns/Quota.antt =====
-- No group has more open connections than its quota, and a connection is refused only then.
use mmw_agent.Base.{
  ℕ, suc, ◌≤◌, ◌<◌, ◌≡◌, refl, sym, ◌≢◌, ◌↔◌, inl, inr, false, ◌&&◌, some, List, [], ◌∷◌, arith,
  Text, text_eq, nat_eq, ltb, Bool-cases, Option-cases,
}
use mmw_agent.Base.Int.{pos}
use mmw_agent.Limiter.Types.{UserInfo, Limiter}
use mmw_agent.Limiter.Users.{lookup_user_info}
use mmw_agent.Limiter.Conn.{quota_group_of, acquire_user, acquire_conn, release_conn}
use mmw_agent.Limiter.Conn.Laws.{is_full}
use mmw_agent.Dispatcher.Conns.{
  Links, Event, connect, finish, connect_user, pick, finish_link, step, run,
}
use mmw_agent.Dispatcher.Conns.Laws.{
  held, quota, Inv, connect_user-unknown, connect_user-refused, connect_user-admitted, held-pick,
  connect_user-Inv, finish_link-Inv,
}

-- With the counters right, the quota is used up when as many connections are open.
is_full-held :
    (s : Links) (email : Text) (u : UserInfo) (d : ℕ)
    → Inv s
    → u.device_limit ≡ pos d
    → is_full s.limiter email u
      ≡ (ltb 0 d && ltb d (suc (held quota (quota_group_of email u) s.open_leases)))
is_full-held s email u d v e = ground (arith, e, v.quotas (quota_group_of email u))

-- A user with a quota is refused exactly when the group has that many connections open, and a
-- refusal opens and closes nothing.
pub connect_user-refused_iff :
    (s : Links) (tag email : Text) (u : UserInfo) (d : ℕ)
    → Inv s
    → email ≢ []
    → lookup_user_info s.limiter tag email ≡ some u
    → u.device_limit ≡ pos d
    → 0 < d
    → (((connect_user s tag email).1 ≡ false)
        ↔ (d ≤ held quota (quota_group_of email u) s.open_leases))
      × ((connect_user s tag email).1 ≡ false
          → (connect_user s tag email).0.open_leases ≡ s.open_leases)
connect_user-refused_iff s tag email u d v named found e positive =
    elim (Bool-cases (is_full s.limiter email u)) [
      | inl full ↦
          rw (connect_user-refused s tag email named u found full)
            ((λ _. ground (arith, is_full-held s email u d v e), λ _. refl), λ _. refl)
      | inr free ↦
          rw (connect_user-admitted s tag email named u found free)
            ((λ h. cc, λ h. ground (arith, is_full-held s email u d v e)), λ h. cc)
    ]

-- The tables of users are left alone by connections.
connect_user-inbounds :
    (s : Links) (tag email : Text)
    → (connect_user s tag email).0.limiter.inbounds ≡ s.limiter.inbounds
unfolding connect_user acquire_conn acquire_user
connect_user-inbounds s tag email = ground arith

finish_link-inbounds : (s : Links) (n : ℕ) → (finish_link s n).limiter.inbounds ≡ s.limiter.inbounds
unfolding finish_link release_conn
finish_link-inbounds s n = ground arith

-- Every user who counts in the group has the quota `d`.
abbrev pub HasQuota : Limiter → Text → ℕ → Type 0
HasQuota l g d =
    (tag email : Text) (u : UserInfo)
    → lookup_user_info l tag email ≡ some u
    → quota_group_of email u ≡ g
    → u.device_limit ≡ pos d

known-held :
    (s : Links) (tag email g : Text) (u : UserInfo) (d : ℕ)
    → email ≢ []
    → lookup_user_info s.limiter tag email ≡ some u
    → Inv s
    → 0 < d
    → HasQuota s.limiter g d
    → held quota g s.open_leases ≤ d
    → held quota g (connect_user s tag email).0.open_leases ≤ d
known-held s tag email g u d named found v positive all h =
    elim (Bool-cases (is_full s.limiter email u)) [
      | inl full ↦ rw (connect_user-refused s tag email named u found full) h
      | inr free ↦
          rw (connect_user-admitted s tag email named u found free)
            (elim (text_eq.dec g (quota_group_of email u)) [
              | yes same ↦
                  ground
                    (arith, is_full-held s email u d v (all tag email u found (sym same)), same)
              | no other ↦ ground arith
            ])
    ]

connect_user-held :
    (s : Links) (tag email g : Text) (d : ℕ)
    → Inv s
    → 0 < d
    → HasQuota s.limiter g d
    → held quota g s.open_leases ≤ d
    → held quota g (connect_user s tag email).0.open_leases ≤ d
unfolding connect_user
connect_user-held s tag [] g d v positive all h = ground arith
connect_user-held s tag (c ∷ cs) g d v positive all h =
    elim (Option-cases (lookup_user_info s.limiter tag (c ∷ cs))) [
      | inl missing ↦ rw (connect_user-unknown s tag (c ∷ cs) (λ e. cc) missing) h
      | inr (u, found) ↦ known-held s tag (c ∷ cs) g u d (λ e. cc) found v positive all h
    ]

finish_link-held :
    (s : Links) (n : ℕ) (g : Text)
    → held quota g (finish_link s n).open_leases ≤ held quota g s.open_leases
unfolding finish_link
finish_link-held s n g = elim (Option-cases (pick n s.open_leases)) [
  | inl e ↦ rw (e, finish_link) (omega arith)
  | inr ((x, ys), e) ↦ rw (e, finish_link) (ground (arith, held-pick quota g n s.open_leases e))
]

HasQuota-inbounds :
    (l l' : Limiter) (g : Text) (d : ℕ)
    → l'.inbounds ≡ l.inbounds
    → HasQuota l g d
    → HasQuota l' g d
unfolding lookup_user_info
HasQuota-inbounds l l' g d e all tag email u found same = all tag email u (rw e at found) same

-- Whatever connections come and go, a group whose users have the quota `d` never has more than
-- `d` connections open.
pub run-held-le-quota :
    (s : Links) (es : List Event) (g : Text) (d : ℕ)
    → Inv s
    → 0 < d
    → HasQuota s.limiter g d
    → held quota g s.open_leases ≤ d
    → held quota g (run s es).open_leases ≤ d
unfolding run step
run-held-le-quota s [] g d v positive all h = h
run-held-le-quota s (connect tag email ∷ es) g d v positive all h =
    let t = (connect_user s tag email).0 in
    run-held-le-quota t es g d (connect_user-Inv s tag email v) positive
      (HasQuota-inbounds s.limiter t.limiter g d (connect_user-inbounds s tag email) all)
      (connect_user-held s tag email g d v positive all h)
run-held-le-quota s (finish n ∷ es) g d v positive all h =
    let t = finish_link s n in
    run-held-le-quota t es g d (finish_link-Inv s n v) positive
      (HasQuota-inbounds s.limiter t.limiter g d (finish_link-inbounds s n) all)
      (let k = finish_link-held s n g in omega arith)
