-- ===== src/Dispatcher/Conns/Laws.antt =====
-- The counters are the numbers of open connections, whatever the order of events.
use mmw_agent.Base.{
  ℕ, zero, suc, ◌+◌, ◌≡◌, ap, ◌∙◌, ◌≢◌, inl, inr, true, false, none, some, List, [], ◌∷◌, arith,
  Text, text_eq, nat_eq, ◌==◌, if◌then◌else◌, Bool-cases, Option-cases, All,
}
use mmw_agent.Base.Int.{pos}
use mmw_agent.Limiter.Types.{UserInfo, ConnLease}
use mmw_agent.Limiter.Users.{lookup_user_info}
use mmw_agent.Limiter.Conn.{count_of, quota_group_of, stat_group_of, acquire_user, acquire_conn}
use mmw_agent.Limiter.Conn.Laws.{
  is_full, acquire_user_refused, acquire_user_admitted, release_conn_counts,
}
use mmw_agent.Dispatcher.Conns.{
  Links, Event, connect, finish, connect_user, pick, finish_link, step, run,
}

-- How many of the leases have the group, by a projection of the lease.
abbrev pub held : (ConnLease → Text) → Text → List ConnLease → ℕ
held f g [] = 0
held f g (x ∷ xs) = (if g == f x then 1 else 0) + held f g xs

abbrev pub quota : ConnLease → Text
quota x = x.quota_group

abbrev pub stat : ConnLease → Text
stat x = x.stat_group

abbrev pub Named : ConnLease → Type 0
Named x = (x.quota_group ≢ []) × (x.stat_group ≢ [])

-- Both counters agree with the open leases, and every lease names its groups.
pub record Inv (s : Links) : Type 0 where
  pub quotas : (g : Text) → count_of g s.limiter.conn_count ≡ pos (held quota g s.open_leases)
  pub nodes : (g : Text) → count_of g s.limiter.node_conn_count ≡ pos (held stat g s.open_leases)
  pub named : All Named s.open_leases

quota_group_of-ne-nil : (email : Text) (u : UserInfo) → email ≢ [] → quota_group_of email u ≢ []
unfolding quota_group_of
quota_group_of-ne-nil email u h = ground arith

stat_group_of-ne-nil : (email : Text) (u : UserInfo) → email ≢ [] → stat_group_of email u ≢ []
unfolding stat_group_of
stat_group_of-ne-nil email u h = ground (arith, quota_group_of-ne-nil email u h)

pub held-pick :
    (f : ConnLease → Text) (g : Text) (n : ℕ) (xs : List ConnLease) {x : ConnLease}
    {ys : List ConnLease}
    → pick n xs ≡ some (x, ys)
    → held f g xs ≡ (if g == f x then 1 else 0) + held f g ys
unfolding pick
held-pick f g zero [] h = cc
held-pick f g (suc n) [] h = cc
held-pick f g zero (y ∷ xs) h = ground arith
held-pick f g (suc n) (y ∷ xs) {x} {ys} h = elim (Option-cases (pick n xs)) [
  | inl e ↦ ground arith
  | inr ((z, zs), e) ↦ ground (arith, held-pick f g n xs e)
]

All-pick :
    (n : ℕ) (xs : List ConnLease) {x : ConnLease} {ys : List ConnLease}
    → pick n xs ≡ some (x, ys)
    → All Named xs
    → Named x × All Named ys
unfolding pick
All-pick zero [] h a = cc
All-pick (suc n) [] h a = cc
All-pick zero (y ∷ xs) h a = ground arith
All-pick (suc n) (y ∷ xs) {x} {ys} h a = elim (Option-cases (pick n xs)) [
  | inl e ↦ ground arith
  | inr ((z, zs), e) ↦ ground (arith, All-pick n xs e a.1)
]

module _ (s : Links) (tag email : Text) (named : email ≢ []) where
  pub connect_user-unknown :
      lookup_user_info s.limiter tag email ≡ none → connect_user s tag email ≡ (s, true)
  unfolding connect_user acquire_conn
  connect_user-unknown missing = rw (missing, acquire_conn) (ground arith)

  module _ (u : UserInfo) (found : lookup_user_info s.limiter tag email ≡ some u) where
    pub connect_user-refused :
        is_full s.limiter email u ≡ true
        → connect_user s tag email
          ≡ (record s { limiter = (acquire_user s.limiter email u).0 }, false)
    unfolding connect_user acquire_conn
    connect_user-refused full =
        let (a, b, _, _, _) = acquire_user_refused s.limiter email u full in
        rw (found, acquire_conn) (ground (arith, a, b))

    pub connect_user-admitted :
        is_full s.limiter email u ≡ false
        → connect_user s tag email ≡ (
          record {
            limiter = (acquire_user s.limiter email u).0;
            open_leases =
                record { quota_group = quota_group_of email u; stat_group = stat_group_of email u }
                ∷ s.open_leases;
          },
          true,
        )
    unfolding connect_user acquire_conn
    connect_user-admitted free =
        let (a, b, _, _, _) = acquire_user_admitted s.limiter email u free in
        rw (found, acquire_conn) (ground (arith, a, b, quota_group_of-ne-nil email u named))

    connect_known-Inv : Inv s → Inv (connect_user s tag email).0
    connect_known-Inv v = elim (Bool-cases (is_full s.limiter email u)) [
      | inl full ↦
          let (_, _, c, d, _) = acquire_user_refused s.limiter email u full in
          rw (connect_user-refused full) (record {
            quotas = λ g. c g ∙ v.quotas g;
            nodes = λ g. ap (count_of g) d ∙ v.nodes g;
            named = v.named;
          })
      | inr free ↦
          let (_, _, c, d, _) = acquire_user_admitted s.limiter email u free in
          rw (connect_user-admitted free) (record {
            quotas = λ g. ground (arith, c g, v.quotas g);
            nodes = λ g. ground (arith, d g, v.nodes g);
            named = (
              (quota_group_of-ne-nil email u named, stat_group_of-ne-nil email u named),
              v.named,
            );
          })
    ]

pub connect_user-Inv : (s : Links) (tag email : Text) → Inv s → Inv (connect_user s tag email).0
unfolding connect_user
connect_user-Inv s tag [] v = ground arith
connect_user-Inv s tag (c ∷ email) v =
    elim (Option-cases (lookup_user_info s.limiter tag (c ∷ email))) [
      | inl missing ↦ rw (connect_user-unknown s tag (c ∷ email) (λ e. cc) missing) v
      | inr (u, found) ↦ connect_known-Inv s tag (c ∷ email) (λ e. cc) u found v
    ]

pub finish_link-Inv : (s : Links) (n : ℕ) → Inv s → Inv (finish_link s n)
unfolding finish_link
finish_link-Inv s n v = elim (Option-cases (pick n s.open_leases)) [
  | inl e ↦ rw (e, finish_link) v
  | inr ((x, ys), e) ↦
      let named = All-pick n s.open_leases e v.named in
      let counts = release_conn_counts s.limiter x named.0.0 named.0.1 in
      rw (e, finish_link)
        (record {
          quotas = λ g. ground (arith, counts.0 g, held-pick quota g n s.open_leases e, v.quotas g);
          nodes = λ g. ground (arith, counts.1 g, held-pick stat g n s.open_leases e, v.nodes g);
          named = named.1;
        })
]

step-Inv : (s : Links) (e : Event) → Inv s → Inv (step s e)
unfolding step
step-Inv s (connect tag email) v = connect_user-Inv s tag email v
step-Inv s (finish n) v = finish_link-Inv s n v

pub run-Inv : (s : Links) (es : List Event) → Inv s → Inv (run s es)
unfolding run
run-Inv s [] v = v
run-Inv s (e ∷ es) v = run-Inv (step s e) es (step-Inv s e v)
