-- ===== src/Limiter/Kick/Views.antt =====
-- What TrackConn, a cleanup function and kickConnGroup do to the functions that each group can kick.
use mmw_agent.Base.{
  ℕ, suc, ◌<◌, ◌≡◌, refl, sym, ap, ◌∙◌, ◌≢◌, inl, inr, true, none, some, [], ◌∷◌, arith, Text,
  text_eq, nat_eq, ◌==◌, if◌then◌else◌, Bool-cases, Option-cases,
}
use mmw_agent.Base.Dict.{Dict, lookup, insert, erase, lookup-insert, lookup-erase}
use mmw_agent.Limiter.Kick.{
  KickerSet, Kickers, Cleanup, empty_set, set_at, load_or_store, add_kicker, track_conn,
  remove_kicker, is_empty, compare_and_delete, run_cleanup, values, kick_conn_group,
}

-- The kick functions of a group, by their ids.
unfoldable pub view : Kickers → Text → Dict ℕ ℕ
view k group = elim (lookup group k.groups) [ none ↦ [] | some a ↦ (set_at k.sets a).all ]

-- Addresses are handed out once: no two groups share a set.
pub record Inv (k : Kickers) : Type 0 where
  pub made : (g : Text) (a : ℕ) → lookup g k.groups ≡ some a → a < k.fresh
  pub apart : (g h : Text) (a : ℕ) → lookup g k.groups ≡ some a → lookup h k.groups ≡ some a → g ≡ h
  pub counted : (a id : ℕ) → (set_at k.sets a).next < id → lookup id (set_at k.sets a).all ≡ none

set_at-insert :
    (sets : Dict ℕ KickerSet) (a b : ℕ) (s : KickerSet)
    → set_at (insert b s sets) a ≡ (if a == b then s else set_at sets a)
unfolding set_at
set_at-insert sets a b s = ground (arith, lookup-insert a b s sets)

lookup_nil : (id : ℕ) → lookup {V = ℕ} id [] ≡ none
unfolding lookup
lookup_nil id = refl

module _ (k : Kickers) (group : Text) (v : Inv k) where
  load_or_store-Inv : Inv (load_or_store k group).0
  unfolding load_or_store
  load_or_store-Inv = elim (Option-cases (lookup group k.groups)) [
    | inr (a, e) ↦ rw (e, load_or_store) v
    | inl e ↦
        let at = lookup-insert group group k.fresh k.groups in
        rw (e, load_or_store)
          (record {
            made = λ g a p. ground (arith, lookup-insert g group k.fresh k.groups, v.made g a);
            apart = λ g h a p q. ground (
              arith,
              lookup-insert g group k.fresh k.groups,
              lookup-insert h group k.fresh k.groups,
              v.made g a,
              v.made h a,
              v.apart g h a,
            );
            counted = λ a id p.
                ground
                  (arith, set_at-insert k.sets a k.fresh empty_set, v.counted a id, lookup_nil id);
          })
  ]

  load_or_store-stored :
      lookup group (load_or_store k group).0.groups ≡ some (load_or_store k group).1
  unfolding load_or_store
  load_or_store-stored = elim (Option-cases (lookup group k.groups)) [
    | inr (a, e) ↦ rw (e, load_or_store) e
    | inl e ↦ rw (e, load_or_store) (ground (arith, lookup-insert group group k.fresh k.groups))
  ]

  -- A set that is made for a group is empty, as the group was.
  view-load_or_store : (g : Text) → view (load_or_store k group).0 g ≡ view k g
  unfolding load_or_store view
  view-load_or_store g = elim (Option-cases (lookup group k.groups)) [
    | inr (a, e) ↦ rw (e, load_or_store) refl
    | inl e ↦
        rw (e, load_or_store)
          (elim (text_eq.dec g group) [
            | yes same ↦ ground (
              arith,
              same,
              e,
              lookup-insert g group k.fresh k.groups,
              set_at-insert k.sets k.fresh k.fresh empty_set,
            )
            | no other ↦ elim (Option-cases (lookup g k.groups)) [
              | inl q ↦ ground (arith, other, q, lookup-insert g group k.fresh k.groups)
              | inr (b, q) ↦ ground (
                arith,
                other,
                q,
                lookup-insert g group k.fresh k.groups,
                v.made g b q,
                set_at-insert k.sets b k.fresh empty_set,
              )
            ]
          ])
  ]

view_of :
    (k : Kickers) (g : Text) {a : ℕ} → lookup g k.groups ≡ some a → view k g ≡ (set_at k.sets a).all
unfolding view
view_of k g e = rw (e, view) refl

-- The view of every group after a change of the set at one address.
view-set :
    (k : Kickers) (group : Text) (a : ℕ) (s : KickerSet)
    → Inv k
    → lookup group k.groups ≡ some a
    → (g : Text)
    → view (record k { sets = insert a s k.sets }) g ≡ (if g == group then s.all else view k g)
unfolding view
view-set k group a s v e g = elim (Option-cases (lookup g k.groups)) [
  | inl q ↦ ground (arith, q, e)
  | inr (b, q) ↦ ground (arith, q, e, v.apart g group b, set_at-insert k.sets b a s)
]

set-Inv :
    (k : Kickers) (a : ℕ) (s : KickerSet)
    → Inv k
    → ((id : ℕ) → s.next < id → lookup id s.all ≡ none)
    → Inv (record k { sets = insert a s k.sets })
set-Inv k a s v fits = record {
  made = v.made;
  apart = v.apart;
  counted = λ b id p. elim (nat_eq.dec b a) [
    | yes same ↦ ground (arith, set_at-insert k.sets b a s, fits id, same)
    | no other ↦ ground (arith, set_at-insert k.sets b a s, v.counted b id, other)
  ];
}

module _ (k : Kickers) (group : Text) (a kick : ℕ) (v : Inv k)
    (e : lookup group k.groups ≡ some a) where
  view-add_kicker :
      (g : Text)
      → view (add_kicker k a kick).0 g
        ≡ (if g == group then insert (add_kicker k a kick).1 kick (view k group) else view k g)
  unfolding add_kicker
  view-add_kicker g = rw (view_of k group e) (view-set k group a _ v e g)

  add_kicker-Inv : Inv (add_kicker k a kick).0
  unfolding add_kicker
  add_kicker-Inv =
      let s = set_at k.sets a in
      set-Inv k a (record { next = suc s.next; all = insert (suc s.next) kick s.all }) v
        λ id p. ground (arith, lookup-insert id (suc s.next) kick s.all, v.counted a id)

  add_kicker_fresh : lookup (add_kicker k a kick).1 (view k group) ≡ none
  unfolding add_kicker
  add_kicker_fresh = rw (view_of k group e) (v.counted a _ (omega arith))

track_conn-some :
    (k : Kickers) (group : Text) (kick : ℕ)
    → group ≢ []
    → let r = load_or_store k group in
      let t = add_kicker r.0 r.1 kick in
      track_conn k group (some kick)
      ≡ (t.0, some (record { group = group; address = r.1; id = t.1 }))
unfolding track_conn
track_conn-some k group kick named = ground arith

add_kicker-groups : (k : Kickers) (a kick : ℕ) → (add_kicker k a kick).0.groups ≡ k.groups
unfolding add_kicker
add_kicker-groups k a kick = refl

-- A connection that is tracked is added to its group under an id that no connection there has, and
-- no other group changes. The cleanup function holds that id.
pub track_conn-view :
    (k : Kickers) (group : Text) (kick : ℕ)
    → Inv k
    → group ≢ []
    → (id : ℕ) × (address : ℕ) × ((track_conn k group (some kick)).1
        ≡ some (record { group = group; address = address; id = id }))
      × (lookup group (track_conn k group (some kick)).0.groups ≡ some address)
      × (lookup id (view k group) ≡ none)
      × ((g : Text)
          → view (track_conn k group (some kick)).0 g
            ≡ (if g == group then insert id kick (view k group) else view k g))
      × Inv (track_conn k group (some kick)).0
track_conn-view k group kick v named =
    let k' = (load_or_store k group).0 in
    let a = (load_or_store k group).1 in
    let v' = load_or_store-Inv k group v in
    let e = load_or_store-stored k group v in
    let same = view-load_or_store k group v in
    rw (track_conn-some k group kick named) (
      (add_kicker k' a kick).1,
      a,
      refl,
      ap (lookup group) (add_kicker-groups k' a kick) ∙ e,
      ap (lookup _) (sym (same group)) ∙ add_kicker_fresh k' group a kick v' e,
      λ g. ground (arith, view-add_kicker k' group a kick v' e g, same g, same group),
      add_kicker-Inv k' group a kick v' e,
    )

view_of_none : (k : Kickers) (g : Text) → lookup g k.groups ≡ none → view k g ≡ []
unfolding view
view_of_none k g e = rw (e, view) refl

view-erase :
    (k : Kickers) (group g : Text)
    → view (record k { groups = erase group k.groups }) g ≡ (if g == group then [] else view k g)
unfolding view
view-erase k group g = ground (arith, lookup-erase g group k.groups)

is_empty-lookup : (d : Dict ℕ ℕ) (id : ℕ) → is_empty d ≡ true → lookup id d ≡ none
unfolding is_empty
is_empty-lookup [] id h = lookup_nil id
is_empty-lookup (_ ∷ _) id h = cc

-- A cleanup function whose set is still that of its group removes its own entry and nothing else,
-- also where it drops the emptied set from the registry.
pub run_cleanup-view :
    (k : Kickers) (c : Cleanup)
    → Inv k
    → lookup c.group k.groups ≡ some c.address
    → (g : Text) (id : ℕ)
    → lookup id (view (run_cleanup k (some c)) g) ≡ (
        if g == c.group
        then (if id == c.id then none else lookup id (view k g))
        else lookup id (view k g))
unfolding run_cleanup remove_kicker compare_and_delete
run_cleanup-view k c v e g id =
    let s = set_at k.sets c.address in
    let rest = erase c.id s.all in
    let k' = record k { sets = insert c.address (record s { all = rest }) k.sets } in
    elim (Bool-cases (is_empty rest)) [
      | inl gone ↦ rw gone (
          ground (
            arith,
            e,
            view-erase k' c.group g,
            view-set k c.group c.address (record s { all = rest }) v e g,
            is_empty-lookup rest id gone,
            lookup-erase id c.id s.all,
            lookup_nil id,
            view_of k c.group e,
          ))
      | inr more ↦ rw more (
          ground (
            arith,
            view-set k c.group c.address (record s { all = rest }) v e g,
            lookup-erase id c.id s.all,
            view_of k c.group e,
          ))
    ]

stale_set :
    (k : Kickers) (a : ℕ) (s : KickerSet)
    → ((g : Text) → lookup g k.groups ≢ some a)
    → (g : Text) → view (record k { sets = insert a s k.sets }) g ≡ view k g
unfolding view
stale_set k a s stale g = elim (Option-cases (lookup g k.groups)) [
  | inl e ↦ ground (arith, e)
  | inr (b, e) ↦ ground (arith, e, stale g, set_at-insert k.sets b a s)
]

-- A cleanup function that runs after its group was kicked changes no group, also where
-- the group has a new set by then.
pub run_cleanup_stale :
    (k : Kickers) (c : Cleanup)
    → ((g : Text) → lookup g k.groups ≢ some c.address)
    → (g : Text) → view (run_cleanup k (some c)) g ≡ view k g
unfolding run_cleanup remove_kicker compare_and_delete
run_cleanup_stale k c stale g =
    let s = set_at k.sets c.address in
    let kept = stale_set k c.address (record s { all = erase c.id s.all }) stale g in
    elim (Option-cases (lookup c.group k.groups)) [
      | inl e ↦ ground (arith, e, kept)
      | inr (a, e) ↦ ground (arith, e, stale c.group, kept)
    ]

-- Kicking a group calls each of its kick functions, leaves it with none, and touches no other.
pub kick_conn_group-view :
    (k : Kickers) (group : Text)
    → Inv k
    → ((kick_conn_group k group).1 ≡ values (view k group))
      × ((g : Text) → view (kick_conn_group k group).0 g ≡ (if g == group then [] else view k g))
unfolding kick_conn_group values
kick_conn_group-view k group v = elim (Option-cases (lookup group k.groups)) [
  | inl e ↦
      rw (e, kick_conn_group)
        (sym (ap values (view_of_none k group e)), λ g. ground (arith, view_of_none k group e))
  | inr (a, e) ↦
      rw (e, kick_conn_group)
        (
          ap values (sym (view_of k group e)),
          λ g.
              let s = set_at k.sets a in
              let k' = record k { sets = insert a (record s { all = [] }) k.sets } in
              ground
                (arith, view-erase k' group g, view-set k group a (record s { all = [] }) v e g),
        )
]

pub kick_conn_group-Inv : (k : Kickers) (group : Text) → Inv k → Inv (kick_conn_group k group).0
unfolding kick_conn_group
kick_conn_group-Inv k group v = elim (Option-cases (lookup group k.groups)) [
  | inl e ↦ rw (e, kick_conn_group) v
  | inr (a, e) ↦
      let s = set_at k.sets a in
      let kept = set-Inv k a (record s { all = [] }) v (λ id p. lookup_nil id) in
      rw (e, kick_conn_group)
        (record {
          made = λ g b p. ground (arith, lookup-erase g group k.groups, v.made g b);
          apart = λ g h b p q.
              ground (
                arith,
                lookup-erase g group k.groups,
                lookup-erase h group k.groups,
                v.apart g h b,
              );
          counted = kept.counted;
        })
]
