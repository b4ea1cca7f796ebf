-- ===== src/Limiter/Buckets/Kicks.antt =====
-- Which connections a new configuration of an inbound interrupts.
use mmw_agent.Base.{
  ℕ, ◌≡◌, refl, sym, ap, ◌∙◌, inl, inr, Bool, true, false, not, ◌&&◌, ◌||◌, some, List, [], ◌∷◌,
  ◌++◌, arith, Text, text_eq, nat_eq, ◌==◌, if◌then◌else◌, Bool-cases, Option-cases, contains,
}
use mmw_agent.Base.Dict.{Dict, lookup, lookup-insert, keys, is_some, contains-keys}
use mmw_agent.Limiter.Types.{UserInfo, InboundInfo, Limiter}
use mmw_agent.Limiter.Kick.{Kickers, kick_conn_group}
use mmw_agent.Limiter.Buckets.{
  user_conn_group, next_groups, removed_groups, kick_groups, sync_inbound_limiter,
}
use mmw_agent.Limiter.Kick.{values}
use mmw_agent.Limiter.Kick.Views.{Inv, view, kick_conn_group-view, kick_conn_group-Inv}

contains-append :
    (x : ℕ) (xs ys : List ℕ) → contains x (xs ++ ys) ≡ (contains x xs || contains x ys)
unfolding contains
contains-append x [] ys = refl
contains-append x (y ∷ xs) ys = ground (arith, contains-append x xs ys)

kick_groups-view :
    (k : Kickers) (gs : List Text) (g : Text)
    → Inv k
    → view (kick_groups k gs).0 g ≡ (if contains g gs then [] else view k g)
unfolding kick_groups contains
kick_groups-view k [] g v = refl
kick_groups-view k (h ∷ gs) g v = ground (
  arith,
  kick_groups-view (kick_conn_group k h).0 gs g (kick_conn_group-Inv k h v),
  (kick_conn_group-view k h v).1 g,
)

-- Every connection of a kicked group is interrupted.
kick_groups-kicked :
    (k : Kickers) (gs : List Text) (g : Text) (x : ℕ)
    → Inv k
    → contains g gs ≡ true
    → contains x (values (view k g)) ≡ true
    → contains x (kick_groups k gs).1 ≡ true
unfolding kick_groups contains
kick_groups-kicked k [] g x v h tracked = cc
kick_groups-kicked k (h ∷ gs) g x v listed tracked = rw contains-append (elim (text_eq.dec g h) [
  | yes same ↦ ground (arith, same, (kick_conn_group-view k h v).0)
  | no other ↦ ground (
    arith,
    other,
    (kick_conn_group-view k h v).1 g,
    kick_groups-kicked (kick_conn_group k h).0 gs g x (kick_conn_group-Inv k h v),
  )
])

contains-nil : (x : ℕ) → contains x (values []) ≡ false
unfolding contains values
contains-nil x = refl

-- No other connection is.
kick_groups-only :
    (k : Kickers) (gs : List Text) (x : ℕ)
    → Inv k
    → contains x (kick_groups k gs).1 ≡ true
    → (g : Text) × (contains g gs ≡ true) × (contains x (values (view k g)) ≡ true)
unfolding kick_groups contains
kick_groups-only k [] x v h = ground (arith, h)
kick_groups-only k (h ∷ gs) x v kicked =
    let (called, views) = kick_conn_group-view k h v in
    let rest = (kick_groups (kick_conn_group k h).0 gs).1 in
    let split = sym (contains-append x (kick_conn_group k h).1 rest) ∙ kicked in
    elim (Bool-cases (contains x (kick_conn_group k h).1)) [
      | inl here ↦ (h, ground arith, ap (λ ys. contains x ys) (sym called) ∙ here)
      | inr elsewhere ↦
          let (g, listed, tracked) =
            kick_groups-only (kick_conn_group k h).0 gs x (kick_conn_group-Inv k h v)
              (ground (arith, split, elsewhere)) in
          (g, ground (arith, listed), ground (arith, views g, tracked, contains-nil x))
    ]

-- Does a user of the list, or of the table, count in the group?
abbrev pub in_groups : Text → List UserInfo → Bool
in_groups g [] = false
in_groups g (u ∷ us) = g == user_conn_group u || in_groups g us

abbrev pub in_table : Text → Dict Text UserInfo → Bool
in_table g [] = false
in_table g ((_, u) ∷ users) = g == user_conn_group u || in_table g users

next_groups-lookup :
    (g : Text) (us : List UserInfo) → is_some (lookup g (next_groups us)) ≡ in_groups g us
unfolding next_groups lookup
next_groups-lookup g [] = refl
next_groups-lookup g (u ∷ us) =
    ground (arith, next_groups-lookup g us, lookup-insert g (user_conn_group u) tt (next_groups us))

removed_groups-lookup :
    (kept : Dict Text (Unit {0})) (users : Dict Text UserInfo) (g : Text)
    → is_some (lookup g (removed_groups kept users))
      ≡ (in_table g users && not (is_some (lookup g kept)))
unfolding removed_groups lookup
removed_groups-lookup kept [] g = refl
removed_groups-lookup kept ((_, u) ∷ users) g =
    elim (Option-cases (lookup (user_conn_group u) kept)) [
      | inl e ↦
          (ground (
            arith,
            e,
            removed_groups-lookup kept users g,
            lookup-insert g (user_conn_group u) tt (removed_groups kept users),
          ))
      | inr (w, e) ↦ (ground (arith, e, removed_groups-lookup kept users g))
    ]

-- A new configuration of a known inbound empties exactly the groups that an old user had and no
-- new user has, interrupts every connection that was tracked under them, and interrupts no other.
pub sync_kicks :
    (l : Limiter) (tag : Text) (node : ℕ) (users : List UserInfo) (g : Text) {prev : InboundInfo}
    → Inv l.kickers
    → lookup tag l.inbounds ≡ some prev
    → let r = sync_inbound_limiter l tag node users in
      let gone = in_table g prev.user_info && not (in_groups g users) in
      (view r.0.kickers g ≡ (if gone then [] else view l.kickers g))
      × ((x : ℕ)
          → gone ≡ true
          → contains x (values (view l.kickers g)) ≡ true
          → contains x r.1 ≡ true)
      × ((x : ℕ)
          → contains x r.1 ≡ true
          → (g' : Text) × ((in_table g' prev.user_info && not (in_groups g' users)) ≡ true)
            × (contains x (values (view l.kickers g')) ≡ true))
unfolding sync_inbound_limiter
sync_kicks l tag node users g {prev} v found =
    let removed = removed_groups (next_groups users) prev.user_info in
    let listed : (h : Text)
        → contains h (keys removed) ≡ (in_table h prev.user_info && not (in_groups h users)) =
      λ h.
        contains-keys h removed
        ∙ removed_groups-lookup (next_groups users) prev.user_info h
        ∙ ap (λ b. in_table h prev.user_info && not b) (next_groups-lookup h users) in
    rw (found, sync_inbound_limiter)
      (
        kick_groups-view l.kickers (keys removed) g v
            ∙ ap (λ b. if b then [] else view l.kickers g) (listed g),
        λ x gone tracked.
            kick_groups-kicked l.kickers (keys removed) g x v (listed g ∙ gone) tracked,
        λ x kicked.
            let (h, among, tracked) = kick_groups-only l.kickers (keys removed) x v kicked in
            (h, sym (listed h) ∙ among, tracked),
      )
