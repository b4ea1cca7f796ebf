-- ===== src/Limiter/Kick.antt =====
-- TrackConn, its cleanup functions and kickConnGroup: the registry of functions that interrupt the
-- open connections of a group. A set of kick functions is shared by pointer, so it is named by its
-- address; a kick function is named by the number of its connection.
pub mod Views
pub mod Race
use mmw_agent.Base.{
  ℕ, zero, suc, ◌+◌, ◌-◌, ◌*◌, ◌/◌, ◌%◌, ◌^◌, ◌≤◌, ◌<◌, ◌≡◌, refl, sym, ap, ◌∙◌, ◌≢◌, ◌↔◌, ◌⊎◌, inl,
  inr, ite, Bool, true, false, not, ◌&&◌, ◌||◌, Option, none, some, List, [], ◌∷◌, ◌++◌, map, arith,
  Text, text, text_eq, nat_eq, ◌==◌, ltb, leb, if◌then◌else◌, ltb→lt, lt→ltb, le→ltb, Bool-cases,
  Option-cases, length, take, drop, All, length-append, length-drop, Eq,
}
use mmw_agent.Base.Int.{ℤ, pos, negsuc, is_pos, is_neg, ltb_ℤ, add_one, sub_one, to_ℕ}
use mmw_agent.Base.Dict.{
  Dict, lookup, insert, erase, lookup-cons, lookup-insert, lookup-erase, keys,
}

-- connKickerSet. `next` is a uint64, which 2^64 connections do not reach.
pub record KickerSet : Type 0 where
  pub next : ℕ
  pub all : Dict ℕ ℕ

-- activeConnKickers, with the sets that the program has made.
pub record Kickers : Type 0 where
  pub groups : Dict Text ℕ
  pub sets : Dict ℕ KickerSet
  pub fresh : ℕ

-- What the closure that TrackConn returns has captured.
pub record Cleanup : Type 0 where
  pub group : Text
  pub address : ℕ
  pub id : ℕ

abbrev pub empty_set : KickerSet
empty_set = record { next = 0; all = [] }

unfoldable pub set_at : Dict ℕ KickerSet → ℕ → KickerSet
set_at sets address = elim (lookup address sets) [ none ↦ empty_set | some s ↦ s ]

-- `activeConnKickers.LoadOrStore(group, &connKickerSet{...})`
unfoldable pub load_or_store : Kickers → Text → Kickers × ℕ
load_or_store k group = elim (lookup group k.groups) [
  | some address ↦ (k, address)
  | none ↦ (
    record {
      groups = insert group k.fresh k.groups;
      sets = insert k.fresh empty_set k.sets;
      fresh = suc k.fresh;
    },
    k.fresh,
  )
]

-- The part of TrackConn under the set's mutex.
unfoldable pub add_kicker : Kickers → ℕ → ℕ → Kickers × ℕ
add_kicker k address kick =
    let s = set_at k.sets address in
    let id = suc s.next in
    (
      record k { sets = insert address (record { next = id; all = insert id kick s.all }) k.sets },
      id,
    )

-- `none` is the cleanup function that does nothing.
unfoldable pub track_conn : Kickers → Text → Option ℕ → Kickers × Option Cleanup
track_conn k group none = (k, none)
track_conn k group (some kick) =
    if group == []
    then (k, none)
    else (let (k', address) = load_or_store k group in
        let (k'', id) = add_kicker k' address kick in
        (k'', some (record { group = group; address = address; id = id })))

-- `len(set.all) == 0`
unfoldable pub is_empty : Dict ℕ ℕ → Bool
is_empty [] = true
is_empty (_ ∷ _) = false

-- The part of the cleanup function under the mutex, with `empty`.
unfoldable pub remove_kicker : Kickers → Cleanup → Kickers × Bool
remove_kicker k c =
    let s = set_at k.sets c.address in
    let rest = erase c.id s.all in
    (record k { sets = insert c.address (record s { all = rest }) k.sets }, is_empty rest)

-- `activeConnKickers.CompareAndDelete(group, set)`
unfoldable pub compare_and_delete : Kickers → Text → ℕ → Kickers
compare_and_delete k group address = elim (lookup group k.groups) [
  | none ↦ k
  | some a ↦ if a == address then record k { groups = erase group k.groups } else k
]

unfoldable pub run_cleanup : Kickers → Option Cleanup → Kickers
run_cleanup k none = k
run_cleanup k (some c) =
    let (k', empty) = remove_kicker k c in
    if empty then compare_and_delete k' c.group c.address else k'

unfoldable pub values : Dict ℕ ℕ → List ℕ
values [] = []
values ((_, kick) ∷ d) = kick ∷ values d

-- The connections whose kick function is called, in the order of the map's range.
unfoldable pub kick_conn_group : Kickers → Text → Kickers × List ℕ
kick_conn_group k group = elim (lookup group k.groups) [
  | none ↦ (k, [])
  | some address ↦
      let s = set_at k.sets address in
      (
        record k {
          groups = erase group k.groups;
          sets = insert address (record s { all = [] }) k.sets;
        },
        values s.all,
      )
]
