-- ===== src/Dispatcher/Conns.antt =====
-- The connection accounting of getLink and DispatchLink, over any sequence of connections.
pub mod Laws
pub mod Quota
use mmw_agent.Base.{
  ℕ, zero, suc, ◌+◌, ◌-◌, ◌*◌, ◌/◌, ◌%◌, ◌^◌, ◌≤◌, ◌<◌, ◌≡◌, refl, sym, ap, ◌∙◌, ◌≢◌, ◌↔◌, ◌⊎◌, inl,
  inr, ite, Bool, true, false, not, ◌&&◌, ◌||◌, Option, none, some, List, [], ◌∷◌, ◌++◌, map, arith,
  Text, text, text_eq, nat_eq, ◌==◌, ltb, leb, if◌then◌else◌, ltb→lt, lt→ltb, le→ltb, Bool-cases,
  Option-cases, length, take, drop, All, length-append, length-drop, Eq,
}
use mmw_agent.Base.Int.{ℤ, pos, negsuc, is_pos, is_neg, ltb_ℤ, add_one, sub_one, to_ℕ}
use mmw_agent.Base.Dict.{
  Dict, lookup, insert, erase, lookup-cons, lookup-insert, lookup-erase, keys,
}
use mmw_agent.Limiter.Types.{Limiter, ConnLease}
use mmw_agent.Limiter.Conn.{acquire_conn, release_conn}

-- The limiter, and the leases that wait for the end of their connection's context.
pub record Links : Type 0 where
  pub limiter : Limiter
  pub open_leases : List ConnLease

pub data Event : Type 0 where
  -- A user's connection arrives at an inbound.
  connect : Text → Text → Event
  -- The context of the n-th open connection ends.
  finish : ℕ → Event

-- The branch of getLink and DispatchLink on the user's email; `true` means that the link is made.
unfoldable pub connect_user : Links → Text → Text → Links × Bool
connect_user s tag email =
    if email == []
    then (s, true)
    else (let (l, admitted, lease) = acquire_conn s.limiter tag email in
        if admitted && not (lease.quota_group == [])
        then (record { limiter = l; open_leases = lease ∷ s.open_leases }, true)
        else (record s { limiter = l }, admitted))

-- The lease at an index, and the others.
unfoldable pub pick : ℕ → List ConnLease → Option (ConnLease × List ConnLease)
pick n [] = none
pick zero (x ∷ xs) = some (x, xs)
pick (suc n) (x ∷ xs) = elim (pick n xs) [ none ↦ none | some (y, ys) ↦ some (y, x ∷ ys) ]

-- `context.AfterFunc` runs its function once.
unfoldable pub finish_link : Links → ℕ → Links
unfolding pick
finish_link s n = elim (pick n s.open_leases) [
  | none ↦ s
  | some (lease, rest) ↦ record { limiter = release_conn s.limiter lease; open_leases = rest }
]

unfoldable pub step : Links → Event → Links
unfolding connect_user
step s (connect tag email) = (connect_user s tag email).0
step s (finish n) = finish_link s n

unfoldable pub run : Links → List Event → Links
run s [] = s
run s (e ∷ es) = run (step s e) es
