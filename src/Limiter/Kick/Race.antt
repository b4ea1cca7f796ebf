-- ===== src/Limiter/Kick/Race.antt =====
-- Between the two halves of TrackConn another connection can end: its cleanup function then drops the
-- set that the new connection is about to join.
use mmw_agent.Base.{ℕ, ◌≡◌, some, [], ◌∷◌, arith, Text, text_eq, nat_eq}
use mmw_agent.Base.Dict.{lookup, erase, lookup-erase}
use mmw_agent.Limiter.Kick.{
  Kickers, Cleanup, set_at, load_or_store, add_kicker, remove_kicker, is_empty, compare_and_delete,
  run_cleanup, kick_conn_group,
}

-- The new connection reads the set, the last connection of the group ends, and the new connection
-- joins the set that it has read.
unfoldable pub interleaved : Kickers → Text → ℕ → Cleanup → Kickers
interleaved k group kick c =
    let (k', address) = load_or_store k group in
    (add_kicker (run_cleanup k' (some c)) address kick).0

-- Whenever a group has one connection and it ends in that moment, kicking the group afterwards
-- calls nothing: the new connection is registered nowhere.
pub interleaved_lost :
    (k : Kickers) (group : Text) (kick other : ℕ) (c : Cleanup)
    → c.group ≡ group
    → lookup group k.groups ≡ some c.address
    → (set_at k.sets c.address).all ≡ (c.id, other) ∷ []
    → (kick_conn_group (interleaved k group kick c) group).1 ≡ []
unfolding interleaved load_or_store run_cleanup remove_kicker compare_and_delete add_kicker
    kick_conn_group erase is_empty
interleaved_lost k group kick other c same e only =
    ground (arith, e, lookup-erase group c.group k.groups)
