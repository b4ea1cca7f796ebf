-- ===== src/Dispatcher/Tests.antt =====
-- Runs of the dispatcher, and its theorems at concrete data.
use mmw_agent.Base.{◌≤◌, ◌≡◌, refl, ◌↔◌, false, some, List, [], ◌∷◌, arith, text, text_eq, nat_eq}
use mmw_agent.Base.Int.{pos}
use mmw_agent.Base.Dict.{lookup, insert}
use mmw_agent.Limiter.Users.{lookup_user_info}
use mmw_agent.Base.Strings.{has_prefix}
use mmw_agent.Limiter.Conn.{
  count_of, quota_group_of, stat_group_of, acquire_conn, release_conn, increment_kick_counter,
}
use mmw_agent.Limiter.Sample.{alice, alice_routed, inbound, limiter}
use mmw_agent.Dispatcher.Conns.{Links, Event, connect, finish, connect_user, finish_link, step, run}
use mmw_agent.Dispatcher.Conns.Laws.{held, quota, Inv, run-Inv}
use mmw_agent.Dispatcher.Conns.Quota.{HasQuota, connect_user-refused_iff, run-held-le-quota}

abbrev idle : Links
idle = record { limiter = limiter; open_leases = [] }

abbrev events : List Event
events =
    connect (text "t") (text "a")
    ∷ connect (text "t") (text "r")
    ∷ connect (text "t") (text "a")
    ∷ finish 0
    ∷ connect (text "t") (text "b")
    ∷ []

idle-Inv : Inv idle
unfolding count_of lookup
idle-Inv = record { quotas = λ g. refl; nodes = λ g. refl; named = tt }

open_connections :
    (held quota (text "g") (run idle events).open_leases ≡ 1)
    × (lookup (text "a") (run idle events).limiter.kick_counter ≡ some 1)
    × (count_of (text "g") (run idle events).limiter.conn_count ≡ pos 1)
    × (count_of (text "b") (run idle events).limiter.node_conn_count ≡ pos 1)
unfolding run step finish_link acquire_conn release_conn lookup_user_info has_prefix count_of
    increment_kick_counter quota_group_of stat_group_of lookup insert text_eq nat_eq
open_connections = (refl, refl, refl, refl)

run-Inv_example : Inv (run idle events)
run-Inv_example = run-Inv idle events idle-Inv

-- Only the two accounts of the group are known.
abbrev small : Links
small = record {
  limiter = record limiter {
    inbounds =
        (
          text "t",
          record inbound { user_info = (text "t|a|1", alice) ∷ (text "t|r|1", alice_routed) ∷ [] },
        )
        ∷ [];
  };
  open_leases = [];
}

small-Inv : Inv small
unfolding count_of lookup
small-Inv = record { quotas = λ g. refl; nodes = λ g. refl; named = tt }

small-HasQuota : HasQuota small.limiter (text "g") 2
unfolding lookup_user_info lookup
small-HasQuota tag email u found same = ground arith

run-held-le-quota_example : held quota (text "g") (run small events).open_leases ≤ 2
run-held-le-quota_example =
    run-held-le-quota small events (text "g") 2 small-Inv (omega arith) small-HasQuota (omega arith)

-- Both accounts are connected once.
abbrev full : Links
full = run idle (connect (text "t") (text "a") ∷ connect (text "t") (text "r") ∷ [])

found_alice : lookup_user_info full.limiter (text "t") (text "a") ≡ some alice
unfolding run step acquire_conn lookup_user_info has_prefix count_of quota_group_of stat_group_of
    lookup insert text_eq
found_alice = refl

connect_user-refused_iff_example :
    (((connect_user full (text "t") (text "a")).1 ≡ false)
      ↔ (2 ≤ held quota (quota_group_of (text "a") alice) full.open_leases))
    × ((connect_user full (text "t") (text "a")).1 ≡ false
        → (connect_user full (text "t") (text "a")).0.open_leases ≡ full.open_leases)
connect_user-refused_iff_example =
    connect_user-refused_iff full (text "t") (text "a") alice 2
      (run-Inv idle (connect (text "t") (text "a") ∷ connect (text "t") (text "r") ∷ []) idle-Inv)
      (λ e. cc) found_alice refl (omega arith)
