-- ===== src/Limiter/Tests.antt =====
-- Runs of internal/limiter, and its theorems at concrete data.
use mmw_agent.Base.{
  ℕ, ◌/◌, ◌≤◌, ◌<◌, ◌≡◌, refl, ◌≢◌, ◌↔◌, ◌⊎◌, none, some, [], ◌∷◌, arith, Text, text, text_eq,
  nat_eq, ◌==◌, if◌then◌else◌,
}
use mmw_agent.Base.Int.{pos, negsuc}
use mmw_agent.Base.Dict.{lookup, insert}
use mmw_agent.Base.Strings.{show_int}
use mmw_agent.Limiter.Rate.{determine_rate, calc_burst, determine_rate-least, calc_burst_bounds}
use mmw_agent.Limiter.Conn.Atomic.{
  Shared, add, admit, Reach, here, next, start, exceeds, Reach-held-le-limit,
}
use mmw_agent.Limiter.Kick.{
  Kickers, Cleanup, set_at, track_conn, run_cleanup, values, kick_conn_group,
}
use mmw_agent.Limiter.Kick.Views.{
  view, Inv, track_conn-view, run_cleanup-view, run_cleanup_stale, kick_conn_group-view,
}
use mmw_agent.Limiter.Kick.Race.{interleaved, interleaved_lost}
use mmw_agent.Limiter.Sample.{kickers}

show_int_runs : (show_int (pos 120) ≡ text "120") × (show_int (negsuc 6) ≡ text "-7")
unfolding show_int
show_int_runs = (refl, refl)

determine_rate-least_example :
    ((determine_rate 300 200 ≡ 0) ↔ (((◌≡◌ {A = ℕ} 300 0)) × (◌≡◌ {A = ℕ} 200 0)))
    × ((determine_rate 300 200 ≡ 300) ⊎ (determine_rate 300 200 ≡ 200))
    × (0 < 300 → determine_rate 300 200 ≤ 300)
    × (0 < 200 → determine_rate 300 200 ≤ 200)
determine_rate-least_example = determine_rate-least 300 200

calc_burst_bounds_example :
    (65536 ≤ calc_burst 400000)
    × (calc_burst 400000 ≤ 262144)
    × (65536 ≤ 400000 / 4 → 400000 / 4 ≤ 262144 → calc_burst 400000 ≡ 400000 / 4)
    × (400000 ≤ 9000000 → calc_burst 400000 ≤ calc_burst 9000000)
calc_burst_bounds_example = calc_burst_bounds 400000 9000000

-- Two calls add before either compares, with a limit of one.
abbrev two_added : Shared
two_added = record { count = pos 2; pending = pos 2 ∷ pos 1 ∷ []; held = 0; clamping = 0 }

abbrev one_admitted : Shared
one_admitted = record two_added { pending = pos 2 ∷ []; held = 1 }

one_admitted-Reach : Reach (pos 1) start one_admitted
unfolding exceeds
one_admitted-Reach = next (next (next here add) add) (admit (pos 2 ∷ []) (pos 1) [] refl refl)

Reach-held-le-limit_example :
    (one_admitted.held ≤ 1) × (one_admitted.count ≡ pos 2) × (one_admitted.clamping ≡ 0)
Reach-held-le-limit_example = Reach-held-le-limit 1 (omega arith) one_admitted-Reach

kickers-Inv : Inv kickers
unfolding lookup set_at nat_eq
kickers-Inv = record {
  made = λ g a e. ground arith;
  apart = λ g h a p q. ground arith;
  counted = λ a id p. ground arith;
}

abbrev cleanup : Cleanup
cleanup = record { group = text "g"; address = 0; id = 1 }

track_conn-view_example :
    (id : ℕ) × (address : ℕ) × ((track_conn kickers (text "g") (some 42)).1
      ≡ some (record { group = text "g"; address = address; id = id }))
    × (lookup (text "g") (track_conn kickers (text "g") (some 42)).0.groups ≡ some address)
    × (lookup id (view kickers (text "g")) ≡ none)
    × ((g : Text)
        → view (track_conn kickers (text "g") (some 42)).0 g
          ≡ (if g == text "g" then insert id 42 (view kickers (text "g")) else view kickers g))
    × Inv (track_conn kickers (text "g") (some 42)).0
track_conn-view_example = track_conn-view kickers (text "g") 42 kickers-Inv (λ e. cc)

group_at : lookup (text "g") kickers.groups ≡ some 0
unfolding lookup text_eq
group_at = refl

run_cleanup-view_example : lookup 1 (view (run_cleanup kickers (some cleanup)) (text "g")) ≡ (
    if text "g" == text "g"
    then (if ◌==◌ {A = ℕ} 1 1 then none else lookup 1 (view kickers (text "g")))
    else lookup 1 (view kickers (text "g")))
run_cleanup-view_example = run_cleanup-view kickers cleanup kickers-Inv group_at (text "g") 1

-- The group was kicked, and has a new set.
abbrev kicked : Kickers
kicked = record {
  groups = (text "g", 1) ∷ [];
  sets = (0, record { next = 1; all = [] }) ∷ (1, record { next = 1; all = (1, 42) ∷ [] }) ∷ [];
  fresh = 2;
}

kicked-apart : (g : Text) → lookup g kicked.groups ≢ some 0
unfolding lookup
kicked-apart g e = ground arith

run_cleanup_stale_example :
    view (run_cleanup kicked (some cleanup)) (text "g") ≡ view kicked (text "g")
run_cleanup_stale_example = run_cleanup_stale kicked cleanup kicked-apart (text "g")

kick_conn_group-view_example :
    ((kick_conn_group kickers (text "g")).1 ≡ values (view kickers (text "g")))
    × ((g : Text)
        → view (kick_conn_group kickers (text "g")).0 g
          ≡ (if g == text "g" then [] else view kickers g))
kick_conn_group-view_example = kick_conn_group-view kickers (text "g") kickers-Inv

kicks_all : values (view kickers (text "g")) ≡ 41 ∷ []
unfolding values view lookup set_at text_eq nat_eq
kicks_all = refl

interleaved_lost_example :
    (kick_conn_group (interleaved kickers (text "g") 42 cleanup) (text "g")).1 ≡ []
unfolding set_at lookup nat_eq
interleaved_lost_example = interleaved_lost kickers (text "g") 42 41 cleanup refl group_at refl
