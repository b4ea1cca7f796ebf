-- ===== src/Embedded/Tests.antt =====
-- Examples of the monitor.
use mmw_agent.Base.{◌≡◌, refl, some, List, [], ◌∷◌, text, text_eq, nat_eq}
use mmw_agent.Base.Int.{pos}
use mmw_agent.Base.Dict.{lookup, insert}
use mmw_agent.Limiter.Types.{Limiter}
use mmw_agent.Embedded.Monitor.{Rule, Monitor, evaluate, fire_timers}

abbrev no_users : Limiter
no_users = record {
  inbounds = [];
  auto_limited = [];
  conn_count = [];
  node_conn_count = [];
  kick_counter = [];
  buckets = [];
  next_bucket = 0;
  kickers = record { groups = []; sets = []; fresh = 0 };
}

abbrev sustained : Rule
sustained = record {
  kind = text "sustained";
  threshold_bytes = pos 10;
  sustained_seconds = pos 60;
  window_seconds = pos 0;
  burst_count = pos 0;
  limit_bytes = 5;
  limit_duration = pos 30;
}

abbrev burst : Rule
burst = record sustained {
  kind = text "burst";
  sustained_seconds = pos 0;
  window_seconds = pos 600;
  burst_count = pos 1;
}

abbrev monitor : List Rule → Monitor
monitor rules = record {
  rules = rules;
  states = [];
  speeds = [];
  limiter = some no_users;
  timers = [];
}

-- A second above the threshold and one below it.
abbrev after_burst : List Rule → Monitor
after_burst rules =
    evaluate ((text "a", pos 1) ∷ []) (pos 1) 2000000000
      (evaluate ((text "a", pos 20) ∷ []) (pos 1) 1000000000 (monitor rules))

test_burst : (after_burst (burst ∷ [])).timers ≡ (pos 32000000000, text "a") ∷ []
unfolding evaluate lookup insert
test_burst = refl

-- A rule for sustained speeds in front takes the start of the burst away.
test_burst_lost : (after_burst (sustained ∷ burst ∷ [])).timers ≡ []
unfolding evaluate lookup insert
test_burst_lost = refl

test_timer : (fire_timers 32000000000 (after_burst (burst ∷ []))).timers ≡ []
unfolding evaluate fire_timers lookup insert
test_timer = refl
