-- ===== src/Embedded/Monitor.antt =====
-- internal/embedded/monitor.go: the limits of users that are too fast. Times are nanoseconds, and
-- thresholds and limits are bytes per second, as the code makes them of floating point numbers.
use mmw_agent.Base.{
  ℕ, zero, suc, ◌+◌, ◌-◌, ◌*◌, Bool, true, false, not, ◌&&◌, Option, none, some, List, [], ◌∷◌,
  ◌++◌, Text, text, text_eq, nat_eq, ◌==◌, ltb, if◌then◌else◌, length,
}
use mmw_agent.Base.Int.{ℤ, pos, negsuc, is_pos, ltb_ℤ, to_ℕ}
use mmw_agent.Base.Dict.{Dict, lookup, insert, keys, is_some}
use mmw_agent.Limiter.Types.{Limiter}
use mmw_agent.Limiter.Buckets.{set_user_speed}

-- AutoSpeedLimitRule, with int64(ThresholdMbps * 1000000 / 8) and uint64(LimitMbps * 1000000 / 8).
pub record Rule : Type 0 where
  pub kind : Text
  pub threshold_bytes : ℤ
  pub sustained_seconds : ℤ
  pub window_seconds : ℤ
  pub burst_count : ℤ
  pub limit_bytes : ℕ
  pub limit_duration : ℤ

-- userSpeedState; a zero time is none.
pub record UserState : Type 0 where
  pub sustained_start : Option ℕ
  pub burst_events : List ℕ
  pub limited_until : Option ℤ

abbrev pub fresh_state : UserState
fresh_state = record { sustained_start = none; burst_events = []; limited_until = none }

-- SpeedMonitor, and the timers of time.AfterFunc: when one is due and whose limit it lifts.
pub record Monitor : Type 0 where
  pub rules : List Rule
  pub states : Dict Text UserState
  pub speeds : Dict Text ℕ
  pub limiter : Option Limiter
  pub timers : List (ℤ × Text)

-- a - b
unfoldable pub difference : ℕ → ℕ → ℤ
difference a b = if ltb a b then negsuc (b - a - 1) else pos (a - b)

unfoldable pub later : ℕ → ℤ → ℤ
unfolding difference
later now (pos s) = pos (now + s * 1000000000)
later now (negsuc n) = difference now (suc n * 1000000000)

-- now.Before(t), now.After(t)
unfoldable pub before : ℕ → Option ℤ → Bool
before now none = false
before now (some t) = ltb_ℤ (pos now) t

unfoldable pub after : ℕ → Option ℤ → Bool
after now none = true
after now (some t) = ltb_ℤ t (pos now)

-- now.Sub(start) >= seconds
unfoldable pub lasted : ℕ → ℕ → ℤ → Bool
unfolding later
lasted start now seconds = not (ltb_ℤ (pos now) (later start seconds))

-- The loop over the inbounds of the limiter.
unfoldable pub set_speeds : List Text → Text → ℕ → Limiter → Limiter
unfolding set_user_speed
set_speeds [] email speed l = l
set_speeds (tag ∷ tags) email speed l =
    set_speeds tags email speed (set_user_speed l tag email speed)

unfoldable pub limit_user : Text → ℕ → Option Limiter → Option Limiter
unfolding set_speeds
limit_user email speed none = none
limit_user email speed (some l) = some (set_speeds (keys l.inbounds) email speed l)

abbrev pub Step : Type 0
Step = Monitor × UserState

unfoldable pub apply_limit : Text → Rule → ℕ → Step → Step
unfolding limit_user later
apply_limit email rule now (m, state) =
    let until = later now rule.limit_duration in
    (
      record m {
        limiter = limit_user email rule.limit_bytes m.limiter;
        timers = m.timers ++ ((until, email) ∷ []);
      },
      record state { limited_until = some until },
    )

unfoldable pub clear_start : Step → Step
clear_start (m, state) = (m, record state { sustained_start = none })

unfoldable pub eval_sustained : Text → Rule → Bool → ℕ → Step → Step
unfolding apply_limit clear_start lasted
eval_sustained email rule exceeds now (m, state) =
    let limited = clear_start (apply_limit email rule now (m, state)) in
    if not exceeds then clear_start (m, state) else elim state.sustained_start [
      | none ↦ (m, record state { sustained_start = some now })
      | some start ↦ if lasted start now rule.sustained_seconds then limited else (m, state)
    ]

-- t.After(now.Add(-window))
unfoldable pub keep_recent : ℤ → List ℕ → List ℕ
keep_recent cutoff [] = []
keep_recent cutoff (t ∷ ts) =
    let rest = keep_recent cutoff ts in if ltb_ℤ cutoff (pos t) then t ∷ rest else rest

unfoldable pub negate : ℤ → ℤ
negate (pos zero) = pos 0
negate (pos (suc n)) = negsuc n
negate (negsuc n) = pos (suc n)

-- The end of a time above the threshold is an event if it was long enough.
unfoldable pub note_speed : Rule → Bool → ℕ → UserState → UserState
unfolding lasted
note_speed rule true now state = elim state.sustained_start [
  | none ↦ record state { sustained_start = some now }
  | some start ↦ state
]
note_speed rule false now state = elim state.sustained_start [
  | none ↦ state
  | some start ↦ record state {
    burst_events =
        if lasted start now rule.sustained_seconds
        then state.burst_events ++ (now ∷ [])
        else state.burst_events;
    sustained_start = none;
  }
]

unfoldable pub eval_burst : Text → Rule → Bool → ℕ → Step → Step
unfolding apply_limit keep_recent later negate note_speed
eval_burst email rule exceeds now (m, state) =
    let kept = keep_recent (later now (negate rule.window_seconds)) state.burst_events in
    let state1 = note_speed rule exceeds now (record state { burst_events = kept }) in
    let (m', state2) = apply_limit email rule now (m, state1) in
    if ltb_ℤ (pos (length state1.burst_events)) rule.burst_count
    then (m, state1)
    else (m', record state2 { burst_events = []; sustained_start = none })

unfoldable pub eval_rule : Text → ℕ → ℕ → Rule → Step → Step
unfolding eval_sustained eval_burst text_eq
eval_rule email speed now rule step =
    let exceeds = ltb_ℤ rule.threshold_bytes (pos speed) in
    if rule.kind == text "sustained"
    then eval_sustained email rule exceeds now step
    else (if rule.kind == text "burst" then eval_burst email rule exceeds now step else step)

-- The loop over the rules, which a limit ends.
unfoldable pub eval_rules : Text → ℕ → ℕ → List Rule → Step → Step
unfolding eval_rule before
eval_rules email speed now [] step = step
eval_rules email speed now (rule ∷ rules) step =
    let step' = eval_rule email speed now rule step in
    let rest = eval_rules email speed now rules step' in
    if before now step'.1.limited_until then step' else rest

unfoldable pub state_of : Option UserState → UserState
state_of none = fresh_state
state_of (some s) = s

unfoldable pub eval_user : Text → ℕ → ℕ → Monitor → Monitor
unfolding eval_rules before state_of
eval_user email speed now m =
    let state = state_of (lookup email m.states) in
    let (m', state') = eval_rules email speed now m.rules (m, state) in
    if before now state.limited_until
    then record m { states = insert email state m.states }
    else record m' { states = insert email state' m'.states }

unfoldable pub eval_users : Dict Text ℕ → ℕ → Monitor → Monitor
unfolding eval_user
eval_users [] now m = m
eval_users ((email, speed) ∷ speeds) now m = eval_users speeds now (eval_user email speed now m)

-- The states of users that sent nothing go once their limit is over.
unfoldable pub forget_idle : Dict Text ℕ → ℕ → Dict Text UserState → Dict Text UserState
unfolding after
forget_idle deltas now [] = []
forget_idle deltas now ((email, state) ∷ states) =
    let rest = forget_idle deltas now states in
    if not (is_some (lookup email deltas)) && after now state.limited_until
    then rest
    else (email, state) ∷ rest

-- What the division of a delta by the elapsed seconds gives, by email, and at least 0.
unfoldable pub speeds_of : Dict Text ℤ → Dict Text ℕ
speeds_of [] = []
speeds_of ((email, rate) ∷ rates) = (email, to_ℕ rate) ∷ speeds_of rates

unfoldable pub is_idle : List Rule → Option Limiter → Bool
is_idle [] l = true
is_idle (r ∷ rs) none = true
is_idle (r ∷ rs) (some l) = false

-- Evaluate, by the rates of the users and the elapsed time.
unfoldable pub evaluate : Dict Text ℤ → ℤ → ℕ → Monitor → Monitor
unfolding speeds_of is_idle eval_users forget_idle
evaluate rates elapsed now m =
    let speeds = speeds_of rates in
    let m1 = record m { speeds = speeds } in
    let m2 = eval_users speeds now m1 in
    if not (is_pos elapsed)
    then m
    else (if is_idle m.rules m.limiter
        then m1
        else record m2 { states = forget_idle speeds now m2.states })

-- The timers that are due at that time lift their limits.
unfoldable pub fire : ℕ → List (ℤ × Text) → Option Limiter → Option Limiter × List (ℤ × Text)
unfolding limit_user
fire now [] l = (l, [])
fire now ((due, email) ∷ timers) l =
    let later_timers = fire now timers l in
    let rest = fire now timers (limit_user email 0 l) in
    if ltb_ℤ (pos now) due then (later_timers.0, (due, email) ∷ later_timers.1) else rest

unfoldable pub fire_timers : ℕ → Monitor → Monitor
unfolding fire
fire_timers now m =
    let (l, timers) = fire now m.timers m.limiter in record m { limiter = l; timers = timers }
