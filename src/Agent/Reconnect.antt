-- ===== src/Agent/Reconnect.antt =====
-- internal/agent/client.go: the waits between connections, in seconds, and the changes of the mode of
-- the loops of runWebSocket and runAutoModeLoop, by the outcomes of the connections.
use mmw_agent.Base.{
  ℕ, zero, suc, ◌-◌, ◌*◌, ◌≡◌, refl, Bool, true, false, ◌&&◌, [], ◌∷◌, map, text_eq, nat_eq, ltb,
  leb, if◌then◌else◌,
}

abbrev pub base_backoff : ℕ
base_backoff = 5

abbrev pub max_backoff : ℕ
max_backoff = 300

abbrev pub pull_backoff : ℕ
pull_backoff = 30

-- for i := 1; i < n && backoff < max; i++ { backoff *= 2 }, by the number of rounds.
unfoldable pub double : ℕ → ℕ → ℕ
double zero backoff = backoff
double (suc n) backoff =
    let rest = double n (backoff * 2) in if ltb backoff max_backoff then rest else backoff

abbrev pub at_most : ℕ → ℕ → ℕ
at_most limit n = if ltb limit n then limit else n

-- The wait before the n-th try.
unfoldable pub backoff_after : ℕ → ℕ → ℕ
unfolding double
backoff_after base n = at_most max_backoff (double (n - 1) base)

-- The counters: c.reconnects, consecutiveFailures and authFailures.
pub record Counters : Type 0 where
  pub reconnects : ℕ
  pub failures : ℕ
  pub auth_failures : ℕ

-- How connectAndRun ends: an authentication error with whether the token is invalid, another error
-- with whether the agent was connected before, or the end of a connection without an error.
pub data Outcome : Type 0 where
  auth_error : Bool → Outcome
  error : Bool → Outcome
  closed : Outcome

-- What the loop of runWebSocket does next.
pub data Next : Type 0 where
  wait : ℕ → Next
  auto_mode : Next

unfoldable pub calculate_backoff : Counters → Counters × Next
unfolding backoff_after
calculate_backoff c = (
  record c { reconnects = suc c.reconnects },
  wait (backoff_after base_backoff (suc c.reconnects)),
)

unfoldable pub after_auth_error : Bool → Counters → Counters × Next
after_auth_error invalid c =
    let n = suc c.auth_failures in
    if invalid && leb 10 n
    then (record c { auth_failures = 0 }, wait 1800)
    else (record c { auth_failures = n }, wait (at_most 600 (n * 30)))

-- One round of the loop of runWebSocket. After auto_mode the loop goes on without a wait.
unfoldable pub after_connection : Outcome → Counters → Counters × Next
unfolding calculate_backoff after_auth_error
after_connection (auth_error invalid) c = after_auth_error invalid c
after_connection (error connected) c =
    let c' : Counters = record c {
      reconnects = if connected then 0 else c.reconnects;
      failures = suc c.failures;
      auth_failures = 0;
    } in
    if leb 5 (suc c.failures) then (record c' { failures = 0 }, auto_mode) else calculate_backoff c'
after_connection closed c =
    calculate_backoff (record c { reconnects = 0; failures = 0; auth_failures = 0 })

pub data Mode : Type 0 where
  websocket http : Mode
  -- pull, for that many seconds
  pull : ℕ → Mode

-- One round of runAutoModeLoop, by whether the WebSocket and the HTTP try succeed: the mode, the
-- retries so far and c.reconnects.
unfoldable pub auto_round : Bool → Bool → ℕ → ℕ → Mode × (ℕ × ℕ)
unfolding backoff_after
auto_round true http_ok retries reconnects = (websocket, (0, 0))
auto_round false true retries reconnects = (http, (0, reconnects))
auto_round false false retries reconnects =
    (pull (backoff_after pull_backoff (suc retries)), (suc retries, reconnects))

-- The waits of the comments: 5, 10, 20, 40, 80, 160, 300 and 30, 60, 120, 240, 300 seconds.
test_backoffs :
    map (backoff_after base_backoff) (1 ∷ 2 ∷ 3 ∷ 4 ∷ 5 ∷ 6 ∷ 7 ∷ 8 ∷ [])
    ≡ 5 ∷ 10 ∷ 20 ∷ 40 ∷ 80 ∷ 160 ∷ 300 ∷ 300 ∷ []
unfolding backoff_after
test_backoffs = refl

test_pull :
    map (backoff_after pull_backoff) (1 ∷ 2 ∷ 3 ∷ 4 ∷ 5 ∷ 6 ∷ [])
    ≡ 30 ∷ 60 ∷ 120 ∷ 240 ∷ 300 ∷ 300 ∷ []
unfolding backoff_after
test_pull = refl
