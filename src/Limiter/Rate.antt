-- ===== src/Limiter/Rate.antt =====
-- determineRate and calcBurst of internal/limiter/limiter.go.
use mmw_agent.Base.{ℕ, ◌*◌, ◌/◌, ◌≤◌, ◌<◌, ◌≡◌, ◌⊎◌, ◌&&◌, arith, if◌then◌else◌, ltb}
use mmw_agent.Base.{◌==◌, nat_eq, ◌↔◌}

unfoldable pub determine_rate : ℕ → ℕ → ℕ
unfolding nat_eq
determine_rate node user =
    if node == 0 && user == 0
    then 0
    else (if node == 0
        then user
        else (if user == 0 then node else (if ltb node user then node else user)))

unfoldable pub calc_burst : ℕ → ℕ
calc_burst bytes_per_sec =
    let b = bytes_per_sec / 4 in
    if ltb b (64 * 1024) then 64 * 1024 else (if ltb (256 * 1024) b then 256 * 1024 else b)

-- What a rate is of the limit of the node and that of the user.
abbrev pub Least : ℕ → ℕ → ℕ → Type 0
Least node user rate =
    ((rate ≡ 0) ↔ ((node ≡ 0) × (user ≡ 0)))
    × ((rate ≡ node) ⊎ (rate ≡ user))
    × (0 < node → rate ≤ node)
    × (0 < user → rate ≤ user)

-- The effective rate is a limit that is set, no set limit is below it, and it is 0 exactly when
-- neither is set.
pub determine_rate-least :
    (node user : ℕ)
    → ((determine_rate node user ≡ 0) ↔ ((node ≡ 0) × (user ≡ 0)))
      × ((determine_rate node user ≡ node) ⊎ (determine_rate node user ≡ user))
      × (0 < node → determine_rate node user ≤ node)
      × (0 < user → determine_rate node user ≤ user)
unfolding determine_rate
determine_rate-least node user = ground arith

-- A burst lies between 64 and 256 KiB, is a quarter of the rate in between, and a faster rate never
-- has a smaller one.
pub calc_burst_bounds :
    (r s : ℕ)
    → (65536 ≤ calc_burst r)
      × (calc_burst r ≤ 262144)
      × (65536 ≤ r / 4 → r / 4 ≤ 262144 → calc_burst r ≡ r / 4)
      × (r ≤ s → calc_burst r ≤ calc_burst s)
unfolding calc_burst
calc_burst_bounds r s = ground arith
