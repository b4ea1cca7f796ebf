-- ===== src/Securechan/Window.antt =====
-- replayWindow of internal/securechan/securechan.go. A uint64 is a number below 2 ^ 64.
pub mod History
use mmw_agent.Base.{
  ℕ, zero, suc, ◌+◌, ◌-◌, ◌*◌, ◌/◌, ◌%◌, ◌^◌, ◌≤◌, ◌<◌, ◌≡◌, refl, sym, ap, ◌∙◌, ◌≢◌, ◌↔◌, ◌⊎◌, inl,
  inr, ite, Bool, true, false, not, ◌&&◌, ◌||◌, Option, none, some, List, [], ◌∷◌, ◌++◌, map, arith,
  Text, text, text_eq, nat_eq, ◌==◌, ltb, leb, if◌then◌else◌, ltb→lt, lt→ltb, le→ltb, Bool-cases,
  Option-cases, length, take, drop, All, length-append, length-drop, Eq, contains,
}
use mmw_agent.Base.Int.{ℤ, pos, negsuc, is_pos, is_neg, ltb_ℤ, add_one, sub_one, to_ℕ}
use mmw_agent.Base.Dict.{
  Dict, lookup, insert, erase, lookup-cons, lookup-insert, lookup-erase, keys, is_some,
  contains-keys,
}
use Prim.Native.Nat.{bit_and, bit_or}

-- windowSize
abbrev pub window_size : ℕ
window_size = 64

pub record ReplayWindow : Type 0 where
  pub max_seq : ℕ
  pub bitmap : ℕ

abbrev pub empty_window : ReplayWindow
empty_window = record { max_seq = 0; bitmap = 0 }

unfoldable pub advance : ReplayWindow → ℕ → ReplayWindow
advance w seq =
    let shift = seq - w.max_seq in
    let moved = if leb window_size shift then 0 else (w.bitmap * 2 ^ shift) % 2 ^ 64 in
    record { max_seq = seq; bitmap = bit_or moved 1 }

unfoldable pub check : ReplayWindow → ℕ → ReplayWindow × Bool
unfolding advance nat_eq
check w seq =
    if seq == 0
    then (w, false)
    else (if ltb w.max_seq seq
        then (advance w seq, true)
        else (let diff = w.max_seq - seq in
            if leb window_size diff
            then (w, false)
            else (if not (bit_and w.bitmap (2 ^ diff) == 0)
                then (w, false)
                else (record w { bitmap = bit_or w.bitmap (2 ^ diff) }, true))))
