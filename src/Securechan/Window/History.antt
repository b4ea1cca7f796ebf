-- ===== src/Securechan/Window/History.antt =====
-- The window refines the set of all sequence numbers that were accepted.
use mmw_agent.Base.{
  ℕ, zero, suc, ◌+◌, ◌-◌, ◌*◌, ◌%◌, ◌^◌, ◌≤◌, ◌<◌, ◌≡◌, refl, ap, ◌∙◌, inl, inr, Bool, true, false,
  not, ◌&&◌, List, [], ◌∷◌, arith, text_eq, nat_eq, ◌==◌, ltb, leb, if◌then◌else◌, Bool-cases,
  contains,
}
use Prim.Native.Nat.{bit_and, bit_or, max}
use mmw_agent.Securechan.Bits.{
  bit, bit-shl, bit-mod, bit-bit_or, bit_and-mask, bit-le-one, pow-pos, zero-bit,
}
use mmw_agent.Securechan.Window.{window_size, ReplayWindow, advance, check}

-- The greatest number of the history.
unfoldable pub latest : List ℕ → ℕ
latest [] = 0
latest (s ∷ h) = max s (latest h)

-- The specification: a number is good once, if it is not 0 and not 64 or more behind the latest.
unfoldable pub is_fresh : List ℕ → ℕ → Bool
is_fresh h seq = not (seq == 0) && (not (contains seq h) && ltb (latest h) (seq + window_size))

-- The window holds what the specification needs of the history.
pub record Represents (w : ReplayWindow) (h : List ℕ) : Type 0 where
  pub greatest : w.max_seq ≡ latest h
  pub bits :
      (d : ℕ)
      → d < window_size
      → d < w.max_seq
      → bit w.bitmap d ≡ (if contains (w.max_seq - d) h then 1 else 0)

pub contains-latest : (h : List ℕ) (s : ℕ) → latest h < s → contains s h ≡ false
unfolding contains latest
contains-latest [] s above = refl
contains-latest (x ∷ h) s above = ground (arith, contains-latest h s)

moved-bit :
    (bitmap shift d : ℕ)
    → d < 64
    → bit ((bitmap * 2 ^ shift) % 2 ^ 64) d ≡ (if ltb d shift then 0 else bit bitmap (d - shift))
moved-bit bitmap shift d small =
    bit-mod 64 (bitmap * 2 ^ shift) d ∙ rw (bit-shl shift bitmap d) (ground arith)

advanced_bit :
    (w : ReplayWindow) (h : List ℕ) (seq : ℕ)
    → w.max_seq < seq
    → Represents w h
    → (d : ℕ) → d < window_size
    → d < seq
    → bit (advance w seq).bitmap d ≡ (if contains (seq - d) (seq ∷ h) then 1 else 0)
unfolding advance contains
advanced_bit w h seq later r d small inside =
    let shift = seq - w.max_seq in
    let m = (w.bitmap * 2 ^ shift) % 2 ^ 64 in
    let new = contains-latest h (seq - d) in
    elim (Bool-cases (leb window_size shift)) [
      | inl far ↦ rw far (ground (arith, bit-bit_or 0 0 d, zero-bit d, new, r.greatest, far))
      | inr near ↦ rw near (elim (Bool-cases (ltb d shift)) [
        | inl fresh ↦
            ground
              (arith, bit-bit_or m 0 d, moved-bit w.bitmap shift d small, new, r.greatest, fresh)
        | inr kept ↦
            let same : w.max_seq - (d - shift) ≡ seq - d = ground arith in
            let old = r.bits (d - shift) (omega arith) (ground arith) in
            let old' = old ∙ ap (λ s. if contains s h then 1 else 0) same in
            ground (arith, bit-bit_or m 0 d, moved-bit w.bitmap shift d small, old', kept)
      ])
    ]

advance-Represents :
    (w : ReplayWindow) (h : List ℕ) (seq : ℕ)
    → w.max_seq < seq
    → Represents w h
    → Represents (advance w seq) (seq ∷ h)
unfolding advance contains latest
advance-Represents w h seq later r = record {
  greatest = omega (arith, r.greatest);
  bits = λ d small inside. advanced_bit w h seq later r d small inside;
}

mark-Represents :
    (w : ReplayWindow) (h : List ℕ) (seq : ℕ)
    → seq ≤ w.max_seq
    → 0 < seq
    → Represents w h
    → Represents (record w { bitmap = bit_or w.bitmap (2 ^ (w.max_seq - seq)) }) (seq ∷ h)
unfolding contains latest
mark-Represents w h seq old positive r = record {
  greatest = omega (arith, r.greatest);
  bits = λ d small inside.
      ground (arith, bit-bit_or w.bitmap (w.max_seq - seq) d, r.bits d small inside);
}

-- What one check means for the specification.
unfoldable pub Refines : ReplayWindow → List ℕ → ℕ → ReplayWindow × Bool → Type 0
Refines w h seq answer =
    (answer.1 ≡ is_fresh h seq) × Represents answer.0 (if is_fresh h seq then seq ∷ h else h)

refused :
    (w : ReplayWindow) (h : List ℕ) (seq : ℕ)
    → Represents w h
    → is_fresh h seq ≡ false
    → Refines w h seq (w, false)
unfolding Refines
refused w h seq r stale = rw stale (refl, r)

accepted :
    (w w' : ReplayWindow) (h : List ℕ) (seq : ℕ)
    → Represents w' (seq ∷ h)
    → is_fresh h seq ≡ true
    → Refines w h seq (w', true)
unfolding Refines
accepted w w' h seq r fresh = rw fresh (refl, r)

marked_bit :
    (w : ReplayWindow) (h : List ℕ) (seq : ℕ)
    → Represents w h
    → 0 < seq
    → seq ≤ w.max_seq
    → w.max_seq - seq < window_size
    → bit w.bitmap (w.max_seq - seq) ≡ (if contains seq h then 1 else 0)
marked_bit w h seq r positive old near =
    let same : w.max_seq - (w.max_seq - seq) ≡ seq = omega (arith, old) in
    r.bits (w.max_seq - seq) near (omega arith) ∙ ap (λ s. if contains s h then 1 else 0) same

mask_clear : (n d : ℕ) → (bit_and n (2 ^ d) == 0) ≡ (bit n d == 0)
unfolding nat_eq
mask_clear n d = rw (bit_and-mask n d) (go (bit n d) (bit-le-one n d))
  where
    go : (b : ℕ) → b ≤ 1 → (b * 2 ^ d == 0) ≡ (b == 0)
    go zero small = ground arith
    go (suc zero) small = ground (arith, pow-pos d)
    go (suc (suc b)) small = absurd (omega (arith, small))

-- A number within the window: its bit decides.
within-Refines :
    (w : ReplayWindow) (h : List ℕ) (seq : ℕ)
    → Represents w h
    → 0 < seq
    → seq ≤ w.max_seq
    → w.max_seq - seq < window_size
    → Refines w h seq (
        if not (bit_and w.bitmap (2 ^ (w.max_seq - seq)) == 0)
        then (w, false)
        else (record w { bitmap = bit_or w.bitmap (2 ^ (w.max_seq - seq)) }, true))
unfolding nat_eq is_fresh
within-Refines w h seq r positive old near = rw (mask_clear w.bitmap (w.max_seq - seq)) (
    rw (marked_bit w h seq r positive old near) (elim (Bool-cases (contains seq h)) [
      | inl seen ↦ rw seen (refused w h seq r (ground (arith, seen)))
      | inr unseen ↦ rw unseen (
          accepted w (record w { bitmap = bit_or w.bitmap (2 ^ (w.max_seq - seq)) }) h seq
            (mark-Represents w h seq old positive r) (ground (arith, unseen, r.greatest)))
    ]))

-- A number is accepted exactly when it is good for the whole history, and then it is remembered: no
-- number is accepted twice, and none is refused that is new and within the window.
pub check-Refines :
    (w : ReplayWindow) (h : List ℕ) (seq : ℕ) → Represents w h → Refines w h seq (check w seq)
unfolding check nat_eq is_fresh
check-Refines w h seq r = elim (Bool-cases (seq == 0)) [
  | inl none_yet ↦ rw none_yet (refused w h seq r (ground (arith, none_yet)))
  | inr positive ↦ rw positive (elim (Bool-cases (ltb w.max_seq seq)) [
    | inl later ↦ rw later (
        accepted w (advance w seq) h seq (advance-Represents w h seq (ground (arith, later)) r)
          (ground (arith, r.greatest, later, positive, contains-latest h seq)))
    | inr old ↦ rw old (elim (Bool-cases (leb window_size (w.max_seq - seq))) [
      | inl far ↦ rw far (refused w h seq r (ground (arith, r.greatest, far)))
      | inr near ↦ rw near (
          within-Refines w h seq r (ground (arith, positive)) (ground (arith, old))
            (ground (arith, near)))
    ])
  ])
]
