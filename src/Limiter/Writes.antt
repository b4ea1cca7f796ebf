-- ===== src/Limiter/Writes.antt =====
-- The write loops of internal/limiter/rate.go and conn.go: how many tokens they wait for, and what
-- they hand to the connection below, which is a parameter.
mod Tests
use mmw_agent.Base.{
  ℕ, zero, suc, ◌+◌, ◌-◌, ◌*◌, ◌/◌, ◌%◌, ◌^◌, ◌≤◌, ◌<◌, ◌≡◌, refl, sym, ap, ◌∙◌, ◌≢◌, ◌↔◌, ◌⊎◌, inl,
  inr, ite, Bool, true, false, not, ◌&&◌, ◌||◌, Option, none, some, List, [], ◌∷◌, ◌++◌, map, arith,
  Text, text, text_eq, nat_eq, ◌==◌, ltb, leb, if◌then◌else◌, ltb→lt, lt→ltb, le→ltb, Bool-cases,
  Option-cases, length, take, drop, All, length-append, length-drop, take-append, drop-append,
  length-take, take-drop, drop-length-take, Eq, contains,
}
use mmw_agent.Base.Int.{ℤ, pos, negsuc, is_pos, is_neg, ltb_ℤ, add_one, sub_one, to_ℕ}
use mmw_agent.Base.Dict.{
  Dict, lookup, insert, erase, lookup-cons, lookup-insert, lookup-erase, keys, is_some,
  contains-keys,
}

-- The WaitN calls of WriteMultiBuffer and of waitN, in order; the fuel bounds the loop.
unfoldable pub wait_chunks : ℕ → ℕ → ℕ → Option (List ℕ)
unfolding nat_eq
wait_chunks zero n burst = if n == 0 then some [] else none
wait_chunks (suc fuel) n burst =
    let part = if ltb burst n then burst else n in
    let rest = wait_chunks fuel (n - part) burst in
    if n == 0 then some [] else elim rest [ none ↦ none | some parts ↦ some (part ∷ parts) ]

unfoldable pub sum : List ℕ → ℕ
sum [] = 0
sum (x ∷ xs) = x + sum xs

wait_chunks-total :
    (fuel n burst : ℕ)
    → 0 < burst
    → n ≤ fuel
    → (parts : List ℕ) × (wait_chunks fuel n burst ≡ some parts)
      × (sum parts ≡ n)
      × All (λ m. (0 < m) × (m ≤ burst)) parts
unfolding wait_chunks nat_eq sum
wait_chunks-total zero n burst positive h = ([], ground (arith, h), ground (arith, h), tt)
wait_chunks-total (suc fuel) zero burst positive h = ([], ground arith, refl, tt)
wait_chunks-total (suc fuel) (suc n) burst positive h =
    let part = if ltb burst (suc n) then burst else suc n in
    let small : (0 < part) × (part ≤ suc n) × (part ≤ burst) = ground (arith, positive) in
    let (parts, runs, total, bounded) =
      wait_chunks-total fuel (suc n - part) burst positive (omega (arith, small.0, h)) in
    (
      part ∷ parts,
      rw runs (ground arith),
      omega (arith, total, small.1),
      ((small.0, small.2), bounded),
    )

-- Every loop ends, and asks for n tokens in all, never for more than a burst at once, which WaitN
-- would refuse.
pub wait_chunks_bounds :
    (n burst : ℕ)
    → 0 < burst
    → (parts : List ℕ) × (wait_chunks n n burst ≡ some parts)
      × (sum parts ≡ n)
      × All (λ m. (0 < m) × (m ≤ burst)) parts
wait_chunks_bounds n burst positive = wait_chunks-total n n burst positive (omega arith)

unfoldable pub concat {ℓ} : {A : Type ℓ} → List (List A) → List A
concat [] = []
concat (x ∷ xs) = x ++ concat xs

-- The result of Write, with what it handed to the connection below.
pub record Written {ℓ} (W : Type ℓ) : Type ℓ where
  pub state : W
  pub written : ℕ
  pub failed : Bool
  pub pieces : List (List ℕ)

unfoldable pub one_more {ℓ} : {W : Type ℓ} → ℕ → List ℕ → Option (Written W) → Option (Written W)
one_more n piece none = none
one_more n piece (some r) = some (record r { written = n + r.written; pieces = piece ∷ r.pieces })

-- The connection below: bytes to the new state, the number of bytes written and whether it failed.
module _ {ℓ} {W : Type ℓ} (base_write : W → List ℕ → W × ℕ × Bool) where
  -- The loop of Write of a RateLimitedConn with a limiter, on the bytes that are left; the fuel bounds
  -- it. Each piece waits by waitN first (wait_chunks), which changes nothing here.
  unfoldable pub write_pieces : ℕ → ℕ → W → List ℕ → Option (Written W)
  unfolding one_more
  write_pieces fuel burst w [] =
      some (record { state = w; written = 0; failed = false; pieces = [] })
  write_pieces zero burst w (x ∷ p) = none
  write_pieces (suc fuel) burst w (x ∷ p) =
      let piece = take burst (x ∷ p) in
      let (w', n, err) = base_write w piece in
      let rest = write_pieces fuel burst w' (drop n (x ∷ p)) in
      if err
      then some (record { state = w'; written = n; failed = true; pieces = piece ∷ [] })
      else one_more n piece rest

  -- io.Writer: at most what is given is written, and all of it unless there is an error.
  module _ (within : (w : W) (p : List ℕ) → (base_write w p).1 ≤ length p)
      (whole : (w : W) (p : List ℕ)
        → (base_write w p).2 ≡ false
        → (base_write w p).1 ≡ length p) where
    write_pieces-total :
        (fuel burst : ℕ) (w : W) (p : List ℕ)
        → 0 < burst
        → length p ≤ fuel
        → (r : Written W) × (write_pieces fuel burst w p ≡ some r)
          × (r.written ≤ length p)
          × (r.failed ≡ false → (r.written ≡ length p) × (concat r.pieces ≡ p))
          × All (λ piece. length piece ≤ burst) r.pieces
    unfolding write_pieces one_more concat
    write_pieces-total fuel burst w [] positive h = (
      record { state = w; written = 0; failed = false; pieces = [] },
      refl,
      omega arith,
      λ _. (refl, refl),
      tt,
    )
    write_pieces-total zero burst w (x ∷ p) positive h = absurd (omega (arith, h))
    write_pieces-total (suc fuel) burst w (x ∷ p) positive h =
        let piece = take burst (x ∷ p) in
        let w' = (base_write w piece).0 in
        let n = (base_write w piece).1 in
        let fits = within w piece in
        let size = length-take burst (x ∷ p) in
        elim (Bool-cases (base_write w piece).2) [
          | inl error ↦ rw error (
            record { state = w'; written = n; failed = true; pieces = piece ∷ [] },
            refl,
            ground (arith, fits, size),
            (λ never. ground (arith, never)),
            (ground (arith, size), tt),
          )
          | inr fine ↦
              let all = whole w piece fine in
              let (r, runs, most, good, bounded) =
                write_pieces-total fuel burst w' (drop n (x ∷ p)) positive
                  (ground (arith, length-drop n (x ∷ p), all, size, positive, h)) in
              rw fine (
                rw runs (
                  record r { written = n + r.written; pieces = piece ∷ r.pieces },
                  refl,
                  omega (arith, most, all, fits, length-drop n (x ∷ p), size),
                  (λ ok. (
                    omega (arith, (good ok).0, all, length-drop n (x ∷ p), size),
                    ap (λ ys. piece ++ ys)
                          ((good ok).1
                            ∙ ap (λ m. drop m (x ∷ p)) all
                            ∙ drop-length-take burst (x ∷ p))
                        ∙ take-drop burst (x ∷ p),
                  )),
                  (ground (arith, size), bounded),
                ))
        ]

    -- A Write ends, with at most all bytes written, and without an error all of them were handed on in
    -- order, in pieces of at most a burst.
    pub write_pieces_whole :
        (burst : ℕ) (w : W) (p : List ℕ)
        → 0 < burst
        → (r : Written W) × (write_pieces (length p) burst w p ≡ some r)
          × (r.written ≤ length p)
          × (r.failed ≡ false → (r.written ≡ length p) × (concat r.pieces ≡ p))
          × All (λ piece. length piece ≤ burst) r.pieces
    write_pieces_whole burst w p positive =
        write_pieces-total (length p) burst w p positive (omega arith)
