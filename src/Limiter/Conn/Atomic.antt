-- ===== src/Limiter/Conn/Atomic.antt =====
-- AcquireConn and ReleaseConn of one quota group run by any number of goroutines: every atomic
-- access of the counter is a step, and steps of different calls interleave in any order.
use mmw_agent.Base.{
  ℕ, suc, ◌+◌, ◌≤◌, ◌<◌, ◌≡◌, refl, ap, Bool, true, false, ◌&&◌, List, [], ◌∷◌, ◌++◌, arith,
  text_eq, nat_eq, if◌then◌else◌, length, length-append,
}
use mmw_agent.Base.Int.{ℤ, pos, is_pos, is_neg, ltb_ℤ, add_one, sub_one}

-- One counter with the calls that are between two of its accesses.
pub record Shared : Type 0 where
  pub count : ℤ
  -- What `Add(1)` gave to the calls that have not yet compared it with the limit.
  pub pending : List ℤ
  -- Connections that were admitted and not yet released.
  pub held : ℕ
  -- Releases between `Add(-1) < 0` and `Store(0)`.
  pub clamping : ℕ

-- `connLimit > 0 && n > int64(connLimit)`
unfoldable pub exceeds : ℤ → ℤ → Bool
exceeds limit n = is_pos limit && ltb_ℤ limit n

pub data Step (limit : ℤ) (s : Shared) : Shared → Type 0 where
  add : Step limit s (record s { count = add_one s.count; pending = add_one s.count ∷ s.pending })
  admit :
      (xs : List ℤ) (n : ℤ) (ys : List ℤ)
      → s.pending ≡ xs ++ (n ∷ ys)
      → exceeds limit n ≡ false
      → Step limit s (record s { pending = xs ++ ys; held = suc s.held })
  refuse :
      (xs : List ℤ) (n : ℤ) (ys : List ℤ)
      → s.pending ≡ xs ++ (n ∷ ys)
      → exceeds limit n ≡ true
      → Step limit s (record s { pending = xs ++ ys; count = sub_one s.count })
  release :
      (h : ℕ)
      → s.held ≡ suc h
      → Step limit s (record s {
        held = h;
        count = sub_one s.count;
        clamping = if is_neg (sub_one s.count) then suc s.clamping else s.clamping;
      })
  clamp : (c : ℕ) → s.clamping ≡ suc c → Step limit s (record s { clamping = c; count = pos 0 })

pub data Reach (limit : ℤ) (s : Shared) : Shared → Type 0 where
  here : Reach limit s s
  next : {t u : Shared} → Reach limit s t → Step limit t u → Reach limit s u

abbrev pub start : Shared
start = record { count = pos 0; pending = []; held = 0; clamping = 0 }

-- How many pending calls will be admitted.
passing : ℤ → List ℤ → ℕ
passing limit [] = 0
passing limit (n ∷ ns) = (if exceeds limit n then 0 else 1) + passing limit ns

record Inv (d : ℕ) (s : Shared) : Type 0 where
  counted : s.count ≡ pos (s.held + length s.pending)
  within : s.held + passing (pos d) s.pending ≤ d
  steady : s.clamping ≡ 0

passing-append :
    (limit : ℤ) (xs ys : List ℤ) → passing limit (xs ++ ys) ≡ passing limit xs + passing limit ys
unfolding passing
passing-append limit [] ys = omega arith
passing-append limit (x ∷ xs) ys = omega (arith, passing-append limit xs ys)

passing-le-length : (limit : ℤ) (xs : List ℤ) → passing limit xs ≤ length xs
unfolding passing
passing-le-length limit [] = omega arith
passing-le-length limit (x ∷ xs) = ground (arith, passing-le-length limit xs)

-- The pending calls without one of them.
length-take_out :
    {ns : List ℤ} (xs : List ℤ) (n : ℤ) (ys : List ℤ)
    → ns ≡ xs ++ (n ∷ ys)
    → length ns ≡ suc (length (xs ++ ys))
length-take_out xs n ys e =
    omega (arith, ap length e, length-append xs (n ∷ ys), length-append xs ys)

passing-take_out :
    (limit : ℤ) {ns : List ℤ} (xs : List ℤ) (n : ℤ) (ys : List ℤ)
    → ns ≡ xs ++ (n ∷ ys)
    → passing limit ns ≡ (if exceeds limit n then 0 else 1) + passing limit (xs ++ ys)
unfolding passing
passing-take_out limit xs n ys e =
    omega
      (arith, ap (passing limit) e, passing-append limit xs (n ∷ ys), passing-append limit xs ys)

module _ (d : ℕ) (positive : 0 < d) where
  Step-Inv : {s t : Shared} → Step (pos d) s t → Inv d s → Inv d t
  unfolding passing exceeds
  Step-Inv {s} add v = record {
    counted = ground (arith, v.counted);
    within = ground (arith, v.counted, v.within, passing-le-length (pos d) s.pending);
    steady = v.steady;
  }
  Step-Inv {s} (admit xs n ys e p) v = record {
    counted = ground (arith, v.counted, length-take_out xs n ys e);
    within = ground (arith, v.within, passing-take_out (pos d) xs n ys e, p);
    steady = v.steady;
  }
  Step-Inv {s} (refuse xs n ys e p) v = record {
    counted = ground (arith, v.counted, length-take_out xs n ys e);
    within = ground (arith, v.within, passing-take_out (pos d) xs n ys e, p);
    steady = v.steady;
  }
  Step-Inv {s} (release h e) v = record {
    counted = ground (arith, v.counted, e);
    within = ground (arith, v.within, e);
    steady = ground (arith, v.steady, v.counted, e);
  }
  Step-Inv {s} (clamp c e) v = absurd (omega (arith, v.steady))

  Reach-Inv : {s t : Shared} → Inv d s → Reach (pos d) s t → Inv d t
  Reach-Inv v here = v
  Reach-Inv v (next r st) = Step-Inv st (Reach-Inv v r)

  start-Inv : Inv d start
  unfolding passing
  start-Inv = record { counted = refl; within = omega arith; steady = refl }

  -- However the calls interleave, no more than `d` connections are admitted at a time, the counter
  -- is the number of admitted connections and of calls under way, and so is never negative: the
  -- `Store(0)` of ReleaseConn is never reached.
  pub Reach-held-le-limit :
      {s : Shared}
      → Reach (pos d) start s
      → (s.held ≤ d) × (s.count ≡ pos (s.held + length s.pending)) × (s.clamping ≡ 0)
  Reach-held-le-limit r =
      let v = Reach-Inv start-Inv r in (omega (arith, v.within), v.counted, v.steady)
