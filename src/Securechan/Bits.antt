-- ===== src/Securechan/Bits.antt =====
-- Bits of a machine word: what or, and, xor and shifts do to each of them.
use mmw_agent.Base.{
  ℕ, zero, suc, ◌+◌, ◌-◌, ◌*◌, ◌/◌, ◌%◌, ◌^◌, ◌≤◌, ◌<◌, ◌≡◌, refl, sym, ap, ◌∙◌, arith, text_eq,
  nat_eq, ◌==◌, ltb, if◌then◌else◌,
}
use Prim.Native.Nat.{min, max, bit_and, bit_or, digits, bitwise, bit_and-bitwise, bit_or-bitwise}
use native.Mathlib.Nat.{div-add-mod, mod-eq_of_lt, add-mul-mod_self_left, mod-lt, pow-suc}

-- Bit number d of n.
unfoldable pub bit : ℕ → ℕ → ℕ
bit n zero = n % 2
bit n (suc d) = bit (n / 2) d

pub zero-bit : (d : ℕ) → bit 0 d ≡ 0
unfolding bit
zero-bit zero = refl
zero-bit (suc d) = zero-bit d

pub bit-le-one : (n d : ℕ) → bit n d ≤ 1
unfolding bit
bit-le-one n zero = omega arith
bit-le-one n (suc d) = bit-le-one (n / 2) d

shl_suc : (s n : ℕ) → n * 2 ^ suc s ≡ n * 2 ^ s * 2
shl_suc s n = rw (pow-suc 2 s) (omega arith)

half_double : (m : ℕ) → m * 2 / 2 ≡ m
half_double m = omega arith

mod_one : (n : ℕ) → n % 1 ≡ 0
mod_one n = omega arith

-- The quotient and the rest of a number that is given as such.
pub mod_unique : (p q r : ℕ) → r < p → (p * q + r) % p ≡ r
mod_unique p q r h = ap (λ m. m % p) (omega arith) ∙ add-mul-mod_self_left r p q ∙ mod-eq_of_lt h

-- The low w + 1 bits of n are its lowest bit and the low w bits of the rest.
mod_double : (p n : ℕ) → 0 < p → (n % (p * 2) % 2 ≡ n % 2) × (n % (p * 2) / 2 ≡ n / 2 % p)
mod_double p n positive =
    let q = n / (p * 2) in
    let r = n % (p * 2) in
    let whole : p * 2 * q + r ≡ n = div-add-mod n (p * 2) in
    let small : r < p * 2 = mod-lt n (omega arith) in
    let split : n / 2 ≡ p * q + r / 2 = omega (arith, whole) in
    (
      omega (arith, whole),
      sym (ap (λ m. m % p) split ∙ mod_unique p q (r / 2) (omega (arith, small))),
    )

pub pow-pos : (w : ℕ) → 0 < 2 ^ w
pow-pos zero = omega arith
pow-pos (suc w) = omega (arith, pow-pos w, pow-suc 2 w)

mod_fields : (w n : ℕ) → (n % 2 ^ suc w % 2 ≡ n % 2) × (n % 2 ^ suc w / 2 ≡ n / 2 % 2 ^ w)
mod_fields w n = rw (pow-suc 2 w) (mod_double (2 ^ w) n (pow-pos w))

-- Doubling moves each bit up by one.
pub bit-shl : (s n d : ℕ) → bit (n * 2 ^ s) d ≡ (if ltb d s then 0 else bit n (d - s))
unfolding bit
bit-shl zero n d = ground arith
bit-shl (suc s) n zero = ground (arith, shl_suc s n)
bit-shl (suc s) n (suc d) =
    rw (ap (λ m. m / 2) (shl_suc s n))
      (rw (half_double (n * 2 ^ s)) (ground (arith, bit-shl s n d)))

pub bit-mod : (w n d : ℕ) → bit (n % 2 ^ w) d ≡ (if ltb d w then bit n d else 0)
unfolding bit
bit-mod zero n d = ground (arith, ap (λ m. bit m d) (mod_one n), zero-bit d)
bit-mod (suc w) n zero = ground (arith, mod_fields w n)
bit-mod (suc w) n (suc d) = rw ((mod_fields w n).1) (ground (arith, bit-mod w (n / 2) d))

-- The operations go digit by digit; here the fuel of their definition is dropped.
module _ (z : ℕ → ℕ) (f : ℕ → ℕ → ℕ) where
  digits-fuel : (n m a b : ℕ) → a ≤ n → a ≤ m → digits z f n a b ≡ digits z f m a b
  digits-fuel zero zero a b p q = refl
  digits-fuel zero (suc m) zero b p q = refl
  digits-fuel zero (suc m) (suc a) b p q = absurd (omega arith)
  digits-fuel (suc n) zero zero b p q = refl
  digits-fuel (suc n) zero (suc a) b p q = absurd (omega arith)
  digits-fuel (suc n) (suc m) zero b p q = refl
  digits-fuel (suc n) (suc m) (suc a) b p q =
      omega (arith, digits-fuel n m (suc a / 2) (b / 2) (omega arith) (omega arith))

  digits-suc :
      (a b : ℕ)
      → bitwise z f (suc a) b ≡ bitwise z f (suc a / 2) (b / 2) * 2 + f (suc a % 2) (b % 2)
  digits-suc a b =
      omega (arith, digits-fuel a (suc a / 2) (suc a / 2) (b / 2) (omega arith) (omega arith))

bit_or-fields : (a b : ℕ) → bit_or a b ≡ bit_or (a / 2) (b / 2) * 2 + max (a % 2) (b % 2)
bit_or-fields zero b = simp bit_or-bitwise (omega arith)
bit_or-fields (suc a) b = simp bit_or-bitwise (digits-suc (λ y. y) max a b)

bit_and-fields : (a b : ℕ) → bit_and a b ≡ bit_and (a / 2) (b / 2) * 2 + min (a % 2) (b % 2)
bit_and-fields zero b = simp bit_and-bitwise (omega arith)
bit_and-fields (suc a) b = simp bit_and-bitwise (digits-suc (λ y. 0) min a b)

bit_and-zero_fuel : (n a : ℕ) → a ≤ n → bit_and a 0 ≡ 0
bit_and-zero_fuel n zero h = simp bit_and-bitwise refl
bit_and-zero_fuel zero (suc a) h = absurd (omega arith)
bit_and-zero_fuel (suc n) (suc a) h =
    omega (arith, bit_and-fields (suc a) 0, bit_and-zero_fuel n (suc a / 2) (omega arith))

bit_or-zero_fuel : (n a : ℕ) → a ≤ n → bit_or a 0 ≡ a
bit_or-zero_fuel n zero h = simp bit_or-bitwise refl
bit_or-zero_fuel zero (suc a) h = absurd (omega arith)
bit_or-zero_fuel (suc n) (suc a) h =
    omega (arith, bit_or-fields (suc a) 0, bit_or-zero_fuel n (suc a / 2) (omega arith))

bit_or-double : (n m : ℕ) → bit_or n (m * 2) ≡ bit_or (n / 2) m * 2 + n % 2
bit_or-double n m = bit_or-fields n (m * 2) ∙ rw (half_double m) (omega arith)

bit_and-double : (n m : ℕ) → bit_and n (m * 2) ≡ bit_and (n / 2) m * 2
bit_and-double n m = bit_and-fields n (m * 2) ∙ rw (half_double m) (omega arith)

bit_or-one : (n : ℕ) → bit_or n 1 ≡ n / 2 * 2 + 1
bit_or-one n = omega (arith, bit_or-fields n 1, bit_or-zero_fuel (n / 2) (n / 2) (omega arith))

-- A mask of one bit reads that bit.
pub bit_and-mask : (n d : ℕ) → bit_and n (2 ^ d) ≡ bit n d * 2 ^ d
unfolding bit
bit_and-mask n zero =
    omega (arith, bit_and-fields n 1, bit_and-zero_fuel (n / 2) (n / 2) (omega arith))
bit_and-mask n (suc d) =
    rw (pow-suc 2 d) (bit_and-double n (2 ^ d) ∙ rw (bit_and-mask (n / 2) d) (omega arith))

-- And it sets that bit and no other.
pub bit-bit_or : (n d k : ℕ) → bit (bit_or n (2 ^ d)) k ≡ (if k == d then 1 else bit n k)
unfolding bit nat_eq
bit-bit_or n zero zero = omega (arith, bit_or-one n)
bit-bit_or n zero (suc k) =
    let half : bit_or n 1 / 2 ≡ n / 2 = omega (arith, bit_or-one n) in rw half (ground arith)
bit-bit_or n (suc d) zero = rw (pow-suc 2 d) (ground (arith, bit_or-double n (2 ^ d)))
bit-bit_or n (suc d) (suc k) =
    let half : bit_or n (2 ^ d * 2) / 2 ≡ bit_or (n / 2) (2 ^ d) =
      omega (arith, bit_or-double n (2 ^ d)) in
    rw (pow-suc 2 d) (rw half (ground (arith, bit-bit_or (n / 2) d k)))
