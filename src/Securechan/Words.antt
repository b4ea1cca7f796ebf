-- ===== src/Securechan/Words.antt =====
-- Big-endian words of encoding/binary: PutUint64 and Uint64 of a slice of eight bytes.
use mmw_agent.Base.{
  ℕ, zero, suc, ◌+◌, ◌*◌, ◌/◌, ◌%◌, ◌^◌, ◌≤◌, ◌<◌, ◌≡◌, refl, sym, ap, ◌∙◌, List, [], ◌∷◌, ◌++◌,
  arith, text_eq, nat_eq, length, take, take-append,
}
use mmw_agent.Securechan.Bits.{mod_unique}
use native.Mathlib.Nat.{div-add-mod, mod-lt, pow-suc}

-- The low n bytes of v, the greatest first.
unfoldable pub put_be : ℕ → ℕ → List ℕ
put_be zero v = []
put_be (suc n) v = (v / 256 ^ n) % 256 ∷ put_be n v

unfoldable pub get_be : List ℕ → ℕ
get_be [] = 0
get_be (b ∷ bs) = b * 256 ^ length bs + get_be bs

unfoldable pub put_uint64 : ℕ → List ℕ
unfolding put_be
put_uint64 v = put_be 8 v

unfoldable pub uint64 : List ℕ → ℕ
unfolding get_be
uint64 bs = get_be (take 8 bs)

power_pos : (n : ℕ) → 0 < 256 ^ n
power_pos zero = omega arith
power_pos (suc n) = omega (arith, power_pos n, pow-suc 256 n)

times_le : (p a b : ℕ) → a ≤ b → p * a ≤ p * b
times_le zero a b h = omega arith
times_le (suc p) a b h = omega (arith, times_le p a b h)

-- The low n + 1 digits in base 256 are the digit n and the low n digits.
mod_digit : (p v : ℕ) → 0 < p → v % (p * 256) ≡ v / p % 256 * p + v % p
mod_digit p v positive =
    let q = v / p in
    let r = v % p in
    let digit = q % 256 in
    let whole : p * q + r ≡ v = div-add-mod v p in
    let digits : 256 * (q / 256) + digit ≡ q = div-add-mod q 256 in
    let small : r < p = mod-lt v positive in
    let bound : p * digit ≤ p * 255 = times_le p digit 255 (omega arith) in
    let spread : p * (256 * (q / 256) + digit) ≡ p * 256 * (q / 256) + p * digit = omega arith in
    let split : v ≡ p * 256 * (q / 256) + (p * digit + r) =
      sym whole ∙ ap (λ m. p * m + r) (sym digits) ∙ omega (arith, spread) in
    ap (λ m. m % (p * 256)) split
    ∙ mod_unique (p * 256) (q / 256) (p * digit + r) (omega (arith, bound, small))
    ∙ omega arith

length-put_be : (n v : ℕ) → length (put_be n v) ≡ n
unfolding put_be
length-put_be zero v = refl
length-put_be (suc n) v = omega (arith, length-put_be n v)

pub length-put_uint64 : (v : ℕ) → length (put_uint64 v) ≡ 8
unfolding put_uint64
length-put_uint64 v = length-put_be 8 v

get_be-put_be : (n v : ℕ) → get_be (put_be n v) ≡ v % 256 ^ n
unfolding get_be put_be
get_be-put_be zero v = omega arith
get_be-put_be (suc n) v =
    rw (length-put_be n v)
      (rw (get_be-put_be n v) (rw (pow-suc 256 n) (sym (mod_digit (256 ^ n) v (power_pos n)))))

-- Reading back a word that stands before other bytes.
pub uint64-put_uint64 : (v : ℕ) (rest : List ℕ) → v < 2 ^ 64 → uint64 (put_uint64 v ++ rest) ≡ v
unfolding uint64 put_uint64
uint64-put_uint64 v rest small =
    ap get_be (take-append 8 (put_be 8 v) rest (length-put_be 8 v))
    ∙ get_be-put_be 8 v
    ∙ omega (arith, small)
