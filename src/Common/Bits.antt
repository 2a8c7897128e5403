-- ===== src/Common/Bits.antt =====
-- Laws of `bit_and` and `bit_or` at variables, for masks and for shifts.
use Prim.Native.Nat.{
  ℕ, zero, suc, ◌+◌, ◌-◌, ◌*◌, ◌/◌, ◌%◌, ◌^◌, ◌≤◌, ◌<◌, min, max, bit_and, bit_or, digits,
  bit_and-bitwise, bit_or-bitwise,
}
use mathlib.Core.Path.{◌≡◌, refl, ap}
use native.Mathlib.Nat.{
  pow-suc, one-le-pow, div-div-eq-div-mul, div-add-mod, div-one, pow-le-pow_right,
}
use native.Mathlib.Omega.{arith}

pub pow_double : (k : ℕ) → 2 ^ suc k ≡ 2 * 2 ^ k
pow_double k = omega (arith, pow-suc 2 k)

pub pow_pos : (k : ℕ) → 1 ≤ 2 ^ k
pow_pos k = one-le-pow k 2 (omega arith)

pub pow_mono : (a b : ℕ) → a ≤ b → 2 ^ a ≤ 2 ^ b
pow_mono a b h = pow-le-pow_right {n = 2} (omega arith) h

pub pow_add : (a b : ℕ) → 2 ^ (a + b) ≡ 2 ^ a * 2 ^ b
pow_add a zero = let e : a + 0 ≡ a = omega arith in rw e (omega arith)
pow_add a (suc b) =
    let e : a + suc b ≡ suc (a + b) = omega arith in
    rw e (grind (arith, pow_double (a + b), pow_double b, pow_add a b))

-- The digit recursion does not look at fuel that is left over.
spare_fuel :
    (base : ℕ → ℕ) (op : ℕ → ℕ → ℕ) (x y i j : ℕ)
    → x ≤ i × x ≤ j
    → digits base op i x y ≡ digits base op j x y
spare_fuel base op zero y zero zero h = refl
spare_fuel base op zero y zero (suc j) h = refl
spare_fuel base op zero y (suc i) zero h = refl
spare_fuel base op zero y (suc i) (suc j) h = refl
spare_fuel base op (suc x) y zero j (h, h') = absurd (omega arith)
spare_fuel base op (suc x) y (suc i) zero (h, h') = absurd (omega arith)
spare_fuel base op (suc x) y (suc i) (suc j) (h, h') =
    let half : suc x / 2 ≤ i × suc x / 2 ≤ j = (omega arith, omega arith) in
    rw (spare_fuel base op (suc x / 2) (y / 2) i j half)

halved : (x : ℕ) → suc x / 2 ≤ x × suc x / 2 ≤ suc x / 2
halved x = (omega arith, omega arith)

pub bit_and-none : (y : ℕ) → bit_and 0 y ≡ 0
bit_and-none = bit_and-bitwise 0

bit_or-none : (y : ℕ) → bit_or 0 y ≡ y
bit_or-none = bit_or-bitwise 0

-- The laws for the lowest digit.
pub bit_and_low : (x y : ℕ) → bit_and x y ≡ min (x % 2) (y % 2) + 2 * bit_and (x / 2) (y / 2)
bit_and_low zero y = rw (bit_and-none y, bit_and-none (y / 2)) (omega arith)
bit_and_low (suc x) y =
    let e = spare_fuel (λ z. 0) min (suc x / 2) (y / 2) x (suc x / 2) (halved x) in
    omega (arith, e, bit_and-bitwise (suc x) y, bit_and-bitwise (suc x / 2) (y / 2))

pub bit_or_low : (x y : ℕ) → bit_or x y ≡ max (x % 2) (y % 2) + 2 * bit_or (x / 2) (y / 2)
bit_or_low zero y = rw (bit_or-none y, bit_or-none (y / 2)) (omega arith)
bit_or_low (suc x) y =
    let e = spare_fuel (λ z. z) max (suc x / 2) (y / 2) x (suc x / 2) (halved x) in
    omega (arith, e, bit_or-bitwise (suc x) y, bit_or-bitwise (suc x / 2) (y / 2))

-- Zero on the right, for numbers up to a bound.
zero_laws : (bound x : ℕ) → x ≤ bound → bit_and x 0 ≡ 0 × bit_or x 0 ≡ x
zero_laws bound zero h = (bit_and-none 0, bit_or-none 0)
zero_laws zero (suc x) h = absurd (omega arith)
zero_laws (suc bound) (suc x) h =
    let (p, q) = zero_laws bound (suc x / 2) (omega arith) in
    (omega (arith, p, bit_and_low (suc x) 0), omega (arith, q, bit_or_low (suc x) 0))

bit_and-zero : (x : ℕ) → bit_and x 0 ≡ 0
bit_and-zero x = (zero_laws x x (omega arith)).0

pub bit_or-zero : (x : ℕ) → bit_or x 0 ≡ x
bit_or-zero x = (zero_laws x x (omega arith)).1

mod_double : (p a : ℕ) → min (a % 2) 1 + 2 * (a / 2 % p) ≡ a % (2 * p)
mod_double p a = omega (
  arith,
  div-add-mod (a / 2) p,
  div-add-mod a (2 * p),
  ap (λ t. p * t) (div-div-eq-div-mul a 2 p),
)

-- A mask of the low `k` bits is a remainder.
pub bit_and-mask : (k a : ℕ) → bit_and a (2 ^ k - 1) ≡ a % 2 ^ k
bit_and-mask zero a = omega (arith, bit_and-zero a)
bit_and-mask (suc k) a =
    let half : (2 ^ suc k - 1) / 2 ≡ 2 ^ k - 1 = omega (arith, pow_double k, pow_pos k) in
    let odd : (2 ^ suc k - 1) % 2 ≡ 1 = omega (arith, pow_double k, pow_pos k) in
    rw (bit_and_low, half, odd, bit_and-mask k (a / 2), pow_double k) (mod_double (2 ^ k) a)

bit_or-half : (a b : ℕ) → bit_or a b / 2 ≡ bit_or (a / 2) (b / 2)
bit_or-half a b = omega (arith, bit_or_low a b)

-- A shift to the right distributes over `|`.
pub bit_or-shift : (m a b : ℕ) → bit_or a b / 2 ^ m ≡ bit_or (a / 2 ^ m) (b / 2 ^ m)
bit_or-shift zero a b = rw (div-one, div-one, div-one)
bit_or-shift (suc m) a b =
    rw (pow_double m, ← div-div-eq-div-mul, ← div-div-eq-div-mul, ← div-div-eq-div-mul, bit_or-half)
      (bit_or-shift m (a / 2) (b / 2))

-- Filling the low `i` bits with ones.
pub bit_or-ones :
    (i h r : ℕ) → r < 2 ^ i → bit_or (h * 2 ^ i + r) (2 ^ i - 1) ≡ h * 2 ^ i + (2 ^ i - 1)
bit_or-ones zero h r p = rw bit_or-zero (omega arith)
bit_or-ones (suc i) h r p =
    let half : (2 ^ suc i - 1) / 2 ≡ 2 ^ i - 1 = omega (arith, pow_double i, pow_pos i) in
    let odd : (2 ^ suc i - 1) % 2 ≡ 1 = omega (arith, pow_double i, pow_pos i) in
    let e : (h * 2 ^ suc i + r) / 2 ≡ h * 2 ^ i + r / 2 =
      omega (arith, ap (λ t. h * t) (pow_double i)) in
    rw (bit_or_low, half, odd, e, bit_or-ones i h (r / 2) (omega (arith, pow_double i)))
      (omega (arith, ap (λ t. h * t) (pow_double i), pow_double i, pow_pos i))
