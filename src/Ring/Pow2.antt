-- ===== src/Ring/Pow2.antt =====
-- `ring_pow2` of src/shl_ring.c: the next power of two.
use Prim.Native.Nat.{bit_or}
use mathlib.Core.Path.{subst}
use native.Mathlib.Nat.{
  div-eq_of_lt, div-div-eq-div-mul, div-add-mod, mod-lt, mul-add-div_right, div-one,
}
use openwfd.Common.{
  ℕ, zero, suc, ◌+◌, ◌-◌, ◌*◌, ◌/◌, ◌%◌, ◌^◌, ◌≤◌, ◌<◌, ◌≡◌, refl, sym, ap, ◌∙◌, ◌≢◌, ◌⊎◌, inl, inr,
  arith, ltb, ◌==◌, Bool-cases, ltb→lt, ltb→ge, lt→ltb,
}
use openwfd.Common.Bits.{
  pow_double, pow_pos, pow_mono, pow_add, bit_or-zero, bit_or-shift, bit_or-ones,
}
use openwfd.Ring.{pow2_loop, pow2}

-- A number whose high part is known.
split_at : (n h v : ℕ) → v / 2 ^ n ≡ h → v ≡ h * 2 ^ n + v % 2 ^ n
split_at n h v e = omega (arith, div-add-mod v (2 ^ n), ap (λ t. 2 ^ n * t) e)

ones_product : (a b : ℕ) → 1 ≤ a → 1 ≤ b → (a - 1) * b + (b - 1) ≡ a * b - 1
ones_product zero b p q = absurd (omega arith)
ones_product (suc a) b p q = let e : suc a - 1 ≡ a = omega arith in rw e (omega arith)

-- Ones shifted to the right are ones.
ones-shift : (n d : ℕ) → (2 ^ (n + d) - 1) / 2 ^ d ≡ 2 ^ n - 1
ones-shift n d =
    let e : 2 ^ (n + d) - 1 ≡ (2 ^ n - 1) * 2 ^ d + (2 ^ d - 1) =
      omega (arith, pow_add n d, ones_product (2 ^ n) (2 ^ d) (pow_pos n) (pow_pos d)) in
    rw (e, mul-add-div_right (pow_pos d) (2 ^ n - 1) (2 ^ d - 1))
      (omega (arith, div-eq_of_lt {n = 2 ^ d - 1} {m = 2 ^ d} (omega (arith, pow_pos d))))

double_ones : (a b : ℕ) → (2 ^ a - 1) * 2 ^ b + (2 ^ b - 1) ≡ 2 ^ (a + b) - 1
double_ones a b = omega (arith, pow_add a b, ones_product (2 ^ a) (2 ^ b) (pow_pos a) (pow_pos b))

shift-shift : (v a b : ℕ) → v / 2 ^ a / 2 ^ b ≡ v / 2 ^ (a + b)
shift-shift v a b = rw (div-div-eq-div-mul, pow_add a b)

-- One round at a shift by `s`, the number of ones at the top, with `n + s` bits below them.
round_more :
    (n s v : ℕ) → v / 2 ^ (n + s) ≡ 2 ^ s - 1 → bit_or v (v / 2 ^ s) / 2 ^ n ≡ 2 ^ (s + s) - 1
round_more n s v e =
    let swap : s + n ≡ n + s = omega arith in
    rw
      (
        bit_or-shift n v (v / 2 ^ s),
        shift-shift v s n,
        swap,
        e,
        split_at s (2 ^ s - 1) (v / 2 ^ n) (shift-shift v n s ∙ e),
        bit_or-ones s (2 ^ s - 1) (v / 2 ^ n % 2 ^ s) (mod-lt (v / 2 ^ n) (pow_pos s)),
      )
      (double_ones s s)

-- The round that completes the ones.
round_last :
    (n d v : ℕ) → v / 2 ^ n ≡ 2 ^ (n + d) - 1 → bit_or v (v / 2 ^ (n + d)) ≡ 2 ^ (n + d + n) - 1
round_last n d v e =
    rw (← shift-shift v n d, e, ones-shift n d)
      (ap (λ t. bit_or t (2 ^ n - 1)) (split_at n (2 ^ (n + d) - 1) v e)
        ∙ bit_or-ones n (2 ^ (n + d) - 1) (v % 2 ^ n) (mod-lt v (pow_pos n))
        ∙ double_ones (n + d) n)

-- `v` has `m` bits, of which the top `s` are ones, or all if there are fewer.
Filled : ℕ → ℕ → ℕ → Type 0
Filled m s v = ((m ≤ s) × (v ≡ 2 ^ m - 1)) ⊎ ((n : ℕ) × (m ≡ n + s) × (v / 2 ^ n ≡ 2 ^ s - 1))

round_done : (m s v : ℕ) → m ≤ s → v ≡ 2 ^ m - 1 → bit_or v (v / 2 ^ s) ≡ v
round_done m s v h e =
    let small : v / 2 ^ s ≡ 0 = div-eq_of_lt (omega (arith, pow_pos m, pow_mono m s h)) in
    rw small (bit_or-zero v)

round-Filled : (m s v : ℕ) → Filled m s v → Filled m (s + s) (bit_or v (v / 2 ^ s))
unfolding Filled
round-Filled m s v (inl (h, e)) = inl (omega arith, round_done m s v h e ∙ e)
round-Filled m s v (inr (n, e, o)) = elim (Bool-cases (ltb n s)) [
  | inl less ↦
      let d : ℕ = s - n in
      let split : s ≡ n + d = omega (arith, ltb→lt n s less) in
      inl (
        omega (arith, ltb→lt n s less),
        ap (λ t. bit_or v (v / 2 ^ t)) split
            ∙ round_last n d v (o ∙ ap (λ t. 2 ^ t - 1) split)
            ∙ ap (λ t. 2 ^ t - 1) (omega arith),
      )
  | inr more ↦
      let split : n ≡ n - s + s = omega (arith, ltb→ge n s more) in
      inr (
        n - s,
        omega (arith, ltb→ge n s more),
        round_more (n - s) s v (ap (λ t. v / 2 ^ t) (sym split) ∙ o),
      )
]

-- The highest bit.
top_bit : (f v : ℕ) → 1 ≤ v → v ≤ f → (n : ℕ) × (v / 2 ^ n ≡ 1)
top_bit zero v p q = absurd (omega arith)
top_bit (suc f) v p q = elim (Bool-cases (v == 1)) [
  | inl one ↦ (0, rw div-one (ground arith))
  | inr more ↦
      let (n, e) = top_bit f (v / 2) (ground arith) (omega arith) in
      (suc n, rw (pow_double n, ← div-div-eq-div-mul) e)
]

le-mul_pos : (s p : ℕ) → 1 ≤ p → s ≤ s * p
le-mul_pos s zero h = absurd (omega arith)
le-mul_pos s (suc p) h = omega arith

loop_step :
    (f i v : ℕ) → i < 64 → pow2_loop (suc f) i v ≡ pow2_loop f (i + i) (bit_or v (v / 2 ^ i))
unfolding pow2_loop
loop_step f i v h =
    rw (lt→ltb i 64 h) (ap (λ t. pow2_loop f t (bit_or v (v / 2 ^ i))) (omega arith))

-- From a shift by `s` on, the loop reaches 64 in `k` rounds, and one test more ends it.
loop-Filled : (k m s v : ℕ) → s * 2 ^ k ≡ 64 → Filled m s v → Filled m 64 (pow2_loop (suc k) s v)
loop-Filled zero m s v e h =
    let e' : s ≡ 64 = omega arith in
    subst (λ t. Filled m t (pow2_loop 1 s v)) e' (rw e' (unfold pow2_loop in rw e' at h))
loop-Filled (suc k) m s v e h =
    rw
      (loop_step (suc k) s v
        (omega (arith, ap (λ t. s * t) (pow_double k), le-mul_pos s (2 ^ k) (pow_pos k))))
      (loop-Filled k m (s + s) (bit_or v (v / 2 ^ s))
        (omega (arith, ap (λ t. s * t) (pow_double k))) (round-Filled m s v h))

-- After six rounds every bit below the highest one is set.
loop_lem : (v n : ℕ) → v / 2 ^ n ≡ 1 → n ≤ 63 → pow2_loop 7 1 v ≡ 2 ^ (n + 1) - 1
unfolding Filled
loop_lem v n e h = elim (loop-Filled 6 (n + 1) 1 v refl (inr (n, refl, e))) [
  | inl (_, all) ↦ all
  | inr (k, split, all) ↦
      let k-zero : k ≡ 0 = omega arith in
      let full : n + 1 ≡ 64 = omega arith in
      rw full (sym (div-one _) ∙ ap (λ t. pow2_loop 7 1 v / 2 ^ t) (sym k-zero) ∙ all)
]

-- Where the highest bit of `v - 1` stands, for `2 ≤ v`.
below_top : (v n : ℕ) → v / 2 ^ n ≡ 1 → (2 ^ n ≤ v) × (v < 2 * 2 ^ n)
below_top v n e = omega (arith, split_at n 1 v e, mod-lt v (pow_pos n))

top_lt : (v n k : ℕ) → v / 2 ^ n ≡ 1 → v < 2 ^ k → n < k
top_lt v n k e h = elim (Bool-cases (ltb n k)) [
  | inl less ↦ ltb→lt n k less
  | inr more ↦ absurd (omega (arith, below_top v n e, pow_mono k n (ltb→ge n k more)))
]

top_ge : (v n k : ℕ) → v / 2 ^ n ≡ 1 → 2 ^ k ≤ v → k ≤ n
top_ge v n k e h = elim (Bool-cases (ltb n k)) [
  | inl less ↦
      absurd (omega (arith, below_top v n e, pow_double n, pow_mono (suc n) k (ltb→lt n k less)))
  | inr more ↦ ltb→ge n k more
]

pow_next : (n : ℕ) → 2 ^ (n + 1) ≡ 2 * 2 ^ n
pow_next n = let e : n + 1 ≡ suc n = omega arith in rw e (pow_double n)

pow2_via_top : (v n : ℕ) → (v - 1) / 2 ^ n ≡ 1 → v ≢ 0 → n ≤ 63 → pow2 v ≡ 2 ^ (n + 1) % 2 ^ 64
unfolding pow2
pow2_via_top v n e nz h = ground (arith, loop_lem (v - 1) n e h, pow_pos (n + 1))

-- For every size from 1 to 2 ^ 63, `ring_pow2` returns a power of two that is not below it and below
-- its double.
pub pow2_lem :
    (v : ℕ)
    → 1 ≤ v
    → v ≤ 2 ^ 63
    → (k : ℕ) × (k ≤ 63) × (pow2 v ≡ 2 ^ k) × (v ≤ 2 ^ k) × (2 ^ k < v + v)
pow2_lem v p q = elim (Bool-cases (v == 1)) [
  | inl one ↦
      let e : v ≡ 1 = ground arith in
      (0, omega arith, rw e (unfold pow2 in refl), omega arith, omega arith)
  | inr more ↦
      let (n, e) = top_bit (v - 1) (v - 1) (ground arith) (omega arith) in
      let h : n < 63 = top_lt (v - 1) n 63 e (omega arith) in
      let small : 2 ^ (n + 1) ≤ 2 ^ 63 = pow_mono (n + 1) 63 (omega arith) in
      let next : 2 ^ (n + 1) ≡ 2 * 2 ^ n = pow_next n in
      (
        n + 1,
        omega arith,
        omega (arith, pow2_via_top v n e (omega arith) (omega arith)),
        omega (arith, below_top (v - 1) n e),
        omega (arith, below_top (v - 1) n e),
      )
]

-- A larger size wraps to 0, which `ring_grow` takes for a failure.
pub pow2_overflow : (v : ℕ) → 2 ^ 63 < v → v < 2 ^ 64 → pow2 v ≡ 0
pow2_overflow v p q =
    let (n, e) = top_bit (v - 1) (v - 1) (omega arith) (omega arith) in
    let h : n < 64 = top_lt (v - 1) n 64 e (omega arith) in
    let full : n ≡ 63 =
      omega (arith, below_top (v - 1) n e, pow_next n, top_ge (v - 1) n 63 e (omega arith)) in
    pow2_via_top v n e (omega arith) (omega arith) ∙ ap (λ t. 2 ^ (t + 1) % 2 ^ 64) full
