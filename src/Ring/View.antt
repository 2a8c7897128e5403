-- ===== src/Ring/View.antt =====
-- The abstract view of a ring of src/shl_ring.c: the bytes that it holds, oldest first; and when
-- a ring is well formed.
use native.Mathlib.Nat.{mod-eq_of_lt, mod_self}
use openwfd.Common.{
  ℕ, ◌+◌, ◌-◌, ◌%◌, ◌^◌, ◌≤◌, ◌<◌, ◌≡◌, refl, sym, ap, ◌∙◌, ◌⊎◌, inl, inr, [], arith, ltb, ◌==◌,
  if◌then◌else◌, Bool-cases, ==_iff, ==_refl,
}
use openwfd.Common
use openwfd.Common.Bits.{pow_mono, pow_pos, bit_and-mask, bit_and-none}
use openwfd.Common.Table.{table, length-table}
use openwfd.Common.Memory.{sub_size, Bytes}
use openwfd.Ring.{Ring, mask, length, zeroed}

-- The index of the `i`-th byte.
abbrev pub place : Ring → ℕ → ℕ
place r i = if ltb (r.start + i) r.size then r.start + i else r.start + i - r.size

abbrev pub contents : Ring → Bytes
contents r = table (length r) (λ i. r.buf.byte (place r i))

-- The size is 0, as for a new ring, or a power of two, and both ends lie inside.
pub record IsValid (r : Ring) : Type 0 where
  pub size_pow : (r.size ≡ 0) ⊎ ((k : ℕ) × (k ≤ 63) × (r.size ≡ 2 ^ k))
  pub buf_cap : r.buf.cap ≡ r.size
  pub start_in : r.start ≤ r.size - 1
  pub end_in : r.end ≤ r.size - 1

pub size_bound : {r : Ring} → IsValid r → r.size ≤ 2 ^ 63
size_bound {r} v = elim v.size_pow [
  | inl e ↦ omega arith
  | inr (k, h, e) ↦ omega (arith, pow_mono k 63 h)
]

mod_top : (x n : ℕ) → x ≤ n → x % n ≡ (if x == n then 0 else x)
mod_top x n h = elim (Bool-cases (x == n)) [
  | inl e ↦ rw ((==_iff x n).0 e, ==_refl n) (mod_self n)
  | inr e ↦ rw e (mod-eq_of_lt (ground arith))
]

-- RING_MASK takes the end of the buffer to its start.
pub mask_lem :
    {r : Ring} (x : ℕ) → IsValid r → x ≤ r.size → mask r x ≡ (if x == r.size then 0 else x)
mask_lem {r} x v q = elim v.size_pow [
  | inl e ↦ let none_left : x ≡ 0 = omega arith in rw (none_left, bit_and-none, e)
  | inr (k, h, e) ↦
      let m : sub_size r.size 1 ≡ 2 ^ k - 1 = omega (arith, pow_mono k 63 h, pow_pos k) in
      rw m (bit_and-mask k x ∙ mod_top x (2 ^ k) (rw e at q) ∙ rw e refl)
]

pub zeroed-IsValid : IsValid zeroed
zeroed-IsValid = record {
  size_pow = inl refl;
  buf_cap = refl;
  start_in = omega arith;
  end_in = omega arith;
}

-- `shl_ring_length` without its wrapping arithmetic.
pub length_plain :
    {r : Ring}
    → IsValid r
    → length r ≡ (if ltb r.end r.start then r.size - r.start + r.end else r.end - r.start)
unfolding length
length_plain {r} v = ground (arith, size_bound v)

pub length-contents : (r : Ring) → Common.length (contents r) ≡ length r
length-contents r = length-table (length r) (λ i. r.buf.byte (place r i))

pub length-lt-size : {r : Ring} → IsValid r → length r ≤ r.size - 1
length-lt-size {r} v = ground (arith, length_plain v)
