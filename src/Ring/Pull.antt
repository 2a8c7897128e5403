-- ===== src/Ring/Pull.antt =====
-- `shl_ring_pull`, `shl_ring_flush` and `shl_ring_clear` of src/shl_ring.c drop bytes from the front.
use openwfd.Common.{
  ℕ, zero, suc, ◌+◌, ◌-◌, ◌*◌, ◌/◌, ◌%◌, ◌^◌, ◌≤◌, ◌<◌, min, ◌≡◌, refl, sym, ap, ◌∙◌, ◌≢◌, ◌↔◌, ◌⊎◌,
  inl, inr, Bool, true, false, not, ◌&&◌, ◌||◌, Option, none, some, List, [], ◌∷◌, ◌++◌, append-nil,
  append_assoc, arith, ltb, leb, ◌==◌, if◌then◌else◌, Bool-cases, Option-cases, ltb→lt, ltb→ge,
  lt→ltb, ge→ltb, leb→le, leb→gt, le→leb, lt→leb, ==_iff, ==_refl,
}
use openwfd.Common
use openwfd.Common.{drop}
use openwfd.Common.Table.{table-cong, drop-table}
use openwfd.Common.Memory.{sub_size, add_size}
use openwfd.Ring.{Ring, mask, length, pull, pull_tail, flush}
use openwfd.Ring.View.{
  place, contents, IsValid, size_bound, length_plain, length-contents, mask_lem,
}

abbrev dropped : Ring → ℕ → Ring
dropped r n = record r { start = place r n }

abbrev least : ℕ → ℕ → ℕ
least n len = if ltb n len then n else len

-- `size_t` subtraction of a part.
sub_size_lem : (a b : ℕ) → b ≤ a → a < 2 ^ 64 → sub_size a b ≡ a - b
sub_size_lem a b h k = omega arith

add_size_lem : (a b : ℕ) → a ≤ 2 ^ 63 → b < 2 ^ 63 → add_size a b ≡ a + b
add_size_lem a b h k = omega arith

pull_tail_moves :
    (r : Ring) (n : ℕ)
    → sub_size r.end r.start ≡ r.end - r.start
    → mask r (add_size r.start (least n (r.end - r.start))) ≡ r.start + least n (r.end - r.start)
    → pull_tail r n ≡ record r { start = r.start + least n (r.end - r.start) }
unfolding pull_tail
pull_tail_moves r n e m = elim (Bool-cases (n == 0)) [
  | inl none_left ↦ rw none_left (ap (λ t. record r { start = t }) (ground arith))
  | inr more ↦ rw (more, e) (ap (λ t. record r { start = t }) m)
]

module _ {r : Ring} (v : IsValid r) where
  mask_inside : (x : ℕ) → x ≤ r.size - 1 → mask r x ≡ x
  mask_inside x h = mask_lem x v (omega arith) ∙ ground arith

  -- The second half of the function, at a ring that does not wrap.
  pull_tail_lem :
      (n : ℕ)
      → r.start ≤ r.end
      → pull_tail r n ≡ record r { start = r.start + least n (r.end - r.start) }
  pull_tail_lem n h =
      pull_tail_moves r n (sub_size_lem r.end r.start h (omega (arith, size_bound v))) (moves n h)
    where
      moves :
          (n : ℕ)
          → r.start ≤ r.end
          → mask r (add_size r.start (least n (r.end - r.start)))
            ≡ r.start + least n (r.end - r.start)
      moves n h =
          let small : least n (r.end - r.start) ≤ r.end - r.start = ground arith in
          ap (mask r)
            (add_size_lem r.start _ (omega (arith, size_bound v)) (omega (arith, size_bound v)))
          ∙ mask_inside _ (omega arith)

pull_first :
    {r : Ring} (v : IsValid r) (n : ℕ)
    → r.end < r.start
    → n ≤ r.size - r.start
    → pull r n ≡ record r { start = if r.start + n == r.size then 0 else r.start + n }
unfolding pull
pull_first {r} v n h k = ground (arith, size_bound v, mask_lem (r.start + n) v)

pull_both :
    {r : Ring} (v : IsValid r) (n : ℕ)
    → r.end < r.start
    → r.size - r.start < n
    → n < 2 ^ 64
    → pull r n ≡ pull_tail (record r { start = 0 }) (n - (r.size - r.start))
unfolding pull
pull_both {r} v n h k w =
    rw
      (
        lt→ltb r.end r.start h,
        sub_size_lem r.size r.start (omega (arith, v.start_in)) (omega (arith, size_bound v)),
        ge→ltb n (r.size - r.start) (omega arith),
        sub_size_lem n (r.size - r.start) (omega arith) w,
        add_size_lem r.start (r.size - r.start) (omega (arith, size_bound v))
            (omega (arith, size_bound v)),
      )
      (ap (λ t. pull_tail (record r { start = t }) (n - (r.size - r.start)))
        (mask_lem (r.start + (r.size - r.start)) v (omega (arith, v.start_in)) ∙ ground arith))

pull_straight : (r : Ring) (n : ℕ) → r.start ≤ r.end → pull r n ≡ pull_tail r n
unfolding pull
pull_straight r n h = rw (ge→ltb r.end r.start h)

at_start : {r : Ring} → IsValid r → IsValid (record r { start = 0 })
at_start v = record {
  size_pow = v.size_pow;
  buf_cap = v.buf_cap;
  start_in = omega arith;
  end_in = v.end_in;
}

module _ {r : Ring} (v : IsValid r) (n : ℕ) (w : n < 2 ^ 64) where
  -- It removes `n` bytes, or all that there are, by moving the start.
  pull-dropped : pull r n ≡ dropped r (least n (length r))
  pull-dropped = elim (Bool-cases (leb r.start r.end)) [
    | inl straight ↦
        let h = leb→le r.start r.end straight in
        pull_straight r n h
        ∙ pull_tail_lem v n h
        ∙ ap (λ t. record r { start = t }) (ground (arith, length_plain v))
    | inr around ↦
        let h = leb→gt r.start r.end around in
        elim (Bool-cases (leb n (r.size - r.start))) [
          | inl first ↦
              pull_first v n h (leb→le n (r.size - r.start) first)
              ∙ ap (λ t. record r { start = t }) (ground (arith, length_plain v))
          | inr both ↦
              pull_both v n h (leb→gt n (r.size - r.start) both) w
              ∙ pull_tail_lem (at_start v) (n - (r.size - r.start)) (omega arith)
              ∙ ap (λ t. record r { start = t }) (ground (arith, length_plain v))
        ]
  ]

module _ {r : Ring} (v : IsValid r) (n : ℕ) (h : n ≤ length r) where
  dropped-IsValid : IsValid (dropped r n)
  dropped-IsValid = record {
    size_pow = v.size_pow;
    buf_cap = v.buf_cap;
    start_in = ground (arith, length_plain v);
    end_in = v.end_in;
  }

  length-dropped : length (dropped r n) ≡ length r - n
  length-dropped = ground (arith, length_plain v, length_plain dropped-IsValid)

  contents-dropped : contents (dropped r n) ≡ drop n (contents r)
  contents-dropped =
      table-cong (length (dropped r n)) (length r - n) (λ i. r.buf.byte (place (dropped r n) i))
        (λ i. r.buf.byte (place r (n + i))) length-dropped
        (λ i p. ap r.buf.byte (ground (arith, length_plain v, length-dropped)))
      ∙ sym (drop-table n (length r) (λ i. r.buf.byte (place r i)))

drop-least {ℓ} :
    {A : Type ℓ} (n : ℕ) (xs : List A) → drop (least n (Common.length xs)) xs ≡ drop n xs
drop-least zero [] = refl
drop-least (suc n) [] = rw (ge→ltb (suc n) 0 (omega arith))
drop-least zero (x ∷ xs) = rw (lt→ltb 0 (suc (Common.length xs)) (omega arith))
drop-least (suc n) (x ∷ xs) = elim (Bool-cases (ltb n (Common.length xs))) [
  | inl less ↦
      rw (lt→ltb (suc n) (suc (Common.length xs)) (omega (arith, ltb→lt n (Common.length xs) less)))
  | inr more ↦
      rw (ge→ltb (suc n) (suc (Common.length xs)) (omega (arith, ltb→ge n (Common.length xs) more)))
        (rw more at (drop-least n xs))
]

-- `shl_ring_pull` keeps a ring well formed and removes the first `n` bytes, all of them if there
-- are fewer, whatever `n` a `size_t` can hold.
pub pull_lem :
    {r : Ring} (n : ℕ)
    → IsValid r
    → n < 2 ^ 64
    → IsValid (pull r n) × (contents (pull r n) ≡ drop n (contents r))
pull_lem {r} n v w =
    let h : least n (length r) ≤ length r = ground arith in
    (
      rw (pull-dropped v n w) (dropped-IsValid v (least n (length r)) h),
      rw (pull-dropped v n w) (
          contents-dropped v (least n (length r)) h
          ∙ ap (λ t. drop (least n t) (contents r)) (sym (length-contents r))
          ∙ drop-least n (contents r)),
    )

-- `shl_ring_flush` keeps a ring well formed and removes every byte.
pub flush_lem : {r : Ring} → IsValid r → IsValid (flush r) × (contents (flush r) ≡ [])
unfolding flush length
flush_lem v = (
  record {
    size_pow = v.size_pow;
    buf_cap = v.buf_cap;
    start_in = omega arith;
    end_in = omega arith;
  },
  refl,
)
