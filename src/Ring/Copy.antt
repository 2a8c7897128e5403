-- ===== src/Ring/Copy.antt =====
-- `shl_ring_copy` of src/shl_ring.c.
use openwfd.Common.{
  ℕ, ◌+◌, ◌-◌, ◌^◌, ◌≤◌, ◌<◌, ◌≡◌, refl, sym, ap, ◌∙◌, inl, inr, Option, none, some, arith, ltb,
  leb, ◌==◌, if◌then◌else◌, Bool-cases, ltb→lt, lt→ltb, leb→le, leb→gt, ==_iff, ==_refl,
}
use openwfd.Common.{take}
use openwfd.Common.Table.{table-cong, take-table}
use openwfd.Common.Memory.{add_size, Block, copied, memcpy_lem, bytes_of}
use openwfd.Ring.{Ring, length, peek, total, gather, copy_size, copy}
use openwfd.Ring.View.{place, contents, IsValid, size_bound, length_plain, length-lt-size}
use openwfd.Ring.Peek.{peek_straight, peek_front, peek_both, peek_empty}

-- What `malloc` gives, with the terminating zero written.
abbrev fresh_block : (ℕ → ℕ) → ℕ → Block
fresh_block fresh sum = record { cap = sum + 1; byte = λ k. if k == sum then 0 else fresh k }

module _ {r : Ring} (v : IsValid r) where
  total_lem : total (peek r) ≡ length r
  unfolding total
  total_lem = elim (Bool-cases (ltb r.start r.end)) [
    | inl less ↦
        let h = ltb→lt r.start r.end less in rw (peek_straight v h) (ground (arith, length_plain v))
    | inr other ↦ elim (Bool-cases (ltb r.end r.start)) [
      | inl around ↦
          let h = ltb→lt r.end r.start around in
          elim (Bool-cases (r.end == 0)) [
            | inl at_end ↦
                rw (peek_front v h ((==_iff r.end 0).0 at_end)) (ground (arith, length_plain v))
            | inr more ↦
                rw (peek_both v h (ground arith)) (ground (arith, length_plain v, size_bound v))
          ]
      | inr same ↦ rw (peek_empty v (ground arith)) (ground (arith, length_plain v))
    ]
  ]

  module _ (b : Block) (sum : ℕ) (cap : b.cap ≡ sum + 1) (within : sum ≤ length r) where
    gather_straight :
        r.start < r.end → gather r b (peek r) sum ≡ some (copied b 0 r.buf r.start sum)
    unfolding gather
    gather_straight h =
        rw (peek_straight v h)
          (ground (arith, length_plain v, size_bound v, memcpy_lem b 0 r.buf r.start sum))

    gather_front :
        r.end < r.start
        → sum ≤ r.size - r.start
        → gather r b (peek r) sum ≡ some (copied b 0 r.buf r.start sum)
    unfolding gather
    gather_front h k = elim (Bool-cases (r.end == 0)) [
      | inl at_end ↦
          rw (peek_front v h ((==_iff r.end 0).0 at_end))
            (ground (arith, length_plain v, size_bound v, memcpy_lem b 0 r.buf r.start sum))
      | inr more ↦
          rw (peek_both v h (ground arith))
            (ground (arith, length_plain v, size_bound v, memcpy_lem b 0 r.buf r.start sum))
    ]

    gather_both :
        r.end < r.start
        → r.size - r.start < sum
        → gather r b (peek r) sum
          ≡ some (
              copied
                (copied b 0 r.buf r.start (r.size - r.start))
                (r.size - r.start)
                r.buf
                0
                (sum - (r.size - r.start)))
    unfolding gather
    gather_both h k = rw (peek_both v h (ground (arith, length_plain v))) (
        ground (
          arith,
          length_plain v,
          size_bound v,
          memcpy_lem b 0 r.buf r.start (r.size - r.start),
          memcpy_lem (copied b 0 r.buf r.start (r.size - r.start)) (r.size - r.start) r.buf 0
              (sum - (r.size - r.start)),
        ))

    -- A block with the first bytes of the ring and the rest of `b`.
    record HasFirst (c : Block) : Type 0 where
      same_cap : c.cap ≡ sum + 1
      first : (i : ℕ) → i < sum → c.byte i ≡ r.buf.byte (place r i)
      last : c.byte sum ≡ b.byte sum

    gather_lem : (c : Block) × (gather r b (peek r) sum ≡ some c) × HasFirst c
    gather_lem = elim (Bool-cases (ltb r.start r.end)) [
      | inl less ↦
          let h = ltb→lt r.start r.end less in
          (
            copied b 0 r.buf r.start sum,
            gather_straight h,
            record {
              same_cap = cap;
              first = λ i p. ground (arith, length_plain v);
              last = ground (arith, length_plain v);
            },
          )
      | inr other ↦ elim (Bool-cases (ltb r.end r.start)) [
        | inl around ↦
            let h = ltb→lt r.end r.start around in
            elim (Bool-cases (leb sum (r.size - r.start))) [
              | inl short ↦ (
                copied b 0 r.buf r.start sum,
                gather_front h (leb→le sum (r.size - r.start) short),
                record {
                  same_cap = cap;
                  first = λ i p. ground (arith, length_plain v);
                  last = ground (arith, length_plain v);
                },
              )
              | inr long ↦ (
                copied (copied b 0 r.buf r.start (r.size - r.start)) (r.size - r.start) r.buf 0
                    (sum - (r.size - r.start)),
                gather_both h (leb→gt sum (r.size - r.start) long),
                record {
                  same_cap = cap;
                  first = λ i p. ground (arith, length_plain v);
                  last = ground (arith, length_plain v);
                },
              )
            ]
        | inr same ↦ (
          b,
          rw (peek_empty v (ground arith)) (unfold gather in refl),
          record {
            same_cap = cap;
            first = λ i p. absurd (ground (arith, length_plain v));
            last = refl;
          },
        )
      ]
    ]

-- What a caller gets from `shl_ring_copy`: a block of one byte more than it asked for, or than
-- there are, with the first bytes of the ring and a terminating zero.
pub record IsCopy (r : Ring) (limit : Option ℕ) (c : Block) (n : ℕ) : Type 0 where
  pub count : n ≡ copy_size (length r) limit
  pub c_cap : c.cap ≡ n + 1
  pub taken : bytes_of c n ≡ take n (contents r)
  pub terminated : c.byte n ≡ 0

copy_by_gather :
    (fresh : ℕ → ℕ) (r : Ring) (limit : Option ℕ) (c : Block) (sum : ℕ)
    → copy_size (total (peek r)) limit ≡ sum
    → sum < 2 ^ 63
    → gather r (fresh_block fresh sum) (peek r) sum ≡ some c
    → copy (some fresh) r limit ≡ some (some (c, sum))
unfolding copy
copy_by_gather fresh r limit c sum e h g =
    rw (e, wraps_not) (rw (lt→ltb sum (sum + 1) (omega arith)) (rw g))
  where
    wraps_not : add_size sum 1 ≡ sum + 1
    wraps_not = omega arith

copy_size-le : (n : ℕ) (limit : Option ℕ) → copy_size n limit ≤ n
copy_size-le n none = omega arith
copy_size-le n (some l) = ground arith

-- On a well-formed ring `shl_ring_copy` never accesses memory out of bounds. If `malloc` succeeds it returns a copy of
-- the first bytes, as many as asked for or as there are, and their number; otherwise NULL.
pub copy_lem :
    {r : Ring} (fresh : ℕ → ℕ) (limit : Option ℕ)
    → IsValid r
    → (c : Block) × (n : ℕ) × (copy (some fresh) r limit ≡ some (some (c, n)))
      × IsCopy r limit c n
      × (copy none r limit ≡ some none)
copy_lem {r} fresh limit v =
    let sum : ℕ = copy_size (length r) limit in
    let within : sum ≤ length r = copy_size-le (length r) limit in
    let (c, e, f) = gather_lem v (fresh_block fresh sum) sum refl within in
    (
      c,
      sum,
      copy_by_gather fresh r limit c sum (ap (λ t. copy_size t limit) (total_lem v))
          (omega (arith, length-lt-size v, size_bound v)) e,
      record {
        count = refl;
        c_cap = f.same_cap;
        taken =
            table-cong sum sum c.byte (λ i. r.buf.byte (place r i)) refl f.first
            ∙ sym (take-table sum (length r) (λ i. r.buf.byte (place r i)) within);
        terminated = f.last ∙ rw (==_refl sum);
      },
      unfold copy in refl,
    )
