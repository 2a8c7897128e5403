-- ===== src/Ring/Peek.antt =====
-- `shl_ring_peek` of src/shl_ring.c: the pieces of a ring.
use openwfd.Common.{
  ℕ, ◌+◌, ◌-◌, ◌≤◌, ◌<◌, ◌≡◌, refl, sym, ap, ◌∙◌, ◌≢◌, inl, inr, List, [], ◌∷◌, ◌++◌, append-nil,
  arith, ltb, ◌==◌, Bool-cases, ltb→lt, ==_iff,
}
use mathlib.Core.Path.{ap₂}
use openwfd.Common.Table.{table, table-cong, table-append}
use openwfd.Common.Memory.{Bytes}
use openwfd.Ring.{Ring, Iovec, length, peek}
use openwfd.Ring.View.{place, contents, IsValid, size_bound, length_plain}

-- What a pointer and a length of `shl_ring_peek` stand for.
abbrev pub segment : Ring → Iovec → Bytes
segment r v = table v.len (λ i. r.buf.byte (v.base + i))

abbrev pub segments : Ring → List Iovec → Bytes
segments r [] = []
segments r (v ∷ vs) = segment r v ++ segments r vs

-- Every entry lies in the buffer, and there are at most two.
abbrev pub Inside : Ring → List Iovec → Type 0
Inside r [] = Unit
Inside r (v ∷ vs) = (v.base + v.len ≤ r.buf.cap) × (0 < v.len) × Inside r vs

abbrev front_part : Ring → Iovec
front_part r = record { base = r.start; len = r.size - r.start }

abbrev rear_part : Ring → Iovec
rear_part r = record { base = 0; len = r.end }

module _ {r : Ring} (v : IsValid r) where
  pub peek_straight :
      r.start < r.end → peek r ≡ (record { base = r.start; len = r.end - r.start }) ∷ []
  unfolding peek
  peek_straight h = ground (arith, size_bound v)

  pub peek_front : r.end < r.start → r.end ≡ 0 → peek r ≡ front_part r ∷ []
  unfolding peek
  peek_front h e = ground (arith, size_bound v)

  pub peek_both : r.end < r.start → r.end ≢ 0 → peek r ≡ front_part r ∷ rear_part r ∷ []
  unfolding peek
  peek_both h e = ground (arith, size_bound v)

  pub peek_empty : r.end ≡ r.start → peek r ≡ []
  unfolding peek
  peek_empty h = ground arith

  straight_segment :
      r.start < r.end → segment r (record { base = r.start; len = r.end - r.start }) ≡ contents r
  straight_segment h =
      table-cong (r.end - r.start) (length r) (λ i. r.buf.byte (r.start + i))
        (λ i. r.buf.byte (place r i)) (ground (arith, length_plain v))
        (λ i p. ap r.buf.byte (ground arith))

  around_segments :
      r.end < r.start → segment r (front_part r) ++ segment r (rear_part r) ≡ contents r
  around_segments h = sym (
      table-append (r.size - r.start) r.end (length r) (λ i. r.buf.byte (place r i))
        (ground (arith, length_plain v))
      ∙ ap₂ ◌++◌
          (table-cong (r.size - r.start) (r.size - r.start) (λ i. r.buf.byte (place r i))
            (λ i. r.buf.byte (r.start + i)) refl (λ i p. ap r.buf.byte (ground arith)))
          (table-cong r.end r.end (λ i. r.buf.byte (place r (r.size - r.start + i)))
            (λ i. r.buf.byte (0 + i)) refl (λ i p. ap r.buf.byte (ground arith))))

  no_segment : (n base : ℕ) → n ≡ 0 → table n (λ i. r.buf.byte (base + i)) ≡ []
  no_segment n base e = rw e

  no_bytes : length r ≡ 0 → contents r ≡ []
  no_bytes e = rw e

  both-Inside : r.end < r.start → r.end ≢ 0 → Inside r (front_part r ∷ rear_part r ∷ [])
  both-Inside h e =
      (omega (arith, v.buf_cap), omega arith, (omega (arith, v.buf_cap), nonzero r.end e, tt))
    where
      nonzero : (n : ℕ) → n ≢ 0 → 0 < n
      nonzero n h = omega arith

  pub peek_lem : (segments r (peek r) ≡ contents r) × Inside r (peek r)
  peek_lem = elim (Bool-cases (ltb r.start r.end)) [
    | inl less ↦
        let h = ltb→lt r.start r.end less in
        rw (peek_straight h) (append-nil _ ∙ straight_segment h, omega arith)
    | inr other ↦ elim (Bool-cases (ltb r.end r.start)) [
      | inl around ↦
          let h = ltb→lt r.end r.start around in
          elim (Bool-cases (r.end == 0)) [
            | inl at_end ↦
                let e : r.end ≡ 0 = (==_iff r.end 0).0 at_end in
                rw (peek_front h e) (
                  ap (λ t. segment r (front_part r) ++ t) (sym (no_segment r.end 0 e))
                      ∙ around_segments h,
                  omega arith,
                )
            | inr more ↦
                let e : r.end ≢ 0 = ground arith in
                rw (peek_both h e) (
                  ap (λ t. segment r (front_part r) ++ t) (append-nil _) ∙ around_segments h,
                  both-Inside h e,
                )
          ]
      | inr same ↦
          rw (peek_empty (ground arith)) (sym (no_bytes (ground (arith, length_plain v))), tt)
    ]
  ]
