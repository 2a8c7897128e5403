-- ===== src/Ring/Grow.antt =====
-- `ring_resize` and `ring_grow` of src/shl_ring.c keep the contents and make room.
use openwfd.Common.{
  ◌⊎◌, true, false, ℕ, ◌+◌, ◌-◌, ◌^◌, ◌≤◌, ◌<◌, ◌≡◌, refl, ap, ◌∙◌, inl, inr, none, some, arith,
  ltb, leb, ◌==◌, Bool-cases, ltb→lt, ltb→ge, leb→le, leb→gt, le→leb, lt→leb,
}
use openwfd.Common.Table.{table-cong}
use openwfd.Common.Memory.{
  Status, ok, fail, enomem, add_size, sub_size, Block, Malloc, copied, memcpy_lem,
}
use openwfd.Ring.{Ring, resize, length, room, grow, pow2}
use openwfd.Ring.Pow2.{pow2_lem, pow2_overflow}
use openwfd.Ring.View.{place, contents, IsValid, size_bound, length_plain, length-lt-size}

-- `r'` is a ring of size `nsize` with the bytes of `r` from index 0 on.
pub record IsResized (r : Ring) (nsize : ℕ) (r' : Ring) : Type 0 where
  pub valid : IsValid r'
  pub size_eq : r'.size ≡ nsize
  pub same : contents r' ≡ contents r
  pub same_length : length r' ≡ length r

module _ (fresh : ℕ → ℕ) {r : Ring} (v : IsValid r) where
  module _ (k nsize : ℕ) (hk : k ≤ 63) (e : nsize ≡ 2 ^ k) (larger : r.size < nsize) where
    abbrev block : Block
    block = record { cap = nsize; byte = fresh }

    abbrev moved : Block → Ring
    moved b = record { buf = b; size = nsize; start = 0; end = length r }

    moved-IsValid : (b : Block) → b.cap ≡ nsize → IsValid (moved b)
    moved-IsValid b h = record {
      size_pow = inr (k, hk, e);
      buf_cap = h;
      start_in = omega arith;
      end_in = omega (arith, length-lt-size v);
    }

    length-moved : (b : Block) → b.cap ≡ nsize → length (moved b) ≡ length r
    length-moved b h = ground (arith, length_plain (moved-IsValid b h))

    moved-IsResized :
        (b : Block)
        → b.cap ≡ nsize
        → ((i : ℕ) → i < length r → b.byte i ≡ r.buf.byte (place r i))
        → IsResized r nsize (moved b)
    moved-IsResized b h same = record {
      valid = moved-IsValid b h;
      size_eq = refl;
      same =
          table-cong (length (moved b)) (length r) (λ i. b.byte (place (moved b) i))
            (λ i. r.buf.byte (place r i)) (length-moved b h)
            (λ i p.
              ap b.byte (unwrapped i (omega (arith, length-moved b h)))
              ∙ same i (omega (arith, length-moved b h)));
      same_length = length-moved b h;
    }
      where
        unwrapped : (i : ℕ) → i < length r → place (moved b) i ≡ i
        unwrapped i p = ground (arith, length-lt-size v)

    -- What the two copies write, for a ring that wraps.
    abbrev wrapped : Block
    wrapped =
        copied (copied block 0 r.buf r.start (r.size - r.start)) (r.size - r.start) r.buf 0 r.end

    resize_empty : r.end ≡ r.start → resize (some fresh) r nsize ≡ some (ok, moved block)
    unfolding resize
    resize_empty h = ground (arith, length_plain v, size_bound v)

    resize_straight :
        r.start < r.end
        → resize (some fresh) r nsize
          ≡ some (ok, moved (copied block 0 r.buf r.start (r.end - r.start)))
    unfolding resize
    resize_straight h =
        ground
          (arith, length_plain v, size_bound v, memcpy_lem block 0 r.buf r.start (r.end - r.start))

    resize-wrapped : r.end < r.start → resize (some fresh) r nsize ≡ some (ok, moved wrapped)
    unfolding resize
    resize-wrapped h = ground (
      arith,
      length_plain v,
      size_bound v,
      memcpy_lem block 0 r.buf r.start (r.size - r.start),
      memcpy_lem (copied block 0 r.buf r.start (r.size - r.start)) (r.size - r.start) r.buf 0 r.end,
    )

    pub resize_lem :
        (r' : Ring) × (resize (some fresh) r nsize ≡ some (ok, r')) × IsResized r nsize r'
    resize_lem = elim (Bool-cases (r.end == r.start)) [
      | inl empty ↦ (
        moved block,
        resize_empty (ground arith),
        moved-IsResized block refl (λ i p. absurd (ground (arith, length_plain v))),
      )
      | inr held ↦ elim (Bool-cases (ltb r.start r.end)) [
        | inl straight ↦
            let b = copied block 0 r.buf r.start (r.end - r.start) in
            (
              moved b,
              resize_straight (ltb→lt r.start r.end straight),
              moved-IsResized b refl (λ i p. ground (arith, length_plain v)),
            )
        | inr around ↦ (
          moved wrapped,
          resize-wrapped (ground arith),
          moved-IsResized wrapped refl (λ i p. ground (arith, length_plain v)),
        )
      ]
    ]

module _ {r : Ring} (v : IsValid r) where
  -- `ring_grow` computes the free bytes with no wrap.
  room_lem : room r + length r ≡ r.size
  unfolding room
  room_lem = ground (arith, length_plain v, size_bound v)

  -- The least size that `ring_grow` asks for is one more than the bytes to come.
  wanted_lem :
      (add : ℕ)
      → add < 2 ^ 63
      → add_size (sub_size (add_size r.size add) (room r)) 1 ≡ length r + add + 1
  wanted_lem add h = omega (arith, room_lem, size_bound v, length-lt-size v)

-- What `ring_grow` may return: success with the same contents and room for `add` bytes, or
-- -ENOMEM with the ring as it was, if `malloc` fails or no size would do.
pub data IsGrown (m : Malloc) (r : Ring) (add : ℕ) : Status × Ring → Type 0 where
  roomy :
      {r' : Ring}
      → IsValid r'
      → contents r' ≡ contents r
      → length r' ≡ length r
      → length r + add < r'.size
      → IsGrown m r add (ok, r')
  refused : (m ≡ none) ⊎ (2 ^ 63 < length r + add + 1) → IsGrown m r add (fail enomem, r)

module _ {r : Ring} (v : IsValid r) (add : ℕ) (small : add < 2 ^ 63) where
  grow_resize :
      (m : Malloc) (k : ℕ)
      → k ≤ 63
      → r.size < 2 ^ k
      → length r + add + 1 ≤ 2 ^ k
      → (out : Status × Ring) × (resize m r (2 ^ k) ≡ some out) × IsGrown m r add out
  unfolding resize
  grow_resize none k hk larger fits = ((fail enomem, r), refl, refused (inl refl))
  grow_resize (some fresh) k hk larger fits =
      let (r', e, z) = resize_lem fresh v k (2 ^ k) hk refl larger in
      ((ok, r'), e, roomy z.valid z.same z.same_length (omega (arith, z.size_eq)))

  grow-resize :
      (m : Malloc) (k : ℕ)
      → ltb add (room r) ≡ false
      → pow2 (length r + add + 1) ≡ 2 ^ k
      → r.size < 2 ^ k
      → grow m r add ≡ resize m r (2 ^ k)
  unfolding grow
  grow-resize m k short e larger =
      rw (short, wanted_lem v add small, e, lt→leb (2 ^ k) r.size larger)

  grow_fits :
      (m : Malloc) (k : ℕ)
      → ltb add (room r) ≡ false
      → k ≤ 63
      → pow2 (length r + add + 1) ≡ 2 ^ k
      → length r + add + 1 ≤ 2 ^ k
      → (out : Status × Ring) × (grow m r add ≡ some out) × IsGrown m r add out
  grow_fits m k short hk e lo =
      let larger : r.size < 2 ^ k = omega (arith, room_lem v, ltb→ge add (room r) short) in
      let (out, e', g) = grow_resize m k hk larger lo in
      (out, grow-resize m k short e larger ∙ e', g)

  grow_overflow :
      (m : Malloc)
      → ltb add (room r) ≡ false
      → pow2 (length r + add + 1) ≡ 0
      → grow m r add ≡ some (fail enomem, r)
  unfolding grow
  grow_overflow m short e = rw (short, wanted_lem v add small, e, le→leb 0 r.size (omega arith))

  grow_enough : (m : Malloc) → ltb add (room r) ≡ true → grow m r add ≡ some (ok, r)
  unfolding grow
  grow_enough m e = rw e

  -- It never accesses memory out of bounds.
  pub grow_lem :
      (m : Malloc) → (out : Status × Ring) × (grow m r add ≡ some out) × IsGrown m r add out
  grow_lem m = elim (Bool-cases (ltb add (room r))) [
    | inl enough ↦ (
      (ok, r),
      grow_enough m enough,
      roomy v refl refl (omega (arith, room_lem v, ltb→lt add (room r) enough)),
    )
    | inr short ↦ elim (Bool-cases (leb (length r + add + 1) (2 ^ 63))) [
      | inl fits ↦
          let (k, hk, e, lo, hi) =
            pow2_lem (length r + add + 1) (omega arith)
              (leb→le (length r + add + 1) (2 ^ 63) fits) in
          grow_fits m k short hk e lo
      | inr over ↦ (
        (fail enomem, r),
        grow_overflow m short (
            pow2_overflow (length r + add + 1) (leb→gt (length r + add + 1) (2 ^ 63) over)
              (omega (arith, length-lt-size v, size_bound v))),
        refused (inr (leb→gt (length r + add + 1) (2 ^ 63) over)),
      )
    ]
  ]
