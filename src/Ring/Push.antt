-- ===== src/Ring/Push.antt =====
-- `shl_ring_push` of src/shl_ring.c appends the bytes to the contents.
use openwfd.Common.{
  ℕ, zero, suc, ◌+◌, ◌-◌, ◌*◌, ◌/◌, ◌%◌, ◌^◌, ◌≤◌, ◌<◌, min, ◌≡◌, refl, sym, ap, ◌∙◌, ◌≢◌, ◌↔◌, ◌⊎◌,
  inl, inr, Bool, true, false, not, ◌&&◌, ◌||◌, Option, none, some, List, [], ◌∷◌, ◌++◌, append-nil,
  append_assoc, arith, ltb, leb, ◌==◌, if◌then◌else◌, Bool-cases, Option-cases, ltb→lt, ltb→ge,
  lt→ltb, ge→ltb, leb→le, leb→gt, le→leb, lt→leb, ==_iff, ==_refl,
}
use openwfd.Common
use openwfd.Common.Table.{table, table-cong, table-append, length-table}
use openwfd.Common.Memory.{
  Status, ok, fail, enomem, Bytes, Block, Malloc, copied, memcpy_lem, bytes_of,
}
use openwfd.Ring.{Ring, length, push_tail, grow, push_grown, push}
use openwfd.Ring.Grow.{IsGrown, roomy, grow_lem}
use openwfd.Ring.View.{place, contents, IsValid, size_bound, length_plain, mask_lem}

module _ {r : Ring} (v : IsValid r) (u8 : Block) (len : ℕ) (fits : len ≤ u8.cap)
    (free : length r + len < r.size) where
  abbrev pushed : Block → ℕ → Ring
  pushed b e = record r { buf = b; end = e }

  abbrev end_after : ℕ
  end_after = if r.end + len == r.size then 0 else r.end + len

  -- With no wrap the bytes go behind the others in one copy.
  abbrev one_copy : Block
  one_copy = copied r.buf r.end u8 0 len

  -- The part in front of the end of the buffer, and the rest at its start.
  abbrev front : ℕ
  front = r.size - r.end

  abbrev two_copies : Block
  two_copies = copied (copied r.buf r.end u8 0 front) 0 u8 front (len - front)

  push_one :
      r.start ≤ r.end → len ≤ front → push_grown ok r u8 len ≡ some (ok, pushed one_copy end_after)
  unfolding push_grown push_tail
  push_one h k =
      ground (arith, size_bound v, memcpy_lem r.buf r.end u8 0 len, mask_lem (r.end + len) v)

  push_two :
      r.start ≤ r.end
      → front < len
      → push_grown ok r u8 len ≡ some (ok, pushed two_copies (len - front))
  unfolding push_grown push_tail
  push_two h k = ground (
    arith,
    size_bound v,
    length_plain v,
    memcpy_lem r.buf r.end u8 0 front,
    memcpy_lem (copied r.buf r.end u8 0 front) 0 u8 front (len - front),
    mask_lem (r.end + front) v,
    mask_lem (len - front) v,
  )

  push_behind : r.end < r.start → push_grown ok r u8 len ≡ some (ok, pushed one_copy (r.end + len))
  unfolding push_grown push_tail
  push_behind h = ground (
    arith,
    size_bound v,
    length_plain v,
    memcpy_lem r.buf r.end u8 0 len,
    mask_lem (r.end + len) v,
  )

  -- What makes a written ring hold the old bytes and the new ones behind them.
  record IsExtended (b : Block) (e : ℕ) : Type 0 where
    end_lt : e ≤ r.size - 1
    cap_eq : b.cap ≡ r.size
    old : (i : ℕ) → i < length r → b.byte (place r i) ≡ r.buf.byte (place r i)
    new : (i : ℕ) → i < len → b.byte (place r (length r + i)) ≡ u8.byte i
    longer : (if ltb e r.start then r.size - r.start + e else e - r.start) ≡ length r + len

  module _ {b : Block} {e : ℕ} (x : IsExtended b e) where
    pushed-IsValid : IsValid (pushed b e)
    pushed-IsValid = record {
      size_pow = v.size_pow;
      buf_cap = x.cap_eq;
      start_in = v.start_in;
      end_in = x.end_lt;
    }

    length-pushed : length (pushed b e) ≡ length r + len
    length-pushed = length_plain pushed-IsValid ∙ x.longer

    contents-pushed : contents (pushed b e) ≡ contents r ++ bytes_of u8 len
    contents-pushed =
        table-append (length r) len (length (pushed b e)) (λ i. b.byte (place r i)) length-pushed
        ∙ ap (λ t. t ++ table len (λ i. b.byte (place r (length r + i))))
            (table-cong (length r) (length r) (λ i. b.byte (place r i))
              (λ i. r.buf.byte (place r i)) refl x.old)
        ∙ ap (λ t. contents r ++ t)
            (table-cong len len (λ i. b.byte (place r (length r + i))) u8.byte refl x.new)

  one-IsExtended : r.start ≤ r.end → len ≤ front → IsExtended one_copy end_after
  one-IsExtended h k = record {
    end_lt = ground (arith, length_plain v);
    cap_eq = v.buf_cap;
    old = λ i p. ground (arith, length_plain v);
    new = λ i p. ground (arith, length_plain v);
    longer = ground (arith, length_plain v);
  }

  two-IsExtended : r.start ≤ r.end → front < len → IsExtended two_copies (len - front)
  two-IsExtended h k = record {
    end_lt = ground (arith, length_plain v);
    cap_eq = v.buf_cap;
    old = λ i p. ground (arith, length_plain v);
    new = λ i p. ground (arith, length_plain v);
    longer = ground (arith, length_plain v);
  }

  behind-IsExtended : r.end < r.start → IsExtended one_copy (r.end + len)
  behind-IsExtended h = record {
    end_lt = ground (arith, length_plain v);
    cap_eq = v.buf_cap;
    old = λ i p. ground (arith, length_plain v);
    new = λ i p. ground (arith, length_plain v);
    longer = ground (arith, length_plain v);
  }

  push_grown_lem :
      (r' : Ring) × (push_grown ok r u8 len ≡ some (ok, r'))
      × IsValid r'
      × (contents r' ≡ contents r ++ bytes_of u8 len)
  push_grown_lem = elim (Bool-cases (leb r.start r.end)) [
    | inl straight ↦
        let h = leb→le r.start r.end straight in
        elim (Bool-cases (leb len front)) [
          | inl short ↦
              let k = leb→le len front short in
              let x = one-IsExtended h k in
              (pushed one_copy end_after, push_one h k, pushed-IsValid x, contents-pushed x)
          | inr long ↦
              let k = leb→gt len front long in
              let x = two-IsExtended h k in
              (pushed two_copies (len - front), push_two h k, pushed-IsValid x, contents-pushed x)
        ]
    | inr around ↦
        let h = leb→gt r.start r.end around in
        let x = behind-IsExtended h in
        (pushed one_copy (r.end + len), push_behind h, pushed-IsValid x, contents-pushed x)
  ]

-- What `shl_ring_push` may return.
pub data IsPushed (m : Malloc) (r : Ring) (bytes : Bytes) : Status × Ring → Type 0 where
  appended :
      {r' : Ring} → IsValid r' → contents r' ≡ contents r ++ bytes → IsPushed m r bytes (ok, r')
  refused :
      (m ≡ none) ⊎ (2 ^ 63 < length r + Common.length bytes + 1)
      → IsPushed m r bytes (fail enomem, r)

push_of_grown :
    {m : Malloc} {r : Ring} (u8 : Block) (len : ℕ)
    → len ≤ u8.cap
    → {out : Status × Ring} → grow m r len ≡ some out
    → IsGrown m r len out
    → (res : Status × Ring) × (push m r u8 len ≡ some res) × IsPushed m r (bytes_of u8 len) res
unfolding push
push_of_grown {m} {r} u8 len fits e (roomy {r'} v same same_length free) =
    let (q, e', v', c) = push_grown_lem v u8 len fits (omega arith) in
    ((ok, q), rw e e', appended v' (c ∙ ap (λ t. t ++ bytes_of u8 len) same))
push_of_grown {m} {r} u8 len fits e (IsGrown.refused why) =
    ((fail enomem, r), rw e (unfold push_grown in refl), IsPushed.refused (rw length-table why))

-- On a well-formed ring and less than 2 ^ 63 bytes that lie in the caller's block, `shl_ring_push`
-- never accesses memory out of bounds. It appends exactly the bytes it is given and keeps the ring well formed, or returns -ENOMEM with the ring as it was; the latter only if
-- `malloc` fails or more than 2 ^ 63 bytes would be needed.
pub push_lem :
    {r : Ring} (m : Malloc) (u8 : Block) (len : ℕ)
    → IsValid r
    → len ≤ u8.cap
    → len < 2 ^ 63
    → (out : Status × Ring) × (push m r u8 len ≡ some out) × IsPushed m r (bytes_of u8 len) out
push_lem {r} m u8 len v fits small =
    let (out, e, g) = grow_lem v len small m in push_of_grown u8 len fits e g
