-- ===== src/Ring.antt =====
-- The ring buffer of src/shl_ring.c and src/shl_ring.h. A function that changes `*r` returns the
-- new ring. The outer `Option` is `none` where the code would access memory out of bounds.
-- `Malloc` arguments are what the allocator answers at the function's one call of it.

pub mod Pow2
mod Tests
pub mod View
pub mod Grow
pub mod Push
pub mod Pull
pub mod Peek
pub mod Copy
use Prim.Native.Nat.{bit_and, bit_or}
use openwfd.Common.{
  ℕ, zero, suc, ◌+◌, ◌-◌, ◌/◌, ◌*◌, ◌^◌, ◌%◌, Bool, true, false, ◌&&◌, Option, none, some, List, [],
  ◌∷◌, ltb, leb, ◌==◌, if◌then◌else◌,
}
use openwfd.Common.Memory.{
  Status, ok, fail, enomem, add_size, sub_size, mul_size, Block, Malloc, ◌>>=◌, memcpy, store,
}

-- `struct shl_ring`
pub record Ring : Type 0 where
  pub buf : Block
  pub size : ℕ
  pub start : ℕ
  pub end : ℕ

-- RING_MASK
abbrev pub mask : Ring → ℕ → ℕ
mask r v = bit_and v (sub_size r.size 1)

-- A ring as `calloc` leaves it: the null pointer is a block with no bytes.
abbrev pub null_block : Block
null_block = record { cap = 0; byte = λ _. 0 }

abbrev pub zeroed : Ring
zeroed = record { buf = null_block; size = 0; start = 0; end = 0 }

-- `ring_resize`
unfoldable pub resize : Malloc → Ring → ℕ → Option (Status × Ring)
resize none r nsize = some (fail enomem, r)
resize (some fresh) r nsize =
    let buf : Block = record { cap = nsize; byte = fresh } in
    if r.end == r.start
    then some (ok, record { buf = buf; size = nsize; start = 0; end = 0 })
    else if ltb r.start r.end
    then (do
      b ← memcpy buf 0 r.buf r.start (sub_size r.end r.start)
      some (ok, record { buf = b; size = nsize; start = 0; end = sub_size r.end r.start }))
    else (do
      b ← memcpy buf 0 r.buf r.start (sub_size r.size r.start)
      c ← memcpy b (sub_size r.size r.start) r.buf 0 r.end
      some (
        ok,
        record { buf = c; size = nsize; start = 0; end = add_size r.end (sub_size r.size r.start) },
      ))

-- The loop of `ring_pow2`, `for (i = 1; i < 8 * sizeof(size_t); i *= 2) v |= v >> i`.
unfoldable pub pow2_loop : ℕ → ℕ → ℕ → ℕ
pow2_loop zero i v = v
pow2_loop (suc fuel) i v =
    let rest = pow2_loop fuel (mul_size i 2) (bit_or v (v / 2 ^ i)) in if ltb i 64 then rest else v

-- `ring_pow2`
unfoldable pub pow2 : ℕ → ℕ
unfolding pow2_loop
pow2 v = if v == 0 then 4096 else add_size (pow2_loop 7 1 (v - 1)) 1

-- The free bytes that `ring_grow` computes first, the one that stays empty included.
unfoldable pub room : Ring → ℕ
room r =
    if ltb r.end r.start then sub_size r.start r.end else sub_size (add_size r.start r.size) r.end

-- `ring_grow`
unfoldable pub grow : Malloc → Ring → ℕ → Option (Status × Ring)
unfolding room
grow m r add =
    if ltb add (room r)
    then some (ok, r)
    else let len = pow2 (add_size (sub_size (add_size r.size add) (room r)) 1) in
      if leb len r.size then some (fail enomem, r) else resize m r len

-- The second half of `shl_ring_push`: what is left goes to `end`.
unfoldable pub push_tail : Ring → Block → ℕ → ℕ → Option (Status × Ring)
push_tail r u8 off len = if len == 0 then some (ok, r) else do
  b ← memcpy r.buf r.end u8 off len
  some (ok, record r { buf = b; end = mask r (add_size r.end len) })

-- `shl_ring_push` behind `ring_grow`.
unfoldable pub push_grown : Status → Ring → Block → ℕ → Option (Status × Ring)
push_grown (fail e) r u8 len = some (fail e, r)
push_grown ok r u8 len =
    if leb r.start r.end
    then (let l = if ltb len (sub_size r.size r.end) then len else sub_size r.size r.end in
        do
          b ← memcpy r.buf r.end u8 0 l
          push_tail (record r { buf = b; end = mask r (add_size r.end l) }) u8 l (sub_size len l))
    else push_tail r u8 0 len

-- `shl_ring_push`
unfoldable pub push : Malloc → Ring → Block → ℕ → Option (Status × Ring)
push m r u8 len = do (s, r') ← grow m r len; push_grown s r' u8 len

-- `struct iovec`, with an index into `buf` for the pointer.
pub record Iovec : Type 0 where
  pub base : ℕ
  pub len : ℕ

-- `shl_ring_peek`: the entries that it fills and counts. Its result is their number.
unfoldable pub peek : Ring → List Iovec
peek r =
    if ltb r.start r.end
    then (record { base = r.start; len = sub_size r.end r.start }) ∷ []
    else if ltb r.end r.start
    then if r.end == 0
      then (record { base = r.start; len = sub_size r.size r.start }) ∷ []
      else (record { base = r.start; len = sub_size r.size r.start })
        ∷ (record { base = 0; len = r.end })
        ∷ []
    else []

-- `shl_ring_pull` behind its first `if`.
unfoldable pub pull_tail : Ring → ℕ → Ring
pull_tail r len =
    if len == 0
    then r
    else let l = if ltb len (sub_size r.end r.start) then len else sub_size r.end r.start in
      record r { start = mask r (add_size r.start l) }

-- `shl_ring_pull`
unfoldable pub pull : Ring → ℕ → Ring
unfolding pull_tail
pull r len =
    if ltb r.end r.start
    then (let l = if ltb len (sub_size r.size r.start) then len else sub_size r.size r.start in
        pull_tail (record r { start = mask r (add_size r.start l) }) (sub_size len l))
    else pull_tail r len

-- `shl_ring_flush`
unfoldable pub flush : Ring → Ring
flush r = record r { start = 0; end = 0 }

-- `shl_ring_clear`
unfoldable pub clear : Ring → Ring
clear r = zeroed

-- `shl_ring_length`
unfoldable pub length : Ring → ℕ
length r =
    if ltb r.start r.end
    then sub_size r.end r.start
    else if ltb r.end r.start
    then add_size (sub_size r.size r.start) r.end
    else 0

-- The sum of the lengths that `shl_ring_copy` forms.
unfoldable pub total : List Iovec → ℕ
total [] = 0
total (v ∷ []) = v.len
total (v ∷ w ∷ _) = add_size v.len w.len

-- `if (len && *len < sum) sum = *len;`
abbrev pub copy_size : ℕ → Option ℕ → ℕ
copy_size sum none = sum
copy_size sum (some l) = if ltb l sum then l else sum

-- The two calls of `memcpy` in `shl_ring_copy`.
unfoldable pub gather_second : Ring → Block → ℕ → ℕ → List Iovec → Option Block
gather_second r c l sum [] = some c
gather_second r c l sum (w ∷ _) =
    if sum == 0 then some c else memcpy c l r.buf w.base (if ltb sum w.len then sum else w.len)

unfoldable pub gather : Ring → Block → List Iovec → ℕ → Option Block
unfolding gather_second
gather r b [] sum = some b
gather r b (v ∷ vs) sum =
    let l = if ltb sum v.len then sum else v.len in
    do c ← memcpy b 0 r.buf v.base l; gather_second r c l (sub_size sum l) vs

-- `shl_ring_copy`: `none` inside is its NULL. The argument is `*len`, or `none` for a null
-- pointer; the number in the result is what it writes to `*len`.
unfoldable pub copy : Malloc → Ring → Option ℕ → Option (Option (Block × ℕ))
unfolding peek total gather
copy none r limit = some none
copy (some fresh) r limit =
    let sum = copy_size (total (peek r)) limit in
    do
      b ← store (record { cap = add_size sum 1; byte = fresh }) sum 0
      c ← gather r b (peek r) sum
      some (some (c, sum))
