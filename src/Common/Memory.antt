-- ===== src/Common/Memory.antt =====
-- C memory as the program uses it: blocks of bytes, size_t arithmetic, error codes.
-- A block is what `malloc` returns or a caller passes; an access out of its bounds is a fault.
use Prim.Native.Nat.{ℕ, ◌+◌, ◌-◌, ◌*◌, ◌%◌, ◌^◌, ◌≤◌}
use mathlib.Core.Path.{◌≡◌, refl}
use mathlib.Core.Logic.{◌⊎◌, inl, inr}
use mathlib.Core.Bool.{◌&&◌}
use mathlib.Core.Option.{Option, none, some}
use mathlib.Core.List.{List}
use openwfd.Common.Tests.{ltb, leb, ◌==◌, if◌then◌else◌, le→leb}
use openwfd.Common.Lists.{length, get_or}
use openwfd.Common.Table.{table}

-- The errno values that the modelled code returns (negated in the source).
pub data Errno : Type 0 where
  enomem einval eagain enodev epipe ealready etimedout efault eintr eaddrinuse : Errno
  other : ℕ → Errno

pub data Status : Type 0 where
  ok : Status
  fail : Errno → Status

pub Status-cases : (s : Status) → (s ≡ ok) ⊎ ((x : Errno) × (s ≡ fail x))
Status-cases ok = inl refl
Status-cases (fail x) = inr (x, refl)

abbrev pub Bytes : Type 0
Bytes = List ℕ

-- `size_t` arithmetic wraps at 64 bits.
abbrev pub add_size : ℕ → ℕ → ℕ
add_size m n = (m + n) % 2 ^ 64

abbrev pub sub_size : ℕ → ℕ → ℕ
sub_size m n = (m + 2 ^ 64 - n) % 2 ^ 64

abbrev pub mul_size : ℕ → ℕ → ℕ
mul_size m n = m * n % 2 ^ 64

pub record Block : Type 0 where
  pub cap : ℕ
  pub byte : ℕ → ℕ

-- What `malloc` answers: no block, or one with any bytes in it.
abbrev pub Malloc : Type 0
Malloc = Option (ℕ → ℕ)

abbrev pub of_list : Bytes → Block
of_list xs = record { cap = length xs; byte = λ i. get_or xs i 0 }

-- `none` is a fault.
infixl 5 ◌>>=◌
abbrev pub ◌>>=◌ {ℓ κ} : {A : Type ℓ} {B : Type κ} → Option A → (A → Option B) → Option B
none >>= f = none
some a >>= f = f a

-- A block with `n` bytes written from index `i` on.
abbrev pub copied : Block → ℕ → Block → ℕ → ℕ → Block
copied d i s j n = record d {
  byte = λ k. if leb i k && ltb k (i + n) then s.byte (j + (k - i)) else d.byte k;
}

-- `memcpy(&d[i], &s[j], n)`
unfoldable pub memcpy : Block → ℕ → Block → ℕ → ℕ → Option Block
memcpy d i s j n = if leb (i + n) d.cap && leb (j + n) s.cap then some (copied d i s j n) else none

pub memcpy_lem :
    (d : Block) (i : ℕ) (s : Block) (j n : ℕ)
    → i + n ≤ d.cap
    → j + n ≤ s.cap
    → memcpy d i s j n ≡ some (copied d i s j n)
unfolding memcpy
memcpy_lem d i s j n p q = rw (le→leb (i + n) d.cap p, le→leb (j + n) s.cap q)

-- `d[i] = c`
abbrev pub store : Block → ℕ → ℕ → Option Block
store d i c =
    if ltb i d.cap then some (record d { byte = λ k. if k == i then c else d.byte k }) else none

-- The first `n` bytes of a block.
abbrev pub bytes_of : Block → ℕ → Bytes
bytes_of b n = table n b.byte
