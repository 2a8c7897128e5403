-- ===== src/Rtsp/Buffer.antt =====
-- What the decoder of src/rtsp_decoder.c asks of a byte queue. It is written over this interface;
-- the code runs it over the ring of src/shl_ring.c, and the theorems compare it with plain lists.
use openwfd.Common
use openwfd.Common.{ℕ, ◌^◌, Bool, Option, none, some, [], ◌++◌, take, drop, ltb, if◌then◌else◌}
use openwfd.Common.Memory.{Status, ok, fail, enomem, Bytes, Block, Malloc, of_list, bytes_of, ◌>>=◌}
use openwfd.Ring
use openwfd.Ring.{Ring, copy_size}

-- `push` and `copy` take what their call of `malloc` answers. An outer `none` is an access out of
-- bounds; `some none` of `copy` is NULL. `copy` is given `*len` and returns as many bytes as it
-- writes to `*len`.
pub record Buffer : Type 1 where
  pub Buf : Type 0
  pub push : Malloc → Buf → Bytes → Option (Status × Buf)
  pub copy : Malloc → Buf → ℕ → Option (Option Bytes)
  pub pull : Buf → ℕ → Buf
  pub flush : Buf → Buf
  pub length : Buf → ℕ

-- A copied block, as the bytes in front of its terminating zero.
abbrev pub copied_bytes : Option (Block × ℕ) → Option Bytes
copied_bytes none = none
copied_bytes (some (b, n)) = some (bytes_of b n)

-- The ring of src/shl_ring.c.
abbrev pub ring_buffer : Buffer
ring_buffer = record {
  Buf = Ring;
  push = λ m r bytes. Ring.push m r (of_list bytes) (Common.length bytes);
  copy = λ m r n. Ring.copy m r (some n) >>= λ c. some (copied_bytes c);
  pull = Ring.pull;
  flush = Ring.flush;
  length = Ring.length;
}

-- The abstract queue: the bytes that are held, oldest first.
abbrev pub list_push : Malloc → Bytes → Bytes → Option (Status × Bytes)
list_push none b bytes = some (fail enomem, b)
list_push (some _) b bytes = some (ok, b ++ bytes)

abbrev pub list_line : Malloc → Bytes → ℕ → Option Bytes
list_line none b n = none
list_line (some _) b n = some (take n b)

abbrev pub list_copy : Malloc → Bytes → ℕ → Option (Option Bytes)
list_copy m b n = some (list_line m b n)

abbrev pub list_buffer : Buffer
list_buffer = record {
  Buf = Bytes;
  push = list_push;
  copy = list_copy;
  pull = λ b n. drop n b;
  flush = λ _. [];
  length = λ b. Common.length b;
}
