-- ===== src/Common/Text.antt =====
-- C strings and the functions of the C library that the parsers call on them. A string is the
-- list of its bytes in front of the terminating zero.
use Prim.Native.Char.{code}
use Prim.Native.String.{String}
use Prim.Native.Nat.{ℕ, ◌+◌, ◌-◌, ◌*◌, ◌%◌, ◌^◌}
use mathlib.Core.Bool.{Bool, true, false, ◌&&◌, ◌||◌}
use mathlib.Core.List.{[], ◌∷◌}
use openwfd.Common.Tests.{leb, ◌==◌, if◌then◌else◌}
use openwfd.Common.Memory.{Bytes}

-- The code points of a literal; every literal of the development is ASCII.
abbrev pub codes : String → Bytes
codes String.[] = []
codes (String.◌∷◌ c s) = code c ∷ codes s

-- `tolower` in the C locale
unfoldable pub to_lower : ℕ → ℕ
to_lower c = if leb b'A' c && leb c b'Z' then c + 32 else c

-- `!strncmp(s, prefix, strlen(prefix))`
unfoldable pub starts_with : Bytes → Bytes → Bool
starts_with [] s = true
starts_with (p ∷ ps) [] = false
starts_with (p ∷ ps) (c ∷ cs) = p == c && starts_with ps cs

-- `!strncasecmp(s, prefix, strlen(prefix))`
unfoldable pub starts_with_nocase : Bytes → Bytes → Bool
unfolding to_lower
starts_with_nocase [] s = true
starts_with_nocase (p ∷ ps) [] = false
starts_with_nocase (p ∷ ps) (c ∷ cs) = to_lower p == to_lower c && starts_with_nocase ps cs

-- `isspace` in the C locale
abbrev pub is_space : ℕ → Bool
is_space c = c == 32 || (leb 9 c && leb c 13)

abbrev pub is_digit : ℕ → Bool
is_digit c = leb b'0' c && leb c b'9'

unfoldable pub skip_spaces : Bytes → Bytes
skip_spaces [] = []
skip_spaces (c ∷ cs) = if is_space c then skip_spaces cs else c ∷ cs

-- The digits in front, as a number, and what follows them.
unfoldable pub read_digits : ℕ → Bytes → ℕ × Bytes
read_digits acc [] = (acc, [])
read_digits acc (c ∷ cs) =
    let rest = read_digits (acc * 10 + (c - b'0')) cs in if is_digit c then rest else (acc, c ∷ cs)

abbrev pub ulong_max : ℕ
ulong_max = 2 ^ 64 - 1

-- A value out of range becomes ULONG_MAX, and a sign negates modulo 2 ^ 64.
unfoldable pub clamp : Bool → ℕ → ℕ
clamp negative n =
    if leb n ulong_max then (if negative then (2 ^ 64 - n) % 2 ^ 64 else n) else ulong_max

-- Digits are wanted; without any the result is 0 and the end pointer is the whole string.
unfoldable pub read_unsigned : Bytes → Bool → Bytes → ℕ × Bytes
unfolding read_digits clamp
read_unsigned whole negative [] = (0, whole)
read_unsigned whole negative (c ∷ cs) =
    if is_digit c
    then (let (n, rest) = read_digits 0 (c ∷ cs) in (clamp negative n, rest))
    else (0, whole)

unfoldable pub read_signed : Bytes → Bytes → ℕ × Bytes
unfolding read_unsigned
read_signed whole [] = (0, whole)
read_signed whole (c ∷ cs) =
    if c == b'-'
    then read_unsigned whole true cs
    else if c == b'+'
    then read_unsigned whole false cs
    else read_unsigned whole false (c ∷ cs)

-- `strtoul(s, &e, 10)`: the value, and the string at `e`.
unfoldable pub strtoul : Bytes → ℕ × Bytes
unfolding skip_spaces read_signed
strtoul s = read_signed s (skip_spaces s)
