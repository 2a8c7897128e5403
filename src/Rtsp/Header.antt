-- ===== src/Rtsp/Header.antt =====
-- The decoder's state and the header lines of src/rtsp_decoder.c: reading a finished line, and
-- adding it to the message.
use openwfd.Common.{
  ℕ, ◌+◌, ◌/◌, ◌^◌, Bool, true, false, not, ◌&&◌, ◌||◌, Option, none, some, List, [], ◌∷◌, ◌++◌,
  length, drop, ltb, ◌==◌, if◌then◌else◌,
}
use openwfd.Common.Memory.{enomem, einval, Status, ok, fail, mul_size, Bytes, Malloc}
use openwfd.Common.Text.{codes, starts_with_nocase, strtoul}
use openwfd.Rtsp.Sanitize.{sanitize}

-- `enum state`
pub data State : Type 0 where
  new header header_quote header_nl body : State

-- `struct owfd_rtsp_msg`. The arrays are the lists of their first `header_num` entries; the entry
-- behind them is NULL, or 0.
pub record Message : Type 0 where
  pub lines : List Bytes
  pub line_lens : List ℕ
  pub content : Option Bytes
  pub content_len : ℕ

abbrev pub no_message : Message
no_message = record { lines = []; line_lens = []; content = none; content_len = 0 }

-- `struct owfd_rtsp_decoder`, without the callback and its data.
pub record Decoder (Buf : Type 0) : Type 0 where
  pub ring : Buf
  pub state : State
  pub last_chr : ℕ
  pub remaining_body : ℕ
  pub quoted : Bool
  pub header_size : ℕ
  pub msg : Message

-- What the allocator answers at one byte: the copy of a line or body, and the two calls of
-- `realloc` of `push_header_line`.
pub record Answers : Type 0 where
  pub line : Malloc
  pub grow_header : Bool
  pub grow_header_len : Bool

-- `realloc` for `n` entries of 8 bytes; the product wraps. Whatever `realloc` answers, no object has 2^63
-- bytes or more.
abbrev pub resized : Bool → ℕ → Bool
resized answer n = answer && ltb (mul_size 8 n) (2 ^ 63)

-- The entries that such a block has room for.
abbrev pub slots : ℕ → ℕ
slots n = mul_size 8 n / 8

-- The number of slots of the two arrays after `push_header_line` has made room.
unfoldable pub grow_headers : Answers → ℕ → ℕ → Option ℕ
grow_headers a header_size header_num =
    let n = mul_size header_size 2 in
    if header_size == header_num + 2
    then if ltb n header_size || not (resized a.grow_header n) || not (resized a.grow_header_len n)
      then none
      else some n
    else some header_size

-- `push_header_line`: the outer `none` is a write behind the end of the arrays.
unfoldable pub push_header_line :
    {Buf : Type 0} → Answers → Decoder Buf → Bytes → ℕ → Option (Status × Decoder Buf)
unfolding grow_headers
push_header_line a dec line len = elim (grow_headers a dec.header_size (length dec.msg.lines)) [
  | none ↦ some (fail enomem, dec)
  | some n ↦
      if ltb (length dec.msg.lines + 1) (slots n)
      then some (
        ok,
        record dec {
          header_size = n;
          msg = record (dec.msg) {
            lines = dec.msg.lines ++ line ∷ [];
            line_lens = dec.msg.line_lens ++ len ∷ [];
          };
        },
      )
      else none
]

abbrev is_empty : Bytes → Bool
is_empty [] = true
is_empty (_ ∷ _) = false

-- `parse_header_line`, at the rest of a line behind "content-length:" and what `strtoul` makes of it.
unfoldable pub set_content_length :
    {Buf : Type 0} → Decoder Buf → Bytes → ℕ × Bytes → Status × Decoder Buf
set_content_length dec value (l, e) =
    if is_empty value || not (is_empty e)
    then (fail einval, dec)
    else if not (dec.remaining_body == 0) && not (dec.remaining_body == l)
    then (fail einval, dec)
    else (ok, record dec { remaining_body = l })

unfoldable pub parse_header_line : {Buf : Type 0} → Decoder Buf → Bytes → Status × Decoder Buf
unfolding set_content_length
parse_header_line dec line =
    if starts_with_nocase (codes "content-length:") line
    then set_content_length dec (drop 15 line) (strtoul (drop 15 line))
    else (ok, dec)

-- `finish_header_line` behind `shl_ring_copy`.
unfoldable pub finish_copied :
    {Buf : Type 0} → Answers → Decoder Buf → Bytes → Option (Status × Decoder Buf)
finish_copied a dec copy =
    let line = sanitize copy in
    let (s, dec') = parse_header_line dec line in
    elim s [ fail e ↦ some (fail e, dec') | ok ↦ push_header_line a dec' line (length line) ]
