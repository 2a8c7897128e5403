-- ===== src/Rtsp/Decoder.antt =====
-- The decoder of src/rtsp_decoder.c: a state machine over the bytes of a stream, which hands each
-- complete message to the callback. A call of the callback is modelled by the message it is given.
pub mod Fresh
pub mod View
pub mod Simulation
pub mod Account
pub mod Feed
pub mod Behind
pub mod Rounds
pub mod Chunks
pub mod Kept
pub mod Formed
pub mod Sound
pub mod Messages
use openwfd.Common.{
  ℕ, ◌+◌, ◌-◌, Bool, true, false, not, ◌&&◌, ◌||◌, Option, none, some, List, [], ◌∷◌, ◌++◌, length,
  ◌==◌, if◌then◌else◌,
}
use openwfd.Common.Memory.{Errno, enomem, Status, ok, fail, add_size, Bytes, Malloc, ◌>>=◌}
use openwfd.Rtsp.Buffer.{Buffer}
use openwfd.Rtsp.Header.{
  State, new, header, header_quote, header_nl, body, Message, no_message, Decoder, Answers,
  finish_copied,
}

-- A step over one byte: the new number of parsed bytes that are still in the ring, or an error.
-- Both come with the messages that the callback was given.
pub data Fed (Buf : Type 0) : Type 0 where
  go : ℕ → Decoder Buf → List Message → Fed Buf
  err : Errno → Decoder Buf → List Message → Fed Buf

-- `msg_done`: the message that the callback gets, and the decoder behind the call.
unfoldable pub msg_done : {Buf : Type 0} → Decoder Buf → Decoder Buf × List Message
msg_done dec = (record dec { msg = no_message }, dec.msg ∷ [])

-- Go on with the decoder, or return the error.
abbrev pub and_then :
    {Buf : Type 0}
    → Option (Status × Decoder Buf)
    → (Decoder Buf → Option (Fed Buf))
    → Option (Fed Buf)
and_then none k = none
and_then (some (fail e, dec)) k = some (err e dec [])
and_then (some (ok, dec)) k = k dec

module _ (B : Buffer) where
  open B use {Buf, push, copy, pull, flush}

  -- `owfd_rtsp_decoder_flush`
  unfoldable pub flush_decoder : Decoder Buf → Decoder Buf
  flush_decoder dec = record dec {
    ring = flush dec.ring;
    state = new;
    last_chr = 0;
    remaining_body = 0;
  }

  -- `finish_header_line`
  unfoldable pub finish_header_line : Answers → Decoder Buf → ℕ → Option (Status × Decoder Buf)
  unfolding finish_copied
  finish_header_line a dec rlen = do
    line ← copy a.line dec.ring rlen
    elim line [
      | none ↦ some (fail enomem, dec)
      | some bytes ↦ finish_copied a (record dec { ring = pull dec.ring rlen }) bytes
    ]

  -- `feed_char_new`
  unfoldable pub feed_char_new : Decoder Buf → ℕ → ℕ → Option (Fed Buf)
  feed_char_new dec ch rlen =
      if ch == b'\r' || ch == b'\n' || ch == b'\t' || ch == b' '
      then some (go (add_size rlen 1) dec [])
      else some
          (go 1 (record dec { state = header; remaining_body = 0; ring = pull dec.ring rlen }) [])

  -- Finish the line before the byte if the last byte ended it.
  unfoldable pub finish_completed :
      Answers → Decoder Buf → ℕ → (Decoder Buf → ℕ → Option (Fed Buf)) → Option (Fed Buf)
  finish_completed a dec rlen k =
      if dec.last_chr == b'\r' || dec.last_chr == b'\n'
      then and_then (finish_header_line a dec rlen) (λ d. k d 0)
      else k dec rlen

  -- `feed_char_header`, case '\r' behind an end of line, once the line is finished.
  unfoldable pub after_cr : Decoder Buf → Option (Fed Buf)
  after_cr d =
      if d.remaining_body == 0
      then (let (d', out) = msg_done d in some (go 1 d' out))
      else some (go 1 d [])

  -- `feed_char_header`, case '\n' behind '\n', once the line is finished.
  unfoldable pub after_nl : Decoder Buf → Option (Fed Buf)
  after_nl d =
      if d.remaining_body == 0
      then (let (d', out) = msg_done (record d { state = new }) in
          some (go 0 (record d' { ring = pull d'.ring 1 }) out))
      else some (go 0 (record d { state = body; ring = pull d.ring 1 }) [])

  -- `feed_char_header`, the ends of its case '"' and of its default case.
  unfoldable pub to_quote : Decoder Buf → ℕ → Option (Fed Buf)
  to_quote d n = some (go (add_size n 1) (record d { state = header_quote; quoted = false }) [])

  unfoldable pub to_line : Decoder Buf → ℕ → Option (Fed Buf)
  to_line d n = some (go (add_size n 1) d [])

  -- `feed_char_header`
  unfoldable pub feed_char_header : Answers → Decoder Buf → ℕ → ℕ → Option (Fed Buf)
  feed_char_header a dec ch rlen =
      if ch == b'\r'
      then if dec.last_chr == b'\r' || dec.last_chr == b'\n'
        then and_then (finish_header_line a (record dec { state = header_nl }) rlen) after_cr
        else to_line dec rlen
      else if ch == b'\n'
      then if dec.last_chr == b'\n'
        then and_then (finish_header_line a dec rlen) after_nl
        else to_line dec rlen
      else if ch == b'"'
      then finish_completed a dec rlen to_quote
      else if ch == b'\t' || ch == b' '
      then to_line dec rlen
      else finish_completed a dec rlen to_line

  -- `feed_char_header_quote`
  unfoldable pub feed_char_header_quote : Decoder Buf → ℕ → ℕ → Option (Fed Buf)
  feed_char_header_quote dec ch rlen =
      if dec.last_chr == b'\\' && not dec.quoted
      then some (go (add_size rlen 1) (record dec { quoted = true }) [])
      else if ch == b'"'
      then some (go (add_size rlen 1) (record dec { quoted = false; state = header }) [])
      else some (go (add_size rlen 1) (record dec { quoted = false }) [])

  -- `feed_char_body` behind `shl_ring_copy`, once the body is complete.
  unfoldable pub after_body : Decoder Buf → ℕ → Option Bytes → Option (Fed Buf)
  after_body dec rlen none = some (err enomem dec [])
  after_body dec rlen (some bytes) =
      let (d, out) = msg_done (record dec {
        msg = record (dec.msg) { content = some bytes; content_len = length bytes };
      }) in
      some (go 0 (record d { state = new; ring = pull d.ring rlen }) out)

  unfoldable pub finish_body : Answers → Decoder Buf → ℕ → Option (Fed Buf)
  finish_body a dec rlen = copy a.line dec.ring rlen >>= after_body dec rlen

  -- `feed_char_body`. The count of the body falls only where it is not 0.
  unfoldable pub feed_char_body : Answers → Decoder Buf → ℕ → ℕ → Option (Fed Buf)
  feed_char_body a dec ch rlen =
      if dec.remaining_body == 0
      then feed_char_new (record dec { state = new }) ch rlen
      else let dec' = record dec { remaining_body = dec.remaining_body - 1 } in
        if dec'.remaining_body == 0
        then finish_body a dec' (add_size rlen 1)
        else some (go (add_size rlen 1) dec' [])

  -- `feed_char_header_nl`
  unfoldable pub feed_char_header_nl : Answers → Decoder Buf → ℕ → ℕ → Option (Fed Buf)
  feed_char_header_nl a dec ch rlen =
      if ch == b'\n'
      then some (
          go 0
            (record dec {
              ring = pull dec.ring (add_size rlen 1);
              state = if dec.remaining_body == 0 then new else body;
            })
            [])
      else feed_char_body a (record dec { ring = pull dec.ring rlen; state = body }) ch 0

  -- `feed_char`, the switch on the state.
  unfoldable pub feed_in : State → Answers → Decoder Buf → ℕ → ℕ → Option (Fed Buf)
  feed_in new a dec ch rlen = feed_char_new dec ch rlen
  feed_in header a dec ch rlen = feed_char_header a dec ch rlen
  feed_in header_quote a dec ch rlen = feed_char_header_quote dec ch rlen
  feed_in header_nl a dec ch rlen = feed_char_header_nl a dec ch rlen
  feed_in body a dec ch rlen = feed_char_body a dec ch rlen

  unfoldable pub feed_char : Answers → Decoder Buf → ℕ → ℕ → Option (Fed Buf)
  unfolding feed_in
  feed_char a dec ch rlen = feed_in dec.state a dec ch rlen

  -- The loop of `owfd_rtsp_decoder_feed`; `answers i` is what the allocator says at the i-th byte.
  unfoldable pub feed_loop :
      (ℕ → Answers) → Decoder Buf → ℕ → Bytes → List Message → Option (Fed Buf)
  feed_loop answers dec rlen [] out = some (go rlen dec out)
  feed_loop answers dec rlen (ch ∷ chs) out = do
    r ← feed_char (answers 0) dec ch rlen
    elim r [
      | err e d ms ↦ some (err e d (out ++ ms))
      | go n d ms ↦ feed_loop (λ i. answers (i + 1)) (record d { last_chr = ch }) n chs (out ++ ms)
    ]

  -- What `owfd_rtsp_decoder_feed` returns, behind the loop.
  unfoldable pub feed_end : Option (Fed Buf) → Option (Status × Decoder Buf × List Message)
  unfolding flush_decoder
  feed_end none = none
  feed_end (some (go n dec out)) = some (ok, dec, out)
  feed_end (some (err e dec out)) = some (fail e, flush_decoder dec, out)

  -- `owfd_rtsp_decoder_feed`. If there is no room for the bytes nothing is changed.
  unfoldable pub feed :
      Malloc → (ℕ → Answers) → Decoder Buf → Bytes → Option (Status × Decoder Buf × List Message)
  unfolding feed_end
  feed m answers dec buf = do
    (s, ring') ← push m dec.ring buf
    elim s [
      | fail e ↦ some (fail enomem, record dec { ring = ring' }, [])
      | ok ↦ feed_end (feed_loop answers (record dec { ring = ring' }) (B.length dec.ring) buf [])
    ]
