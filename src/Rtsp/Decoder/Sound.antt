-- ===== src/Rtsp/Decoder/Sound.antt =====
-- Every step of the decoder of src/rtsp_decoder.c over the list of its bytes hands out well-formed
-- messages, keeps room in its arrays and is no fault.
use openwfd.Common.{
  ℕ, ◌-◌, refl, inl, inr, true, false, not, ◌&&◌, ◌||◌, Option, none, some, [], ◌∷◌, ◌==◌,
  if◌then◌else◌, Bool-cases,
}
use openwfd.Common.{length, drop}
use openwfd.Common.Memory.{enomem, add_size, Bytes}
use openwfd.Rtsp.Buffer.{list_buffer, list_line}
use openwfd.Rtsp.Header.{
  State, new, header, header_quote, header_nl, body, Message, no_message, Decoder, Answers,
}
use openwfd.Rtsp.Decoder.{
  msg_done, finish_header_line, feed_char_new, after_cr, after_nl, to_quote, to_line,
  feed_char_header, feed_char_header_quote, after_body, finish_body, feed_char_body,
  feed_char_header_nl, feed_in, feed_char,
}
use openwfd.Rtsp.Decoder.Kept.{WellFormed, Fits}
use openwfd.Rtsp.Decoder.Formed.{
  Sound, and_then-Sound, finish_header_line-Kept, to_line-Sound, to_quote-Sound, emptied,
  one_formed, after_cr-Sound, after_nl-Sound, finish_completed-Sound, none_formed, goes, stops,
}

feed_char_new-Sound :
    (dec : Decoder Bytes) (ch n : ℕ)
    → Fits dec.header_size dec.msg
    → Sound (feed_char_new list_buffer dec ch n)
unfolding feed_char_new
feed_char_new-Sound dec ch n f =
    elim (Bool-cases (ch == b'\r' || ch == b'\n' || ch == b'\t' || ch == b' ')) [
      | inl e ↦ rw e (goes (add_size n 1) dec [] f none_formed)
      | inr e ↦ rw e (
          goes 1 (record dec { state = header; remaining_body = 0; ring = drop n dec.ring }) [] f
            none_formed)
    ]

feed_char_header-Sound :
    (a : Answers) (dec : Decoder Bytes) (ch n : ℕ)
    → Fits dec.header_size dec.msg
    → Sound (feed_char_header list_buffer a dec ch n)
unfolding feed_char_header
feed_char_header-Sound a dec ch n f = elim (Bool-cases (ch == b'\r')) [
  | inl e1 ↦ elim (Bool-cases (dec.last_chr == b'\r' || dec.last_chr == b'\n')) [
    | inl e ↦
        rw (feed_char_header, e1, e)
          (and_then-Sound (finish_header_line list_buffer a (record dec { state = header_nl }) n)
            (after_cr list_buffer)
            (finish_header_line-Kept a (record dec { state = header_nl }) n f) after_cr-Sound)
    | inr e ↦ rw (feed_char_header, e1, e) (to_line-Sound dec n f)
  ]
  | inr e1 ↦ elim (Bool-cases (ch == b'\n')) [
    | inl e2 ↦ elim (Bool-cases (dec.last_chr == b'\n')) [
      | inl e ↦
          rw (feed_char_header, e1, e2, e)
            (and_then-Sound (finish_header_line list_buffer a dec n) (after_nl list_buffer)
              (finish_header_line-Kept a dec n f) after_nl-Sound)
      | inr e ↦ rw (feed_char_header, e1, e2, e) (to_line-Sound dec n f)
    ]
    | inr e2 ↦ elim (Bool-cases (ch == b'"')) [
      | inl e3 ↦
          rw (feed_char_header, e1, e2, e3)
            (finish_completed-Sound a dec n (to_quote list_buffer) f to_quote-Sound)
      | inr e3 ↦ elim (Bool-cases (ch == b'\t' || ch == b' ')) [
        | inl e4 ↦ rw (feed_char_header, e1, e2, e3, e4) (to_line-Sound dec n f)
        | inr e4 ↦
            rw (feed_char_header, e1, e2, e3, e4)
              (finish_completed-Sound a dec n (to_line list_buffer) f to_line-Sound)
      ]
    ]
  ]
]

feed_char_header_quote-Sound :
    (dec : Decoder Bytes) (ch n : ℕ)
    → Fits dec.header_size dec.msg
    → Sound (feed_char_header_quote list_buffer dec ch n)
unfolding feed_char_header_quote
feed_char_header_quote-Sound dec ch n f =
    elim (Bool-cases (dec.last_chr == b'\\' && not dec.quoted)) [
      | inl e ↦ rw e (goes (add_size n 1) (record dec { quoted = true }) [] f none_formed)
      | inr e ↦ elim (Bool-cases (ch == b'"')) [
        | inl e2 ↦
            rw (e, e2)
              (goes (add_size n 1) (record dec { quoted = false; state = header }) [] f none_formed)
        | inr e2 ↦ rw (e, e2) (goes (add_size n 1) (record dec { quoted = false }) [] f none_formed)
      ]
    ]

with_content :
    (size : ℕ) (m : Message) (b : Bytes)
    → Fits size m
    → WellFormed (record m { content = some b; content_len = length b })
with_content size m b f = record { line_lens = f.formed.line_lens; content_len = refl }

after_body-Sound :
    (dec : Decoder Bytes) (n : ℕ) (o : Option Bytes)
    → Fits dec.header_size dec.msg
    → Sound (after_body list_buffer dec n o)
unfolding after_body msg_done
after_body-Sound dec n none f = stops enomem dec [] f none_formed
after_body-Sound dec n (some b) f =
    goes 0 (record dec { msg = no_message; state = new; ring = drop n dec.ring })
      (record (dec.msg) { content = some b; content_len = length b } ∷ [])
      (emptied dec.header_size dec.msg f)
      (one_formed (record (dec.msg) { content = some b; content_len = length b })
        (with_content dec.header_size dec.msg b f))

finish_body-Sound :
    (a : Answers) (dec : Decoder Bytes) (n : ℕ)
    → Fits dec.header_size dec.msg
    → Sound (finish_body list_buffer a dec n)
unfolding finish_body
finish_body-Sound a dec n f = after_body-Sound dec n (list_line a.line dec.ring n) f

feed_char_body-Sound :
    (a : Answers) (dec : Decoder Bytes) (ch n : ℕ)
    → Fits dec.header_size dec.msg
    → Sound (feed_char_body list_buffer a dec ch n)
unfolding feed_char_body
feed_char_body-Sound a dec ch n f = elim (Bool-cases (dec.remaining_body == 0)) [
  | inl e ↦ rw e (feed_char_new-Sound (record dec { state = new }) ch n f)
  | inr e ↦ elim (Bool-cases (dec.remaining_body - 1 == 0)) [
    | inl e2 ↦
        rw (e, e2)
          (finish_body-Sound a (record dec { remaining_body = dec.remaining_body - 1 })
            (add_size n 1) f)
    | inr e2 ↦
        rw (e, e2)
          (goes (add_size n 1) (record dec { remaining_body = dec.remaining_body - 1 }) [] f
            none_formed)
  ]
]

feed_char_header_nl-Sound :
    (a : Answers) (dec : Decoder Bytes) (ch n : ℕ)
    → Fits dec.header_size dec.msg
    → Sound (feed_char_header_nl list_buffer a dec ch n)
unfolding feed_char_header_nl
feed_char_header_nl-Sound a dec ch n f = elim (Bool-cases (ch == b'\n')) [
  | inl e ↦ rw e (
      goes 0
        (record dec {
          ring = drop (add_size n 1) dec.ring;
          state = if dec.remaining_body == 0 then new else body;
        })
        [] f none_formed)
  | inr e ↦
      rw e (feed_char_body-Sound a (record dec { ring = drop n dec.ring; state = body }) ch 0 f)
]

feed_in-Sound :
    (s : State) (a : Answers) (dec : Decoder Bytes) (ch n : ℕ)
    → Fits dec.header_size dec.msg
    → Sound (feed_in list_buffer s a dec ch n)
unfolding feed_in
feed_in-Sound new a dec ch n f = feed_char_new-Sound dec ch n f
feed_in-Sound header a dec ch n f = feed_char_header-Sound a dec ch n f
feed_in-Sound header_quote a dec ch n f = feed_char_header_quote-Sound dec ch n f
feed_in-Sound header_nl a dec ch n f = feed_char_header_nl-Sound a dec ch n f
feed_in-Sound body a dec ch n f = feed_char_body-Sound a dec ch n f

pub feed_char-Sound :
    (a : Answers) (dec : Decoder Bytes) (ch n : ℕ)
    → Fits dec.header_size dec.msg
    → Sound (feed_char list_buffer a dec ch n)
unfolding feed_char
feed_char-Sound a dec ch n f = feed_in-Sound dec.state a dec ch n f
