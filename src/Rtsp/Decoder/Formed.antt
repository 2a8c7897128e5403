-- ===== src/Rtsp/Decoder/Formed.antt =====
-- What a step of the decoder of src/rtsp_decoder.c gives, and the ends of header lines.
use openwfd.Common.{
  ℕ, refl, inl, inr, false, ◌||◌, Option, some, List, [], ◌∷◌, ◌++◌, arith, ◌==◌, Bool-cases,
  Option-cases,
}
use openwfd.Common.{take, drop}
use openwfd.Common.Memory.{Status, ok, fail, enomem, Errno, add_size, Bytes}
use openwfd.Rtsp.Buffer.{list_buffer}
use openwfd.Rtsp.Header.{new, header_quote, body, Message, no_message, Decoder, Answers}
use openwfd.Rtsp.Decoder.{
  Fed, go, err, msg_done, and_then, finish_header_line, finish_completed, after_cr, after_nl,
  to_quote, to_line,
}
use openwfd.Rtsp.Decoder.Kept.{WellFormed, Fits, Kept, kept, finish_copied-Kept}

pub data AllFormed : List Message → Type 0 where
  none_formed : AllFormed []
  and_formed : (m : Message) (ms : List Message) → WellFormed m → AllFormed ms → AllFormed (m ∷ ms)

pub all_append : (xs ys : List Message) → AllFormed xs → AllFormed ys → AllFormed (xs ++ ys)
all_append [] ys a b = b
all_append _ ys (and_formed m ms w a) b = and_formed m (ms ++ ys) w (all_append ms ys a b)

-- A step that is no fault.
pub data Sound : Option (Fed Bytes) → Type 0 where
  goes :
      (n : ℕ) (d : Decoder Bytes) (out : List Message)
      → Fits d.header_size d.msg
      → AllFormed out
      → Sound (some (go n d out))
  stops :
      (e : Errno) (d : Decoder Bytes) (out : List Message)
      → Fits d.header_size d.msg
      → AllFormed out
      → Sound (some (err e d out))

pub and_then-Sound :
    (o : Option (Status × Decoder Bytes)) (k : Decoder Bytes → Option (Fed Bytes))
    → Kept o
    → ((d : Decoder Bytes) → Fits d.header_size d.msg → Sound (k d))
    → Sound (and_then o k)
and_then-Sound _ k (kept ok d f) s = s d f
and_then-Sound _ k (kept (fail e) d f) s = stops e d [] f none_formed

pub finish_header_line-Kept :
    (a : Answers) (dec : Decoder Bytes) (n : ℕ)
    → Fits dec.header_size dec.msg
    → Kept (finish_header_line list_buffer a dec n)
unfolding finish_header_line
finish_header_line-Kept a dec n f = elim (Option-cases a.line) [
  | inl e ↦ rw (finish_header_line, e) (kept (fail enomem) dec f)
  | inr (x, e) ↦
      rw (finish_header_line, e)
        (finish_copied-Kept a (record dec { ring = drop n dec.ring }) (take n dec.ring) f)
]

pub to_line-Sound :
    (d : Decoder Bytes) (n : ℕ) → Fits d.header_size d.msg → Sound (to_line list_buffer d n)
unfolding to_line
to_line-Sound d n f = goes (add_size n 1) d [] f none_formed

pub to_quote-Sound :
    (d : Decoder Bytes) (n : ℕ) → Fits d.header_size d.msg → Sound (to_quote list_buffer d n)
unfolding to_quote
to_quote-Sound d n f =
    goes (add_size n 1) (record d { state = header_quote; quoted = false }) [] f none_formed

-- The message given out, and the decoder behind it.
pub emptied : (size : ℕ) (m : Message) → Fits size m → Fits size no_message
emptied size m f = record {
  room = omega (arith, f.room);
  limit = f.limit;
  formed = record { line_lens = refl; content_len = refl };
}

pub one_formed : (m : Message) → WellFormed m → AllFormed (m ∷ [])
one_formed m w = and_formed m [] w none_formed

pub after_cr-Sound : (d : Decoder Bytes) → Fits d.header_size d.msg → Sound (after_cr list_buffer d)
unfolding after_cr msg_done
after_cr-Sound d f = elim (Bool-cases (d.remaining_body == 0)) [
  | inl e ↦ rw e (
      goes 1 (record d { msg = no_message }) (d.msg ∷ []) (emptied d.header_size d.msg f)
        (one_formed d.msg f.formed))
  | inr e ↦ rw e (goes 1 d [] f none_formed)
]

pub after_nl-Sound : (d : Decoder Bytes) → Fits d.header_size d.msg → Sound (after_nl list_buffer d)
unfolding after_nl msg_done
after_nl-Sound d f = elim (Bool-cases (d.remaining_body == 0)) [
  | inl e ↦ rw e (
      goes 0 (record d { state = new; msg = no_message; ring = drop 1 d.ring }) (d.msg ∷ [])
        (emptied d.header_size d.msg f) (one_formed d.msg f.formed))
  | inr e ↦ rw e (goes 0 (record d { state = body; ring = drop 1 d.ring }) [] f none_formed)
]

pub finish_completed-Sound :
    (a : Answers) (dec : Decoder Bytes) (n : ℕ) (k : Decoder Bytes → ℕ → Option (Fed Bytes))
    → Fits dec.header_size dec.msg
    → ((d : Decoder Bytes) (n : ℕ) → Fits d.header_size d.msg → Sound (k d n))
    → Sound (finish_completed list_buffer a dec n k)
unfolding finish_completed
finish_completed-Sound a dec n k f s =
    elim (Bool-cases (dec.last_chr == b'\r' || dec.last_chr == b'\n')) [
      | inl e ↦ rw e (
          and_then-Sound (finish_header_line list_buffer a dec n) (λ d. k d 0)
            (finish_header_line-Kept a dec n f) (λ d g. s d 0 g))
      | inr e ↦ rw e (s dec n f)
    ]
