-- ===== src/Rtsp/Decoder/Messages.antt =====
-- A call of owfd_rtsp_decoder_feed of src/rtsp_decoder.c over the ring: no fault, and every message
-- that is handed out is well formed.
use openwfd.Common.{ℕ, ◌+◌, ◌^◌, ◌<◌, ◌≡◌, refl, sym, ◌≢◌, Option, none, some, List, [], ◌∷◌, ◌++◌}
use mathlib.Core.Path.{subst}
use openwfd.Common.{length}
use openwfd.Common.Strings.{none-some}
use openwfd.Common.Memory.{Status, ok, fail, enomem, Bytes, Malloc}
use openwfd.Ring
use openwfd.Ring.{Ring}
use openwfd.Ring.View.{IsValid}
use openwfd.Rtsp.Buffer.{list_buffer, ring_buffer}
use openwfd.Rtsp.Header.{new, Message, Decoder, Answers}
use openwfd.Rtsp.Decoder.{Fed, feed_char, feed_loop, feed_end, feed}
use openwfd.Rtsp.Decoder.Kept.{Fits}
use openwfd.Rtsp.Decoder.Formed.{AllFormed, none_formed, all_append, Sound, goes, stops}
use openwfd.Rtsp.Decoder.Sound.{feed_char-Sound}
use openwfd.Rtsp.Decoder.View.{view}
use openwfd.Rtsp.Decoder.Feed.{
  Result, view_result, ResultValid, Refines, same, no_memory, feed-Refines,
}

-- The rest of the loop is sound from every decoder that fits.
abbrev LoopSound : (ℕ → Answers) → Bytes → Type 0
LoopSound answers chs =
    (dec : Decoder Bytes) (n : ℕ) (out : List Message)
    → Fits dec.header_size dec.msg
    → AllFormed out
    → Sound (feed_loop list_buffer answers dec n chs out)

next-Sound :
    (answers : ℕ → Answers) (dec : Decoder Bytes) (n ch : ℕ) (chs : Bytes) (out : List Message)
    (o : Option (Fed Bytes))
    → LoopSound (λ i. answers (i + 1)) chs
    → Sound o
    → AllFormed out
    → feed_char list_buffer (answers 0) dec ch n ≡ o
    → Sound (feed_loop list_buffer answers dec n (ch ∷ chs) out)
unfolding feed_loop
next-Sound answers dec n ch chs out _ ih (stops e d ms f b) a h =
    rw (feed_loop, h) (stops e d (out ++ ms) f (all_append out ms a b))
next-Sound answers dec n ch chs out _ ih (goes k d ms f b) a h =
    rw (feed_loop, h) (ih (record d { last_chr = ch }) k (out ++ ms) f (all_append out ms a b))

feed_loop-Sound : (answers : ℕ → Answers) (chs : Bytes) → LoopSound answers chs
unfolding feed_loop
feed_loop-Sound answers [] dec n out f a = goes n dec out f a
feed_loop-Sound answers (ch ∷ chs) dec n out f a =
    next-Sound answers dec n ch chs out (feed_char list_buffer (answers 0) dec ch n)
      (feed_loop-Sound (λ i. answers (i + 1)) chs) (feed_char-Sound (answers 0) dec ch n f) a refl

-- A call over the list of bytes that is no fault.
data Delivered : Result Bytes → Type 0 where
  delivered :
      (s : Status) (d : Decoder Bytes) (out : List Message)
      → Fits d.header_size d.msg
      → AllFormed out
      → Delivered (some (s, d, out))

feed_end-Delivered : (o : Option (Fed Bytes)) → Sound o → Delivered (feed_end list_buffer o)
unfolding feed_end
feed_end-Delivered _ (goes n d out f a) = delivered ok d out f a
feed_end-Delivered _ (stops e d out f a) =
    delivered (fail e) (record d { ring = []; state = new; last_chr = 0; remaining_body = 0 }) out f
      a

feed-Delivered :
    (answers : ℕ → Answers) (dec : Decoder Bytes) (buf : Bytes)
    → Fits dec.header_size dec.msg
    → Delivered (feed list_buffer (some (λ _. 0)) answers dec buf)
unfolding feed
feed-Delivered answers dec buf f =
    let d : Decoder Bytes = record dec { ring = dec.ring ++ buf } in
    feed_end-Delivered (feed_loop list_buffer answers d (length dec.ring) buf [])
      (feed_loop-Sound answers buf d (length dec.ring) [] f none_formed)

-- A call over the ring that is no fault.
pub record Safe (x : Result Ring) : Type 0 where
  pub status : Status
  pub decoder : Decoder Ring
  pub messages : List Message
  pub returned : x ≡ some (status, decoder, messages)
  pub valid : IsValid decoder.ring
  pub fits : Fits decoder.header_size decoder.msg
  pub formed : AllFormed messages

not_none : (o : Result Bytes) → Delivered o → o ≢ none
not_none _ (delivered s d out f a) e = none-some (sym e)

Delivered-Safe : (x : Result Ring) → Delivered (view_result x) → ResultValid x → Safe x
Delivered-Safe none d v = absurd (not_none none d refl)
Delivered-Safe (some (s, d, out)) (delivered _ _ _ f a) v = record {
  status = s;
  decoder = d;
  messages = out;
  returned = refl;
  valid = v;
  fits = f;
  formed = a;
}

refined-Safe :
    (m : Malloc) (d : Decoder Ring) (x : Result Ring) (y : Result Bytes)
    → IsValid d.ring
    → Fits d.header_size d.msg
    → Delivered y
    → Refines m d x y
    → Safe x
refined-Safe m d x y v f z (same e w) = Delivered-Safe x (subst Delivered (sym e) z) w
refined-Safe m d x y v f z (no_memory e w) = record {
  status = fail enomem;
  decoder = d;
  messages = [];
  returned = w;
  valid = v;
  fits = f;
  formed = none_formed;
}

pub feed-Safe :
    (m : Malloc) (answers : ℕ → Answers) (d : Decoder Ring) (buf : Bytes)
    → IsValid d.ring
    → Ring.length d.ring + length buf < 2 ^ 63
    → Fits d.header_size d.msg
    → Safe (feed ring_buffer m answers d buf)
feed-Safe m answers d buf v b f =
    refined-Safe m d (feed ring_buffer m answers d buf)
      (feed list_buffer (some (λ _. 0)) answers (view d) buf) v f
      (feed-Delivered answers (view d) buf f) (feed-Refines m answers d buf v b)
