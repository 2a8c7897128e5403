-- ===== src/Rtsp/Decoder/Fresh.antt =====
-- `owfd_rtsp_decoder_new` of src/rtsp_decoder.c, and that the feed function may be called on what it returns.
use openwfd.Common.{ℕ, ◌^◌, ◌<◌, refl, Bool, false, ◌&&◌, Option, none, some, arith, if◌then◌else◌}
use openwfd.Common.{length}
use openwfd.Common.Memory.{Status, ok, fail, enomem, Bytes, Malloc}
use openwfd.Ring
use openwfd.Ring.{Ring, zeroed, clear}
use openwfd.Ring.View.{zeroed-IsValid}
use openwfd.Rtsp.Buffer.{ring_buffer}
use openwfd.Rtsp.Header.{State, no_message, Decoder, Answers}
use openwfd.Rtsp.Decoder.{feed}
use openwfd.Rtsp.Decoder.Kept.{Fits}
use openwfd.Rtsp.Decoder.Messages.{Safe, feed-Safe}

abbrev pub fresh_decoder : Decoder Ring
fresh_decoder = record {
  ring = zeroed;
  state = State.new;
  last_chr = 0;
  remaining_body = 0;
  quoted = false;
  header_size = 8;
  msg = no_message;
}

-- `owfd_rtsp_decoder_new`, with what `calloc` answers for the decoder and its two arrays
unfoldable pub new_decoder : Bool → Bool → Bool → Status × Option (Decoder Ring)
new_decoder dec headers lens =
    if dec && headers && lens then (ok, some fresh_decoder) else (fail enomem, none)

fresh-Fits : Fits 8 no_message
fresh-Fits = record {
  room = omega arith;
  limit = omega arith;
  formed = record { line_lens = refl; content_len = refl };
}

-- Any bytes up to 2 ^ 63 are safe as the first input of a new decoder.
fresh-Safe :
    (m : Malloc) (answers : ℕ → Answers) (buf : Bytes)
    → length buf < 2 ^ 63
    → Safe (feed ring_buffer m answers fresh_decoder buf)
unfolding Ring.length
fresh-Safe m answers buf h =
    feed-Safe m answers fresh_decoder buf zeroed-IsValid (omega arith) fresh-Fits
