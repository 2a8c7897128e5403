-- ===== src/Rtsp/Tests.antt =====
-- Runs of the decoder of src/rtsp_decoder.c, most on inputs of test/test_rtsp.c.
use openwfd.Common.{ℕ, false, true, none, some, List, [], ◌∷◌, ◌++◌, ◌≡◌, refl, length, ◌+◌, arith}
use openwfd.Common.Memory.{ok, Bytes, memcpy}
use openwfd.Common.Text.{codes, starts_with_nocase, strtoul}
use openwfd.Ring
use openwfd.Ring.{Ring, zeroed}
use openwfd.Ring.View.{zeroed-IsValid}
use openwfd.Rtsp.Buffer.{list_buffer, ring_buffer}
use openwfd.Rtsp.Sanitize.{sanitize}
use openwfd.Rtsp.Header.{
  new, Message, no_message, Decoder, Answers, finish_copied, push_header_line, parse_header_line,
}
use openwfd.Rtsp.Decoder.{
  feed, feed_loop, feed_char, feed_char_new, feed_char_header, feed_char_header_quote,
  feed_char_header_nl, feed_char_body, finish_body, after_body, finish_completed, after_cr,
  after_nl, to_quote, to_line, finish_header_line, msg_done,
}
use openwfd.Rtsp.Decoder.Rounds.{preceded}
use openwfd.Rtsp.Decoder.Chunks.{feed_chunks}
use openwfd.Rtsp.Decoder.Feed.{Result, Refines, view_result, feed-Refines}
use openwfd.Rtsp.Decoder.View.{view}

abbrev plenty : ℕ → Answers
plenty i = record { line = some (λ _. 0); grow_header = true; grow_header_len = true }

abbrev fresh : {Buf : Type 0} → Buf → Decoder Buf
fresh b = record {
  ring = b;
  state = new;
  last_chr = 0;
  remaining_body = 0;
  quoted = false;
  header_size = 8;
  msg = no_message;
}

abbrev messages : {Buf : Type 0} → Result Buf → List Message
messages none = []
messages (some (s, d, out)) = out

abbrev decoder_of : {Buf : Type 0} → Buf → Result Buf → Decoder Buf
decoder_of b none = fresh b
decoder_of b (some (s, d, out)) = d

run_list : Bytes → Result Bytes
unfolding feed feed_loop feed_char feed_char_new feed_char_header feed_char_header_quote
    feed_char_header_nl feed_char_body finish_body after_body finish_completed after_cr after_nl
    to_quote to_line finish_header_line msg_done sanitize parse_header_line push_header_line
    finish_copied starts_with_nocase strtoul
run_list bytes = feed list_buffer (some (λ _. 0)) plenty (fresh []) bytes

run_ring : Decoder Ring → Bytes → Result Ring
unfolding feed feed_loop feed_char feed_char_new feed_char_header feed_char_header_quote
    feed_char_header_nl feed_char_body finish_body after_body finish_completed after_cr after_nl
    to_quote to_line finish_header_line msg_done sanitize parse_header_line push_header_line
    finish_copied starts_with_nocase strtoul Ring.push Ring.grow Ring.resize Ring.pow2
    Ring.push_grown Ring.push_tail Ring.pull Ring.copy Ring.length memcpy
run_ring d bytes = feed ring_buffer (some (λ _. 0)) plenty d bytes

abbrev line_message : Bytes → ℕ → Message
line_message line n = record {
  lines = line ∷ [];
  line_lens = n ∷ [];
  content = none;
  content_len = 0;
}

abbrev body_message : Message
body_message = record {
  lines = codes "some-head: buhu" ∷ codes "content-length:10" ∷ [];
  line_lens = 15 ∷ 17 ∷ [];
  content = some (codes "0123456789");
  content_len = 10;
}

no_body_run :
    messages (run_list (codes "some-header\r\n\r\n")) ≡ line_message (codes "some-header") 11 ∷ []
unfolding run_list
no_body_run = refl

two_messages_run :
    messages
      (run_list (codes " \tsome-head: \n\t\r buhu  \ncontent-length:10\n\r\n0123456789a\n\n"))
    ≡ body_message ∷ line_message (codes "a") 1 ∷ []
unfolding run_list
two_messages_run = refl

-- The first chunk of the witness below, over the ring.
abbrev chunk : Bytes
chunk = codes "a\n\nb"

abbrev chunk_result : Result Ring
chunk_result = run_ring (fresh zeroed) chunk

chunk_run :
    run_ring (fresh zeroed) chunk
    ≡ some (ok, decoder_of zeroed chunk_result, line_message (codes "a") 1 ∷ [])
unfolding run_ring
chunk_run = refl

feed-Refines_example :
    Refines none
      (fresh zeroed)
      (feed ring_buffer none plenty (fresh zeroed) chunk)
      (feed list_buffer (some (λ _. 0)) plenty (view (fresh zeroed)) chunk)
unfolding Ring.length
feed-Refines_example = feed-Refines none plenty (fresh zeroed) chunk zeroed-IsValid (omega arith)

-- What waits in the ring behind the first chunk: one byte.
chunk_length : Ring.length (decoder_of zeroed chunk_result).ring ≡ 1
unfolding run_ring
chunk_length = refl

chunk_fed :
    feed ring_buffer (some (λ _. 0)) plenty (fresh zeroed) chunk
    ≡ some (ok, decoder_of zeroed chunk_result, line_message (codes "a") 1 ∷ [])
unfolding run_ring
chunk_fed = refl

feed_chunks_example :
    view_result (feed ring_buffer (some (λ _. 0)) plenty (fresh zeroed) (chunk ++ codes "c\n\n"))
    ≡ preceded (line_message (codes "a") 1 ∷ []) (
        view_result (
          feed ring_buffer
            (some (λ _. 0))
            (λ i. plenty (length chunk + i))
            (decoder_of zeroed chunk_result)
            (codes "c\n\n")))
unfolding Ring.length
feed_chunks_example =
    feed_chunks (λ _. 0) (λ _. 0) (λ _. 0) plenty (fresh zeroed) chunk (codes "c\n\n")
      zeroed-IsValid (omega arith) chunk_fed (omega (arith, chunk_length))
