-- ===== src/Rtsp/Decoder/Chunks.antt =====
-- How the bytes of a stream are cut into calls of `owfd_rtsp_decoder_feed`, in src/rtsp_decoder.c,
-- makes no difference.
use openwfd.Common.{
  ℕ, ◌+◌, ◌^◌, ◌<◌, ◌≡◌, refl, sym, ap, ◌∙◌, Option, some, List, [], ◌++◌, append-nil, append_assoc,
  arith,
}
use openwfd.Common.{length, length-append}
use openwfd.Common.Memory.{ok, Bytes}
use openwfd.Ring
use openwfd.Ring.{Ring}
use openwfd.Ring.View.{IsValid, length-contents}
use openwfd.Rtsp.Buffer.{list_buffer, ring_buffer}
use openwfd.Rtsp.Header.{Message, Decoder, Answers}
use openwfd.Rtsp.Decoder.{Fed, go, feed_loop, feed_end, feed}
use openwfd.Rtsp.Decoder.View.{with_ring, view}
use openwfd.Rtsp.Decoder.Behind.{behind}
use openwfd.Rtsp.Decoder.Feed.{
  Result, view_result, ResultValid, Refines, same, no_memory, feed-Refines,
}
use openwfd.Rtsp.Decoder.Rounds.{
  Counted, feed_loop-Counted, feed_loop-handed, go_on, feed_loop_split, preceded, feed_end-handed,
  feed_end-ok,
}

module _ (m : ℕ → ℕ) (answers : ℕ → Answers) (d : Decoder Bytes) (xs ys : Bytes)
    (small : length d.ring + length (xs ++ ys) < 2 ^ 63) where
  abbrev later : ℕ → Answers
  later i = answers (length xs + i)

  abbrev loaded : Decoder Bytes
  loaded = record d { ring = d.ring ++ xs }

  abbrev first : Option (Fed Bytes)
  first = feed_loop list_buffer answers loaded (length d.ring) xs []

  both_split :
      feed_loop list_buffer answers
        (record d { ring = d.ring ++ (xs ++ ys) })
        (length d.ring)
        (xs ++ ys)
        []
      ≡ go_on later ys first
  both_split =
      ap (λ t. feed_loop list_buffer answers (with_ring d t) (length d.ring) (xs ++ ys) [])
        (sym (append_assoc d.ring xs ys))
      ∙ feed_loop_split later ys answers loaded (length d.ring) xs [] (λ i. refl)
          (length-append d.ring xs) (omega (arith, length-append xs ys))

  both_lem :
      feed list_buffer (some m) answers d (xs ++ ys) ≡ feed_end list_buffer (go_on later ys first)
  unfolding feed
  both_lem = ap (feed_end list_buffer) both_split

  first_end : feed list_buffer (some m) answers d xs ≡ feed_end list_buffer first
  unfolding feed
  first_end = refl

  second_lem :
      (n : ℕ) (d' : Decoder Bytes) (out : List Message)
      → length d'.ring ≡ n
      → feed_end list_buffer (feed_loop list_buffer later (behind ys d') n ys out)
        ≡ preceded out (feed list_buffer (some m) later d' ys)
  unfolding feed
  second_lem n d' out e =
      ap (λ t. feed_end list_buffer (feed_loop list_buffer later (behind ys d') t ys out)) (sym e)
      ∙ ap
          (λ t.
            feed_end list_buffer (feed_loop list_buffer later (behind ys d') (length d'.ring) ys t))
          (sym (append-nil out))
      ∙ ap (feed_end list_buffer) (feed_loop-handed later (behind ys d') (length d'.ring) ys out [])
      ∙ feed_end-handed out (feed_loop list_buffer later (behind ys d') (length d'.ring) ys [])

  counted :
      (n : ℕ) (d' : Decoder Bytes) (out : List Message)
      → first ≡ some (go n d' out)
      → length d'.ring ≡ n
  counted n d' out e =
      unfold Counted in
      (rw e at (
        feed_loop-Counted answers loaded (length d.ring) xs [] (length-append d.ring xs)
          (omega (arith, length-append xs ys))))

  -- Two chunks over the list.
  list_chunks :
      {d' : Decoder Bytes} {out : List Message}
      → feed list_buffer (some m) answers d xs ≡ some (ok, d', out)
      → feed list_buffer (some m) answers d (xs ++ ys)
        ≡ preceded out (feed list_buffer (some m) later d' ys)
  list_chunks {d'} {out} e =
      let (n, e') = feed_end-ok first (sym first_end ∙ e) in
      both_lem
      ∙ ap (λ t. feed_end list_buffer (go_on later ys t)) e'
      ∙ second_lem n d' out (counted n d' out e')

-- Over a ring, with memory for the bytes.
refined :
    {fresh : ℕ → ℕ} {d : Decoder Ring} {x : Result Ring} {y : Result Bytes}
    → Refines (some fresh) d x y
    → (view_result x ≡ y) × ResultValid x
refined (same e v) = (e, v)
refined (no_memory e _) = cc

-- If `owfd_rtsp_decoder_feed` takes a first chunk with no error, then to feed it and a second chunk
-- in two calls gives the status, the decoder, the waiting bytes and the messages that one call with
-- both chunks gives, errors in the second chunk included. It is supposed that `malloc` has room for
-- the ring, that the ring is well formed and makes less than 2 ^ 63 bytes with both chunks, and that
-- what waits behind the first chunk does so with the second.
pub feed_chunks :
    (m1 m2 m3 : ℕ → ℕ) (answers : ℕ → Answers) (d : Decoder Ring) (xs ys : Bytes)
    → IsValid d.ring
    → Ring.length d.ring + length xs + length ys < 2 ^ 63
    → {d' : Decoder Ring} {out : List Message}
    → feed ring_buffer (some m1) answers d xs ≡ some (ok, d', out)
    → Ring.length d'.ring + length ys < 2 ^ 63
    → view_result (feed ring_buffer (some m3) answers d (xs ++ ys))
      ≡ preceded out (view_result (feed ring_buffer (some m2) (λ i. answers (length xs + i)) d' ys))
feed_chunks m1 m2 m3 answers d xs ys v small {d'} {out} e small' =
    let all_small : Ring.length d.ring + length (xs ++ ys) < 2 ^ 63 =
      omega (arith, length-append xs ys) in
    let (one, v1) = refined (feed-Refines (some m1) answers d xs v (omega arith)) in
    let (both, v3) = refined (feed-Refines (some m3) answers d (xs ++ ys) v all_small) in
    let v' : IsValid d'.ring = rw e at v1 in
    let (two, v2) =
      refined (feed-Refines (some m2) (λ i. answers (length xs + i)) d' ys v' small') in
    both
    ∙ list_chunks (λ _. 0) answers (view d) xs ys
        (omega (arith, length-contents d.ring, length-append xs ys)) (sym one ∙ ap view_result e)
    ∙ ap (preceded out) (sym two)
