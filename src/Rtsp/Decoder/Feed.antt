-- ===== src/Rtsp/Decoder/Feed.antt =====
-- `owfd_rtsp_decoder_feed` of src/rtsp_decoder.c over the ring refines the decoder over the list of
-- the bytes that wait in the ring.
use openwfd.Common.{
  ℕ, ◌+◌, ◌-◌, ◌^◌, ◌<◌, ◌≡◌, refl, sym, ap, ◌∙◌, inl, inr, Option, none, some, List, [], ◌∷◌, ◌++◌,
  arith,
}
use openwfd.Common.{length, length-drop, length-append}
use openwfd.Common.Memory.{enomem, Status, fail, Bytes, Malloc, ◌>>=◌, of_list, bytes_of}
use openwfd.Common.Table.{table-get_or}
use openwfd.Ring
use openwfd.Ring.{Ring}
use openwfd.Ring.Pull.{flush_lem}
use openwfd.Ring.Push.{IsPushed, appended, push_lem}
use openwfd.Ring.View.{IsValid, contents, length-contents}
use openwfd.Rtsp.Buffer.{list_buffer, ring_buffer}
use openwfd.Rtsp.Header.{new, Message, Decoder, Answers}
use openwfd.Rtsp.Decoder.{Fed, go, err, feed_char, feed_loop, feed_end, feed}
use openwfd.Rtsp.Decoder.View.{with_ring, view}
use openwfd.Rtsp.Decoder.Simulation.{Views, feed_char-view}
use openwfd.Rtsp.Decoder.Account.{Accounts, feed_char-Accounts}

-- The number of parsed bytes and the bytes to come make up the ring.
abbrev Filled : Decoder Ring → ℕ → Bytes → Type 0
Filled d rlen chs = length (contents d.ring) ≡ rlen + length chs

module _ (answers : ℕ → Answers) (ch : ℕ) (chs : Bytes)
    (ih : (d : Decoder Ring) (n : ℕ) (out : List Message)
      → IsValid d.ring
      → Filled d n chs
      → n + length chs < 2 ^ 63
      → Views
          (feed_loop ring_buffer answers d n chs out)
          (feed_loop list_buffer answers (view d) n chs out)) where
  loop_next :
      (b : Bytes) (rlen : ℕ) (x : Option (Fed Ring)) (y : Option (Fed Bytes)) (out : List Message)
      → length b ≡ rlen + 1 + length chs
      → rlen + 1 + length chs < 2 ^ 63
      → Views x y
      → Accounts b (rlen + 1) y
      → Views
          (x >>= λ r. elim r [
            | err e d ms ↦ some (err e d (out ++ ms))
            | go n d ms ↦
                feed_loop ring_buffer answers (record d { last_chr = ch }) n chs (out ++ ms)
          ])
          (y >>= λ r. elim r [
            | err e d ms ↦ some (err e d (out ++ ms))
            | go n d ms ↦
                feed_loop list_buffer answers (record d { last_chr = ch }) n chs (out ++ ms)
          ])
  loop_next b rlen none y out l w (e, v) k = rw (← e) (refl, tt)
  loop_next b rlen (some (err x d ms)) y out l w (e, v) k = rw (← e) (refl, v)
  loop_next b rlen (some (go n d ms)) y out l w (e, v) k =
      let (j, s, h) = rw (← e) at k in
      let held : length (contents d.ring) ≡ length b - j = ap length h ∙ length-drop j b in
      rw (← e) (ih (record d { last_chr = ch }) n (out ++ ms) v (omega arith) (omega arith))

feed_loop-view :
    (answers : ℕ → Answers) (d : Decoder Ring) (rlen : ℕ) (chs : Bytes) (out : List Message)
    → IsValid d.ring
    → Filled d rlen chs
    → rlen + length chs < 2 ^ 63
    → Views
        (feed_loop ring_buffer answers d rlen chs out)
        (feed_loop list_buffer answers (view d) rlen chs out)
unfolding feed_loop
feed_loop-view answers d rlen [] out v h w = (refl, v)
feed_loop-view answers d rlen (ch ∷ chs) out v h w =
    loop_next (λ i. answers (i + 1)) ch chs
      (λ q n out' v' h' w'. feed_loop-view (λ i. answers (i + 1)) q n chs out' v' h' w')
      (contents d.ring) rlen (feed_char ring_buffer (answers 0) d ch rlen)
      (feed_char list_buffer (answers 0) (view d) ch rlen) out (omega arith) (omega arith)
      (feed_char-view (answers 0) d ch rlen v (omega arith))
      (feed_char-Accounts (answers 0) (view d) ch rlen (omega arith))

abbrev pub Result : Type 0 → Type 0
Result Buf = Option (Status × Decoder Buf × List Message)

abbrev pub view_result : Result Ring → Result Bytes
view_result none = none
view_result (some (s, d, out)) = some (s, view d, out)

abbrev pub ResultValid : Result Ring → Type 0
ResultValid none = Unit
ResultValid (some (s, d, out)) = IsValid d.ring

feed_end_view :
    (x : Option (Fed Ring)) (y : Option (Fed Bytes))
    → Views x y
    → (view_result (feed_end ring_buffer x) ≡ feed_end list_buffer y)
      × ResultValid (feed_end ring_buffer x)
unfolding feed_end
feed_end_view none y (e, v) = rw (← e) (refl, tt)
feed_end_view (some (go n d out)) y (e, v) = rw (← e) (refl, v)
feed_end_view (some (err x d out)) y (e, v) = rw (← e) (
  ap
      (λ t.
        some
          (fail x, with_ring (record d { state = new; last_chr = 0; remaining_body = 0 }) t, out))
      (flush_lem v).1,
  (flush_lem v).0,
)

-- How a call over the ring may end: as over the list, or without memory and unchanged.
pub data Refines (m : Malloc) (d : Decoder Ring) (x : Result Ring) (y : Result Bytes) : Type 0 where
  same : view_result x ≡ y → ResultValid x → Refines m d x y
  no_memory : m ≡ none → x ≡ some (fail enomem, d, []) → Refines m d x y

module _ (m : Malloc) (answers : ℕ → Answers) (d : Decoder Ring) (buf : Bytes) (v : IsValid d.ring)
    (small : Ring.length d.ring + length buf < 2 ^ 63) where
  feed_pushed :
      (out : Status × Ring)
      → Ring.push m d.ring (of_list buf) (length buf) ≡ some out
      → IsPushed m d.ring (bytes_of (of_list buf) (length buf)) out
      → Refines m d
          (feed ring_buffer m answers d buf)
          (feed list_buffer (some (λ _. 0)) answers (view d) buf)
  unfolding feed
  feed_pushed out e (appended {r'} v' c) =
      let c' : contents r' ≡ contents d.ring ++ buf =
        c ∙ ap (λ t. contents d.ring ++ t) (table-get_or buf 0) in
      let q : Decoder Ring = record d { ring = r' } in
      let loop =
        feed_loop-view answers q (Ring.length d.ring) buf [] v'
          (omega (arith, ap length c', length-append (contents d.ring) buf, length-contents d.ring))
          small in
      let (s, v'') =
        feed_end_view (feed_loop ring_buffer answers q (Ring.length d.ring) buf [])
          (feed_loop list_buffer answers (view q) (Ring.length d.ring) buf []) loop in
      same (rw e (s ∙ at_list c')) (rw e v'')
    where
      run : Bytes → ℕ → Result Bytes
      run b n = feed_end list_buffer (feed_loop list_buffer answers (with_ring d b) n buf [])

      at_list :
          {b b' : Bytes} → b ≡ b' → run b (Ring.length d.ring) ≡ run b' (length (contents d.ring))
      at_list {b} {b'} p =
          ap (λ t. run t (Ring.length d.ring)) p ∙ ap (run b') (sym (length-contents d.ring))
  feed_pushed out e (IsPushed.refused (inl f)) = no_memory f (rw e)
  feed_pushed out e (IsPushed.refused (inr h)) =
      absurd (omega (arith, ap length (table-get_or buf 0)))

  -- Over a well-formed ring that makes less than 2 ^ 63 bytes with the new ones,
  -- `owfd_rtsp_decoder_feed` returns the status, hands out the messages and reaches the state of the
  -- decoder over the list of the waiting bytes, and keeps the ring well formed; or, only if `malloc`
  -- fails, it returns -ENOMEM and nothing is changed.
  pub feed-Refines :
      Refines m d
        (feed ring_buffer m answers d buf)
        (feed list_buffer (some (λ _. 0)) answers (view d) buf)
  feed-Refines =
      let (out, e, p) = push_lem m (of_list buf) (length buf) v (omega arith) (omega arith) in
      feed_pushed out e p
