-- ===== src/Rtsp/Decoder/Simulation.antt =====
-- The decoder of src/rtsp_decoder.c over the ring does what it does over the list of the bytes
-- that the ring holds.
use openwfd.Common.{
  ℕ, ◌-◌, ◌^◌, ◌<◌, ◌≡◌, refl, ap, ◌∙◌, inl, inr, not, ◌&&◌, ◌||◌, Option, none, some, [], ◌∷◌,
  arith, ◌==◌, if◌then◌else◌, Bool-cases,
}
use openwfd.Common.{length}
use openwfd.Common.Memory.{Status, ok, fail, add_size, Bytes}
use openwfd.Ring
use openwfd.Ring.{Ring, copy_size}
use openwfd.Ring.Pull.{pull_lem}
use openwfd.Ring.View.{IsValid, contents}
use openwfd.Rtsp.Buffer.{list_buffer, ring_buffer, list_line}
use openwfd.Rtsp.Header.{
  no_message, State, new, header, header_quote, header_nl, body, Decoder, Answers,
}
use openwfd.Rtsp.Decoder.{
  and_then, finish_completed, after_cr, after_nl, to_quote, to_line, after_body, Fed, go, msg_done,
  finish_header_line, feed_char_new, feed_char_header, feed_char_header_quote, finish_body,
  feed_char_body, feed_char_header_nl, feed_in, feed_char,
}
use openwfd.Rtsp.Decoder.View.{
  with_ring, view, view_fed, view_status, FedValid, StatusValid, copy_view, finish_view,
  finish-StatusValid,
}

-- A step and its view, with the ring well formed behind it.
abbrev pub Views : Option (Fed Ring) → Option (Fed Bytes) → Type 0
Views x y = (view_fed x ≡ y) × FedValid x

feed_char_new-view :
    (d : Decoder Ring) (ch rlen : ℕ)
    → IsValid d.ring
    → rlen < 2 ^ 64
    → Views (feed_char_new ring_buffer d ch rlen) (feed_char_new list_buffer (view d) ch rlen)
unfolding feed_char_new
feed_char_new-view d ch rlen v w =
    elim (Bool-cases (ch == b'\r' || ch == b'\n' || ch == b'\t' || ch == b' ')) [
      | inl blank ↦ rw blank (refl, v)
      | inr other ↦ rw other (
        ap (λ t. some (go 1 (with_ring (record d { state = header; remaining_body = 0 }) t) []))
            (pull_lem rlen v w).1,
        (pull_lem rlen v w).0,
      )
    ]

module _ (k : Decoder Ring → Option (Fed Ring)) (k' : Decoder Bytes → Option (Fed Bytes))
    (same : (d : Decoder Ring) → IsValid d.ring → Views (k d) (k' (view d))) where
  and_then_view :
      (x : Option (Status × Decoder Ring)) (y : Option (Status × Decoder Bytes))
      → view_status x ≡ y
      → StatusValid x
      → Views (and_then x k) (and_then y k')
  and_then_view none y e v = rw (← e) (refl, tt)
  and_then_view (some (fail x, d)) y e v = rw (← e) (refl, v)
  and_then_view (some (ok, d)) y e v = rw (← e) (same d v)

  -- To finish a line and go on.
  finish_then :
      (a : Answers) (d : Decoder Ring) (rlen : ℕ)
      → IsValid d.ring
      → rlen < 2 ^ 64
      → Views
          (and_then (finish_header_line ring_buffer a d rlen) k)
          (and_then (finish_header_line list_buffer a (view d) rlen) k')
  finish_then a d rlen v w =
      and_then_view (finish_header_line ring_buffer a d rlen)
        (finish_header_line list_buffer a (view d) rlen) (finish_view a d rlen v w)
        (finish-StatusValid a d rlen v w)

completed_view :
    (k : Decoder Ring → ℕ → Option (Fed Ring)) (k' : Decoder Bytes → ℕ → Option (Fed Bytes))
    → ((q : Decoder Ring) (n : ℕ) → IsValid q.ring → Views (k q n) (k' (view q) n))
    → (a : Answers) (d : Decoder Ring) (rlen : ℕ) → IsValid d.ring
    → rlen < 2 ^ 64
    → Views
        (finish_completed ring_buffer a d rlen k)
        (finish_completed list_buffer a (view d) rlen k')
unfolding finish_completed
completed_view k k' same a d rlen v w =
    elim (Bool-cases (d.last_chr == b'\r' || d.last_chr == b'\n')) [
      | inl ended ↦
          rw ended (finish_then (λ q. k q 0) (λ q. k' q 0) (λ q x. same q 0 x) a d rlen v w)
      | inr inside ↦ rw inside (same d rlen v)
    ]

module _ (d : Decoder Ring) (v : IsValid d.ring) where
  after_cr-view : Views (after_cr ring_buffer d) (after_cr list_buffer (view d))
  unfolding after_cr msg_done
  after_cr-view = elim (Bool-cases (d.remaining_body == 0)) [
    | inl done ↦ rw done (refl, v)
    | inr more ↦ rw more (refl, v)
  ]

  after_nl-view : Views (after_nl ring_buffer d) (after_nl list_buffer (view d))
  unfolding after_nl msg_done
  after_nl-view = elim (Bool-cases (d.remaining_body == 0)) [
    | inl done ↦ rw done (
      ap (λ t. some (go 0 (with_ring (record d { state = new; msg = no_message }) t) (d.msg ∷ [])))
          (pull_lem 1 v (omega arith)).1,
      (pull_lem 1 v (omega arith)).0,
    )
    | inr more ↦ rw more (
      ap (λ t. some (go 0 (with_ring (record d { state = body }) t) []))
          (pull_lem 1 v (omega arith)).1,
      (pull_lem 1 v (omega arith)).0,
    )
  ]

  to_quote-view : (n : ℕ) → Views (to_quote ring_buffer d n) (to_quote list_buffer (view d) n)
  unfolding to_quote
  to_quote-view n = (refl, v)

  to_line-view : (n : ℕ) → Views (to_line ring_buffer d n) (to_line list_buffer (view d) n)
  unfolding to_line
  to_line-view n = (refl, v)

module _ (a : Answers) (d : Decoder Ring) (ch rlen : ℕ) (v : IsValid d.ring)
    (w : rlen < 2 ^ 64) where
  header_cr_view :
      Views
        (and_then
          (finish_header_line ring_buffer a (record d { state = header_nl }) rlen)
          (after_cr ring_buffer))
        (and_then
          (finish_header_line list_buffer a (record (view d) { state = header_nl }) rlen)
          (after_cr list_buffer))
  header_cr_view =
      finish_then (after_cr ring_buffer) (after_cr list_buffer) after_cr-view a
        (record d { state = header_nl }) rlen v w

  feed_char_header-view :
      Views
        (feed_char_header ring_buffer a d ch rlen)
        (feed_char_header list_buffer a (view d) ch rlen)
  unfolding feed_char_header
  feed_char_header-view = elim (Bool-cases (ch == b'\r')) [
    | inl cr ↦ rw cr (elim (Bool-cases (d.last_chr == b'\r' || d.last_chr == b'\n')) [
      | inl ended ↦ rw ended header_cr_view
      | inr inside ↦ rw inside (to_line-view d v rlen)
    ])
    | inr not_cr ↦ rw not_cr (elim (Bool-cases (ch == b'\n')) [
      | inl nl ↦ rw nl (elim (Bool-cases (d.last_chr == b'\n')) [
        | inl ended ↦
            rw ended
              (finish_then (after_nl ring_buffer) (after_nl list_buffer) after_nl-view a d rlen v w)
        | inr inside ↦ rw inside (to_line-view d v rlen)
      ])
      | inr not_nl ↦ rw not_nl (elim (Bool-cases (ch == b'"')) [
        | inl quote ↦ rw quote (
            completed_view (to_quote ring_buffer) (to_quote list_buffer)
              (λ q n x. to_quote-view q x n) a d rlen v w)
        | inr not_quote ↦ rw not_quote (elim (Bool-cases (ch == b'\t' || ch == b' ')) [
          | inl blank ↦ rw blank (to_line-view d v rlen)
          | inr other ↦ rw other (
              completed_view (to_line ring_buffer) (to_line list_buffer)
                (λ q n x. to_line-view q x n) a d rlen v w)
        ])
      ])
    ])
  ]

  feed_char_header_quote-view :
      Views
        (feed_char_header_quote ring_buffer d ch rlen)
        (feed_char_header_quote list_buffer (view d) ch rlen)
  unfolding feed_char_header_quote
  feed_char_header_quote-view = elim (Bool-cases (d.last_chr == b'\\' && not d.quoted)) [
    | inl kept ↦ rw kept (refl, v)
    | inr read ↦ rw read (elim (Bool-cases (ch == b'"')) [
      | inl quote ↦ rw quote (refl, v)
      | inr other ↦ rw other (refl, v)
    ])
  ]

  after_body-view :
      (line : Option Bytes)
      → Views (after_body ring_buffer d rlen line) (after_body list_buffer (view d) rlen line)
  unfolding after_body msg_done
  after_body-view none = (refl, v)
  after_body-view (some bytes) = (
    ap
        (λ t. some (
          go 0 (with_ring (record d { state = new; msg = no_message }) t)
            ((record (d.msg) { content = some bytes; content_len = length bytes }) ∷ [])))
        (pull_lem rlen v w).1,
    (pull_lem rlen v w).0,
  )

  finish_body-view :
      Views (finish_body ring_buffer a d rlen) (finish_body list_buffer a (view d) rlen)
  unfolding finish_body
  finish_body-view =
      rw (copy_view a.line rlen v) (after_body-view (list_line a.line (contents d.ring) rlen))

feed_char_body-view :
    (a : Answers) (d : Decoder Ring) (ch rlen : ℕ)
    → IsValid d.ring
    → rlen < 2 ^ 64
    → Views (feed_char_body ring_buffer a d ch rlen) (feed_char_body list_buffer a (view d) ch rlen)
unfolding feed_char_body
feed_char_body-view a d ch rlen v w = elim (Bool-cases (d.remaining_body == 0)) [
  | inl none_left ↦ rw none_left (feed_char_new-view (record d { state = new }) ch rlen v w)
  | inr more ↦ rw more (elim (Bool-cases (d.remaining_body - 1 == 0)) [
    | inl last ↦ rw last (
        finish_body-view a (record d { remaining_body = d.remaining_body - 1 }) ch (add_size rlen 1)
          v (omega arith))
    | inr inside ↦ rw inside (refl, v)
  ])
]

feed_char_header_nl-view :
    (a : Answers) (d : Decoder Ring) (ch rlen : ℕ)
    → IsValid d.ring
    → rlen < 2 ^ 64
    → Views
        (feed_char_header_nl ring_buffer a d ch rlen)
        (feed_char_header_nl list_buffer a (view d) ch rlen)
unfolding feed_char_header_nl
feed_char_header_nl-view a d ch rlen v w = elim (Bool-cases (ch == b'\n')) [
  | inl nl ↦
      let w' : add_size rlen 1 < 2 ^ 64 = omega arith in
      rw nl (
        ap
            (λ t. some (
              go 0 (with_ring (record d { state = if d.remaining_body == 0 then new else body }) t)
                []))
            (pull_lem (add_size rlen 1) v w').1,
        (pull_lem (add_size rlen 1) v w').0,
      )
  | inr other ↦
      let (valid, held) = pull_lem rlen v w in
      let q = record d { ring = Ring.pull d.ring rlen; state = body } in
      let (same, valid') = feed_char_body-view a q ch 0 valid (omega arith) in
      rw other (
        same
            ∙ ap (λ t. feed_char_body list_buffer a (with_ring (record d { state = body }) t) ch 0)
                held,
        valid',
      )
]

feed_in-view :
    (s : State) (a : Answers) (d : Decoder Ring) (ch rlen : ℕ)
    → IsValid d.ring
    → rlen < 2 ^ 64
    → Views (feed_in ring_buffer s a d ch rlen) (feed_in list_buffer s a (view d) ch rlen)
unfolding feed_in
feed_in-view new a d ch rlen v w = feed_char_new-view d ch rlen v w
feed_in-view header a d ch rlen v w = feed_char_header-view a d ch rlen v w
feed_in-view header_quote a d ch rlen v w = feed_char_header_quote-view a d ch rlen v w
feed_in-view header_nl a d ch rlen v w = feed_char_header_nl-view a d ch rlen v w
feed_in-view body a d ch rlen v w = feed_char_body-view a d ch rlen v w

pub feed_char-view :
    (a : Answers) (d : Decoder Ring) (ch rlen : ℕ)
    → IsValid d.ring
    → rlen < 2 ^ 64
    → Views (feed_char ring_buffer a d ch rlen) (feed_char list_buffer a (view d) ch rlen)
unfolding feed_char
feed_char-view a d ch rlen v w = feed_in-view d.state a d ch rlen v w
