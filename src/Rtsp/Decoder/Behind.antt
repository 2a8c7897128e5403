-- ===== src/Rtsp/Decoder/Behind.antt =====
-- The decoder of src/rtsp_decoder.c does not look behind the byte that it is fed: bytes that wait
-- in the queue behind it stay there and change nothing else.
use openwfd.Common.{
  ℕ, ◌+◌, ◌-◌, ◌^◌, ◌≤◌, ◌<◌, ◌≡◌, refl, sym, ap, ◌∙◌, inl, inr, ◌||◌, Option, none, some, [], ◌∷◌,
  ◌++◌, arith, ◌==◌, if◌then◌else◌, Bool-cases,
}
use openwfd.Common.{drop, length, length-drop, take-append, drop-append}
use openwfd.Common.Memory.{enomem, Status, ok, fail, add_size, Bytes, Malloc}
use openwfd.Rtsp.Buffer.{list_buffer, list_line}
use openwfd.Rtsp.Header.{
  no_message, State, new, header, header_quote, header_nl, body, Decoder, Answers, finish_copied,
}
use openwfd.Rtsp.Decoder.{
  Fed, go, err, msg_done, and_then, finish_completed, after_cr, after_nl, to_quote, to_line,
  after_body, finish_header_line, feed_char_new, feed_char_header, feed_char_header_quote,
  finish_body, feed_char_body, feed_char_header_nl, feed_in, feed_char,
}
use openwfd.Rtsp.Decoder.View.{
  with_ring, map_status, SameRing, finish_copied-SameRing, finish_copied-with_ring,
}

module _ (ys : Bytes) where
  -- The decoder with more bytes behind those in its queue.
  abbrev pub behind : Decoder Bytes → Decoder Bytes
  behind d = with_ring d (d.ring ++ ys)

  abbrev pub extend : Option (Fed Bytes) → Option (Fed Bytes)
  extend none = none
  extend (some (go n d out)) = some (go n (behind d) out)
  extend (some (err e d out)) = some (err e (behind d) out)

  SameRing-behind :
      (b : Bytes) (x : Option (Status × Decoder Bytes))
      → SameRing b x
      → map_status behind x ≡ map_status (λ d. with_ring d (b ++ ys)) x
  SameRing-behind b none h = refl
  SameRing-behind b (some (s, d)) h = ap (λ t. some (s, with_ring d (t ++ ys))) h

  abbrev OneMore : Option (Status × Decoder Bytes) → Type 0
  OneMore none = Unit
  OneMore (some (s, d)) = 1 ≤ length d.ring

  module _ (a : Answers) (d : Decoder Bytes) (rlen : ℕ) (h : rlen < length d.ring) where
    pulled : Bytes
    pulled = drop rlen d.ring

    line_behind : list_line a.line (d.ring ++ ys) rlen ≡ list_line a.line d.ring rlen
    line_behind = at a.line
      where
        at : (m : Malloc) → list_line m (d.ring ++ ys) rlen ≡ list_line m d.ring rlen
        at none = refl
        at (some f) = ap some (take-append rlen d.ring ys (omega arith))

    finish_line_behind :
        (line : Option Bytes)
        → (elim line [
          | none ↦ some (fail enomem, behind d)
          | some bytes ↦
              finish_copied a (record (behind d) { ring = drop rlen (d.ring ++ ys) }) bytes
        ])
          ≡ map_status behind (elim line [
            | none ↦ some (fail enomem, d)
            | some bytes ↦ finish_copied a (record d { ring = drop rlen d.ring }) bytes
          ])
    finish_line_behind none = refl
    finish_line_behind (some bytes) =
        let q : Decoder Bytes = record d { ring = drop rlen d.ring } in
        ap (λ t. finish_copied a (with_ring d t) bytes) (drop-append rlen d.ring ys (omega arith))
        ∙ finish_copied-with_ring a q (drop rlen d.ring ++ ys) bytes
        ∙ sym (
            SameRing-behind (drop rlen d.ring) (finish_copied a q bytes)
              (finish_copied-SameRing a q bytes))

    finish_behind :
        finish_header_line list_buffer a (behind d) rlen
        ≡ map_status behind (finish_header_line list_buffer a d rlen)
    unfolding finish_header_line
    finish_behind = rw line_behind (finish_line_behind (list_line a.line d.ring rlen))

    one_more : (x : Option (Status × Decoder Bytes)) → SameRing (drop rlen d.ring) x → OneMore x
    one_more none e = tt
    one_more (some (s, q)) e = omega (arith, ap length e, length-drop rlen d.ring)

    finish-OneMore : OneMore (finish_header_line list_buffer a d rlen)
    unfolding finish_header_line
    finish-OneMore = line (list_line a.line d.ring rlen)
      where
        line :
            (l : Option Bytes)
            → OneMore (elim l [
              | none ↦ some (fail enomem, d)
              | some bytes ↦ finish_copied a (record d { ring = drop rlen d.ring }) bytes
            ])
        line none = omega arith
        line (some bytes) =
            one_more (finish_copied a (record d { ring = drop rlen d.ring }) bytes)
              (finish_copied-SameRing a (record d { ring = drop rlen d.ring }) bytes)

  -- A continuation that takes one byte at most.
  Behind : (Decoder Bytes → Option (Fed Bytes)) → Type 0
  Behind f = (d : Decoder Bytes) → 1 ≤ length d.ring → f (behind d) ≡ extend (f d)

  and_then-behind :
      (f : Decoder Bytes → Option (Fed Bytes)) (x : Option (Status × Decoder Bytes))
      → Behind f
      → OneMore x
      → and_then (map_status behind x) f ≡ extend (and_then x f)
  unfolding Behind
  and_then-behind f none h p = refl
  and_then-behind f (some (fail e, d)) h p = refl
  and_then-behind f (some (ok, d)) h p = h d p

  finish_then_behind :
      (f : Decoder Bytes → Option (Fed Bytes)) (a : Answers) (d : Decoder Bytes) (rlen : ℕ)
      → Behind f
      → rlen < length d.ring
      → and_then (finish_header_line list_buffer a (behind d) rlen) f
        ≡ extend (and_then (finish_header_line list_buffer a d rlen) f)
  finish_then_behind f a d rlen h p =
      ap (λ t. and_then t f) (finish_behind a d rlen p)
      ∙ and_then-behind f (finish_header_line list_buffer a d rlen) h (finish-OneMore a d rlen p)

  after_cr-Behind : Behind (after_cr list_buffer)
  unfolding Behind after_cr msg_done
  after_cr-Behind d h = ground arith

  after_nl-Behind : Behind (after_nl list_buffer)
  unfolding Behind after_nl msg_done
  after_nl-Behind d h = ground (arith, drop-append 1 d.ring ys h)

  to_quote-Behind : (n : ℕ) → Behind (λ d. to_quote list_buffer d n)
  unfolding Behind to_quote
  to_quote-Behind n d h = refl

  to_line-Behind : (n : ℕ) → Behind (λ d. to_line list_buffer d n)
  unfolding Behind to_line
  to_line-Behind n d h = refl

  completed_behind :
      (f : Decoder Bytes → ℕ → Option (Fed Bytes))
      → ((n : ℕ) → Behind (λ d. f d n))
      → (a : Answers) (d : Decoder Bytes) (rlen : ℕ) → rlen < length d.ring
      → finish_completed list_buffer a (behind d) rlen f
        ≡ extend (finish_completed list_buffer a d rlen f)
  unfolding finish_completed Behind
  completed_behind f h a d rlen p = elim (Bool-cases (d.last_chr == b'\r' || d.last_chr == b'\n')) [
    | inl ended ↦ rw ended (finish_then_behind (λ q. f q 0) a d rlen (h 0) p)
    | inr inside ↦ rw inside (h rlen d (omega arith))
  ]

  module _ (a : Answers) (d : Decoder Bytes) (ch rlen : ℕ) (p : rlen < length d.ring) where
    header_behind :
        feed_char_header list_buffer a (behind d) ch rlen
        ≡ extend (feed_char_header list_buffer a d ch rlen)
    unfolding feed_char_header Behind
    header_behind =
        let line = to_line-Behind rlen d (omega arith) in
        elim (Bool-cases (ch == b'\r')) [
          | inl cr ↦ rw cr (elim (Bool-cases (d.last_chr == b'\r' || d.last_chr == b'\n')) [
            | inl ended ↦ rw ended (
                finish_then_behind (after_cr list_buffer) a (record d { state = header_nl }) rlen
                  after_cr-Behind p)
            | inr inside ↦ rw inside line
          ])
          | inr not_cr ↦ rw not_cr (elim (Bool-cases (ch == b'\n')) [
            | inl nl ↦ rw nl (elim (Bool-cases (d.last_chr == b'\n')) [
              | inl ended ↦
                  rw ended (finish_then_behind (after_nl list_buffer) a d rlen after_nl-Behind p)
              | inr inside ↦ rw inside line
            ])
            | inr not_nl ↦ rw not_nl (elim (Bool-cases (ch == b'"')) [
              | inl quote ↦
                  rw quote (completed_behind (to_quote list_buffer) to_quote-Behind a d rlen p)
              | inr not_quote ↦ rw not_quote (elim (Bool-cases (ch == b'\t' || ch == b' ')) [
                | inl blank ↦ rw blank line
                | inr other ↦
                    rw other (completed_behind (to_line list_buffer) to_line-Behind a d rlen p)
              ])
            ])
          ])
        ]

    new_behind :
        feed_char_new list_buffer (behind d) ch rlen ≡ extend (feed_char_new list_buffer d ch rlen)
    unfolding feed_char_new
    new_behind = elim (Bool-cases (ch == b'\r' || ch == b'\n' || ch == b'\t' || ch == b' ')) [
      | inl blank ↦ rw blank
      | inr other ↦ rw other (
          ap (λ t. some (go 1 (with_ring (record d { state = header; remaining_body = 0 }) t) []))
            (drop-append rlen d.ring ys (omega arith)))
    ]

    quote_behind :
        feed_char_header_quote list_buffer (behind d) ch rlen
        ≡ extend (feed_char_header_quote list_buffer d ch rlen)
    unfolding feed_char_header_quote
    quote_behind = ground arith

  after_body-behind :
      (d : Decoder Bytes) (n : ℕ) (line : Option Bytes)
      → n ≤ length d.ring
      → after_body list_buffer (behind d) n line ≡ extend (after_body list_buffer d n line)
  unfolding after_body msg_done
  after_body-behind d n none h = refl
  after_body-behind d n (some bytes) h =
      ap
        (λ t. some (
          go 0 (with_ring (record d { state = new; msg = no_message }) t)
            ((record (d.msg) { content = some bytes; content_len = length bytes }) ∷ [])))
        (drop-append n d.ring ys h)

  finish_body-behind :
      (a : Answers) (d : Decoder Bytes) (n : ℕ)
      → n ≤ length d.ring
      → finish_body list_buffer a (behind d) n ≡ extend (finish_body list_buffer a d n)
  unfolding finish_body
  finish_body-behind a d n h =
      ap (after_body list_buffer (behind d) n) (at a.line)
      ∙ after_body-behind d n (list_line a.line d.ring n) h
    where
      at : (m : Malloc) → list_line m (d.ring ++ ys) n ≡ list_line m d.ring n
      at none = refl
      at (some f) = ap some (take-append n d.ring ys h)

  body_behind :
      (a : Answers) (d : Decoder Bytes) (ch rlen : ℕ)
      → rlen < length d.ring
      → rlen + 1 < 2 ^ 64
      → feed_char_body list_buffer a (behind d) ch rlen
        ≡ extend (feed_char_body list_buffer a d ch rlen)
  unfolding feed_char_body
  body_behind a d ch rlen p w = elim (Bool-cases (d.remaining_body == 0)) [
    | inl none_left ↦ rw none_left (new_behind a (record d { state = new }) ch rlen p)
    | inr more ↦ rw more (elim (Bool-cases (d.remaining_body - 1 == 0)) [
      | inl last ↦ rw last (
          finish_body-behind a (record d { remaining_body = d.remaining_body - 1 })
            (add_size rlen 1) (omega arith))
      | inr inside ↦ rw inside
    ])
  ]

  module _ (a : Answers) (d : Decoder Bytes) (ch rlen : ℕ) (p : rlen < length d.ring)
      (w : rlen + 1 < 2 ^ 64) where
    nl_behind :
        feed_char_header_nl list_buffer a (behind d) ch rlen
        ≡ extend (feed_char_header_nl list_buffer a d ch rlen)
    unfolding feed_char_header_nl
    nl_behind = elim (Bool-cases (ch == b'\n')) [
      | inl nl ↦ rw nl (
          ap
            (λ t. some (
              go 0 (with_ring (record d { state = if d.remaining_body == 0 then new else body }) t)
                []))
            (drop-append (add_size rlen 1) d.ring ys (omega arith)))
      | inr other ↦ rw other (
          ap (λ t. feed_char_body list_buffer a (with_ring (record d { state = body }) t) ch 0)
            (drop-append rlen d.ring ys (omega arith))
          ∙ body_behind a (record d { ring = drop rlen d.ring; state = body }) ch 0
              (omega (arith, length-drop rlen d.ring)) (omega arith))
    ]

    in_behind :
        (s : State)
        → feed_in list_buffer s a (behind d) ch rlen ≡ extend (feed_in list_buffer s a d ch rlen)
    unfolding feed_in
    in_behind new = new_behind a d ch rlen p
    in_behind header = header_behind a d ch rlen p
    in_behind header_quote = quote_behind a d ch rlen p
    in_behind header_nl = nl_behind
    in_behind body = body_behind a d ch rlen p w

    pub feed_char-behind :
        feed_char list_buffer a (behind d) ch rlen ≡ extend (feed_char list_buffer a d ch rlen)
    unfolding feed_char
    feed_char-behind = in_behind d.state
