-- ===== src/Rtsp/Decoder/Account.antt =====
-- Accounting in the decoder of src/rtsp_decoder.c, over the list of bytes: a step removes bytes
-- from the front of the queue, and the count of parsed bytes falls by as many and grows by one.
use openwfd.Common.{
  ℕ, ◌+◌, ◌-◌, ◌^◌, ◌<◌, ◌≡◌, refl, ap, ◌∙◌, inl, inr, not, ◌&&◌, ◌||◌, Option, none, some, arith,
  ◌==◌, Bool-cases,
}
use openwfd.Common.{drop, drop-drop}
use openwfd.Common.Memory.{enomem, Status, ok, fail, add_size, Bytes}
use openwfd.Rtsp.Buffer.{list_buffer, list_line}
use openwfd.Rtsp.Header.{
  State, new, header, header_quote, header_nl, body, Decoder, Answers, finish_copied,
}
use openwfd.Rtsp.Decoder.{
  Fed, go, err, msg_done, and_then, finish_completed, after_cr, after_nl, to_quote, to_line,
  after_body, finish_header_line, feed_char_new, feed_char_header, feed_char_header_quote,
  finish_body, feed_char_body, feed_char_header_nl, feed_in, feed_char,
}
use openwfd.Rtsp.Decoder.View.{SameRing, finish_copied-SameRing}

-- Of `total` bytes from the front of `b` on, `k` are gone and `n` are parsed and kept.
abbrev pub Accounts : Bytes → ℕ → Option (Fed Bytes) → Type 0
Accounts b total none = Unit
Accounts b total (some (err e d out)) = Unit
Accounts b total (some (go n d out)) = (k : ℕ) × (n + k ≡ total) × (d.ring ≡ drop k b)

abbrev Pulled : Bytes → ℕ → Option (Status × Decoder Bytes) → Type 0
Pulled b k none = Unit
Pulled b k (some (fail e, d)) = Unit
Pulled b k (some (ok, d)) = d.ring ≡ drop k b

Pulled-of_same :
    (b : Bytes) (k : ℕ) (x : Option (Status × Decoder Bytes)) → SameRing (drop k b) x → Pulled b k x
Pulled-of_same b k none h = tt
Pulled-of_same b k (some (fail e, d)) h = tt
Pulled-of_same b k (some (ok, d)) h = h

module _ (b : Bytes) (rlen : ℕ) (w : rlen + 1 < 2 ^ 64) where
  -- A continuation behind `k` removed bytes, with `n` kept.
  Continues : (Decoder Bytes → Option (Fed Bytes)) → ℕ → Type 0
  Continues f k = (d : Decoder Bytes) → d.ring ≡ drop k b → Accounts b (rlen + 1) (f d)

  finish-Pulled :
      (a : Answers) (d : Decoder Bytes)
      → d.ring ≡ b
      → Pulled b rlen (finish_header_line list_buffer a d rlen)
  unfolding finish_header_line
  finish-Pulled a d e = line (list_line a.line d.ring rlen)
    where
      line :
          (l : Option Bytes)
          → Pulled b rlen (elim l [
            | none ↦ some (fail enomem, d)
            | some bytes ↦ finish_copied a (record d { ring = drop rlen d.ring }) bytes
          ])
      line none = tt
      line (some bytes) =
          Pulled-of_same b rlen (finish_copied a (record d { ring = drop rlen d.ring }) bytes)
            (rw (← e) (finish_copied-SameRing a (record d { ring = drop rlen d.ring }) bytes))

  and_then-Accounts :
      (k : ℕ) (f : Decoder Bytes → Option (Fed Bytes)) (x : Option (Status × Decoder Bytes))
      → Pulled b k x
      → Continues f k
      → Accounts b (rlen + 1) (and_then x f)
  unfolding Continues
  and_then-Accounts k f none p h = tt
  and_then-Accounts k f (some (fail e, d)) p h = tt
  and_then-Accounts k f (some (ok, d)) p h = h d p

  after_cr-Accounts : Continues (after_cr list_buffer) rlen
  unfolding Continues after_cr msg_done
  after_cr-Accounts d e = elim (Bool-cases (d.remaining_body == 0)) [
    | inl done ↦ rw done (rlen, omega arith, e)
    | inr more ↦ rw more (rlen, omega arith, e)
  ]

  after_nl-Accounts : Continues (after_nl list_buffer) rlen
  unfolding Continues after_nl msg_done
  after_nl-Accounts d e =
      let e' : drop 1 d.ring ≡ drop (rlen + 1) b = ap (drop 1) e ∙ drop-drop 1 rlen b in
      elim (Bool-cases (d.remaining_body == 0)) [
        | inl done ↦ rw done (rlen + 1, omega arith, e')
        | inr more ↦ rw more (rlen + 1, omega arith, e')
      ]

  to_quote-Accounts : (n k : ℕ) → n + k ≡ rlen → Continues (λ d. to_quote list_buffer d n) k
  unfolding Continues to_quote
  to_quote-Accounts n k h d e = (k, omega arith, e)

  to_line-Accounts : (n k : ℕ) → n + k ≡ rlen → Continues (λ d. to_line list_buffer d n) k
  unfolding Continues to_line
  to_line-Accounts n k h d e = (k, omega arith, e)

  completed-Accounts :
      (f : Decoder Bytes → ℕ → Option (Fed Bytes))
      → ((n k : ℕ) → n + k ≡ rlen → Continues (λ d. f d n) k)
      → (a : Answers) (d : Decoder Bytes) → d.ring ≡ b
      → Accounts b (rlen + 1) (finish_completed list_buffer a d rlen f)
  unfolding finish_completed Continues
  completed-Accounts f h a d e = elim (Bool-cases (d.last_chr == b'\r' || d.last_chr == b'\n')) [
    | inl ended ↦ rw ended (
        and_then-Accounts rlen (λ q. f q 0) (finish_header_line list_buffer a d rlen)
          (finish-Pulled a d e) (h 0 rlen (omega arith)))
    | inr inside ↦ rw inside (h rlen 0 (omega arith) d e)
  ]

  feed_char_new-Accounts :
      (d : Decoder Bytes) (ch : ℕ)
      → d.ring ≡ b
      → Accounts b (rlen + 1) (feed_char_new list_buffer d ch rlen)
  unfolding feed_char_new
  feed_char_new-Accounts d ch e =
      elim (Bool-cases (ch == b'\r' || ch == b'\n' || ch == b'\t' || ch == b' ')) [
        | inl blank ↦ rw blank (0, omega arith, e)
        | inr other ↦ rw other (rlen, omega arith, ap (drop rlen) e)
      ]

  module _ (a : Answers) (d : Decoder Bytes) (ch : ℕ) (e : d.ring ≡ b) where
    feed_char_header-Accounts : Accounts b (rlen + 1) (feed_char_header list_buffer a d ch rlen)
    unfolding feed_char_header Continues
    feed_char_header-Accounts =
        let line = to_line-Accounts rlen 0 (omega arith) d e in
        elim (Bool-cases (ch == b'\r')) [
          | inl cr ↦ rw cr (elim (Bool-cases (d.last_chr == b'\r' || d.last_chr == b'\n')) [
            | inl ended ↦
                let d' = record d { state = header_nl } in
                rw ended (
                  and_then-Accounts rlen (after_cr list_buffer)
                    (finish_header_line list_buffer a d' rlen) (finish-Pulled a d' e)
                    after_cr-Accounts)
            | inr inside ↦ rw inside line
          ])
          | inr not_cr ↦ rw not_cr (elim (Bool-cases (ch == b'\n')) [
            | inl nl ↦ rw nl (elim (Bool-cases (d.last_chr == b'\n')) [
              | inl ended ↦ rw ended (
                  and_then-Accounts rlen (after_nl list_buffer)
                    (finish_header_line list_buffer a d rlen) (finish-Pulled a d e)
                    after_nl-Accounts)
              | inr inside ↦ rw inside line
            ])
            | inr not_nl ↦ rw not_nl (elim (Bool-cases (ch == b'"')) [
              | inl quote ↦
                  rw quote (completed-Accounts (to_quote list_buffer) to_quote-Accounts a d e)
              | inr not_quote ↦ rw not_quote (elim (Bool-cases (ch == b'\t' || ch == b' ')) [
                | inl blank ↦ rw blank line
                | inr other ↦
                    rw other (completed-Accounts (to_line list_buffer) to_line-Accounts a d e)
              ])
            ])
          ])
        ]

    feed_char_header_quote-Accounts :
        Accounts b (rlen + 1) (feed_char_header_quote list_buffer d ch rlen)
    unfolding feed_char_header_quote
    feed_char_header_quote-Accounts = elim (Bool-cases (d.last_chr == b'\\' && not d.quoted)) [
      | inl kept ↦ rw kept (0, omega arith, e)
      | inr read ↦ rw read (elim (Bool-cases (ch == b'"')) [
        | inl quote ↦ rw quote (0, omega arith, e)
        | inr other ↦ rw other (0, omega arith, e)
      ])
    ]

    after_body-Accounts :
        (line : Option Bytes)
        → Accounts b (rlen + 1) (after_body list_buffer d (add_size rlen 1) line)
    unfolding after_body msg_done
    after_body-Accounts none = tt
    after_body-Accounts (some bytes) =
        (rlen + 1, omega arith, ap (drop (add_size rlen 1)) e ∙ ap (λ t. drop t b) (omega arith))

    finish_body-Accounts : Accounts b (rlen + 1) (finish_body list_buffer a d (add_size rlen 1))
    unfolding finish_body
    finish_body-Accounts = after_body-Accounts (list_line a.line d.ring (add_size rlen 1))

  feed_char_body-Accounts :
      (a : Answers) (d : Decoder Bytes) (ch : ℕ)
      → d.ring ≡ b
      → Accounts b (rlen + 1) (feed_char_body list_buffer a d ch rlen)
  unfolding feed_char_body
  feed_char_body-Accounts a d ch e = elim (Bool-cases (d.remaining_body == 0)) [
    | inl none_left ↦ rw none_left (feed_char_new-Accounts (record d { state = new }) ch e)
    | inr more ↦ rw more (elim (Bool-cases (d.remaining_body - 1 == 0)) [
      | inl last ↦
          rw last (finish_body-Accounts a (record d { remaining_body = d.remaining_body - 1 }) ch e)
      | inr inside ↦ rw inside (0, omega arith, e)
    ])
  ]

-- What is accounted for behind `j` removed bytes is accounted for in all.
Accounts-drop :
    (b : Bytes) (j total : ℕ) (x : Option (Fed Bytes))
    → Accounts (drop j b) total x
    → Accounts b (j + total) x
Accounts-drop b j total none h = tt
Accounts-drop b j total (some (err e d out)) h = tt
Accounts-drop b j total (some (go n d out)) (k, s, e) = (j + k, omega arith, e ∙ drop-drop k j b)

module _ (a : Answers) (d : Decoder Bytes) (ch rlen : ℕ) (w : rlen + 1 < 2 ^ 64) where
  feed_char_header_nl-Accounts :
      Accounts d.ring (rlen + 1) (feed_char_header_nl list_buffer a d ch rlen)
  unfolding feed_char_header_nl
  feed_char_header_nl-Accounts = elim (Bool-cases (ch == b'\n')) [
    | inl nl ↦ rw nl (rlen + 1, omega arith, ap (λ t. drop t d.ring) (omega arith))
    | inr other ↦ rw other (
        Accounts-drop d.ring rlen 1
          (feed_char_body list_buffer a (record d { ring = drop rlen d.ring; state = body }) ch 0)
          (feed_char_body-Accounts (drop rlen d.ring) 0 (omega arith) a
            (record d { ring = drop rlen d.ring; state = body }) ch refl))
  ]

  feed_in-Accounts : (s : State) → Accounts d.ring (rlen + 1) (feed_in list_buffer s a d ch rlen)
  unfolding feed_in
  feed_in-Accounts new = feed_char_new-Accounts d.ring rlen w d ch refl
  feed_in-Accounts header = feed_char_header-Accounts d.ring rlen w a d ch refl
  feed_in-Accounts header_quote = feed_char_header_quote-Accounts d.ring rlen w a d ch refl
  feed_in-Accounts header_nl = feed_char_header_nl-Accounts
  feed_in-Accounts body = feed_char_body-Accounts d.ring rlen w a d ch refl

  pub feed_char-Accounts : Accounts d.ring (rlen + 1) (feed_char list_buffer a d ch rlen)
  unfolding feed_char
  feed_char-Accounts = feed_in-Accounts d.state
