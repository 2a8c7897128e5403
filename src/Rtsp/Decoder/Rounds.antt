-- ===== src/Rtsp/Decoder/Rounds.antt =====
-- The loop of owfd_rtsp_decoder_feed of src/rtsp_decoder.c over two chunks.
use openwfd.Common.{
  ℕ, ◌+◌, ◌^◌, ◌<◌, ◌≡◌, refl, sym, ap, ◌∙◌, Option, none, some, List, [], ◌∷◌, ◌++◌, append_assoc,
  arith,
}
use mathlib.Core.Path.{fun_ext}
use openwfd.Common.{length, length-drop}
use openwfd.Common.Memory.{ok, Bytes, ◌>>=◌}
use openwfd.Rtsp.Buffer.{list_buffer}
use openwfd.Rtsp.Header.{Message, Decoder, Answers}
use openwfd.Rtsp.Decoder.{Fed, go, err, feed_char, feed_loop, feed_end}
use openwfd.Rtsp.Decoder.Account.{Accounts, feed_char-Accounts}
use openwfd.Rtsp.Decoder.Behind.{behind, extend, feed_char-behind}
use openwfd.Rtsp.Decoder.Feed.{Result}

-- The loop's round behind `feed_char`, over the list.
abbrev round : (ℕ → Answers) → ℕ → Bytes → List Message → Option (Fed Bytes) → Option (Fed Bytes)
round answers ch chs out x = x >>= λ r. elim r [
  | err e d ms ↦ some (err e d (out ++ ms))
  | go n d ms ↦ feed_loop list_buffer answers (record d { last_chr = ch }) n chs (out ++ ms)
]

-- Every parsed byte that is kept is in the queue, and nothing else.
unfoldable pub Counted : Option (Fed Bytes) → Type 0
Counted none = Unit
Counted (some (err e d out)) = Unit
Counted (some (go n d out)) = length d.ring ≡ n

round-Counted :
    (answers : ℕ → Answers) (ch : ℕ) (chs : Bytes)
    → ((d : Decoder Bytes) (n : ℕ) (out : List Message)
        → length d.ring ≡ n + length chs
        → n + length chs < 2 ^ 63
        → Counted (feed_loop list_buffer answers d n chs out))
    → (b : Bytes) (rlen : ℕ) (x : Option (Fed Bytes)) (out : List Message)
    → length b ≡ rlen + 1 + length chs
    → rlen + 1 + length chs < 2 ^ 63
    → Accounts b (rlen + 1) x
    → Counted (round answers ch chs out x)
unfolding Counted
round-Counted answers ch chs ih b rlen none out l w k = tt
round-Counted answers ch chs ih b rlen (some (err e d ms)) out l w k = tt
round-Counted answers ch chs ih b rlen (some (go n d ms)) out l w (j, s, h) =
    ih (record d { last_chr = ch }) n (out ++ ms) (omega (arith, ap length h, length-drop j b))
      (omega arith)

pub feed_loop-Counted :
    (answers : ℕ → Answers) (d : Decoder Bytes) (rlen : ℕ) (chs : Bytes) (out : List Message)
    → length d.ring ≡ rlen + length chs
    → rlen + length chs < 2 ^ 63
    → Counted (feed_loop list_buffer answers d rlen chs out)
unfolding feed_loop Counted
feed_loop-Counted answers d rlen [] out l w = omega arith
feed_loop-Counted answers d rlen (ch ∷ chs) out l w =
    round-Counted (λ i. answers (i + 1)) ch chs
      (λ q n o. feed_loop-Counted (λ i. answers (i + 1)) q n chs o) d.ring rlen
      (feed_char list_buffer (answers 0) d ch rlen) out (omega arith) (omega arith)
      (feed_char-Accounts (answers 0) d ch rlen (omega arith))

-- Messages that were handed out before stay in front.
abbrev handed : List Message → Option (Fed Bytes) → Option (Fed Bytes)
handed o none = none
handed o (some (go n d out)) = some (go n d (o ++ out))
handed o (some (err e d out)) = some (err e d (o ++ out))

round-handed :
    (answers : ℕ → Answers) (ch : ℕ) (chs : Bytes) (o : List Message)
    → ((d : Decoder Bytes) (n : ℕ) (out : List Message)
        → feed_loop list_buffer answers d n chs (o ++ out)
          ≡ handed o (feed_loop list_buffer answers d n chs out))
    → (x : Option (Fed Bytes)) (out : List Message)
    → round answers ch chs (o ++ out) x ≡ handed o (round answers ch chs out x)
round-handed answers ch chs o ih none out = refl
round-handed answers ch chs o ih (some (err e d ms)) out =
    ap (λ t. some (err e d t)) (append_assoc o out ms)
round-handed answers ch chs o ih (some (go n d ms)) out =
    ap (feed_loop list_buffer answers (record d { last_chr = ch }) n chs) (append_assoc o out ms)
    ∙ ih (record d { last_chr = ch }) n (out ++ ms)

pub feed_loop-handed :
    (answers : ℕ → Answers) (d : Decoder Bytes) (rlen : ℕ) (chs : Bytes) (o out : List Message)
    → feed_loop list_buffer answers d rlen chs (o ++ out)
      ≡ handed o (feed_loop list_buffer answers d rlen chs out)
unfolding feed_loop
feed_loop-handed answers d rlen [] o out = refl
feed_loop-handed answers d rlen (ch ∷ chs) o out =
    round-handed (λ i. answers (i + 1)) ch chs o
      (λ q n out'. feed_loop-handed (λ i. answers (i + 1)) q n chs o out')
      (feed_char list_buffer (answers 0) d ch rlen) out

module _ (later : ℕ → Answers) (ys : Bytes) where
  -- Go on with the second chunk.
  abbrev pub go_on : Option (Fed Bytes) → Option (Fed Bytes)
  go_on none = none
  go_on (some (err e d out)) = some (err e (behind ys d) out)
  go_on (some (go n d out)) = feed_loop list_buffer later (behind ys d) n ys out

  round_split :
      (answers : ℕ → Answers) (ch : ℕ) (xs : Bytes)
      → ((d : Decoder Bytes) (n : ℕ) (out : List Message)
          → length d.ring ≡ n + length xs
          → n + length xs < 2 ^ 63
          → feed_loop list_buffer answers (behind ys d) n (xs ++ ys) out
            ≡ go_on (feed_loop list_buffer answers d n xs out))
      → (b : Bytes) (rlen : ℕ) (x : Option (Fed Bytes)) (out : List Message)
      → length b ≡ rlen + 1 + length xs
      → rlen + 1 + length xs < 2 ^ 63
      → Accounts b (rlen + 1) x
      → round answers ch (xs ++ ys) out (extend ys x) ≡ go_on (round answers ch xs out x)
  round_split answers ch xs ih b rlen none out l w k = refl
  round_split answers ch xs ih b rlen (some (err e d ms)) out l w k = refl
  round_split answers ch xs ih b rlen (some (go n d ms)) out l w (j, s, h) =
      ih (record d { last_chr = ch }) n (out ++ ms) (omega (arith, ap length h, length-drop j b))
        (omega arith)

  pub feed_loop_split :
      (answers : ℕ → Answers) (d : Decoder Bytes) (rlen : ℕ) (xs : Bytes) (out : List Message)
      → ((i : ℕ) → later i ≡ answers (length xs + i))
      → length d.ring ≡ rlen + length xs
      → rlen + length xs < 2 ^ 63
      → feed_loop list_buffer answers (behind ys d) rlen (xs ++ ys) out
        ≡ go_on (feed_loop list_buffer answers d rlen xs out)
  unfolding feed_loop
  feed_loop_split answers d rlen [] out g l w =
      ap (λ t. feed_loop list_buffer t (behind ys d) rlen ys out)
        (fun_ext (λ i. ap answers {x = i} (omega arith) ∙ sym (g i)))
  feed_loop_split answers d rlen (ch ∷ xs) out g l w =
      ap (round (λ i. answers (i + 1)) ch (xs ++ ys) out)
        (feed_char-behind ys (answers 0) d ch rlen (omega arith) (omega arith))
      ∙ round_split (λ i. answers (i + 1)) ch xs
          (λ q n o.
            feed_loop_split (λ i. answers (i + 1)) q n xs o (λ i. g i ∙ ap answers (omega arith)))
          d.ring rlen (feed_char list_buffer (answers 0) d ch rlen) out (omega arith) (omega arith)
          (feed_char-Accounts (answers 0) d ch rlen (omega arith))

-- A result with messages that an earlier call has handed out in front.
abbrev pub preceded : List Message → Result Bytes → Result Bytes
preceded o none = none
preceded o (some (s, d, out)) = some (s, d, o ++ out)

pub feed_end-handed :
    (o : List Message) (x : Option (Fed Bytes))
    → feed_end list_buffer (handed o x) ≡ preceded o (feed_end list_buffer x)
unfolding feed_end
feed_end-handed o none = refl
feed_end-handed o (some (go n d out)) = refl
feed_end-handed o (some (err e d out)) = refl

-- What the end of a first call without an error says of its loop.
pub feed_end-ok :
    (x : Option (Fed Bytes)) {d : Decoder Bytes} {out : List Message}
    → feed_end list_buffer x ≡ some (ok, d, out)
    → (n : ℕ) × (x ≡ some (go n d out))
unfolding feed_end
feed_end-ok none e = cc
feed_end-ok (some (go n d out)) e = (n, cc)
feed_end-ok (some (err x d out)) e = cc
