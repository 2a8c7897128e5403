-- ===== src/Wpa/Ctrl/Timed/Reply.antt =====
-- What a call of src/wpa_ctrl.c returns, when it returns: the time that is left and the reply.
use openwfd.Common.{
  ℕ, ◌-◌, ◌≤◌, ◌≡◌, refl, sym, ap, ◌∙◌, ◌≢◌, inl, inr, true, false, Option, none, some, List, [],
  ◌∷◌, arith, leb, ◌==◌, Bool-cases,
}
use openwfd.Common.{length, take, length-take}
use mathlib.Core.Path.{subst}
use mathlib.Core.Option.{some-injective}
use openwfd.Common.Memory.{Status, ok, fail, Errno, etimedout, einval, Bytes, ◌>>=◌}
use openwfd.Wpa.Ctrl.Timed.{
  Poll, poll_failed, poll_timeout, poll_hangup, poll_ready, Moved, moved, move_failed, Round, Tried,
  quiet, complete, sent, received, recved, try_round, left_after, Ended, ended, timed_loop, Rounds,
  timed_send, timed_recv, Exchange, max_time, clamp_time, Requested, requested, finished,
  after_send, wpa_request, is_ok, check_ok, reply_max, wpa_request_ok,
}
use openwfd.Wpa.Ctrl.Timed.Budget.{Tried-cases, loop-refused, loop-complete, loop-late, loop-quiet}

-- What a buffer of `size` bytes holds behind a call: a reply, which is not empty, fits and is no event,
-- or nothing behind an error.
abbrev pub Answer : ℕ → Status → Bytes → Type 0
Answer size ok [] = ⊥
Answer size ok (b ∷ bs) = (length (b ∷ bs) ≤ size) × (b ≢ b'<')
Answer size (fail x) bs = bs ≡ []

-- An end within a time, whose bytes a predicate holds of.
abbrev pub Within : (P : Status → Bytes → Type 0) (timeout : ℕ) → Option Ended → Type 0
Within P timeout none = Unit
Within P timeout (some e) = (e.left ≤ timeout) × P e.status e.bytes

Within-more :
    (P : Status → Bytes → Type 0) (m n : ℕ) (o : Option Ended) → m ≤ n → Within P m o → Within P n o
Within-more P m n none h w = w
Within-more P m n (some e) h w = let p = w.0 in (omega arith, w.1)

by_equation :
    (P : Status → Bytes → Type 0) (timeout : ℕ) (o o' : Option Ended)
    → o ≡ o'
    → Within P timeout o'
    → Within P timeout o
by_equation P timeout o o' e w = subst (Within P timeout) (sym e) w

pub timed_loop-Within :
    (P : Status → Bytes → Type 0) (test : Moved → Tried) (fails : (e : Errno) → P (fail e) [])
    (passes : (r : Round) (bs : Bytes) → try_round test r ≡ complete bs → P ok bs)
    (start timeout : ℕ) (rs : List Round)
    → Within P timeout (timed_loop test start timeout rs)
unfolding timed_loop
timed_loop-Within P test fails passes start timeout [] = tt
timed_loop-Within P test fails passes start timeout (r ∷ rs) =
    elim (Tried-cases (try_round test r)) [
      | inl (e, q) ↦
          by_equation P timeout _ _ (loop-refused test start timeout r rs e q)
            (omega arith, fails e)
      | inr (inl q) ↦ elim (Bool-cases (leb timeout (r.now - start))) [
        | inl l ↦
            by_equation P timeout _ _ (loop-late test start timeout r rs q l)
              (omega arith, fails etimedout)
        | inr l ↦ by_equation P timeout _ _ (loop-quiet test start timeout r rs q l) (
            Within-more P (left_after start timeout r.now) timeout _ (omega arith)
              (timed_loop-Within P test fails passes start (left_after start timeout r.now) rs))
      ]
      | inr (inr (bs, q)) ↦
          by_equation P timeout _ _ (loop-complete test start timeout r rs bs q)
            (omega arith, passes r bs q)
    ]

-- The bytes of a complete round.
abbrev bytes_in : Tried → Bytes
bytes_in (complete bs) = bs
bytes_in _ = []

received_event : (x : ℕ) (xs : Bytes) → x == b'<' ≡ true → received (x ∷ xs) ≡ quiet
received_event x xs e = rw e

received_reply : (x : ℕ) (xs : Bytes) → x == b'<' ≡ false → received (x ∷ xs) ≡ complete (x ∷ xs)
received_reply x xs e = rw e

received_lem :
    (size : ℕ) (xs bs : Bytes) → length xs ≤ size → received xs ≡ complete bs → Answer size ok bs
received_lem size [] bs h q = absurd (ground (arith, q))
received_lem size (x ∷ xs) bs h q = elim (Bool-cases (x == b'<')) [
  | inl e ↦ let p = sym (received_event x xs e) ∙ q in absurd (ground (arith, p))
  | inr e ↦
      subst (Answer size ok) (ap bytes_in (sym (received_reply x xs e) ∙ q)) (h, ground (arith, e))
]

recved_lem : (size : ℕ) (m : Moved) (bs : Bytes) → recved size m ≡ complete bs → Answer size ok bs
unfolding recved
recved_lem size (moved xs) bs q =
    received_lem size (take size xs) bs (omega (arith, length-take size xs)) q
recved_lem size (move_failed e) bs q = absurd (ground (arith, q))

polled_lem :
    (size : ℕ) (p : Poll) (m : Moved) (now : ℕ) (bs : Bytes)
    → try_round (recved size) (record { poll = p; io = m; now = now }) ≡ complete bs
    → Answer size ok bs
unfolding try_round
polled_lem size (poll_failed e) m now bs q = absurd (ground (arith, q))
polled_lem size poll_timeout m now bs q = absurd (ground (arith, q))
polled_lem size poll_hangup m now bs q = absurd (ground (arith, q))
polled_lem size poll_ready m now bs q = recved_lem size m bs q

try_round_lem :
    (size : ℕ) (r : Round) (bs : Bytes)
    → try_round (recved size) r ≡ complete bs
    → Answer size ok bs
try_round_lem size r bs q = polled_lem size r.poll r.io r.now bs q

timed_recv-Within :
    (size timeout : ℕ) (a : Rounds) → Within (Answer size) timeout (timed_recv size timeout a)
unfolding timed_recv
timed_recv-Within size timeout a =
    timed_loop-Within (Answer size) (recved size) (λ e. refl) (try_round_lem size) a.start timeout
      a.rounds

-- Behind `send` only the time and a failure's empty reply are of interest.
abbrev pub Failure : Status → Bytes → Type 0
Failure ok bs = Unit
Failure (fail e) bs = bs ≡ []

pub timed_send-Within : (timeout : ℕ) (a : Rounds) → Within Failure timeout (timed_send timeout a)
unfolding timed_send
timed_send-Within timeout a =
    timed_loop-Within Failure sent (λ e. refl) (λ r bs q. tt) a.start timeout a.rounds

next-Within :
    (size timeout : ℕ) (a : Rounds) (s : Status) (bs : Bytes) (n : ℕ)
    → Within Failure timeout (some (ended s bs n))
    → Within (Answer size) timeout (after_send size a (ended s bs n))
next-Within size timeout a ok bs n w =
    Within-more (Answer size) n timeout _ w.0 (timed_recv-Within size n a)
next-Within size timeout a (fail e) bs n w = w

after_send-Within :
    (size timeout : ℕ) (a : Rounds) (o : Option Ended)
    → Within Failure timeout o
    → Within (Answer size) timeout (o >>= after_send size a)
after_send-Within size timeout a none w = tt
after_send-Within size timeout a (some e) w = next-Within size timeout a e.status e.bytes e.left w

clamp_time_le : (t : Option ℕ) → clamp_time t ≤ max_time
unfolding clamp_time
clamp_time_le none = omega arith
clamp_time_le (some t) = ground arith

-- What a request leaves of the time `t`: nothing is taken without a descriptor, else at most 10 seconds
-- are left, and no more than were given.
abbrev pub TimeLeft : Option ℕ → Option ℕ → Option ℕ → Type 0
TimeLeft none t left = left ≡ t
TimeLeft (some fd) t none = ⊥
TimeLeft (some fd) t (some n) = (n ≤ max_time) × (n ≤ clamp_time t)

abbrev Replied : Option ℕ → ℕ → Option ℕ → Requested → Type 0
Replied fd size t r = TimeLeft fd t r.left × Answer size r.status r.bytes

finished-Replied :
    (fd size : ℕ) (t : Option ℕ) (o : Option Ended) (r : Requested)
    → Within (Answer size) (clamp_time t) o
    → (o >>= finished) ≡ some r
    → Replied (some fd) size t r
finished-Replied fd size t none r w h = absurd (ground (arith, h))
finished-Replied fd size t (some e) r w h =
    let p = w.0 in
    let q = clamp_time_le t in
    subst (Replied (some fd) size t) (some-injective _ _ h) ((omega arith, p), w.1)

-- A request on an open descriptor that returns leaves at most 10 seconds of its time, and no more than it
-- was given; without a descriptor the time stays as it is. Where a request succeeds, the reply is not
-- empty, fits into the buffer of `size` bytes and does not start with the '<' of an event; where it fails,
-- there is no reply.
pub wpa_request-Answer :
    (fd : Option ℕ) (size : ℕ) (t : Option ℕ) (a : Exchange) (r : Requested)
    → wpa_request fd size t a ≡ some r
    → TimeLeft fd t r.left × Answer size r.status r.bytes
unfolding wpa_request
wpa_request-Answer none size t a r h =
    subst (Replied none size t) (some-injective _ _ h) (refl, refl)
wpa_request-Answer (some fd) size t a r h =
    finished-Replied fd size t _ r
      (after_send-Within size (clamp_time t) a.receiving _
        (timed_send-Within (clamp_time t) a.sending))
      h

is_ok_lem : (bs : Bytes) → is_ok bs ≡ true → bs ≡ b'O' ∷ b'K' ∷ 10 ∷ []
unfolding is_ok
is_ok_lem (x ∷ y ∷ z ∷ []) h = ground (arith, h)
is_ok_lem [] h = absurd (ground (arith, h))
is_ok_lem (x ∷ []) h = absurd (ground (arith, h))
is_ok_lem (x ∷ y ∷ []) h = absurd (ground (arith, h))
is_ok_lem (x ∷ y ∷ z ∷ w ∷ bs) h = absurd (ground (arith, h))

-- A request whose reply was exactly "OK\n".
pub record Granted (fd : Option ℕ) (t : Option ℕ) (a : Exchange) : Type 0 where
  pub left : Option ℕ
  pub granted : wpa_request fd reply_max t a ≡ some (requested ok (b'O' ∷ b'K' ∷ 10 ∷ []) left)

not_ok : (bs : Bytes) (n : Option ℕ) → is_ok bs ≡ false → check_ok (requested ok bs n) ≡ fail einval
not_ok bs n e = rw e

checked_ok :
    (s : Status) (bs : Bytes) (n : Option ℕ)
    → check_ok (requested s bs n) ≡ ok
    → requested s bs n ≡ requested ok (b'O' ∷ b'K' ∷ 10 ∷ []) n
checked_ok ok bs n h = elim (Bool-cases (is_ok bs)) [
  | inl e ↦ ap (λ cs. requested ok cs n) (is_ok_lem bs e)
  | inr e ↦ let p = sym (not_ok bs n e) ∙ h in absurd (ground (arith, p))
]
checked_ok (fail x) bs n h = absurd (ground (arith, h))

Granted-by :
    (fd : Option ℕ) (t : Option ℕ) (a : Exchange) (o : Option Requested)
    → wpa_request fd reply_max t a ≡ o
    → (o >>= (λ e. some (check_ok e))) ≡ some ok
    → Granted fd t a
Granted-by fd t a none p h = absurd (ground (arith, h))
Granted-by fd t a (some e) p h = record {
  left = e.left;
  granted = p ∙ ap some (checked_ok e.status e.bytes e.left (some-injective _ _ h));
}

-- `wpa_request_ok` succeeds only on the reply "OK\n".
pub wpa_request_ok-Granted :
    (fd : Option ℕ) (t : Option ℕ) (a : Exchange) → wpa_request_ok fd t a ≡ some ok → Granted fd t a
unfolding wpa_request_ok
wpa_request_ok-Granted fd t a h = Granted-by fd t a _ refl h
