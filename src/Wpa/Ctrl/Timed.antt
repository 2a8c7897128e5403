-- ===== src/Wpa/Ctrl/Timed.antt =====
-- Requests of src/wpa_ctrl.c: `timed_send`, `timed_recv`, `wpa_request` and what stands on them. The
-- answers of the kernel come as one entry for each round of a loop. `none` says that the call still
-- waits behind the rounds that are given. Times are in microseconds, on a clock that never goes back.
pub mod Budget
pub mod Reply
pub mod Spent
pub mod Total
mod Tests
use openwfd.Common.{
  ℕ, zero, suc, ◌+◌, ◌-◌, ◌*◌, ◌/◌, ◌%◌, ◌^◌, ◌≤◌, ◌<◌, min, ◌≡◌, refl, sym, ap, ◌∙◌, ◌≢◌, ◌↔◌, ◌⊎◌,
  inl, inr, Bool, true, false, not, ◌&&◌, ◌||◌, Option, none, some, List, [], ◌∷◌, ◌++◌, append-nil,
  append_assoc, arith, ltb, leb, ◌==◌, if◌then◌else◌, Bool-cases, Option-cases, ltb→lt, ltb→ge,
  lt→ltb, ge→ltb, leb→le, leb→gt, le→leb, lt→leb, ==_iff, ==_refl,
}
use openwfd.Common.{length, take}
use openwfd.Common.Memory.{
  Status, ok, fail, Errno, eagain, eintr, enodev, epipe, etimedout, einval, Bytes, ◌>>=◌,
}
use openwfd.Common.Text.{codes}

-- What `ppoll` answers: an error, a timeout, POLLHUP or POLLERR, or a socket that is ready.
pub data Poll : Type 0 where
  poll_failed : Errno → Poll
  poll_timeout poll_hangup poll_ready : Poll

-- What `send` and `recv` answer: the bytes they moved, or an error.
pub data Moved : Type 0 where
  moved : Bytes → Moved
  move_failed : Errno → Moved

-- One round: `ppoll`, the call on the socket if it is made, and `get_time_us` at the end.
pub record Round : Type 0 where
  pub poll : Poll
  pub io : Moved
  pub now : ℕ

-- Errors on which a loop goes on.
abbrev pub is_again : Errno → Bool
is_again eagain = true
is_again eintr = true
is_again _ = false

abbrev pub is_eagain : Errno → Bool
is_eagain eagain = true
is_eagain _ = false

-- The middle of a round: an error to return, or whether the loop is done, with what was moved.
pub data Tried : Type 0 where
  refused : Errno → Tried
  quiet : Tried
  complete : Bytes → Tried

-- The test behind `send`.
unfoldable pub sent : Moved → Tried
sent (move_failed e) = if is_again e then quiet else refused e
sent (moved []) = quiet
sent (moved (b ∷ bs)) = complete (b ∷ bs)

-- The test behind `recv` with a buffer of `size` bytes: an event, in front of which stands '<', is
-- ignored.
abbrev pub received : Bytes → Tried
received [] = quiet
received (b ∷ bs) = if b == b'<' then quiet else complete (b ∷ bs)

unfoldable pub recved : ℕ → Moved → Tried
recved size (move_failed e) = if is_again e then quiet else refused e
recved size (moved bs) = received (take size bs)

-- The round up to the clock, with the test of the call on the socket.
unfoldable pub try_round : (Moved → Tried) → Round → Tried
try_round test r = elim r.poll [
  | poll_failed e ↦ if is_eagain e then quiet else refused e
  | poll_timeout ↦ refused etimedout
  | poll_hangup ↦ refused epipe
  | poll_ready ↦ test r.io
]

-- `*timeout` behind a round.
abbrev pub left_after : ℕ → ℕ → ℕ → ℕ
left_after start timeout now = timeout - (now - start)

-- How a call ends: the status, the bytes moved and the time that is left.
pub record Ended : Type 0 where
  pub status : Status
  pub bytes : Bytes
  pub left : ℕ

abbrev pub ended : Status → Bytes → ℕ → Ended
ended s bs n = record { status = s; bytes = bs; left = n }

-- The loops of `timed_send` and `timed_recv`, which differ in the test of the call on the socket.
unfoldable pub timed_loop : (Moved → Tried) → ℕ → ℕ → List Round → Option Ended
timed_loop test start timeout [] = none
timed_loop test start timeout (r ∷ rs) = elim (try_round test r) [
  | refused e ↦ some (ended (fail e) [] timeout)
  | complete bs ↦ some (ended ok bs (left_after start timeout r.now))
  | quiet ↦
      if leb timeout (r.now - start)
      then some (ended (fail etimedout) [] 0)
      else timed_loop test start (left_after start timeout r.now) rs
]

-- The answers to a call of `timed_send` or `timed_recv`: the first reading of the clock, the rounds.
pub record Rounds : Type 0 where
  pub start : ℕ
  pub rounds : List Round

-- `timed_send`
unfoldable pub timed_send : ℕ → Rounds → Option Ended
unfolding timed_loop sent
timed_send timeout a = timed_loop sent a.start timeout a.rounds

-- `timed_recv`
unfoldable pub timed_recv : ℕ → ℕ → Rounds → Option Ended
unfolding timed_loop recved
timed_recv size timeout a = timed_loop (recved size) a.start timeout a.rounds

-- The answers to a request.
pub record Exchange : Type 0 where
  pub sending : Rounds
  pub receiving : Rounds

-- 10s, the longest time for a request.
abbrev pub max_time : ℕ
max_time = 10 * 1000 * 1000

-- `*t` behind its test; `none` is a negative time, and what a null pointer stands for.
unfoldable pub clamp_time : Option ℕ → ℕ
clamp_time none = max_time
clamp_time (some t) = if ltb max_time t then max_time else t

-- How a request ends: the status, the reply, and `*t`, where `none` is a negative time.
pub record Requested : Type 0 where
  pub status : Status
  pub bytes : Bytes
  pub left : Option ℕ

abbrev pub requested : Status → Bytes → Option ℕ → Requested
requested s bs t = record { status = s; bytes = bs; left = t }

abbrev pub finished : Ended → Option Requested
finished e = some (requested e.status e.bytes (some e.left))

abbrev pub after_send : ℕ → Rounds → Ended → Option Ended
after_send size a e = elim e.status [ fail _ ↦ some e | ok ↦ timed_recv size e.left a ]

-- `wpa_request` with a buffer of `size` bytes for the reply; `none` in front is a descriptor that is
-- not open, for which the time is left as it is.
unfoldable pub wpa_request : Option ℕ → ℕ → Option ℕ → Exchange → Option Requested
unfolding timed_send timed_recv clamp_time
wpa_request none size t a = some (requested (fail enodev) [] t)
wpa_request (some fd) size t a =
    timed_send (clamp_time t) a.sending >>= after_send size a.receiving >>= finished

-- `l != 3 || strncmp(buf, "OK\n", 3)`, as far as the status.
unfoldable pub is_ok : Bytes → Bool
is_ok (a ∷ b ∷ c ∷ []) = a == b'O' && b == b'K' && c == 10
is_ok _ = false

abbrev pub check_ok : Requested → Status
check_ok e = elim e.status [ fail x ↦ fail x | ok ↦ if is_ok e.bytes then ok else fail einval ]

abbrev pub reply_max : ℕ
reply_max = 512

-- `wpa_request_ok`
unfoldable pub wpa_request_ok : Option ℕ → Option ℕ → Exchange → Option Status
unfolding wpa_request is_ok
wpa_request_ok fd t a = wpa_request fd reply_max t a >>= (λ e. some (check_ok e))

-- The `timeout` of `owfd_wpa_ctrl_request`, in milliseconds, as the time for `wpa_request`.
unfoldable pub request_time : Option ℕ → Option ℕ
request_time none = none
request_time (some ms) = some (if ltb 1000000 ms then 1000000 * 1000 else ms * 1000)
