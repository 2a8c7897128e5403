-- ===== src/Wpa/Ctrl/Dispatch.antt =====
-- The events of the channel of src/wpa_ctrl.c: `read_ev`, `read_req`, `read_tfd`, their `dispatch_`
-- functions and `owfd_wpa_ctrl_dispatch`. The callback is a parameter; a function is `none` while it
-- still waits behind the answers that are given.
pub mod Hangup
pub mod Drain
use openwfd.Common.{
  ℕ, zero, suc, ◌+◌, ◌-◌, ◌*◌, ◌/◌, ◌%◌, ◌^◌, ◌≤◌, ◌<◌, min, ◌≡◌, refl, sym, ap, ◌∙◌, ◌≢◌, ◌↔◌, ◌⊎◌,
  inl, inr, Bool, true, false, not, ◌&&◌, ◌||◌, Option, none, some, List, [], ◌∷◌, ◌++◌, append-nil,
  append_assoc, arith, ltb, leb, ◌==◌, if◌then◌else◌, Bool-cases, Option-cases, ltb→lt, ltb→ge,
  lt→ltb, ge→ltb, leb→le, leb→gt, le→leb, lt→leb, ==_iff, ==_refl,
}
use openwfd.Common.{length, take}
use openwfd.Common.Memory.{Status, ok, fail, Errno, enodev, epipe, efault, etimedout, Bytes, ◌>>=◌}
use openwfd.Common.World.{World, unwatch}
use openwfd.Wpa.Ctrl.Timed.{
  Moved, moved, move_failed, is_again, Exchange, Requested, wpa_request, reply_max,
}
use openwfd.Wpa.Ctrl.Channel.{Ctrl, is_open, Outcome, outcome}

-- `e->data.ptr`, what the event is about.
pub data Source : Type 0 where
  at_ev at_req at_tfd at_other : Source

-- `struct epoll_event`: EPOLLIN, and EPOLLHUP or EPOLLERR.
pub record EpollEvent : Type 0 where
  pub source : Source
  pub readable : Bool
  pub hangup : Bool

-- An event, with what `recv` and `read` answer in turn while it is handled, and the answers to a PING.
pub record Pending : Type 0 where
  pub event : EpollEvent
  pub reads : List Moved
  pub ping : Exchange

-- What `epoll_wait` answers.
pub data Waited : Type 0 where
  wait_failed : Errno → Waited
  waited : List Pending → Waited

-- Behind EAGAIN and EINTR there is nothing to read.
abbrev pub read_error : Errno → Status
read_error e = if is_again e then ok else fail e

-- The end of `dispatch_ev` and `dispatch_req`.
abbrev pub then_hangup : EpollEvent → Status → Status
then_hangup e (fail x) = fail x
then_hangup e ok = if e.hangup then fail epipe else ok

abbrev pub hung : EpollEvent → Outcome → Outcome
hung e o = record o { status = then_hangup e o.status }

-- `read_req`: whatever is read is ignored.
unfoldable pub read_req : List Moved → Option Status
read_req [] = none
read_req (move_failed e ∷ rs) = some (read_error e)
read_req (moved [] ∷ rs) = some ok
read_req (moved (b ∷ bs) ∷ rs) = read_req rs

-- `dispatch_req`
unfoldable pub dispatch_req : Pending → Option Status
unfolding read_req
dispatch_req p =
    if p.event.readable
    then read_req p.reads >>= (λ s. some (then_hangup p.event s))
    else some (then_hangup p.event ok)

-- `len != 5 || strncmp(buf, "PONG\n", 5)`, as far as the status.
unfoldable pub is_pong : Bytes → Bool
is_pong (a ∷ b ∷ c ∷ d ∷ e ∷ []) = a == b'P' && b == b'O' && c == b'N' && d == b'G' && e == 10
is_pong _ = false

abbrev pub check_pong : Requested → Status
check_pong e = elim e.status [
  | fail x ↦ fail x
  | ok ↦ if is_pong e.bytes then ok else fail etimedout
]

-- The size of the buffer for the reply to a PING.
abbrev pub pong_max : ℕ
pong_max = 10

-- `read_tfd`, with what `read` answers: eight bytes where the timer has expired.
unfoldable pub read_tfd : Ctrl → Moved → Exchange → Option Status
unfolding is_pong wpa_request
read_tfd c (move_failed e) a = some (read_error e)
read_tfd c (moved bs) a =
    if length bs == 8
    then wpa_request c.req_fd pong_max none a >>= (λ e. some (check_pong e))
    else some ok

-- The end of `dispatch_tfd`.
abbrev pub tfd_done : Ctrl → World → Status → Outcome
tfd_done c w ok = outcome ok c w
tfd_done c w (fail e) = outcome (fail e) c (unwatch c.tfd w)

abbrev pub first_read : List Moved → Option Moved
first_read [] = none
first_read (r ∷ rs) = some r

-- `dispatch_tfd`
unfoldable pub dispatch_tfd : Pending → Ctrl → World → Option Outcome
unfolding read_tfd
dispatch_tfd p c w =
    if p.event.hangup
    then some (tfd_done c w (fail efault))
    else if p.event.readable
    then first_read p.reads >>= (λ r. read_tfd c r p.ping) >>= (λ s. some (tfd_done c w s))
    else some (outcome ok c w)

-- Behind a round: an error ends the loop.
abbrev pub go_on : Outcome → Status → Option Outcome → Option Outcome
go_on o (fail e) rest = some o
go_on o ok rest = rest

-- The number of events that are taken at once.
abbrev pub events_max : ℕ
events_max = 2

-- Only messages that start with '<' are handled on this socket.
abbrev pub is_event : Bytes → Bool
is_event [] = false
is_event (b ∷ bs) = b == b'<'

-- `deliver` is what a callback does with a message: it may use the channel in any way.
module _ (deliver : ℕ → Bytes → Ctrl → World → Ctrl × World) where
  abbrev pub call_back : Option ℕ → Bytes → Ctrl → World → Ctrl × World
  call_back none buf c w = (c, w)
  call_back (some cb) buf c w = deliver cb buf c w

  -- What `read_ev` does with a message.
  unfoldable pub on_message : Bytes → Ctrl → World → Ctrl × World
  on_message buf c w = if is_event buf then call_back c.cb buf c w else (c, w)

  -- `read_ev`
  unfoldable pub read_ev : List Moved → Ctrl → World → Option Outcome
  unfolding on_message
  read_ev [] c w = none
  read_ev (move_failed e ∷ rs) c w = some (outcome (read_error e) c w)
  read_ev (moved [] ∷ rs) c w = some (outcome ok c w)
  read_ev (moved (b ∷ bs) ∷ rs) c w =
      let x = on_message (take reply_max (b ∷ bs)) c w in
      let rest = read_ev rs x.0 x.1 in
      if is_open x.0 then rest else some (outcome (fail enodev) x.0 x.1)

  -- `dispatch_ev`
  unfoldable pub dispatch_ev : Pending → Ctrl → World → Option Outcome
  unfolding read_ev
  dispatch_ev p c w =
      if p.event.readable
      then read_ev p.reads c w >>= (λ o. some (hung p.event o))
      else some (hung p.event (outcome ok c w))

  -- One round of the loop of `owfd_wpa_ctrl_dispatch`, for the source of its event.
  unfoldable pub dispatch_one : Source → Pending → Ctrl → World → Option Outcome
  unfolding dispatch_ev dispatch_req dispatch_tfd
  dispatch_one at_ev p c w = dispatch_ev p c w
  dispatch_one at_req p c w = dispatch_req p >>= (λ s. some (outcome s c w))
  dispatch_one at_tfd p c w = dispatch_tfd p c w
  dispatch_one at_other p c w = some (outcome ok c w)

  -- The loop: it ends at the first error.
  unfoldable pub dispatch_loop : List Pending → Ctrl → World → Option Outcome
  unfolding dispatch_one
  dispatch_loop [] c w = some (outcome ok c w)
  dispatch_loop (p ∷ ps) c w =
      dispatch_one p.event.source p c w
      >>= (λ o. let rest = dispatch_loop ps o.ctrl o.world in go_on o o.status rest)

  abbrev pub dispatch_waited : Waited → Ctrl → World → Option Outcome
  dispatch_waited (wait_failed e) c w = some (outcome (read_error e) c w)
  dispatch_waited (waited ps) c w = dispatch_loop (take events_max ps) c w

  -- `owfd_wpa_ctrl_dispatch`
  unfoldable pub dispatch : Waited → Ctrl → World → Option Outcome
  unfolding dispatch_loop
  dispatch a c w = if is_open c then dispatch_waited a c w else some (outcome (fail enodev) c w)
