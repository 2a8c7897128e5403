-- ===== src/Rtsp/Ctrl/Dispatch.antt =====
-- Events on the channel of src/rtsp_ctrl.c: `connect_done`, `recv_all`, `dispatch_ctrl` and
-- `owfd_rtsp_ctrl_dispatch`. The callback is a parameter; a function is `none` while it still waits.
pub mod Ends
use openwfd.Common.{
  ℕ, zero, suc, ◌+◌, ◌-◌, ◌*◌, ◌/◌, ◌%◌, ◌^◌, ◌≤◌, ◌<◌, min, ◌≡◌, refl, sym, ap, ◌∙◌, ◌≢◌, ◌↔◌, ◌⊎◌,
  inl, inr, Bool, true, false, not, ◌&&◌, ◌||◌, Option, none, some, List, [], ◌∷◌, ◌++◌, append-nil,
  append_assoc, arith, ltb, leb, ◌==◌, if◌then◌else◌, Bool-cases, Option-cases, ltb→lt, ltb→ge,
  lt→ltb, ge→ltb, leb→le, leb→gt, le→leb, lt→leb, ==_iff, ==_refl,
}
use openwfd.Common.{length, take}
use openwfd.Common.Memory.{Status, ok, fail, Errno, enodev, epipe, Bytes, ◌>>=◌}
use openwfd.Rtsp.Ctrl.{Ctrl, Net, Outcome, outcome, is_open, close_channel}
use openwfd.Rtsp.Ctrl.Output.{Wrote, send_all}
use openwfd.Wpa.Ctrl.Timed.{Moved, moved, move_failed, is_again}

-- `struct epoll_event` for the socket, and what is answered while it is handled.
pub record SocketEvent : Type 0 where
  pub readable : Bool
  pub writable : Bool
  pub hangup : Bool
  pub reads : List Moved
  pub write : Wrote
  pub set : Option Errno

-- What `epoll_wait` answers; `other_source` is an event whose pointer is not the socket's.
pub data Waited : Type 0 where
  wait_failed : Errno → Waited
  nothing : Waited
  other_source : Waited
  waited : SocketEvent → Waited

abbrev pub round_max : ℕ
round_max = 128

abbrev pub buf_max : ℕ
buf_max = 4096

-- `return ctrl->connected ? 0 : -EPIPE`
abbrev pub while_connected : Ctrl → Net → Outcome
while_connected c k = outcome (if c.connected then ok else fail epipe) c k

-- `if (r < 0) return r`
abbrev pub go_on : Status → Outcome → (Ctrl → Net → Option Outcome) → Option Outcome
go_on (fail e) o f = some o
go_on ok o f = f o.ctrl o.net

abbrev pub continue : Outcome → (Ctrl → Net → Option Outcome) → Option Outcome
continue o f = go_on o.status o f

-- The end of `owfd_rtsp_ctrl_dispatch`.
abbrev pub closed_outcome : Errno → Ctrl × Net → Outcome
closed_outcome e (c, k) = outcome (fail e) c k

abbrev pub finish : Status → Outcome → Outcome
finish ok o = o
finish (fail e) o = closed_outcome e (close_channel o.ctrl o.net)

-- `deliver` is what a callback does with the bytes it is given, none of them for a new connection.
module _ (deliver : ℕ → Bytes → Ctrl → Net → Ctrl × Net) where
  abbrev pub call_back : Option ℕ → Bytes → Ctrl → Net → Ctrl × Net
  call_back none buf c k = (c, k)
  call_back (some cb) buf c k = deliver cb buf c k

  -- `connect_done`
  unfoldable pub connect_done : Ctrl → Net → Outcome
  connect_done c k =
      if c.connected
      then outcome ok c k
      else let x = call_back c.cb [] (record c { connected = true }) k in while_connected x.0 x.1

  -- `recv_all`, with `rounds` left
  unfoldable pub recv_loop : ℕ → List Moved → Ctrl → Net → Option Outcome
  recv_loop rounds [] c k = none
  recv_loop rounds (move_failed e ∷ rs) c k =
      some (if is_again e then while_connected c k else outcome (fail e) c k)
  recv_loop rounds (moved [] ∷ rs) c k = some (while_connected c k)
  recv_loop zero (moved (b ∷ bs) ∷ rs) c k = none
  recv_loop (suc rounds) (moved (b ∷ bs) ∷ rs) c k =
      let x = call_back c.cb (take buf_max (b ∷ bs)) c k in
      let rest = recv_loop rounds rs x.0 x.1 in
      if not (rounds == 0) && x.0.connected then rest else some (while_connected x.0 x.1)

  unfoldable pub recv_all : List Moved → Ctrl → Net → Option Outcome
  unfolding recv_loop
  recv_all rs c k = recv_loop round_max rs c k

  -- The parts of `dispatch_ctrl`.
  abbrev pub hangup_part : SocketEvent → Ctrl → Net → Option Outcome
  hangup_part e c k = some (outcome (if e.hangup then fail epipe else ok) c k)

  unfoldable pub output_part : SocketEvent → Ctrl → Net → Option Outcome
  unfolding connect_done send_all
  output_part e c k =
      if e.writable
      then continue (connect_done c k)
          (λ d l. continue (send_all e.write e.set d l) (hangup_part e))
      else hangup_part e c k

  unfoldable pub read_part : SocketEvent → Ctrl → Net → Option Outcome
  unfolding recv_all output_part
  read_part e c k = recv_all e.reads c k >>= (λ o. continue o (output_part e))

  -- `dispatch_ctrl`
  unfoldable pub dispatch_ctrl : SocketEvent → Ctrl → Net → Option Outcome
  unfolding read_part connect_done
  dispatch_ctrl e c k =
      if e.readable then continue (connect_done c k) (read_part e) else output_part e c k

  abbrev pub dispatch_waited : Waited → Ctrl → Net → Option Outcome
  dispatch_waited (wait_failed e) c k = some (outcome (if is_again e then ok else fail e) c k)
  dispatch_waited nothing c k = some (outcome ok c k)
  dispatch_waited other_source c k = some (outcome ok c k)
  dispatch_waited (waited e) c k = dispatch_ctrl e c k >>= (λ o. some (finish o.status o))

  -- `owfd_rtsp_ctrl_dispatch`
  unfoldable pub dispatch : Waited → Ctrl → Net → Option Outcome
  unfolding dispatch_ctrl close_channel
  dispatch a c k = if is_open c then dispatch_waited a c k else some (outcome (fail enodev) c k)
