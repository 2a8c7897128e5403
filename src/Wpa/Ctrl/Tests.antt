-- ===== src/Wpa/Ctrl/Tests.antt =====
-- Tests of the channel of src/wpa_ctrl.c, and its theorems on concrete channels and answers.
use openwfd.Common.{ℕ, ◌≡◌, refl, Bool, true, false, Option, none, some, List, [], ◌∷◌, ◌++◌, arith}
use openwfd.Common.{take}
use openwfd.Common.Memory.{Status, ok, fail, Errno, eagain, epipe, eaddrinuse, einval, Bytes}
use openwfd.Common.Text.{codes, starts_with}
use openwfd.Common.Time.{us_to_timespec}
use openwfd.Common.World.{made, World}
use openwfd.Wpa.Ctrl.Timed.{
  poll_ready, Moved, moved, move_failed, Exchange, timed_loop, timed_send, timed_recv, sent, recved,
  try_round, clamp_time, wpa_request, is_ok, wpa_request_ok,
}
use openwfd.Wpa.Ctrl.Socket.{
  SocketAnswers, bind_socket, strncpy, sun_path, connect_socket, open_made, open_socket,
  close_socket, arm_timer, disarm_timer,
}
use openwfd.Wpa.Ctrl.Socket.Address.{Addressed, sun_path-Addressed}
use openwfd.Wpa.Ctrl.Channel.{
  Ctrl, OpenAnswers, Outcome, outcome, fresh_ctrl, err_ev, open_ev, open_req, open_channel,
  close_channel, CloseAnswers,
}
use openwfd.Wpa.Ctrl.Channel.Undo.{Undoes, Closed}
use openwfd.Wpa.Ctrl.Channel.Closing.{Recovers}
use openwfd.Wpa.Ctrl.Channel.Life.{Life, start, opening, Owned, Life-Owned, close_channel-Closed}
use openwfd.Wpa.Ctrl.Dispatch.{
  Source, at_ev, at_req, Pending, waited, on_message, read_ev, dispatch_ev, read_req, dispatch_req,
  is_pong, read_tfd, dispatch_tfd, dispatch_one, dispatch_loop, dispatch, events_max,
}
use openwfd.Wpa.Ctrl.Dispatch.Hangup.{NoHangup, dispatch-NoHangup}
use openwfd.Wpa.Ctrl.Dispatch.Drain.{queue, dispatch_ev-handled}

abbrev socket_answers : ℕ → Option Errno → Option Errno → SocketAnswers
socket_answers fd bind connect = record {
  socket = made fd;
  name = λ n. codes "/tmp/wpa-" ++ n ∷ [];
  bind = bind;
  unlink_old = none;
  bind_again = none;
  connect = connect;
  add = none;
  unlink_name = none;
}

abbrev attach : Moved → Exchange
attach m = record {
  sending = record {
    start = 1;
    rounds = record { poll = poll_ready; io = moved (codes "ATTACH"); now = 2 } ∷ [];
  };
  receiving = record { start = 3; rounds = record { poll = poll_ready; io = m; now = 4 } ∷ [] };
}

-- A kernel with five descriptors, of which the epoll set watches the timer.
abbrev kernel : World
kernel = record {
  fds = 4 ∷ 3 ∷ 2 ∷ 1 ∷ 0 ∷ [];
  watched = 4 ∷ [];
  names = λ m. false;
  timer = us_to_timespec 0;
  counter = 0;
}

abbrev channel : Ctrl
channel = fresh_ctrl (some 3) (some 4)

-- The second socket gets a name that is in use; `reply` is the reply to ATTACH.
abbrev answers : Moved → OpenAnswers
answers reply = record {
  arm = none;
  req = socket_answers 5 none none;
  ev = socket_answers 6 (some eaddrinuse) none;
  attach = attach reply;
  detach = attach (move_failed eagain);
  unlink_ev = none;
  unlink_req = none;
  disarm = none;
}

unfoldable run : Moved → Option Outcome
unfolding open_channel open_req open_ev err_ev open_socket open_made bind_socket connect_socket
    sun_path strncpy starts_with close_socket arm_timer disarm_timer us_to_timespec wpa_request
    wpa_request_ok is_ok timed_send timed_recv timed_loop try_round sent recved clamp_time
run reply = open_channel (codes "/run/wpa/wlan0") 9 (answers reply) channel kernel

abbrev granted : Moved
granted = moved (b'O' ∷ b'K' ∷ 10 ∷ [])

-- The result, the descriptors and what is watched.
abbrev shown : Option Outcome → Option (Status × (List ℕ × List ℕ))
shown none = none
shown (some o) = some (o.status, (o.world.fds, o.world.watched))

run_granted : shown (run granted) ≡ some (ok, (6 ∷ 5 ∷ 4 ∷ 3 ∷ 2 ∷ 1 ∷ 0 ∷ [], 6 ∷ 5 ∷ 4 ∷ []))
unfolding run
run_granted = refl

run_refused :
    shown (run (moved (codes "FAIL"))) ≡ some (fail einval, (4 ∷ 3 ∷ 2 ∷ 1 ∷ 0 ∷ [], 4 ∷ []))
unfolding run
run_refused = refl

abbrev got : Option Outcome → Outcome
got none = outcome ok channel kernel
got (some o) = o

abbrev opened_life : Outcome
opened_life = got (run granted)

has_opened : run granted ≡ some opened_life
unfolding run
has_opened = refl

undoes : Undoes (answers granted)
undoes = record {
  disarms = refl;
  unlinks_failed_req = refl;
  unlinks_failed_ev = refl;
  unlinks_req = refl;
  unlinks_ev = refl;
}

life : Life kernel opened_life.ctrl opened_life.world
unfolding run
life =
    opening (codes "/run/wpa/wlan0") 9 (answers granted) channel kernel opened_life
      (start channel refl refl refl) undoes has_opened

Life-Owned_example : Owned opened_life.ctrl opened_life.world kernel
Life-Owned_example = Life-Owned kernel opened_life.ctrl opened_life.world refl life

abbrev close_answers : CloseAnswers
close_answers = record {
  detach = attach (move_failed eagain);
  unlink_ev = none;
  unlink_req = none;
  disarm = none;
}

recovers : Recovers close_answers
recovers = record { disarms = refl; unlinks_req = refl; unlinks_ev = refl }

unfoldable run_close : Option (Ctrl × World)
unfolding run close_channel close_socket disarm_timer arm_timer us_to_timespec wpa_request
    timed_send timed_recv timed_loop try_round sent recved clamp_time
run_close = close_channel close_answers opened_life.ctrl opened_life.world

abbrev got_pair : Option (Ctrl × World) → Ctrl × World
got_pair none = (channel, kernel)
got_pair (some x) = x

close_channel-Closed_example : Closed (got_pair run_close).0 (got_pair run_close).1 kernel
unfolding run_close
close_channel-Closed_example =
    close_channel-Closed kernel close_answers opened_life.ctrl opened_life.world
      (got_pair run_close) refl life recovers refl

sun_path-Addressed_example : Addressed (b'/' ∷ b'a' ∷ []) (sun_path (b'/' ∷ b'a' ∷ []))
sun_path-Addressed_example =
    sun_path-Addressed b'/' (b'a' ∷ []) ((λ e. omega (arith, e)), ((λ e. omega (arith, e)), tt))

abstract_path :
    sun_path (codes "@abstract:wpa") ≡ some (0 ∷ codes "wpa" ++ strncpy 103 [] ++ 0 ∷ [])
unfolding sun_path strncpy starts_with
abstract_path = refl

-- A callback that keeps the last message in `mask`.
abbrev keep : ℕ → Bytes → Ctrl → World → Ctrl × World
keep cb buf c w = (record c { mask = buf }, w)

abbrev open_ctrl : Ctrl
open_ctrl = record channel { req_fd = some 5; ev_fd = some 6; cb = some 9 }

abbrev messages : List Bytes
messages = codes "<3>A" ∷ codes "noise" ∷ codes "<3>B" ∷ []

abbrev event : Source → Bool → List Moved → Pending
event s h rs = record {
  event = record { source = s; readable = true; hangup = h };
  reads = rs;
  ping = attach (move_failed eagain);
}

dispatch_ev-handled_example :
    dispatch_ev keep (event at_ev true (queue messages)) open_ctrl kernel
    ≡ some (outcome (fail epipe) (record open_ctrl { mask = codes "<3>B" }) kernel)
dispatch_ev-handled_example =
    dispatch_ev-handled keep messages (event at_ev true (queue messages)) open_ctrl kernel
      (λ cb buf c w h. h) refl (omega arith, (omega arith, (omega arith, tt))) refl refl

abbrev pending : List Pending
pending =
    event at_ev false (queue messages)
    ∷ event at_req false (moved (codes "stale") ∷ move_failed eagain ∷ [])
    ∷ []

unfoldable run_dispatch : Option Outcome
unfolding dispatch dispatch_loop dispatch_one dispatch_ev dispatch_req dispatch_tfd read_tfd
    read_req read_ev on_message is_pong wpa_request
run_dispatch = dispatch keep (waited pending) open_ctrl kernel

dispatch-NoHangup_example : NoHangup (take events_max pending)
unfolding run_dispatch
dispatch-NoHangup_example =
    dispatch-NoHangup keep pending open_ctrl kernel
      (outcome ok (record open_ctrl { mask = codes "<3>B" }) kernel) refl refl
