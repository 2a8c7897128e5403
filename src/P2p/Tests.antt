-- ===== src/P2p/Tests.antt =====
-- Tests of the P2P daemon of src/p2pd.c and src/p2pd_interface.c, and its theorems on concrete answers.
use openwfd.Common.{ℕ, ◌+◌, ◌≡◌, refl, Bool, true, false, none, some, [], ◌∷◌, arith}
use openwfd.Common.Memory.{ok, eagain, Bytes}
use openwfd.Common.Text.{codes}
use openwfd.Common.Time.{us_to_timespec}
use openwfd.Common.World.{made, make_failed, World}
use openwfd.Dlist.{Heap, init, link}
use openwfd.Dlist.Chain.{Holds, init-Holds, link-Holds}
use openwfd.Wpa.Ctrl.Timed.{Exchange}
use openwfd.Wpa.Ctrl.Socket.{SocketAnswers}
use openwfd.Wpa.Ctrl.Channel.{Ctrl, OpenAnswers, fresh_ctrl, CloseAnswers, close_channel}
use openwfd.Wpa.Ctrl.Channel.Undo.{Undoes, Closed}
use openwfd.Common.World.{restored}
use openwfd.P2p.Startup
use openwfd.P2p.Startup.{Polled, WaitRound, wait_file, WaitAnswers, wait_inotify}
use openwfd.P2p.Startup.Settle.{Returned, wait_file-Returned, Settles, wait_inotify-Settles}
use openwfd.P2p.Users.{User}
use openwfd.P2p.Users.Unlinked.{unregister_at, Unregistered, unregister_at-Unregistered}
use openwfd.P2p.Control.{Interface, KillAnswers, kill_wpa, quit, dispatch_chld}
use openwfd.P2p.Control.Child.{Gone, dispatch_chld-Gone}
use openwfd.P2p.Daemon.{signal, at_signals, at_null, at_other, Batch, batch, run_daemon}
use openwfd.P2p.Daemon.Quit.{run_daemon-quits, quiet_null, quiet_pipe}

abbrev silent : Exchange
silent = record {
  sending = record { start = 0; rounds = [] };
  receiving = record { start = 0; rounds = [] };
}

abbrev socket_answers : SocketAnswers
socket_answers = record {
  socket = make_failed eagain;
  name = λ n. [];
  bind = none;
  unlink_old = none;
  bind_again = none;
  connect = none;
  add = none;
  unlink_name = none;
}

abbrev attempt : OpenAnswers
attempt = record {
  arm = none;
  req = socket_answers;
  ev = socket_answers;
  attach = silent;
  detach = silent;
  unlink_ev = none;
  unlink_req = none;
  disarm = none;
}

undoes : Undoes attempt
undoes = record {
  disarms = refl;
  unlinks_failed_req = refl;
  unlinks_failed_ev = refl;
  unlinks_req = refl;
  unlinks_ev = refl;
}

abbrev wait_round : ℕ → Bool → WaitRound
wait_round t e = record {
  polled = Startup.poll_ready;
  start = t;
  now = t + 1;
  alive = true;
  exists = e;
  attempt = attempt;
}

wait_file-Returned_example : Returned (wait_file 1 (wait_round 0 false ∷ wait_round 2 false ∷ []))
wait_file-Returned_example =
    wait_file-Returned 1 (wait_round 0 false ∷ wait_round 2 false ∷ [])
      (omega arith, (omega arith, tt)) (omega arith)

abbrev kernel : World
kernel = record {
  fds = 5 ∷ 4 ∷ 3 ∷ [];
  watched = 4 ∷ [];
  names = λ m. false;
  timer = us_to_timespec 0;
  counter = 0;
}

abbrev channel : Ctrl
channel = fresh_ctrl (some 3) (some 4)

abbrev wait_answers : WaitAnswers
wait_answers = record {
  inotify = made 5;
  alive = true;
  exists = false;
  file_rounds = wait_round 0 true ∷ [];
  still_alive = true;
  attempt = attempt;
  open_rounds = wait_round 2 true ∷ record (wait_round 4 true) { alive = false } ∷ [];
}

channel-Closed : Closed channel kernel kernel
channel-Closed = record { no_req = refl; no_ev = refl; no_cb = refl; undone = restored kernel }

wait_inotify-Settles_example :
    Settles (wait_inotify (codes "/run/wpa/wlan0") wait_answers channel kernel) kernel
wait_inotify-Settles_example =
    wait_inotify-Settles (codes "/run/wpa/wlan0") wait_answers channel kernel kernel refl undoes
      (undoes, (undoes, tt)) channel-Closed

-- A list at 1 with the users 3 and 2.
abbrev users : ℕ → User
users p = record { event_fn = p; user_data = 7 }

abbrev heap : Heap
heap = link 1 3 (link 1 2 (init 1 (record { next = λ p. 0; prev = λ p. 0 })))

heap-Holds : Holds heap 1 (3 ∷ 2 ∷ [])
heap-Holds =
    link-Holds (link 1 2 (init 1 (record { next = λ p. 0; prev = λ p. 0 }))) 1 3 (2 ∷ [])
      (omega arith) (omega arith, tt)
      (link-Holds (init 1 (record { next = λ p. 0; prev = λ p. 0 })) 1 2 [] (omega arith) tt
        (init-Holds 1 (record { next = λ p. 0; prev = λ p. 0 })))

unregister_at-Unregistered_example :
    Unregistered 2 7 users 1 [] (3 ∷ 2 ∷ []) (unregister_at 3 2 7 users 1 (heap.next 1) heap)
unregister_at-Unregistered_example =
    unregister_at-Unregistered 2 7 users 1 (3 ∷ 2 ∷ []) heap heap-Holds

abbrev interface : Interface
interface = record { wpa = channel; pid = some 99; event_users = [] }

abbrev close_answers : CloseAnswers
close_answers = record { detach = silent; unlink_ev = none; unlink_req = none; disarm = none }

abbrev kill_answers : KillAnswers
kill_answers = record { terminate = silent; alive = true }

died :
    dispatch_chld close_answers 99 interface kernel
    ≡ some (quit, (record interface { pid = none }, kernel))
unfolding dispatch_chld close_channel
died = refl

dispatch_chld-Gone_example :
    Gone (record interface { pid = none }) × (kill_wpa kill_answers channel none ≡ some none)
dispatch_chld-Gone_example =
    dispatch_chld-Gone close_answers kill_answers 99 interface (record interface { pid = none })
      kernel kernel died

abbrev keep : ℕ → Bytes → Ctrl → World → Ctrl × World
keep cb buf c w = (c, w)

abbrev sigterm : Batch
sigterm = batch (
    at_null
    ∷ at_signals false (signal 13 0) close_answers
    ∷ at_signals false (signal 15 1) close_answers
    ∷ at_other
    ∷ [])

run_daemon-quits_example :
    run_daemon keep (sigterm ∷ []) (interface, kernel) ≡ some (ok, (interface, kernel))
run_daemon-quits_example =
    run_daemon-quits keep (at_null ∷ at_signals false (signal 13 0) close_answers ∷ [])
      (at_other ∷ []) close_answers 15 1 [] (interface, kernel)
      (quiet_null, (quiet_pipe close_answers 0, tt)) (omega arith) (omega arith) (omega arith)
