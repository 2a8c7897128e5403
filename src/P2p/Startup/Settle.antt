-- ===== src/P2p/Startup/Settle.antt =====
-- What `wait_for_wpa` of src/p2pd_interface.c leaves behind, and that it ends.
use openwfd.Common.{
  ℕ, ◌<◌, ◌≡◌, refl, sym, ◌∙◌, ◌≢◌, Bool, true, false, not, Option, none, some, List, [], ◌∷◌,
  arith, ◌==◌, if◌then◌else◌,
}
use mathlib.Core.Path.{subst}
use openwfd.Common.{length}
use openwfd.Common.Memory.{Status, ok, fail, enodev, Bytes, ◌>>=◌}
use openwfd.Common.World.{World, Restored}
use openwfd.Wpa.Ctrl.Channel.{Ctrl, OpenAnswers, Outcome, outcome, open_channel}
use openwfd.Wpa.Ctrl.Channel.Undo.{
  Undoes, Closed, Open, Opens, Verdict, disarmed, open_channel-Opens,
}
use openwfd.Wpa.Ctrl.Channel.Life.{Closed-trans}
use openwfd.P2p.Startup.{
  Polled, poll_error, poll_hangup, poll_ready, WaitRound, time_left, file_ready, file_round,
  wait_file, wpa_event_fn, attempted, open_round, wait_open, WaitAnswers, first_attempt,
  wait_socket, wait_inotify,
}

-- A loop that has returned.
pub record Returned (o : Option (Status × ℕ)) : Type 0 where
  pub result : Status × ℕ
  pub returned : o ≡ some result

-- In every round the clock moves on.
abbrev pub Passing : List WaitRound → Type 0
Passing [] = Unit
Passing (r ∷ rs) = (r.start < r.now) × Passing rs

ready-Returned :
    (alive exists late : Bool) (left : ℕ) (rest : Option (Status × ℕ))
    → (late ≡ false → Returned rest)
    → Returned (file_ready alive exists late left rest)
ready-Returned false exists late left rest r = record { result = _; returned = refl }
ready-Returned true true late left rest r = record { result = _; returned = refl }
ready-Returned true false true left rest r = record { result = _; returned = refl }
ready-Returned true false false left rest r = r refl

round-Returned :
    (p : Polled) (r : WaitRound) (t left : ℕ) (rest : Option (Status × ℕ))
    → ((left == 0) ≡ false → Returned rest)
    → Returned (file_round p r t left rest)
round-Returned (poll_error e) r t left rest h = record { result = _; returned = refl }
round-Returned poll_hangup r t left rest h = record { result = _; returned = refl }
round-Returned poll_ready r t left rest h = ready-Returned r.alive r.exists (left == 0) left rest h

-- With a clock that moves on in every round, the loop that waits for the socket file ends within as many
-- rounds as its time has microseconds, and one.
pub wait_file-Returned :
    (t : ℕ) (rs : List WaitRound) → Passing rs → t < length rs → Returned (wait_file t rs)
unfolding wait_file
wait_file-Returned t [] p h = absurd (omega arith)
wait_file-Returned t (r ∷ rs) p h =
    round-Returned r.polled r t (time_left t r) (wait_file (time_left t r) rs) (λ e.
      let q = p.0 in
      let n : time_left t r ≢ 0 = ground (arith, e) in
      wait_file-Returned (time_left t r) rs p.1 (omega arith))

-- The channel behind the startup: open on a kernel that is as before otherwise, or closed with nothing of it
-- left.
abbrev pub Settled : Status → Ctrl → World → World → Type 0
Settled ok c v w = (u : World) × Restored u w × Open c v u
Settled (fail e) c v w = Closed c v w

abbrev pub Settles : Option Outcome → World → Type 0
Settles none w = Unit
Settles (some o) w = Settled o.status o.ctrl o.world w

-- The attempts of the rounds can disarm the timer and remove their socket files.
abbrev pub AllUndo : List WaitRound → Type 0
AllUndo [] = Unit
AllUndo (r ∷ rs) = (Undoes r.attempt) × AllUndo rs

attempted-Settles :
    (late : Bool) (rest : Ctrl → World → Option Outcome) (o : Outcome) (s : Status) (v w : World)
    → o.status ≡ s
    → Verdict s o.ctrl o.world v
    → Restored v w
    → ((c : Ctrl) (u : World) → Closed c u w → Settles (rest c u) w)
    → Settles (attempted late rest o s) w
attempted-Settles late rest o ok v w e x r k =
    subst (λ s. Settled s o.ctrl o.world w) (sym e) (v, r, x)
attempted-Settles true rest o (fail e) v w q x r k = Closed-trans o.ctrl o.world v w x r
attempted-Settles false rest o (fail e) v w q x r k =
    k o.ctrl o.world (Closed-trans o.ctrl o.world v w x r)

opened-Settles :
    (x : Option Outcome) (late : Bool) (rest : Ctrl → World → Option Outcome) (v w : World)
    → Opens x v
    → Restored v w
    → ((c : Ctrl) (u : World) → Closed c u w → Settles (rest c u) w)
    → Settles (x >>= (λ o. attempted late rest o o.status)) w
opened-Settles none late rest v w x r k = tt
opened-Settles (some o) late rest v w x r k = attempted-Settles late rest o o.status v w refl x r k

open_round-Settles :
    (p : Polled) (alive : Bool) (c : Ctrl) (v w : World) (next : Option Outcome)
    → Closed c v w
    → Settles next w
    → Settles (open_round p alive c v next) w
open_round-Settles (poll_error e) alive c v w next h n = h
open_round-Settles poll_hangup alive c v w next h n = h
open_round-Settles poll_ready false c v w next h n = h
open_round-Settles poll_ready true c v w next h n = n

attempt-Opens :
    (file : Bytes) (a : OpenAnswers) (c : Ctrl) (v w : World)
    → w.timer ≡ disarmed
    → Undoes a
    → Closed c v w
    → Opens (open_channel file wpa_event_fn a c v) v
attempt-Opens file a c v w timer disarms h =
    open_channel-Opens a v (h.undone.same_timer ∙ timer) disarms file wpa_event_fn c h.no_req
      h.no_ev h.no_cb

wait_open-Settles :
    (file : Bytes) (t : ℕ) (rs : List WaitRound) (c : Ctrl) (v w : World)
    → w.timer ≡ disarmed
    → AllUndo rs
    → Closed c v w
    → Settles (wait_open file t rs c v) w
unfolding wait_open
wait_open-Settles file t [] c v w timer d h = tt
wait_open-Settles file t (r ∷ rs) c v w timer d h = open_round-Settles r.polled r.alive c v w _ h (
    opened-Settles _ _ _ v w (attempt-Opens file r.attempt c v w timer d.0 h) h.undone
      (λ e u k. wait_open-Settles file (time_left t r) rs e u w timer d.1 k))

first-Settles :
    (file : Bytes) (t : ℕ) (rs : List WaitRound) (o : Outcome) (s : Status) (v w : World)
    → w.timer ≡ disarmed
    → AllUndo rs
    → o.status ≡ s
    → Verdict s o.ctrl o.world v
    → Restored v w
    → Settles (first_attempt file t rs o s) w
first-Settles file t rs o ok v w timer d e x r =
    subst (λ s. Settled s o.ctrl o.world w) (sym e) (v, r, x)
first-Settles file t rs o (fail f) v w timer d e x r =
    wait_open-Settles file t rs o.ctrl o.world w timer d (Closed-trans o.ctrl o.world v w x r)

first_bound :
    (file : Bytes) (t : ℕ) (rs : List WaitRound) (x : Option Outcome) (v w : World)
    → w.timer ≡ disarmed
    → AllUndo rs
    → Opens x v
    → Restored v w
    → Settles (x >>= (λ o. first_attempt file t rs o o.status)) w
first_bound file t rs none v w timer d x r = tt
first_bound file t rs (some o) v w timer d x r =
    first-Settles file t rs o o.status v w timer d refl x r

if_alive :
    (alive : Bool) (c : Ctrl) (v w : World) (next : Option Outcome)
    → Closed c v w
    → Settles next w
    → Settles (if not alive then some (outcome (fail enodev) c v) else next) w
if_alive true c v w next h n = n
if_alive false c v w next h n = h

wait_socket-Settles :
    (file : Bytes) (a : WaitAnswers) (c : Ctrl) (v w : World) (x : Status × ℕ)
    → w.timer ≡ disarmed
    → Undoes a.attempt
    → AllUndo a.open_rounds
    → Closed c v w
    → Settles (wait_socket file a c v x) w
unfolding wait_socket
wait_socket-Settles file a c v w (fail e, t) timer f d h = h
wait_socket-Settles file a c v w (ok, t) timer f d h = if_alive a.still_alive c v w _ h (
    first_bound file t a.open_rounds _ v w timer d (attempt-Opens file a.attempt c v w timer f h)
      h.undone)

socket_bound :
    (file : Bytes) (a : WaitAnswers) (c : Ctrl) (v w : World) (x : Option (Status × ℕ))
    → w.timer ≡ disarmed
    → Undoes a.attempt
    → AllUndo a.open_rounds
    → Closed c v w
    → Settles (x >>= wait_socket file a c v) w
socket_bound file a c v w none timer f d h = tt
socket_bound file a c v w (some x) timer f d h = wait_socket-Settles file a c v w x timer f d h

-- From a closed channel, on a kernel whose timer is disarmed, where every attempt can disarm it and
-- remove its socket files, however the child, the
-- inotify descriptor, the file and the attempts to open the socket behave: where the wait for
-- wpa_supplicant returns success, the channel is open, on a kernel that is as before otherwise; where it
-- returns an error, the channel is closed, with nothing of any attempt left in the kernel.
pub wait_inotify-Settles :
    (file : Bytes) (a : WaitAnswers) (c : Ctrl) (v w : World)
    → w.timer ≡ disarmed
    → Undoes a.attempt
    → AllUndo a.open_rounds
    → Closed c v w
    → Settles (wait_inotify file a c v) w
unfolding wait_inotify
wait_inotify-Settles file a c v w timer f d h =
    if_alive a.alive c v w _ h (socket_bound file a c v w _ timer f d h)
