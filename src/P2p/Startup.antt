-- ===== src/P2p/Startup.antt =====
-- The wait for wpa_supplicant of src/p2pd_interface.c: `wait_for_wpa` and `fork_wpa`, with `wpa_setup`. Answers of
-- the kernel come as arguments, one entry for each round of a loop; `none` says that the call still waits
-- behind the answers that are given.
pub mod Settle
use openwfd.Common.{
  ℕ, zero, suc, ◌+◌, ◌-◌, ◌*◌, ◌/◌, ◌%◌, ◌^◌, ◌≤◌, ◌<◌, min, ◌≡◌, refl, sym, ap, ◌∙◌, ◌≢◌, ◌↔◌, ◌⊎◌,
  inl, inr, Bool, true, false, not, ◌&&◌, ◌||◌, Option, none, some, List, [], ◌∷◌, ◌++◌, append-nil,
  append_assoc, arith, ltb, leb, ◌==◌, if◌then◌else◌, Bool-cases, Option-cases, ltb→lt, ltb→ge,
  lt→ltb, ge→ltb, leb→le, leb→gt, le→leb, lt→leb, ==_iff, ==_refl,
}
use openwfd.Common.{length}
use openwfd.Common.Memory.{Status, ok, fail, Errno, enomem, enodev, epipe, etimedout, Bytes, ◌>>=◌}
use openwfd.Common.Text.{codes}
use openwfd.Common.World.{Made, made, make_failed, World, add_fd, close_fd}
use openwfd.Wpa.Ctrl.Timed.{Exchange, Requested}
use openwfd.Wpa.Ctrl.Channel.{
  Ctrl, OpenAnswers, Outcome, outcome, open_channel, request, request_ok, set_sigmask,
}

-- What `ppoll` on the inotify descriptor answers.
pub data Polled : Type 0 where
  poll_error : Errno → Polled
  poll_hangup poll_ready : Polled

-- One round of a loop: the time before and behind `ppoll`, whether the child lives, whether the socket file
-- exists, and the answers to an attempt to open it.
pub record WaitRound : Type 0 where
  pub polled : Polled
  pub start : ℕ
  pub now : ℕ
  pub alive : Bool
  pub exists : Bool
  pub attempt : OpenAnswers

-- The remaining time behind a round.
abbrev pub time_left : ℕ → WaitRound → ℕ
time_left t r = t - (r.now - r.start)

-- A round of the loop that waits for the socket file, behind `ppoll`: whether the child lives, whether the file
-- exists, whether no time is left.
abbrev pub file_ready : Bool → Bool → Bool → ℕ → Option (Status × ℕ) → Option (Status × ℕ)
file_ready false exists late left rest = some (fail enodev, left)
file_ready true true late left rest = some (ok, left)
file_ready true false true left rest = some (fail etimedout, left)
file_ready true false false left rest = rest

abbrev pub file_round : Polled → WaitRound → ℕ → ℕ → Option (Status × ℕ) → Option (Status × ℕ)
file_round (poll_error e) r t left rest = some (fail e, t)
file_round poll_hangup r t left rest = some (fail epipe, t)
file_round poll_ready r t left rest = file_ready r.alive r.exists (left == 0) left rest

-- The loop; with success, the remaining time.
unfoldable pub wait_file : ℕ → List WaitRound → Option (Status × ℕ)
wait_file t [] = none
wait_file t (r ∷ rs) = file_round r.polled r t (time_left t r) (wait_file (time_left t r) rs)

-- The pointer `wpa_event`
abbrev pub wpa_event_fn : ℕ
wpa_event_fn = 1

-- A round of the loop that waits until the socket can be opened, behind an attempt, and behind `ppoll`.
abbrev pub attempted : Bool → (Ctrl → World → Option Outcome) → Outcome → Status → Option Outcome
attempted late rest o ok = some o
attempted true rest o (fail e) = some (outcome (fail etimedout) o.ctrl o.world)
attempted false rest o (fail e) = rest o.ctrl o.world

abbrev pub open_round : Polled → Bool → Ctrl → World → Option Outcome → Option Outcome
open_round (poll_error e) alive c w next = some (outcome (fail e) c w)
open_round poll_hangup alive c w next = some (outcome (fail epipe) c w)
open_round poll_ready false c w next = some (outcome (fail enodev) c w)
open_round poll_ready true c w next = next

-- The loop.
unfoldable pub wait_open : Bytes → ℕ → List WaitRound → Ctrl → World → Option Outcome
wait_open file t [] c w = none
wait_open file t (r ∷ rs) c w = open_round r.polled r.alive c w (
    open_channel file wpa_event_fn r.attempt c w
    >>= (λ o. attempted (time_left t r == 0) (wait_open file (time_left t r) rs) o o.status))

-- What is answered to `wait_for_wpa`.
pub record WaitAnswers : Type 0 where
  pub inotify : Made
  pub alive : Bool
  pub exists : Bool
  pub file_rounds : List WaitRound
  pub still_alive : Bool
  pub attempt : OpenAnswers
  pub open_rounds : List WaitRound

-- 10s
abbrev pub startup_time : ℕ
startup_time = 10 * 1000 * 1000

-- `wait_for_wpa` behind the first attempt to open the socket.
abbrev pub first_attempt : Bytes → ℕ → List WaitRound → Outcome → Status → Option Outcome
first_attempt file t rs o ok = some o
first_attempt file t rs o (fail e) = wait_open file t rs o.ctrl o.world

-- From the socket watch on.
unfoldable pub wait_socket : Bytes → WaitAnswers → Ctrl → World → Status × ℕ → Option Outcome
unfolding wait_open
wait_socket file a c w (fail e, t) = some (outcome (fail e) c w)
wait_socket file a c w (ok, t) =
    if not a.still_alive
    then some (outcome (fail enodev) c w)
    else open_channel file wpa_event_fn a.attempt c w
      >>= (λ o. first_attempt file t a.open_rounds o o.status)

unfoldable pub wait_inotify : Bytes → WaitAnswers → Ctrl → World → Option Outcome
unfolding wait_socket wait_file
wait_inotify file a c w =
    if not a.alive
    then some (outcome (fail enodev) c w)
    else (if a.exists then some (ok, startup_time) else wait_file startup_time a.file_rounds)
      >>= wait_socket file a c w

-- `close(fd)`
abbrev pub close_inotify : ℕ → Outcome → Option Outcome
close_inotify fd o = some (record o { world = close_fd (some fd) o.world })

-- `wait_for_wpa`
unfoldable pub wait_for_wpa : Bytes → WaitAnswers → Ctrl → World → Option Outcome
unfolding wait_inotify
wait_for_wpa file a c w = elim a.inotify [
  | make_failed e ↦ some (outcome (fail e) c w)
  | made fd ↦ wait_inotify file a c (add_fd fd w) >>= close_inotify fd
]

-- `l != 1 || *buf != '1'`, as far as the status.
abbrev pub is_one : Bytes → Bool
is_one (c ∷ []) = c == b'1'
is_one _ = false

abbrev pub display_on : Requested → Status
display_on e = elim e.status [
  | fail x ↦ fail enodev
  | ok ↦ if is_one e.bytes then ok else fail enodev
]

-- A request of `wpa_setup`, and what follows; every error is -ENODEV.
abbrev pub and_request : Ctrl → List Exchange → Option Status → Option Status
and_request c [] s = s
and_request c (a ∷ as') none = none
and_request c (a ∷ as') (some (fail e)) = some (fail enodev)
and_request c (a ∷ as') (some ok) = and_request c as' (request_ok c none a)

-- The last test of `wpa_setup`.
abbrev pub or_enodev : Status → Status
or_enodev ok = ok
or_enodev (fail e) = fail enodev

-- What is answered to the five requests.
pub record SetupAnswers : Type 0 where
  pub get_display : Exchange
  pub ap_scan : Exchange
  pub device_name : Exchange
  pub device_type : Exchange
  pub set_display : Exchange

abbrev pub setup_replies : SetupAnswers → List Exchange
setup_replies a = a.ap_scan ∷ a.device_name ∷ a.device_type ∷ a.set_display ∷ []

-- `wpa_setup`
unfoldable pub wpa_setup : Ctrl → SetupAnswers → Option Status
unfolding request_ok request
wpa_setup c a =
    and_request c (setup_replies a)
      (request c 128 none a.get_display >>= (λ e. some (display_on e)))
    >>= (λ s. some (or_enodev s))

-- What is answered to `fork_wpa`, in the parent.
pub record ForkAnswers : Type 0 where
  pub fork : Made
  pub path : Bool
  pub wait : WaitAnswers
  pub setup : SetupAnswers

-- `fork_wpa` behind `wait_for_wpa`.
abbrev pub set_up : SetupAnswers → Outcome → Status → Option Outcome
set_up a o (fail e) = some o
set_up a o ok = wpa_setup o.ctrl a >>= (λ s. some (record o { status = s }))

-- What `fork_wpa` leaves: the child, if there is one, and the rest.
abbrev pub Forked : Type 0
Forked = Option ℕ × Outcome

-- `fork_wpa`, with the directory and the interface of the configuration, and the mask with SIGPIPE
unfoldable pub fork_wpa : Bytes → Bytes → Bytes → ForkAnswers → Ctrl → World → Option Forked
unfolding wait_for_wpa wpa_setup
fork_wpa ctrldir interface mask a c w = elim a.fork [
  | make_failed e ↦ some (none, outcome (fail e) c w)
  | made pid ↦
      if a.path
      then wait_for_wpa (ctrldir ++ b'/' ∷ interface) a.wait (set_sigmask c mask) w
        >>= (λ o. set_up a.setup o o.status)
        >>= (λ o. some (some pid, o))
      else some (some pid, outcome (fail enomem) c w)
]
