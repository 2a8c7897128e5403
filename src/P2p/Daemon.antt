-- ===== src/P2p/Daemon.antt =====
-- The loop of src/p2pd.c: `owfd_p2pd_dispatch_sfd`, `owfd_p2pd_dispatch` and `owfd_p2pd_run`. The callback of the
-- channel is a parameter.
pub mod Quit
use openwfd.Common.{
  ℕ, zero, suc, ◌+◌, ◌-◌, ◌*◌, ◌/◌, ◌%◌, ◌^◌, ◌≤◌, ◌<◌, min, ◌≡◌, refl, sym, ap, ◌∙◌, ◌≢◌, ◌↔◌, ◌⊎◌,
  inl, inr, Bool, true, false, not, ◌&&◌, ◌||◌, Option, none, some, List, [], ◌∷◌, ◌++◌, append-nil,
  append_assoc, arith, ltb, leb, ◌==◌, if◌then◌else◌, Bool-cases, Option-cases, ltb→lt, ltb→ge,
  lt→ltb, ge→ltb, leb→le, leb→gt, le→leb, lt→leb, ==_iff, ==_refl,
}
use openwfd.Common.{take}
use openwfd.Common.Memory.{Status, ok, fail, Errno, epipe, Bytes, ◌>>=◌}
use openwfd.Common.World.{World}
use openwfd.Wpa.Ctrl.Timed.{is_again}
use openwfd.Wpa.Ctrl.Channel.{Ctrl, CloseAnswers}
use openwfd.Wpa.Ctrl.Dispatch.{Waited}
use openwfd.P2p.Control.{
  Interface, Action, handled, not_handled, quit, failed, dispatch_interface, dispatch_chld,
}

-- What `read` on the descriptor of signals answers: an error, too few bytes, or a signal and its sender.
pub data SignalRead : Type 0 where
  read_failed : Errno → SignalRead
  short_read : SignalRead
  signal : ℕ → ℕ → SignalRead

abbrev pub sigchld : ℕ
sigchld = 17

abbrev pub sigpipe : ℕ
sigpipe = 13

-- An event, with what is answered while it is handled: of the signals, with its hangup bit, of the channel, with a
-- null pointer, or of something else.
pub data Ready : Type 0 where
  at_signals : Bool → SignalRead → CloseAnswers → Ready
  at_channel : Waited → Ready
  at_null at_other : Ready

-- What `epoll_wait` answers.
pub data Batch : Type 0 where
  batch_failed : Errno → Batch
  batch : List Ready → Batch

abbrev pub State : Type 0
State = Interface × World

abbrev pub Acted : Type 0
Acted = Action × State

-- Behind `owfd_p2pd_interface_dispatch_chld`.
abbrev pub any_child : Acted → Acted
any_child (not_handled, s) = (handled, s)
any_child (handled, s) = (handled, s)
any_child (quit, s) = (quit, s)
any_child (failed e, s) = (failed e, s)

-- The `switch` over the signal.
abbrev pub on_signal : CloseAnswers → ℕ → ℕ → State → Option Acted
on_signal b signo pid (i, w) =
    if signo == sigchld
    then dispatch_chld b pid i w >>= (λ x. some (any_child x))
    else some (if signo == sigpipe then handled else quit, (i, w))

abbrev pub on_read : CloseAnswers → SignalRead → State → Option Acted
on_read b (read_failed e) s = some (failed e, s)
on_read b short_read s = some (not_handled, s)
on_read b (signal signo pid) s = on_signal b signo pid s

-- `owfd_p2pd_dispatch_sfd`
unfoldable pub dispatch_sfd : Ready → State → Option Acted
unfolding dispatch_chld
dispatch_sfd (at_signals true r b) s = some (failed epipe, s)
dispatch_sfd (at_signals false r b) s = on_read b r s
dispatch_sfd (at_channel a) s = some (not_handled, s)
dispatch_sfd at_null s = some (not_handled, s)
dispatch_sfd at_other s = some (not_handled, s)

-- The number of events that are taken at once.
abbrev pub batch_max : ℕ
batch_max = 64

abbrev pub is_null : Ready → Bool
is_null at_null = true
is_null _ = false

-- Behind `owfd_p2pd_interface_dispatch`.
abbrev pub after_interface : (State → Option Acted) → Acted → Option Acted
after_interface rest (failed e, s) = some (failed e, s)
after_interface rest (quit, s) = some (quit, s)
after_interface rest (handled, s) = rest s
after_interface rest (not_handled, s) = rest s

-- The test in the loop of `owfd_p2pd_run`.
abbrev pub after_batch : (State → Option (Status × State)) → Acted → Option (Status × State)
after_batch rest (failed e, s) = some (fail e, s)
after_batch rest (quit, s) = some (ok, s)
after_batch rest (handled, s) = rest s
after_batch rest (not_handled, s) = rest s

module _ (deliver : ℕ → Bytes → Ctrl → World → Ctrl × World) where
  -- The call of `owfd_p2pd_interface_dispatch` for an event.
  abbrev pub to_interface : Ready → State → Option Acted
  to_interface (at_channel a) (i, w) = dispatch_interface deliver true a i w
  to_interface _ s = some (not_handled, s)

  -- The loop of `owfd_p2pd_dispatch` from an event on: `r`, and whether it goes on.
  abbrev pub after_sfd : Ready → (Action → State → Option Acted) → Acted → Option Acted
  after_sfd e rest (failed x, s) = some (failed x, s)
  after_sfd e rest (quit, s) = some (quit, s)
  after_sfd e rest (handled, s) = rest handled s
  after_sfd e rest (not_handled, s) = to_interface e s >>= (λ x. after_interface (rest x.0) x)

  unfoldable pub dispatch_events : List Ready → Action → State → Option Acted
  unfolding dispatch_sfd dispatch_interface
  dispatch_events [] r s = some (r, s)
  dispatch_events (e ∷ es) r s =
      let skip = dispatch_events es r s in
      let take_it = dispatch_sfd e s >>= after_sfd e (dispatch_events es) in
      if is_null e then skip else take_it

  -- `owfd_p2pd_dispatch`
  unfoldable pub dispatch_batch : Batch → State → Option Acted
  unfolding dispatch_events
  dispatch_batch (batch_failed e) s = some (if is_again e then handled else failed e, s)
  dispatch_batch (batch es) s = dispatch_events (take batch_max es) handled s

  -- `owfd_p2pd_run`, over what each `epoll_wait` answers; `none` is still running
  unfoldable pub run_daemon : List Batch → State → Option (Status × State)
  unfolding dispatch_batch
  run_daemon [] s = none
  run_daemon (b ∷ bs) s = dispatch_batch b s >>= after_batch (run_daemon bs)
