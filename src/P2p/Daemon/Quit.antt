-- ===== src/P2p/Daemon/Quit.antt =====
-- How the loop of src/p2pd.c ends on a signal.
use openwfd.Common.{
  ℕ, zero, suc, ◌<◌, ◌≡◌, refl, ap, ◌∙◌, ◌≢◌, false, some, List, [], ◌∷◌, ◌++◌, arith, ◌==◌,
}
use openwfd.Common.{length, take}
use openwfd.Common.Memory.{ok, Bytes, ◌>>=◌}
use openwfd.Common.World.{World}
use openwfd.Wpa.Ctrl.Channel.{Ctrl, CloseAnswers}
use openwfd.P2p.Control.{Action, handled, not_handled, quit}
use openwfd.P2p.Daemon.{
  signal, sigchld, sigpipe, Ready, at_signals, at_null, at_other, Batch, batch, State, on_signal,
  dispatch_sfd, after_sfd, dispatch_events, batch_max, dispatch_batch, after_batch, run_daemon,
}

-- Events that change nothing: without a pointer, of something else, SIGPIPE.
pub data Quiet : Ready → Type 0 where
  quiet_null : Quiet at_null
  quiet_other : Quiet at_other
  quiet_pipe : (b : CloseAnswers) (pid : ℕ) → Quiet (at_signals false (signal sigpipe pid) b)

abbrev pub AllQuiet : List Ready → Type 0
AllQuiet [] = Unit
AllQuiet (e ∷ es) = Quiet e × AllQuiet es

quit_signal :
    (b : CloseAnswers) (signo pid : ℕ) (s : State)
    → signo ≢ sigchld
    → signo ≢ sigpipe
    → on_signal b signo pid s ≡ some (quit, s)
quit_signal b signo pid s c p =
    let x : (signo == sigchld) ≡ false = ground (arith, c) in
    let y : (signo == sigpipe) ≡ false = ground (arith, p) in rw (x, y)

module _ (deliver : ℕ → Bytes → Ctrl → World → Ctrl × World) where
  Quiet-next :
      (e : Ready) (es : List Ready) (r : Action) (s : State)
      → Quiet e
      → (t : Action) × (dispatch_events deliver (e ∷ es) r s ≡ dispatch_events deliver es t s)
  unfolding dispatch_events dispatch_sfd
  Quiet-next _ es r s quiet_null = (r, refl)
  Quiet-next _ es r s quiet_other = (not_handled, refl)
  Quiet-next _ es r s (quiet_pipe b pid) = (handled, refl)

  quit_now :
      (b : CloseAnswers) (signo pid : ℕ) (es : List Ready) (r : Action) (s : State)
      → signo ≢ sigchld
      → signo ≢ sigpipe
      → dispatch_events deliver (at_signals false (signal signo pid) b ∷ es) r s ≡ some (quit, s)
  unfolding dispatch_events dispatch_sfd
  quit_now b signo pid es r s c p =
      ap
        (λ x.
          x
          >>= after_sfd deliver (at_signals false (signal signo pid) b)
              (dispatch_events deliver es))
        (quit_signal b signo pid s c p)

  events_quit :
      (n : ℕ) (es fs : List Ready) (b : CloseAnswers) (signo pid : ℕ) (r : Action) (s : State)
      → AllQuiet es
      → length es < n
      → signo ≢ sigchld
      → signo ≢ sigpipe
      → dispatch_events deliver (take n (es ++ at_signals false (signal signo pid) b ∷ fs)) r s
        ≡ some (quit, s)
  events_quit zero es fs b signo pid r s q h c p = absurd (omega arith)
  events_quit (suc n) [] fs b signo pid r s q h c p = quit_now b signo pid (take n fs) r s c p
  events_quit (suc n) (e ∷ es) fs b signo pid r s q h c p =
      let x = Quiet-next e (take n (es ++ at_signals false (signal signo pid) b ∷ fs)) r s q.0 in
      x.1 ∙ events_quit n es fs b signo pid x.0 s q.1 (omega arith) c p

  -- Where a signal beside SIGCHLD and SIGPIPE is among the events that are taken at once, behind events that
  -- change nothing, `owfd_p2pd_run` returns 0 with the state as it was: what is behind the signal is not handled.
  pub run_daemon-quits :
      (es fs : List Ready) (b : CloseAnswers) (signo pid : ℕ) (bs : List Batch) (s : State)
      → AllQuiet es
      → length es < batch_max
      → signo ≢ sigchld
      → signo ≢ sigpipe
      → run_daemon deliver (batch (es ++ at_signals false (signal signo pid) b ∷ fs) ∷ bs) s
        ≡ some (ok, s)
  unfolding run_daemon dispatch_batch
  run_daemon-quits es fs b signo pid bs s q h c p =
      ap (λ x. x >>= after_batch (run_daemon deliver bs))
        (events_quit batch_max es fs b signo pid handled s q h c p)
