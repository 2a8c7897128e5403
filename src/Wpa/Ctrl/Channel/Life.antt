-- ===== src/Wpa/Ctrl/Channel/Life.antt =====
-- The life of a channel of src/wpa_ctrl.c: any sequence of calls of `owfd_wpa_ctrl_open` and
-- `owfd_wpa_ctrl_close`, with any answers of the kernel.
use openwfd.Common.{ℕ, ◌≡◌, sym, ◌∙◌, Option, none, some}
use mathlib.Core.Path.{subst}
use mathlib.Core.Option.{some-injective}
use openwfd.Common.Memory.{Status, ok, fail, Bytes}
use openwfd.Common.World.{World, Restored, restored, Restored-trans}
use openwfd.Wpa.Ctrl.Channel.{Ctrl, OpenAnswers, Outcome, open_channel, CloseAnswers, close_channel}
use openwfd.Wpa.Ctrl.Channel.Undo.{
  Undoes, Closed, Open, Opens, Verdict, disarmed, open_channel-Opens, open_again,
}
use openwfd.Wpa.Ctrl.Channel.Closing.{Recovers, Closes, close_channel-Closes, close_again}

-- The states that calls reach from a new channel in the kernel `w`. The source ignores what
-- `timerfd_settime` and `unlink` answer when it disarms the timer and removes a socket file: that they
-- succeed is what the code relies on.
pub data Life (w : World) : Ctrl → World → Type 0 where
  start : (c : Ctrl) → c.req_fd ≡ none → c.ev_fd ≡ none → c.cb ≡ none → Life w c w
  opening :
      (path : Bytes) (cb : ℕ) (a : OpenAnswers) (c : Ctrl) (v : World) (o : Outcome)
      → Life w c v
      → Undoes a
      → open_channel path cb a c v ≡ some o
      → Life w o.ctrl o.world
  closing :
      (b : CloseAnswers) (c : Ctrl) (v : World) (x : Ctrl × World)
      → Life w c v
      → Recovers b
      → close_channel b c v ≡ some x
      → Life w x.0 x.1

-- Closed, with nothing of it in the kernel, or open, on a kernel that is as before otherwise.
pub data Owned (c : Ctrl) (v w : World) : Type 0 where
  is_closed : Closed c v w → Owned c v w
  is_opened : (u : World) → Restored u w → Open c v u → Owned c v w

pub Closed-trans : (c : Ctrl) (u v w : World) → Closed c u v → Restored v w → Closed c u w
Closed-trans c u v w k r = record {
  no_req = k.no_req;
  no_ev = k.no_ev;
  no_cb = k.no_cb;
  undone = Restored-trans u v w k.undone r;
}

of_Verdict : (s : Status) (c : Ctrl) (u v w : World) → Verdict s c u v → Restored v w → Owned c u w
of_Verdict ok c u v w o r = is_opened v r o
of_Verdict (fail e) c u v w k r = is_closed (Closed-trans c u v w k r)

same_outcome : (p : Option Outcome) (o q : Outcome) → p ≡ some o → p ≡ some q → q ≡ o
same_outcome p o q e f = some-injective _ _ (sym f ∙ e)

opening-Owned :
    (path : Bytes) (cb : ℕ) (a : OpenAnswers) (c : Ctrl) (v w : World) (o : Outcome)
    → w.timer ≡ disarmed
    → Undoes a
    → open_channel path cb a c v ≡ some o
    → Owned c v w
    → Owned o.ctrl o.world w
opening-Owned path cb a c v w o timer disarms e (is_closed k) =
    of_Verdict o.status o.ctrl o.world v w
      (subst (λ p. Opens p v) e
        (open_channel-Opens a v (k.undone.same_timer ∙ timer) disarms path cb c k.no_req k.no_ev
          k.no_cb))
      k.undone
opening-Owned path cb a c v w o timer disarms e (is_opened u r p) =
    subst (λ q. Owned q.ctrl q.world w)
      (same_outcome _ o _ e (open_again path cb a c v p.ev p.has_ev)) (is_opened u r p)

pub closing-Closed :
    (b : CloseAnswers) (c : Ctrl) (v w : World) (x : Ctrl × World)
    → w.timer ≡ disarmed
    → Recovers b
    → close_channel b c v ≡ some x
    → Owned c v w
    → Closed x.0 x.1 w
closing-Closed b c v w x timer disarms e (is_closed k) =
    subst (λ q. Closed q.0 q.1 w) (some-injective _ _ (sym (close_again b c v k.no_ev) ∙ e)) k
closing-Closed b c v w x timer disarms e (is_opened u r p) =
    Closed-trans x.0 x.1 u w
      (subst (λ q. Closes q u) e (close_channel-Closes b c v u (r.same_timer ∙ timer) disarms p)) r

-- On a kernel whose timer is disarmed, whatever it answers but that the timer cannot be disarmed or a
-- socket file of the channel not be removed where the source ignores it, in every state that opening and closing reach, the channel is closed,
-- with the descriptors, the watched descriptors, the timer and no socket file beside those at the
-- start; or it is open, with exactly its two sockets more, both watched, and the timer running.
pub Life-Owned : (w : World) (c : Ctrl) (v : World) → w.timer ≡ disarmed → Life w c v → Owned c v w
Life-Owned w _ _ timer (start c p q s) =
    is_closed (record { no_req = p; no_ev = q; no_cb = s; undone = restored w })
Life-Owned w _ _ timer (opening path cb a c v o l disarms e) =
    opening-Owned path cb a c v w o timer disarms e (Life-Owned w c v timer l)
Life-Owned w _ _ timer (closing b c v x l disarms e) =
    is_closed (closing-Closed b c v w x timer disarms e (Life-Owned w c v timer l))

-- With the timer disarmed at the start, and answers by which it can be disarmed and the socket files
-- can be removed, a channel that is closed, in any state that opening and closing reach, leaves the descriptors, the
-- watched descriptors and the timer of the kernel as they were, and no socket file.
pub close_channel-Closed :
    (w : World) (b : CloseAnswers) (c : Ctrl) (v : World) (x : Ctrl × World)
    → w.timer ≡ disarmed
    → Life w c v
    → Recovers b
    → close_channel b c v ≡ some x
    → Closed x.0 x.1 w
close_channel-Closed w b c v x timer l disarms e =
    closing-Closed b c v w x timer disarms e (Life-Owned w c v timer l)
