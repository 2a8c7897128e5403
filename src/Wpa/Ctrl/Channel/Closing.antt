-- ===== src/Wpa/Ctrl/Channel/Closing.antt =====
-- That `owfd_wpa_ctrl_close` of src/wpa_ctrl.c takes back what `owfd_wpa_ctrl_open` leaves behind.
use openwfd.Common.{◌≡◌, refl, sym, ap, Option, none, some, if◌then◌else◌}
use mathlib.Core.Path.{subst}
use openwfd.Common.Memory.{◌>>=◌}
use openwfd.Common.World.{World, Restored, Restored-Behind}
use openwfd.Wpa.Ctrl.Socket.{close_socket}
use openwfd.Wpa.Ctrl.Socket.Restore.{close_socket-Restored}
use openwfd.Wpa.Ctrl.Timed.{wpa_request, reply_max}
use openwfd.Wpa.Ctrl.Channel.{
  Ctrl, is_some, CloseAnswers, closed_channel, closed_world, close_channel,
}
use openwfd.Wpa.Ctrl.Channel.Undo.{Closed, Open, disarmed, armed, disarm-Restored}

-- Answers that let everything be undone.
pub record Recovers (b : CloseAnswers) : Type 0 where
  pub disarms : b.disarm ≡ none
  pub unlinks_req : b.unlink_req ≡ none
  pub unlinks_ev : b.unlink_ev ≡ none

closed_sockets :
    (c : Ctrl) (v w : World) (o : Open c v w)
    → Restored
        (close_socket (some o.req) c.req_name none (close_socket (some o.ev) c.ev_name none v))
        (armed w)
closed_sockets c v w o = close_socket-Restored o.req c.req_name _ (armed w) (
    Restored-Behind _ _ c.req_name _ o.between (armed w)
      (close_socket-Restored o.ev c.ev_name v o.between o.second) o.first)

Closed-by :
    (b : CloseAnswers) (c : Ctrl) (v w : World)
    → w.timer ≡ disarmed
    → Recovers b
    → Open c v w
    → Closed (closed_channel c) (closed_world b c v) w
Closed-by b c v w timer r o = record {
  no_req = refl;
  no_ev = refl;
  no_cb = refl;
  undone =
      rw (r.disarms, r.unlinks_req, r.unlinks_ev, o.has_req, o.has_ev)
        (disarm-Restored _ w (closed_sockets c v w o) timer);
}

-- What a close that has returned leaves.
abbrev pub Closes : Option (Ctrl × World) → World → Type 0
Closes none w = Unit
Closes (some x) w = Closed x.0 x.1 w

bound-Closes :
    {A : Type 0} (x : Option A) (y : Ctrl × World) (w : World)
    → Closed y.0 y.1 w
    → Closes (x >>= (λ z. some y)) w
bound-Closes none y w h = tt
bound-Closes (some z) y w h = h

pub close_channel-Closes :
    (b : CloseAnswers) (c : Ctrl) (v w : World)
    → w.timer ≡ disarmed
    → Recovers b
    → Open c v w
    → Closes (close_channel b c v) w
unfolding close_channel
close_channel-Closes b c v w timer r o =
    let detached = wpa_request c.ev_fd reply_max (some 0) b.detach in
    subst (λ p. Closes p w)
      (sym (
        ap
          (λ e.
            if is_some e
            then detached >>= (λ x. some (closed_channel c, closed_world b c v))
            else some (c, v))
          o.has_ev))
      (bound-Closes detached _ w (Closed-by b c v w timer r o))

-- Nothing is done to a channel that is closed already.
pub close_again :
    (b : CloseAnswers) (c : Ctrl) (w : World) → c.ev_fd ≡ none → close_channel b c w ≡ some (c, w)
unfolding close_channel
close_again b c w h =
    let detached = wpa_request c.ev_fd reply_max (some 0) b.detach in
    ap
      (λ e.
        if is_some e
        then detached >>= (λ x. some (closed_channel c, closed_world b c w))
        else some (c, w))
      h
