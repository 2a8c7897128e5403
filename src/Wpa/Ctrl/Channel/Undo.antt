-- ===== src/Wpa/Ctrl/Channel/Undo.antt =====
-- What `owfd_wpa_ctrl_open` of src/wpa_ctrl.c leaves behind.
use openwfd.Common.{ℕ, ◌≡◌, refl, sym, ap, true, Option, none, some, ◌∷◌, if◌then◌else◌}
use mathlib.Core.Path.{subst}
use openwfd.Common.Memory.{Status, ok, fail, Errno, ealready, Bytes, ◌>>=◌}
use openwfd.Common.Time.{Timespec, us_to_timespec}
use openwfd.Common.World.{
  Made, made, make_failed, World, Restored, Behind, restored, Restored-Behind,
}
use openwfd.Wpa.Ctrl.Socket.{opened, close_socket, arm_timer, disarm_timer}
use openwfd.Wpa.Ctrl.Socket.Restore.{Left, open_socket-Socketed, close_socket-Restored}
use openwfd.Wpa.Ctrl.Channel.{
  Ctrl, is_some, OpenAnswers, Outcome, outcome, err_timer, err_req, err_ev, open_attached, open_ev,
  open_req, open_armed, ping_time, open_channel,
}

-- Answers that let everything be undone: the timer can be disarmed, and no `unlink` fails whose result the
-- source ignores.
pub record Undoes (a : OpenAnswers) : Type 0 where
  pub disarms : a.disarm ≡ none
  pub unlinks_failed_req : a.req.unlink_name ≡ none
  pub unlinks_failed_ev : a.ev.unlink_name ≡ none
  pub unlinks_req : a.unlink_req ≡ none
  pub unlinks_ev : a.unlink_ev ≡ none

-- A channel that is not open, and a kernel with nothing of it.
pub record Closed (c : Ctrl) (v w : World) : Type 0 where
  pub no_req : c.req_fd ≡ none
  pub no_ev : c.ev_fd ≡ none
  pub no_cb : c.cb ≡ none
  pub undone : Restored v w

abbrev pub disarmed : Timespec
disarmed = us_to_timespec 0

abbrev pub armed : World → World
armed w = record w { timer = us_to_timespec ping_time }

-- An open channel: its two sockets are open and watched, each with a file, and the timer runs.
pub record Open (c : Ctrl) (v w : World) : Type 0 where
  pub req : ℕ
  pub ev : ℕ
  pub between : World
  pub has_req : c.req_fd ≡ some req
  pub has_ev : c.ev_fd ≡ some ev
  pub has_cb : is_some c.cb ≡ true
  pub first : Behind (req ∷ w.fds) (req ∷ w.watched) c.req_name between (armed w)
  pub second : Behind (ev ∷ between.fds) (ev ∷ between.watched) c.ev_name v between

abbrev pub Verdict : Status → Ctrl → World → World → Type 0
Verdict ok c v w = Open c v w
Verdict (fail e) c v w = Closed c v w

abbrev pub Opens : Option Outcome → World → Type 0
Opens none w = Unit
Opens (some o) w = Verdict o.status o.ctrl o.world w

pub disarm-Restored :
    (v w : World) → Restored v (armed w) → w.timer ≡ disarmed → Restored (disarm_timer none v) w
unfolding disarm_timer arm_timer
disarm-Restored v w r h = record {
  same_fds = r.same_fds;
  same_watched = r.same_watched;
  same_timer = sym h;
  no_new_names = r.no_new_names;
}

-- Steps that the lemmas below share: a kernel whose timer was not armed, and answers that let
-- everything be undone.
module _ (a : OpenAnswers) (w : World) (timer : w.timer ≡ disarmed) (undoes : Undoes a) where
  err_timer-Closed :
      (e : Errno) (c : Ctrl) (v : World)
      → c.req_fd ≡ none
      → c.ev_fd ≡ none
      → c.cb ≡ none
      → Restored v (armed w)
      → Closed (err_timer e a c v).ctrl (err_timer e a c v).world w
  err_timer-Closed e c v p q s r = record {
    no_req = p;
    no_ev = q;
    no_cb = s;
    undone = rw undoes.disarms (disarm-Restored v w r timer);
  }

  err_req-Closed :
      (e : Errno) (c : Ctrl) (fd : ℕ) (v : World)
      → c.req_fd ≡ some fd
      → c.ev_fd ≡ none
      → c.cb ≡ none
      → Behind (fd ∷ w.fds) (fd ∷ w.watched) c.req_name v (armed w)
      → Closed (err_req e a c v).ctrl (err_req e a c v).world w
  err_req-Closed e c fd v p q s b =
      err_timer-Closed e (record c { req_fd = none })
        (close_socket c.req_fd c.req_name a.unlink_req v) refl q s
        (rw (p, undoes.unlinks_req) (close_socket-Restored fd c.req_name v (armed w) b))

  bound-Opens :
      {A : Type 0} (x : Option A) (o : Outcome)
      → Verdict o.status o.ctrl o.world w
      → Opens (x >>= (λ y. some o)) w
  bound-Opens none o v = tt
  bound-Opens (some y) o v = v

  err_ev-Opens :
      (e : Errno) (c : Ctrl) (req ev : ℕ) (between v : World)
      → c.req_fd ≡ some req
      → c.ev_fd ≡ some ev
      → c.cb ≡ none
      → Behind (req ∷ w.fds) (req ∷ w.watched) c.req_name between (armed w)
      → Behind (ev ∷ between.fds) (ev ∷ between.watched) c.ev_name v between
      → Opens (err_ev e a c v) w
  unfolding err_ev
  err_ev-Opens e c req ev between v p q s first second =
      let r : Restored (close_socket c.ev_fd c.ev_name a.unlink_ev v) between =
        rw (q, undoes.unlinks_ev) (close_socket-Restored ev c.ev_name v between second) in
      bound-Opens _ _ (
        err_req-Closed e (record c { ev_fd = none }) req
          (close_socket c.ev_fd c.ev_name a.unlink_ev v) p refl s
          (Restored-Behind _ _ c.req_name _ between (armed w) r first))

  open_attached-Opens :
      (cb : ℕ) (c : Ctrl) (req ev : ℕ) (between v : World) (s : Status)
      → c.req_fd ≡ some req
      → c.ev_fd ≡ some ev
      → c.cb ≡ none
      → Behind (req ∷ w.fds) (req ∷ w.watched) c.req_name between (armed w)
      → Behind (ev ∷ between.fds) (ev ∷ between.watched) c.ev_name v between
      → Opens (open_attached cb a c v s) w
  open_attached-Opens cb c req ev between v (fail e) p q s first second =
      err_ev-Opens e c req ev between v p q s first second
  open_attached-Opens cb c req ev between v ok p q s first second = record {
    req = req;
    ev = ev;
    between = between;
    has_req = p;
    has_ev = q;
    has_cb = refl;
    first = first;
    second = second;
  }

  after_attach :
      (x : Option Status) (f : Status → Option Outcome)
      → ((s : Status) → Opens (f s) w)
      → Opens (x >>= f) w
  after_attach none f h = tt
  after_attach (some s) f h = h s

  open_ev-Opens :
      (cb : ℕ) (c : Ctrl) (req : ℕ) (between : World) (r : Made) (name : Bytes) (v : World)
      → c.req_fd ≡ some req
      → c.cb ≡ none
      → Behind (req ∷ w.fds) (req ∷ w.watched) c.req_name between (armed w)
      → Left r name v between
      → Opens (open_ev cb a c (opened r name v)) w
  unfolding open_ev
  open_ev-Opens cb c req between (make_failed e) name v p s first l =
      err_req-Closed e (record c { ev_fd = none; ev_name = name }) req v p refl s
        (Restored-Behind _ _ c.req_name v between (armed w) l first)
  open_ev-Opens cb c req between (made ev) name v p s first l = after_attach _ _ (λ x.
      open_attached-Opens cb (record c { ev_fd = some ev; ev_name = name }) req ev between v x p
        refl s first l)

  open_req-Opens :
      (path : Bytes) (cb : ℕ) (c : Ctrl) (r : Made) (name : Bytes) (v : World)
      → c.ev_fd ≡ none
      → c.cb ≡ none
      → Left r name v (armed w)
      → Opens (open_req path cb a c (opened r name v)) w
  unfolding open_req
  open_req-Opens path cb c (make_failed e) name v q s l =
      err_timer-Closed e (record c { req_fd = none; req_name = name }) v refl q s l
  open_req-Opens path cb c (made fd) name v q s l =
      open_ev-Opens cb (record c { req_fd = some fd; req_name = name }) fd v _ _ _ refl s l
        (open_socket-Socketed path c.ev_name a.ev v undoes.unlinks_failed_ev)

  open_armed-Opens :
      (path : Bytes) (cb : ℕ) (c : Ctrl) (arm : Option Errno)
      → c.req_fd ≡ none
      → c.ev_fd ≡ none
      → c.cb ≡ none
      → Opens (open_armed path cb a c (arm_timer ping_time arm w)) w
  unfolding arm_timer
  open_armed-Opens path cb c (some e) p q s = record {
    no_req = p;
    no_ev = q;
    no_cb = s;
    undone = restored w;
  }
  open_armed-Opens path cb c none p q s =
      open_req-Opens path cb c _ _ _ q s
        (open_socket-Socketed path c.req_name a.req (armed w) undoes.unlinks_failed_req)

  pub open_channel-Opens :
      (path : Bytes) (cb : ℕ) (c : Ctrl)
      → c.req_fd ≡ none
      → c.ev_fd ≡ none
      → c.cb ≡ none
      → Opens (open_channel path cb a c w) w
  unfolding open_channel
  open_channel-Opens path cb c p q s =
      subst (λ o. Opens o w)
        (sym (
          ap
            (λ o.
              if is_some o
              then some (outcome (fail ealready) c w)
              else open_armed path cb a c (arm_timer ping_time a.arm w))
            q))
        (open_armed-Opens path cb c a.arm p q s)

-- Nothing is done to a channel that is open already.
pub open_again :
    (path : Bytes) (cb : ℕ) (a : OpenAnswers) (c : Ctrl) (w : World) (fd : ℕ)
    → c.ev_fd ≡ some fd
    → open_channel path cb a c w ≡ some (outcome (fail ealready) c w)
unfolding open_channel
open_again path cb a c w fd h =
    ap
      (λ o.
        if is_some o
        then some (outcome (fail ealready) c w)
        else open_armed path cb a c (arm_timer ping_time a.arm w))
      h
