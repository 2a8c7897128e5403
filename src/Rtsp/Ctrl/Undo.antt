-- ===== src/Rtsp/Ctrl/Undo.antt =====
-- What `owfd_rtsp_ctrl_open_tcp` of src/rtsp_ctrl.c leaves behind.
use openwfd.Common.{
  ℕ, ◌≡◌, refl, sym, ap, ◌∙◌, false, Option, none, some, List, [], ◌∷◌, if◌then◌else◌,
}
use mathlib.Core.Path.{subst}
use openwfd.Common.Memory.{Status, ok, fail, Errno, ealready}
use openwfd.Common.World.{Made, made, make_failed, remove, remove_first}
use openwfd.Ring.View.{contents, IsValid}
use openwfd.Rtsp.Ctrl.{
  Ctrl, Net, close_fd, Outcome, outcome, is_fd, FdAnswers, open_added, open_flagged, open_known,
  open_tcp_fd, TcpAnswers, open_finished, open_connected, bind_answer, open_bound, open_made,
  open_tcp,
}

-- A channel that is not open, with nothing to send; `base` are the other descriptors.
pub record Closed (base : List ℕ) (c : Ctrl) (k : Net) : Type 0 where
  pub no_fd : c.fd ≡ none
  pub no_cb : c.cb ≡ none
  pub not_connected : c.connected ≡ false
  pub ring_valid : IsValid c.out_ring
  pub ring_empty : contents c.out_ring ≡ []
  pub base_fds : k.fds ≡ base
  pub none_polled : k.polled ≡ []

-- An open channel: its socket is the one descriptor more, and the one in the epoll set.
pub record Open (base : List ℕ) (c : Ctrl) (k : Net) : Type 0 where
  pub socket : ℕ
  pub has_fd : c.fd ≡ some socket
  pub has_ring : IsValid c.out_ring
  pub more_fds : k.fds ≡ socket ∷ base
  pub one_polled : k.polled ≡ socket ∷ []

abbrev pub Verdict : List ℕ → Status → Ctrl → Net → Type 0
Verdict base ok c k = Open base c k
Verdict base (fail e) c k = Closed base c k

abbrev pub Opens : List ℕ → Outcome → Type 0
Opens base o = Verdict base o.status o.ctrl o.net

abbrev with_fd : ℕ → Net → Net
with_fd fd k = record k { fds = fd ∷ k.fds }

pub Closed-again :
    (base : List ℕ) (fd : ℕ) (c : Ctrl) (k : Net)
    → Closed base c k
    → Closed base c (close_fd fd (with_fd fd k))
Closed-again base fd c k h = record {
  no_fd = h.no_fd;
  no_cb = h.no_cb;
  not_connected = h.not_connected;
  ring_valid = h.ring_valid;
  ring_empty = h.ring_empty;
  base_fds = remove_first fd k.fds ∙ h.base_fds;
  none_polled = ap (remove fd) h.none_polled;
}

-- `owfd_rtsp_ctrl_open_tcp_fd` on the new socket, and the close behind an error.
finished-Opens :
    (base : List ℕ) (fd cb : ℕ) (a : FdAnswers) (flags : Option Errno) (c : Ctrl) (k : Net)
    → Closed base c k
    → Opens base (
        open_finished fd
          (open_known fd cb a flags c (with_fd fd k)).status
          (open_known fd cb a flags c (with_fd fd k)))
finished-Opens base fd cb a (some e) c k h = Closed-again base fd c k h
finished-Opens base fd cb a none c k h = flagged a.set_flags
  where
    added :
        (add : Option Errno)
        → Opens base (
            open_finished fd
              (open_added fd cb add c (with_fd fd k)).status
              (open_added fd cb add c (with_fd fd k)))
    added (some e) = Closed-again base fd c k h
    added none = record {
      socket = fd;
      has_fd = refl;
      has_ring = h.ring_valid;
      more_fds = ap (λ l. fd ∷ l) h.base_fds;
      one_polled = ap (λ l. fd ∷ l) h.none_polled;
    }

    flagged :
        (set : Option Errno)
        → Opens base (
            open_finished fd
              (open_flagged fd cb a set c (with_fd fd k)).status
              (open_flagged fd cb a set c (with_fd fd k)))
    flagged (some e) = Closed-again base fd c k h
    flagged none = added a.add

tcp_fd_closed :
    (fd cb : ℕ) (a : FdAnswers) (c : Ctrl) (k : Net)
    → c.fd ≡ none
    → open_tcp_fd (some fd) cb a c k ≡ open_known fd cb a a.get_flags c k
unfolding open_tcp_fd
tcp_fd_closed fd cb a c k h =
    ap (λ x. if is_fd x then outcome (fail ealready) c k else open_known fd cb a a.get_flags c k) h

connected-Opens :
    (base : List ℕ) (fd cb : ℕ) (a : TcpAnswers) (connect : Option Errno) (c : Ctrl) (k : Net)
    → Closed base c k
    → Opens base (open_connected fd cb a connect c (with_fd fd k))
connected-Opens base fd cb a (some e) c k h = Closed-again base fd c k h
connected-Opens base fd cb a none c k h =
    subst (λ o. Opens base (open_finished fd o.status o))
      (sym (tcp_fd_closed fd cb a.fd_answers c (with_fd fd k) h.no_fd))
      (finished-Opens base fd cb a.fd_answers a.fd_answers.get_flags c k h)

bound-Opens :
    (base : List ℕ) (fd cb : ℕ) (a : TcpAnswers) (bind : Option Errno) (c : Ctrl) (k : Net)
    → Closed base c k
    → Opens base (open_bound fd cb a bind c (with_fd fd k))
bound-Opens base fd cb a (some e) c k h = Closed-again base fd c k h
bound-Opens base fd cb a none c k h = connected-Opens base fd cb a a.connect c k h

made-Opens :
    (base : List ℕ) (m : Made) (cb : ℕ) (a : TcpAnswers) (c : Ctrl) (k : Net)
    → Closed base c k
    → Opens base (open_made m cb a c k)
made-Opens base (make_failed e) cb a c k h = h
made-Opens base (made fd) cb a c k h = bound-Opens base fd cb a (bind_answer a.bind) c k h

pub open_tcp-Opens :
    (base : List ℕ) (cb : ℕ) (a : TcpAnswers) (c : Ctrl) (k : Net)
    → Closed base c k
    → Opens base (open_tcp cb a c k)
unfolding open_tcp
open_tcp-Opens base cb a c k h =
    subst (Opens base)
      (sym (
        ap (λ x. if is_fd x then outcome (fail ealready) c k else open_made a.socket cb a c k)
          h.no_fd))
      (made-Opens base a.socket cb a c k h)
