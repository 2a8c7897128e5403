-- ===== src/Rtsp/Ctrl/Life.antt =====
-- The life of a channel of src/rtsp_ctrl.c: any sequence of calls of `owfd_rtsp_ctrl_open_tcp`,
-- `owfd_rtsp_ctrl_send`, `send_all` and `owfd_rtsp_ctrl_close`, with any answers of the kernel.
use openwfd.Common.{
  ℕ, ◌^◌, ◌≤◌, ◌<◌, ◌≡◌, refl, sym, ap, ◌∙◌, Bool, true, false, Option, none, some, List, [], ◌∷◌,
  ◌++◌, if◌then◌else◌,
}
use mathlib.Core.Path.{subst}
use mathlib.Core.Option.{some-injective}
use openwfd.Common.Memory.{
  Status, ok, fail, Errno, ealready, enodev, Bytes, Block, Malloc, bytes_of, ◌>>=◌,
}
use openwfd.Common.World.{remove, remove_first}
use openwfd.Ring.{push}
use openwfd.Ring.Pull.{flush_lem}
use openwfd.Rtsp.Ctrl.{
  Ctrl, Net, Outcome, outcome, is_fd, close_at, close_channel, TcpAnswers, open_made, open_tcp,
}
use openwfd.Rtsp.Ctrl.Output.{
  Wrote, wrote, write_failed, end_write, finish_write, send_pieces, send_peeked, send, send_all,
  pushed, is_empty,
}
use openwfd.Ring.{Iovec, peek}
use openwfd.Ring.Peek.{segments}
use openwfd.Common.{take}
use openwfd.Rtsp.Ctrl.Undo.{Closed, Open, Verdict, open_tcp-Opens}
use openwfd.Wpa.Ctrl.Timed.{is_again}
use openwfd.Rtsp.Ctrl.Output.Queue.{Sent, behind, first, unpolled, refused, Queued, send_lem}

-- The channel is closed, or open.
pub data Owned (base : List ℕ) (c : Ctrl) (k : Net) : Type 0 where
  is_closed : Closed base c k → Owned base c k
  is_opened : Open base c k → Owned base c k

of_Verdict : (base : List ℕ) (s : Status) (c : Ctrl) (k : Net) → Verdict base s c k → Owned base c k
of_Verdict base ok c k v = is_opened v
of_Verdict base (fail e) c k v = is_closed v

-- Nothing is done to a channel that is open already, or closed already.
tcp_open :
    (cb : ℕ) (a : TcpAnswers) (c : Ctrl) (k : Net) (n : ℕ)
    → c.fd ≡ some n
    → open_tcp cb a c k ≡ outcome (fail ealready) c k
unfolding open_tcp
tcp_open cb a c k n h =
    ap (λ x. if is_fd x then outcome (fail ealready) c k else open_made a.socket cb a c k) h

opening-Owned :
    (base : List ℕ) (cb : ℕ) (a : TcpAnswers) (c : Ctrl) (k : Net)
    → Owned base c k
    → Owned base (open_tcp cb a c k).ctrl (open_tcp cb a c k).net
opening-Owned base cb a c k (is_closed h) = of_Verdict base _ _ _ (open_tcp-Opens base cb a c k h)
opening-Owned base cb a c k (is_opened h) =
    subst (λ o. Owned base o.ctrl o.net) (sym (tcp_open cb a c k h.socket h.has_fd)) (is_opened h)

Closed-socket :
    (base : List ℕ) (c : Ctrl) (k : Net) (h : Open base c k)
    → Closed base (close_at (some h.socket) c k).0 (close_at (some h.socket) c k).1
unfolding close_at
Closed-socket base c k h =
    let f = flush_lem h.has_ring in
    record {
      no_fd = refl;
      no_cb = refl;
      not_connected = refl;
      ring_valid = f.0;
      ring_empty = f.1;
      base_fds = ap (remove h.socket) h.more_fds ∙ remove_first h.socket base;
      none_polled = ap (remove h.socket) h.one_polled ∙ remove_first h.socket [];
    }

close_at_nothing : (c : Ctrl) (k : Net) → close_at none c k ≡ (c, k)
unfolding close_at
close_at_nothing c k = refl

closing-Closed :
    (base : List ℕ) (c : Ctrl) (k : Net)
    → Owned base c k
    → Closed base (close_channel c k).0 (close_channel c k).1
unfolding close_channel
closing-Closed base c k (is_closed h) =
    subst (λ x. Closed base (close_at x c k).0 (close_at x c k).1) (sym h.no_fd)
      (subst (λ y. Closed base y.0 y.1) (sym (close_at_nothing c k)) h)
closing-Closed base c k (is_opened h) =
    subst (λ x. Closed base (close_at x c k).0 (close_at x c k).1) (sym h.has_fd)
      (Closed-socket base c k h)

Queued-Open :
    (base : List ℕ) (bytes : Bytes) (c d : Ctrl) (k l : Net)
    → Queued bytes c d
    → l.fds ≡ k.fds
    → l.polled ≡ k.polled
    → Open base c k
    → Open base d l
Queued-Open base bytes c d k l q e f h = record {
  socket = h.socket;
  has_fd = q.same_fd ∙ h.has_fd;
  has_ring = q.valid;
  more_fds = e ∙ h.more_fds;
  one_polled = f ∙ h.one_polled;
}

Sent-Open :
    (base : List ℕ) (m : Malloc) (bytes : Bytes) (set : Option Errno) (c : Ctrl) (k : Net)
    (o : Outcome)
    → Sent m bytes set c k o
    → Open base c k
    → Open base o.ctrl o.net
Sent-Open base m bytes set c k _ (behind d q n) h = Queued-Open base bytes c d k k q refl refl h
Sent-Open base m bytes set c k _ (first d q n) h =
    Queued-Open base bytes c d k (record k { out = true }) q refl refl h
Sent-Open base m bytes set c k _ (unpolled d e q n) h = Queued-Open base bytes c d k k q refl refl h
Sent-Open base m bytes set c k _ (refused why) h = h

send_closed :
    (m : Malloc) (buf : Block) (len : ℕ) (set : Option Errno) (c : Ctrl) (k : Net)
    → c.fd ≡ none
    → send m buf len set c k ≡ some (outcome (fail enodev) c k)
unfolding send
send_closed m buf len set c k h =
    ap
      (λ x.
        if is_fd x
        then push m c.out_ring buf len
          >>= (λ y. some (pushed (is_empty (peek c.out_ring)) set c k y))
        else some (outcome (fail enodev) c k))
      h

sending-Owned :
    (base : List ℕ) (m : Malloc) (buf : Block) (len : ℕ) (set : Option Errno) (c : Ctrl) (k : Net)
    (o : Outcome)
    → len ≤ buf.cap
    → len < 2 ^ 63
    → send m buf len set c k ≡ some o
    → Owned base c k
    → Owned base o.ctrl o.net
sending-Owned base m buf len set c k o fits small e (is_closed h) =
    subst (λ q. Owned base q.ctrl q.net)
      (some-injective _ _ (sym (send_closed m buf len set c k h.no_fd) ∙ e)) (is_closed h)
sending-Owned base m buf len set c k o fits small e (is_opened h) =
    let (p, g, s) = send_lem m buf len set c k (ap is_fd h.has_fd) h.has_ring fits small in
    subst (λ q. Owned base q.ctrl q.net) (some-injective _ _ (sym g ∙ e))
      (is_opened (Sent-Open base m (bytes_of buf len) set c k p s h))

-- A call that leaves the channel as it is, and the descriptors.
pub record Kept (c : Ctrl) (k : Net) (o : Outcome) : Type 0 where
  pub same_ctrl : o.ctrl ≡ c
  pub same_fds : o.net.fds ≡ k.fds
  pub same_polled : o.net.polled ≡ k.polled

end_write-Kept :
    (set : Option Errno) (c : Ctrl) (k l : Net)
    → l.fds ≡ k.fds
    → l.polled ≡ k.polled
    → Kept c k (end_write set c l)
end_write-Kept (some e) c k l p q = record { same_ctrl = refl; same_fds = p; same_polled = q }
end_write-Kept none c k l p q = record { same_ctrl = refl; same_fds = p; same_polled = q }

finish_write-Kept :
    (b : Bool) (set : Option Errno) (c : Ctrl) (k l : Net)
    → l.fds ≡ k.fds
    → l.polled ≡ k.polled
    → Kept c k (finish_write b set c l)
finish_write-Kept true set c k l p q = end_write-Kept set c k l p q
finish_write-Kept false set c k l p q = record { same_ctrl = refl; same_fds = p; same_polled = q }

error-Kept :
    (b : Bool) (e : Errno) (c : Ctrl) (k : Net)
    → Kept c k (if b then outcome ok c k else outcome (fail e) c k)
error-Kept true e c k = record { same_ctrl = refl; same_fds = refl; same_polled = refl }
error-Kept false e c k = record { same_ctrl = refl; same_fds = refl; same_polled = refl }

send_pieces-Kept :
    (bytes : Bytes) (w : Wrote) (set : Option Errno) (c : Ctrl) (k : Net)
    → Kept c k (send_pieces bytes w set c k)
unfolding send_pieces
send_pieces-Kept bytes (write_failed e) set c k = error-Kept (is_again e) e c k
send_pieces-Kept bytes (wrote l) set c k =
    finish_write-Kept _ set c k (record k { sent = k.sent ++ take l bytes }) refl refl

send_peeked-Kept :
    (vs : List Iovec) (w : Wrote) (set : Option Errno) (c : Ctrl) (k : Net)
    → Kept c k (send_peeked vs w set c k)
send_peeked-Kept [] w set c k = end_write-Kept set c k k refl refl
send_peeked-Kept (v ∷ vs) w set c k = send_pieces-Kept (segments c.out_ring (v ∷ vs)) w set c k

send_all-Kept :
    (w : Wrote) (set : Option Errno) (c : Ctrl) (k : Net) → Kept c k (send_all w set c k)
unfolding send_all
send_all-Kept w set c k = send_peeked-Kept (peek c.out_ring) w set c k

Kept-Closed :
    (base : List ℕ) (c : Ctrl) (k : Net) (o : Outcome)
    → Kept c k o
    → Closed base c k
    → Closed base c o.net
Kept-Closed base c k o q h = record {
  no_fd = h.no_fd;
  no_cb = h.no_cb;
  not_connected = h.not_connected;
  ring_valid = h.ring_valid;
  ring_empty = h.ring_empty;
  base_fds = q.same_fds ∙ h.base_fds;
  none_polled = q.same_polled ∙ h.none_polled;
}

Kept-Open :
    (base : List ℕ) (c : Ctrl) (k : Net) (o : Outcome)
    → Kept c k o
    → Open base c k
    → Open base c o.net
Kept-Open base c k o q h = record {
  socket = h.socket;
  has_fd = h.has_fd;
  has_ring = h.has_ring;
  more_fds = q.same_fds ∙ h.more_fds;
  one_polled = q.same_polled ∙ h.one_polled;
}

writing-Owned :
    (base : List ℕ) (c : Ctrl) (k : Net) (o : Outcome)
    → Kept c k o
    → Owned base c k
    → Owned base o.ctrl o.net
writing-Owned base c k o q (is_closed h) =
    subst (λ d. Owned base d o.net) (sym q.same_ctrl) (is_closed (Kept-Closed base c k o q h))
writing-Owned base c k o q (is_opened h) =
    subst (λ d. Owned base d o.net) (sym q.same_ctrl) (is_opened (Kept-Open base c k o q h))

-- The states that calls reach from a channel that is not open; `base` are the descriptors at the start.
pub data Life (base : List ℕ) : Ctrl → Net → Type 0 where
  start : (c : Ctrl) (k : Net) → Closed base c k → Life base c k
  opening :
      (cb : ℕ) (a : TcpAnswers) (c : Ctrl) (k : Net)
      → Life base c k
      → Life base (open_tcp cb a c k).ctrl (open_tcp cb a c k).net
  sending :
      (m : Malloc) (buf : Block) (len : ℕ) (set : Option Errno) (c : Ctrl) (k : Net) (o : Outcome)
      → Life base c k
      → len ≤ buf.cap
      → len < 2 ^ 63
      → send m buf len set c k ≡ some o
      → Life base o.ctrl o.net
  writing :
      (w : Wrote) (set : Option Errno) (c : Ctrl) (k : Net)
      → Life base c k
      → Life base (send_all w set c k).ctrl (send_all w set c k).net
  closing :
      (c : Ctrl) (k : Net) → Life base c k → Life base (close_channel c k).0 (close_channel c k).1

-- Whatever the kernel and the allocator answer, in every state that opening, sending, writing and closing
-- reach, the channel is closed, with an empty ring, no callback, no descriptor beside those at the start
-- and nothing in the epoll set; or it is open, its socket is the one descriptor more and the one in the
-- epoll set, and its ring is well formed.
pub rtsp_Life-Owned : (base : List ℕ) (c : Ctrl) (k : Net) → Life base c k → Owned base c k
rtsp_Life-Owned base _ _ (start c k h) = is_closed h
rtsp_Life-Owned base _ _ (opening cb a c k l) =
    opening-Owned base cb a c k (rtsp_Life-Owned base c k l)
rtsp_Life-Owned base _ _ (sending m buf len set c k o l fits small e) =
    sending-Owned base m buf len set c k o fits small e (rtsp_Life-Owned base c k l)
rtsp_Life-Owned base _ _ (writing w set c k l) =
    writing-Owned base c k (send_all w set c k) (send_all-Kept w set c k)
      (rtsp_Life-Owned base c k l)
rtsp_Life-Owned base _ _ (closing c k l) =
    is_closed (closing-Closed base c k (rtsp_Life-Owned base c k l))
