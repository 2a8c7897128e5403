-- ===== src/Rtsp/Ctrl.antt =====
-- The control channel of RTSP, src/rtsp_ctrl.c: a socket, its output ring and a callback. What a call of
-- the kernel answers comes as an argument; a function is `none` where it accesses memory out of bounds or
-- needs more answers than are given.
pub mod Output
pub mod Dispatch
pub mod Undo
pub mod Life
mod Tests
use openwfd.Common.{
  ℕ, zero, suc, ◌+◌, ◌-◌, ◌*◌, ◌/◌, ◌%◌, ◌^◌, ◌≤◌, ◌<◌, min, ◌≡◌, refl, sym, ap, ◌∙◌, ◌≢◌, ◌↔◌, ◌⊎◌,
  inl, inr, Bool, true, false, not, ◌&&◌, ◌||◌, Option, none, some, List, [], ◌∷◌, ◌++◌, append-nil,
  append_assoc, arith, ltb, leb, ◌==◌, if◌then◌else◌, Bool-cases, Option-cases, ltb→lt, ltb→ge,
  lt→ltb, ge→ltb, leb→le, leb→gt, le→leb, lt→leb, ==_iff, ==_refl,
}
use openwfd.Common.{take}
use openwfd.Common.Memory.{
  Status, ok, fail, Errno, enomem, ealready, einval, enodev, epipe, Bytes, Block, Malloc, ◌>>=◌,
  add_size, of_list,
}
use openwfd.Common.World.{Made, made, make_failed, remove, status_of}
use openwfd.Ring.{Ring, Iovec, zeroed, push, peek, flush, clear}
use openwfd.Ring.Peek.{segments}
use openwfd.Wpa.Ctrl.Timed.{Moved, moved, move_failed, is_again}

-- `struct owfd_rtsp_ctrl`; `cb` and `user_data` are pointers, `none` is the descriptor -1 or NULL.
pub record Ctrl : Type 0 where
  pub ref : ℕ
  pub user_data : ℕ
  pub efd : Option ℕ
  pub fd : Option ℕ
  pub cb : Option ℕ
  pub out_ring : Ring
  pub connected : Bool

-- What the kernel keeps: open descriptors, those in the epoll set, which a descriptor leaves when it is
-- closed, whether the entry of the socket has EPOLLOUT, and the bytes that the socket has taken.
pub record Net : Type 0 where
  pub fds : List ℕ
  pub polled : List ℕ
  pub out : Bool
  pub sent : Bytes

abbrev pub close_fd : ℕ → Net → Net
close_fd fd k = record k { fds = remove fd k.fds; polled = remove fd k.polled }

-- What a function leaves.
pub record Outcome : Type 0 where
  pub status : Status
  pub ctrl : Ctrl
  pub net : Net

abbrev pub outcome : Status → Ctrl → Net → Outcome
outcome s c k = record { status = s; ctrl = c; net = k }

abbrev pub fresh_ctrl : Option ℕ → Ctrl
fresh_ctrl efd = record {
  ref = 1;
  user_data = 0;
  efd = efd;
  fd = none;
  cb = none;
  out_ring = zeroed;
  connected = false;
}

-- `owfd_rtsp_ctrl_new`, with what `calloc` and `epoll_create1` answer
unfoldable pub new_channel : Bool → Made → Net → (Status × Option Ctrl) × Net
new_channel alloc epoll k =
    if alloc
    then elim epoll [
      | make_failed e ↦ ((fail e, none), k)
      | made efd ↦ ((ok, some (fresh_ctrl (some efd))), record k { fds = efd ∷ k.fds })
    ]
    else ((fail enomem, none), k)

-- `owfd_rtsp_ctrl_ref`
unfoldable pub ref_channel : Option Ctrl → Option Ctrl
ref_channel none = none
ref_channel (some c) = if c.ref == 0 then some c else some (record c { ref = add_size c.ref 1 })

-- `owfd_rtsp_ctrl_is_open`
abbrev pub is_fd : Option ℕ → Bool
is_fd none = false
is_fd (some fd) = true

abbrev pub is_open : Ctrl → Bool
is_open c = is_fd c.fd

-- `owfd_rtsp_ctrl_is_connected`
abbrev pub is_connected : Ctrl → Bool
is_connected c = is_open c && c.connected

-- `owfd_rtsp_ctrl_close`, for what the field `fd` holds.
unfoldable pub close_at : Option ℕ → Ctrl → Net → Ctrl × Net
unfolding flush
close_at none c k = (c, k)
close_at (some fd) c k = (
  record c { fd = none; connected = false; cb = none; out_ring = flush c.out_ring },
  close_fd fd k,
)

unfoldable pub close_channel : Ctrl → Net → Ctrl × Net
unfolding close_at
close_channel c k = close_at c.fd c k

-- `owfd_rtsp_ctrl_unref`; in front is what is left of the channel.
abbrev pub freed : Ctrl × Net → Option Ctrl × Net
freed (c, k) = (none, elim c.efd [ none ↦ k | some efd ↦ record k { fds = remove efd k.fds } ])

unfoldable pub unref_channel : Option Ctrl → Net → Option Ctrl × Net
unfolding close_channel
unref_channel none k = (none, k)
unref_channel (some c) k =
    if c.ref == 0
    then (some c, k)
    else if c.ref == 1
    then freed (close_channel (record c { ref = 0 }) k)
    else (some (record c { ref = c.ref - 1 }), k)

-- What the kernel answers to `owfd_rtsp_ctrl_open_tcp_fd`: `fcntl` twice, `epoll_ctl`.
pub record FdAnswers : Type 0 where
  pub get_flags : Option Errno
  pub set_flags : Option Errno
  pub add : Option Errno

abbrev pub opened : ℕ → ℕ → Ctrl → Ctrl
opened fd cb c = record c { fd = some fd; connected = false; cb = some cb }

-- `owfd_rtsp_ctrl_open_tcp_fd` behind each of its calls.
abbrev pub open_added : ℕ → ℕ → Option Errno → Ctrl → Net → Outcome
open_added fd cb (some e) c k = outcome (fail e) c k
open_added fd cb none c k =
    outcome ok (opened fd cb c) (record k { polled = fd ∷ k.polled; out = true })

abbrev pub open_flagged : ℕ → ℕ → FdAnswers → Option Errno → Ctrl → Net → Outcome
open_flagged fd cb a (some e) c k = outcome (fail e) c k
open_flagged fd cb a none c k = open_added fd cb a.add c k

abbrev pub open_known : ℕ → ℕ → FdAnswers → Option Errno → Ctrl → Net → Outcome
open_known fd cb a (some e) c k = outcome (fail e) c k
open_known fd cb a none c k = open_flagged fd cb a a.set_flags c k

-- `owfd_rtsp_ctrl_open_tcp_fd`; `none` is a negative descriptor
unfoldable pub open_tcp_fd : Option ℕ → ℕ → FdAnswers → Ctrl → Net → Outcome
open_tcp_fd fd cb a c k =
    if is_open c
    then outcome (fail ealready) c k
    else elim fd [ none ↦ outcome (fail einval) c k | some n ↦ open_known n cb a a.get_flags c k ]

-- What the kernel answers to `owfd_rtsp_ctrl_open_tcp`; `bind` is `none` without a source address.
pub record TcpAnswers : Type 0 where
  pub socket : Made
  pub bind : Option (Option Errno)
  pub connect : Option Errno
  pub fd_answers : FdAnswers

-- Behind the last call of `owfd_rtsp_ctrl_open_tcp`.
abbrev pub open_finished : ℕ → Status → Outcome → Outcome
open_finished fd ok o = o
open_finished fd (fail e) o = outcome (fail e) o.ctrl (close_fd fd o.net)

abbrev pub open_connected : ℕ → ℕ → TcpAnswers → Option Errno → Ctrl → Net → Outcome
open_connected fd cb a (some e) c k = outcome (fail e) c (close_fd fd k)
open_connected fd cb a none c k =
    let o = open_tcp_fd (some fd) cb a.fd_answers c k in open_finished fd o.status o

abbrev pub bind_answer : Option (Option Errno) → Option Errno
bind_answer none = none
bind_answer (some e) = e

abbrev pub open_bound : ℕ → ℕ → TcpAnswers → Option Errno → Ctrl → Net → Outcome
open_bound fd cb a (some e) c k = outcome (fail e) c (close_fd fd k)
open_bound fd cb a none c k = open_connected fd cb a a.connect c k

abbrev pub open_made : Made → ℕ → TcpAnswers → Ctrl → Net → Outcome
open_made (make_failed e) cb a c k = outcome (fail e) c k
open_made (made fd) cb a c k =
    open_bound fd cb a (bind_answer a.bind) c (record k { fds = fd ∷ k.fds })

-- `owfd_rtsp_ctrl_open_tcp`
unfoldable pub open_tcp : ℕ → TcpAnswers → Ctrl → Net → Outcome
unfolding open_tcp_fd
open_tcp cb a c k = if is_open c then outcome (fail ealready) c k else open_made a.socket cb a c k
