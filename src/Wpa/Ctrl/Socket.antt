-- ===== src/Wpa/Ctrl/Socket.antt =====
-- The sockets and the timer of src/wpa_ctrl.c: `bind_socket`, `connect_socket`, `open_socket`,
-- `close_socket`, `arm_timer`. What a call of the kernel answers comes as an argument.
pub mod Restore
pub mod Address
use openwfd.Common.{
  ℕ, zero, suc, ◌+◌, ◌-◌, ◌*◌, ◌/◌, ◌%◌, ◌^◌, ◌≤◌, ◌<◌, min, ◌≡◌, refl, sym, ap, ◌∙◌, ◌≢◌, ◌↔◌, ◌⊎◌,
  inl, inr, Bool, true, false, not, ◌&&◌, ◌||◌, Option, none, some, List, [], ◌∷◌, ◌++◌, append-nil,
  append_assoc, arith, ltb, leb, ◌==◌, if◌then◌else◌, Bool-cases, Option-cases, ltb→lt, ltb→ge,
  lt→ltb, ge→ltb, leb→le, leb→gt, le→leb, lt→leb, ==_iff, ==_refl,
}
use openwfd.Common.{length, take, drop}
use openwfd.Common.Memory.{Status, ok, fail, Errno, eaddrinuse, einval, Bytes}
use openwfd.Common.Text.{codes, starts_with}
use openwfd.Common.Time.{Timespec, us_to_timespec}
use openwfd.Common.World.{
  Made, made, make_failed, World, add_fd, close_fd, watch, unwatch, add_name, unlink, status_of,
}

-- What the kernel answers to `open_socket`: `unlink_old` in `bind_socket`, `unlink_name` at `err_name`.
-- `name` is what `snprintf` and `mktemp` write for a
-- value of the counter.
pub record SocketAnswers : Type 0 where
  pub socket : Made
  pub name : ℕ → Bytes
  pub bind : Option Errno
  pub unlink_old : Option Errno
  pub bind_again : Option Errno
  pub connect : Option Errno
  pub add : Option Errno
  pub unlink_name : Option Errno

-- The end of `bind_socket` behind a successful `bind`.
abbrev pub bound : Bytes → World → World
bound name w = let v = add_name name w in record v { counter = suc v.counter }

abbrev pub is_in_use : Errno → Bool
is_in_use eaddrinuse = true
is_in_use _ = false

-- Behind `try_again`, for the second time.
abbrev pub bind_again : Bytes → Option Errno → Option Errno → World → Status × World
bind_again name old none w = (ok, bound name (unlink name old w))
bind_again name old (some e) w = (fail e, unlink name old w)

-- `bind_socket`, with what `bind` answers at first, `unlink`, and `bind` for the second time: a name
-- that is in use is removed, once, and tried again, whether or not it could be removed.
unfoldable pub bind_socket :
    Bytes → Option Errno → Option Errno → Option Errno → World → Status × World
bind_socket name none old again w = (ok, bound name w)
bind_socket name (some e) old again w =
    if is_in_use e then bind_again name old again w else (fail e, w)

-- `UNIX_PATH_MAX`, the size of `sun_path`.
abbrev pub path_max : ℕ
path_max = 108

abbrev pub zero_bytes : ℕ → Bytes
zero_bytes zero = []
zero_bytes (suc n) = 0 ∷ zero_bytes n

-- `strncpy(dst, s, n)`, the `n` bytes that it writes.
unfoldable pub strncpy : ℕ → Bytes → Bytes
strncpy zero s = []
strncpy (suc n) [] = 0 ∷ strncpy n []
strncpy (suc n) (c ∷ cs) = c ∷ strncpy n cs

-- The address that `connect_socket` fills in; `none` is -EINVAL.
unfoldable pub sun_path : Bytes → Option Bytes
unfolding strncpy starts_with
sun_path path =
    if starts_with (codes "@abstract:") path
    then (if ltb (path_max - 2) (length path)
        then none
        else some (0 ∷ strncpy (path_max - 2) (drop 10 path) ++ 0 ∷ []))
    else (if ltb (path_max - 1) (length path)
        then none
        else some (strncpy (path_max - 1) path ++ 0 ∷ []))

-- `connect_socket`
unfoldable pub connect_socket : Bytes → Option Errno → Status
unfolding sun_path
connect_socket path connect = elim (sun_path path) [
  | none ↦ fail einval
  | some address ↦ status_of connect
]

-- What `open_socket` returns, the name it leaves in its buffer, the kernel.
pub record Opened : Type 0 where
  pub result : Made
  pub name : Bytes
  pub world : World

abbrev pub opened : Made → Bytes → World → Opened
opened r n w = record { result = r; name = n; world = w }

-- `err_name`; `u` is what `unlink` answers, whose result is ignored.
abbrev pub err_name : ℕ → Bytes → Option Errno → Errno → World → Opened
err_name fd name u e w = opened (make_failed e) name (close_fd (some fd) (unlink name u w))

-- `open_socket` behind `connect_socket` and its test.
abbrev pub open_connected : ℕ → Bytes → Status → Option Errno → Option Errno → World → Opened
open_connected fd name (fail e) add u w = err_name fd name u e w
open_connected fd name ok (some e) u w = err_name fd name u e w
open_connected fd name ok none u w = opened (made fd) name (watch fd w)

-- `open_socket` behind `bind_socket`.
abbrev pub open_bound : ℕ → Bytes → Status → Option Errno → Option Errno → Status × World → Opened
open_bound fd name connected add u (fail e, w) = opened (make_failed e) name (close_fd (some fd) w)
open_bound fd name connected add u (ok, w) = open_connected fd name connected add u w

-- `open_socket` behind `socket`.
unfoldable pub open_made : Bytes → Bytes → SocketAnswers → World → Made → Opened
unfolding bind_socket connect_socket
open_made path old a w (make_failed e) = opened (make_failed e) old w
open_made path old a w (made fd) =
    let name = a.name w.counter in
    open_bound fd name (connect_socket path a.connect) a.add a.unlink_name
      (bind_socket name a.bind a.unlink_old a.bind_again (add_fd fd w))

-- `open_socket`; the buffer for the name holds `old` before.
unfoldable pub open_socket : Bytes → Bytes → SocketAnswers → World → Opened
unfolding open_made
open_socket path old a w = open_made path old a w a.socket

-- `close_socket`; `u` is what `unlink` answers, whose result is ignored. What EPOLL_CTL_DEL answers makes
-- no difference: to close a descriptor takes it out of the epoll set as well.
unfoldable pub close_socket : Option ℕ → Bytes → Option Errno → World → World
close_socket fd name u w = close_fd fd (unlink name u (unwatch fd w))

-- `arm_timer`, with what `timerfd_settime` answers.
unfoldable pub arm_timer : ℕ → Option Errno → World → Status × World
unfolding us_to_timespec
arm_timer usecs (some e) w = (fail e, w)
arm_timer usecs none w = (ok, record w { timer = us_to_timespec usecs })

-- `disarm_timer`
unfoldable pub disarm_timer : Option Errno → World → World
unfolding arm_timer
disarm_timer set w = (arm_timer 0 set w).1
