-- ===== src/Wpa/Ctrl/Channel.antt =====
-- The channel of src/wpa_ctrl.c: `owfd_wpa_ctrl_new`, `_ref`, `_unref`, `_open`, `_close`, `_is_open`,
-- `_request` and `_request_ok`, and the fields. `none` is the descriptor -1, or a negative error code
-- in its place. A function that makes requests is `none` while one of them still waits.
pub mod Undo
pub mod Closing
pub mod Life
use openwfd.Common.{
  ℕ, zero, suc, ◌+◌, ◌-◌, ◌*◌, ◌/◌, ◌%◌, ◌^◌, ◌≤◌, ◌<◌, min, ◌≡◌, refl, sym, ap, ◌∙◌, ◌≢◌, ◌↔◌, ◌⊎◌,
  inl, inr, Bool, true, false, not, ◌&&◌, ◌||◌, Option, none, some, List, [], ◌∷◌, ◌++◌, append-nil,
  append_assoc, arith, ltb, leb, ◌==◌, if◌then◌else◌, Bool-cases, Option-cases, ltb→lt, ltb→ge,
  lt→ltb, ge→ltb, leb→le, leb→gt, le→leb, lt→leb, ==_iff, ==_refl,
}
use openwfd.Common.Memory.{
  Status, ok, fail, Errno, enomem, ealready, enodev, Bytes, ◌>>=◌, add_size,
}
use openwfd.Common.World.{Made, made, make_failed, World, add_fd, close_fd, watch, unwatch}
use openwfd.Wpa.Ctrl.Socket.{
  SocketAnswers, Opened, open_socket, close_socket, arm_timer, disarm_timer,
}
use openwfd.Wpa.Ctrl.Timed.{
  Exchange, Requested, requested, wpa_request, check_ok, wpa_request_ok, reply_max, request_time,
}

-- `struct owfd_wpa_ctrl`; `cb` and `user_data` are pointers, `cb` is `none` for NULL.
pub record Ctrl : Type 0 where
  pub ref : ℕ
  pub user_data : ℕ
  pub mask : Bytes
  pub efd : Option ℕ
  pub tfd : Option ℕ
  pub req_fd : Option ℕ
  pub req_name : Bytes
  pub ev_fd : Option ℕ
  pub ev_name : Bytes
  pub cb : Option ℕ

abbrev pub is_some {ℓ} : {A : Type ℓ} → Option A → Bool
is_some none = false
is_some (some a) = true

-- `owfd_wpa_ctrl_is_open`
abbrev pub is_open : Ctrl → Bool
is_open c = is_some c.ev_fd

-- `owfd_wpa_ctrl_set_data` and `owfd_wpa_ctrl_set_sigmask`
abbrev pub set_data : Ctrl → ℕ → Ctrl
set_data c d = record c { user_data = d }

abbrev pub set_sigmask : Ctrl → Bytes → Ctrl
set_sigmask c m = record c { mask = m }

-- What the kernel answers to `owfd_wpa_ctrl_open`.
pub record OpenAnswers : Type 0 where
  pub arm : Option Errno
  pub req : SocketAnswers
  pub ev : SocketAnswers
  pub attach : Exchange
  pub detach : Exchange
  pub unlink_ev : Option Errno
  pub unlink_req : Option Errno
  pub disarm : Option Errno

-- What a function leaves: its result, the channel, the kernel.
pub record Outcome : Type 0 where
  pub status : Status
  pub ctrl : Ctrl
  pub world : World

abbrev pub outcome : Status → Ctrl → World → Outcome
outcome s c w = record { status = s; ctrl = c; world = w }

-- The descriptor in what a function returns.
abbrev pub fd_in : Made → Option ℕ
fd_in (made fd) = some fd
fd_in (make_failed e) = none

-- `err_timer`, `err_req` and `err_ev` of `owfd_wpa_ctrl_open`.
abbrev pub err_timer : Errno → OpenAnswers → Ctrl → World → Outcome
err_timer e a c w = outcome (fail e) c (disarm_timer a.disarm w)

abbrev pub err_req : Errno → OpenAnswers → Ctrl → World → Outcome
err_req e a c w =
    err_timer e a (record c { req_fd = none }) (close_socket c.req_fd c.req_name a.unlink_req w)

unfoldable pub err_ev : Errno → OpenAnswers → Ctrl → World → Option Outcome
err_ev e a c w = wpa_request c.ev_fd reply_max (some 0) a.detach >>= (λ x.
    some (err_req e a (record c { ev_fd = none }) (close_socket c.ev_fd c.ev_name a.unlink_ev w)))

-- `owfd_wpa_ctrl_open` behind the ATTACH request.
abbrev pub open_attached : ℕ → OpenAnswers → Ctrl → World → Status → Option Outcome
open_attached cb a c w (fail e) = err_ev e a c w
open_attached cb a c w ok = some (outcome ok (record c { cb = some cb }) w)

-- From the second socket on.
unfoldable pub open_ev : ℕ → OpenAnswers → Ctrl → Opened → Option Outcome
unfolding err_ev
open_ev cb a c o =
    let d = record c { ev_fd = fd_in o.result; ev_name = o.name } in
    elim o.result [
      | make_failed e ↦ some (err_req e a d o.world)
      | made fd ↦ wpa_request_ok (some fd) none a.attach >>= open_attached cb a d o.world
    ]

-- From the first socket on.
unfoldable pub open_req : Bytes → ℕ → OpenAnswers → Ctrl → Opened → Option Outcome
unfolding open_ev
open_req path cb a c o =
    let d = record c { req_fd = fd_in o.result; req_name = o.name } in
    elim o.result [
      | make_failed e ↦ some (err_timer e a d o.world)
      | made fd ↦ open_ev cb a d (open_socket path d.ev_name a.ev o.world)
    ]

abbrev pub open_armed : Bytes → ℕ → OpenAnswers → Ctrl → Status × World → Option Outcome
open_armed path cb a c (fail e, w) = some (outcome (fail e) c w)
open_armed path cb a c (ok, w) = open_req path cb a c (open_socket path c.req_name a.req w)

-- 10s
abbrev pub ping_time : ℕ
ping_time = 10000000

-- `owfd_wpa_ctrl_open`
unfoldable pub open_channel : Bytes → ℕ → OpenAnswers → Ctrl → World → Option Outcome
unfolding open_req open_socket arm_timer disarm_timer close_socket wpa_request_ok wpa_request
open_channel path cb a c w =
    if is_open c
    then some (outcome (fail ealready) c w)
    else open_armed path cb a c (arm_timer ping_time a.arm w)

-- What the kernel answers to `owfd_wpa_ctrl_close`.
pub record CloseAnswers : Type 0 where
  pub detach : Exchange
  pub unlink_ev : Option Errno
  pub unlink_req : Option Errno
  pub disarm : Option Errno

abbrev pub closed_channel : Ctrl → Ctrl
closed_channel c = record c { req_fd = none; ev_fd = none; cb = none }

abbrev pub closed_world : CloseAnswers → Ctrl → World → World
closed_world a c w =
    disarm_timer a.disarm
      (close_socket c.req_fd c.req_name a.unlink_req (close_socket c.ev_fd c.ev_name a.unlink_ev w))

-- `owfd_wpa_ctrl_close`
unfoldable pub close_channel : CloseAnswers → Ctrl → World → Option (Ctrl × World)
unfolding wpa_request close_socket disarm_timer
close_channel a c w =
    if is_open c
    then wpa_request c.ev_fd reply_max (some 0) a.detach
      >>= (λ x. some (closed_channel c, closed_world a c w))
    else some (c, w)

-- What the kernel and `calloc` answer to `owfd_wpa_ctrl_new`.
pub record NewAnswers : Type 0 where
  pub alloc : Bool
  pub epoll : Made
  pub timerfd : Made
  pub add : Option Errno

abbrev pub fresh_ctrl : Option ℕ → Option ℕ → Ctrl
fresh_ctrl efd tfd = record {
  ref = 1;
  user_data = 0;
  mask = [];
  efd = efd;
  tfd = tfd;
  req_fd = none;
  req_name = [];
  ev_fd = none;
  ev_name = [];
  cb = none;
}

-- `owfd_wpa_ctrl_new`; `none` is no channel.
unfoldable pub new_channel : NewAnswers → World → (Status × Option Ctrl) × World
new_channel a w =
    if a.alloc
    then elim a.epoll [
      | make_failed e ↦ ((fail e, none), w)
      | made efd ↦ elim a.timerfd [
        | make_failed e ↦ ((fail e, none), close_fd (some efd) (add_fd efd w))
        | made tfd ↦ elim a.add [
          | some e ↦ (
            (fail e, none),
            close_fd (some efd) (close_fd (some tfd) (add_fd tfd (add_fd efd w))),
          )
          | none ↦
              ((ok, some (fresh_ctrl (some efd) (some tfd))), watch tfd (add_fd tfd (add_fd efd w)))
        ]
      ]
    ]
    else ((fail enomem, none), w)

-- `owfd_wpa_ctrl_ref`; `none` is a null pointer.
unfoldable pub ref_channel : Option Ctrl → Option Ctrl
ref_channel none = none
ref_channel (some c) = if c.ref == 0 then some c else some (record c { ref = add_size c.ref 1 })

-- The end of `owfd_wpa_ctrl_unref`: no channel is left.
abbrev pub freed : Ctrl × World → Option Ctrl × World
freed (c, w) = (none, close_fd c.efd (close_fd c.tfd w))

-- `owfd_wpa_ctrl_unref`; in front is what is left of the channel.
unfoldable pub unref_channel : CloseAnswers → Option Ctrl → World → Option (Option Ctrl × World)
unfolding close_channel
unref_channel a none w = some (none, w)
unref_channel a (some c) w =
    if c.ref == 0
    then some (some c, w)
    else if c.ref == 1
    then close_channel a (record c { ref = 0 }) w >>= (λ x. some (freed x))
    else some (some (record c { ref = c.ref - 1 }), w)

-- `owfd_wpa_ctrl_request` with a buffer of `size` bytes and a timeout in milliseconds; the time that is
-- left is the function's own, and nobody reads it.
unfoldable pub request : Ctrl → ℕ → Option ℕ → Exchange → Option Requested
unfolding wpa_request request_time
request c size timeout a =
    if is_open c
    then wpa_request c.req_fd size (request_time timeout) a
    else some (requested (fail enodev) [] none)

-- `owfd_wpa_ctrl_request_ok`
unfoldable pub request_ok : Ctrl → Option ℕ → Exchange → Option Status
unfolding request
request_ok c timeout a = request c reply_max timeout a >>= (λ e. some (check_ok e))
