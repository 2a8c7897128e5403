-- ===== src/P2p/Control.antt =====
-- The control of wpa_supplicant of src/p2pd_interface.c: `kill_wpa`, `owfd_p2pd_interface_new`, `_free`, `_dispatch`,
-- `_dispatch_chld` and `_connect`.
pub mod Child
use openwfd.Common.{
  ℕ, zero, suc, ◌+◌, ◌-◌, ◌*◌, ◌/◌, ◌%◌, ◌^◌, ◌≤◌, ◌<◌, min, ◌≡◌, refl, sym, ap, ◌∙◌, ◌≢◌, ◌↔◌, ◌⊎◌,
  inl, inr, Bool, true, false, not, ◌&&◌, ◌||◌, Option, none, some, List, [], ◌∷◌, ◌++◌, append-nil,
  append_assoc, arith, ltb, leb, ◌==◌, if◌then◌else◌, Bool-cases, Option-cases, ltb→lt, ltb→ge,
  lt→ltb, ge→ltb, leb→le, leb→gt, le→leb, lt→leb, ==_iff, ==_refl,
}
use openwfd.Common.Memory.{Status, ok, fail, Errno, enomem, Bytes, ◌>>=◌}
use openwfd.Common.Text.{codes}
use openwfd.Common.World.{Made, World, status_of}
use openwfd.Wpa.Ctrl.Timed.{Exchange}
use openwfd.Wpa.Ctrl.Channel.{
  Ctrl, is_open, Outcome, outcome, close_channel, CloseAnswers, unref_channel, new_channel,
  NewAnswers, set_data, request_ok,
}
use openwfd.Wpa.Ctrl.Dispatch.{Waited, dispatch}
use openwfd.P2p.Startup.{ForkAnswers, Forked, fork_wpa}
use openwfd.P2p.Users.{User}

-- `struct owfd_p2pd_interface`, but for its configuration; `pid` is `none` where it is not positive.
pub record Interface : Type 0 where
  pub wpa : Ctrl
  pub pid : Option ℕ
  pub event_users : List User

-- What is answered to `kill_wpa`.
pub record KillAnswers : Type 0 where
  pub terminate : Exchange
  pub alive : Bool

-- Whether SIGTERM is sent, behind the request to terminate.
abbrev pub then_signal : Bool → Status → Bool
then_signal alive ok = false
then_signal alive (fail e) = alive

-- `kill_wpa`, for a child and a channel: to whom it sends SIGTERM, if it does
abbrev pub kill_child : KillAnswers → Ctrl → ℕ → Option (Option ℕ)
kill_child a c pid =
    if is_open c
    then request_ok c none a.terminate
      >>= (λ s. some (if then_signal a.alive s then some pid else none))
    else some (some pid)

unfoldable pub kill_wpa : KillAnswers → Ctrl → Option ℕ → Option (Option ℕ)
unfolding request_ok
kill_wpa a c none = some none
kill_wpa a c (some pid) = kill_child a c pid

-- `owfd_p2pd_interface_free`: the signal, and the kernel
abbrev pub release : CloseAnswers → Option ℕ → Ctrl × World → Option (Option ℕ × World)
release b signal (c, w) = unref_channel b (some c) w >>= (λ x. some (signal, x.1))

unfoldable pub free_interface :
    KillAnswers → CloseAnswers → Interface → World → Option (Option ℕ × World)
unfolding kill_wpa close_channel unref_channel
free_interface a b i w =
    kill_wpa a i.wpa i.pid >>= (λ signal. close_channel b i.wpa w >>= release b signal)

-- What is answered to `owfd_p2pd_interface_new`.
pub record NewInterface : Type 0 where
  pub alloc : Bool
  pub new : NewAnswers
  pub fork : ForkAnswers
  pub add : Option Errno
  pub kill : KillAnswers
  pub close : CloseAnswers

-- What `owfd_p2pd_interface_new` leaves: its result, the interface if there is one, the process that is sent
-- SIGTERM, the kernel.
pub record Started : Type 0 where
  pub status : Status
  pub interface : Option Interface
  pub signal : Option ℕ
  pub world : World

abbrev pub not_started : Errno → World → Started
not_started e w = record { status = fail e; interface = none; signal = none; world = w }

-- `err_kill`
unfoldable pub err_kill : NewInterface → Errno → Option ℕ → Ctrl → World → Option Started
unfolding free_interface
err_kill a e pid c w =
    free_interface a.kill a.close (record { wpa = c; pid = pid; event_users = [] }) w
    >>= (λ x. some (record { status = fail e; interface = none; signal = x.0; world = x.1 }))

abbrev pub started : NewInterface → Option ℕ → Outcome → Status → Option Errno → Option Started
started a pid o (fail e) add = err_kill a e pid o.ctrl o.world
started a pid o ok (some e) = err_kill a e pid o.ctrl o.world
started a pid o ok none = some (record {
  status = ok;
  interface = some (record { wpa = o.ctrl; pid = pid; event_users = [] });
  signal = none;
  world = o.world;
})

abbrev pub forked : NewInterface → Forked → Option Started
forked a (pid, o) = started a pid o o.status a.add

-- `owfd_p2pd_interface_new` behind `owfd_wpa_ctrl_new`.
unfoldable pub with_channel :
    Bytes → Bytes → Bytes → ℕ → NewInterface → (Status × Option Ctrl) × World → Option Started
unfolding err_kill fork_wpa
with_channel ctrldir name mask self a ((fail e, c), w) = some (not_started e w)
with_channel ctrldir name mask self a ((ok, none), w) = some (not_started enomem w)
with_channel ctrldir name mask self a ((ok, some c), w) =
    fork_wpa ctrldir name mask a.fork (set_data c self) w >>= forked a

-- `owfd_p2pd_interface_new`, with the directory and the interface of the configuration, the mask with SIGPIPE and
-- the new interface's own pointer
unfoldable pub new_interface : Bytes → Bytes → Bytes → ℕ → NewInterface → World → Option Started
unfolding with_channel new_channel
new_interface ctrldir name mask self a w =
    if a.alloc
    then with_channel ctrldir name mask self a (new_channel a.new w)
    else some (not_started enomem w)

-- `enum owfd_p2pd_ep_action`, or an error.
pub data Action : Type 0 where
  handled not_handled quit : Action
  failed : Errno → Action

abbrev pub action_of : Status → Action
action_of ok = handled
action_of (fail e) = failed e

-- `owfd_p2pd_interface_dispatch`; `mine` tells whether the event is that of the channel
unfoldable pub dispatch_interface :
    (ℕ → Bytes → Ctrl → World → Ctrl × World)
    → Bool
    → Waited
    → Interface
    → World
    → Option (Action × (Interface × World))
unfolding dispatch
dispatch_interface deliver false a i w = some (not_handled, (i, w))
dispatch_interface deliver true a i w =
    dispatch deliver a i.wpa w
    >>= (λ o. some (action_of o.status, (record i { wpa = o.ctrl }, o.world)))

-- `owfd_p2pd_interface_dispatch_chld` for the death of `child`
abbrev pub child_died : Interface → Ctrl × World → Action × (Interface × World)
child_died i (c, w) = (quit, (record i { wpa = c; pid = none }, w))

abbrev pub chld_of :
    CloseAnswers → ℕ → Option ℕ → Interface → World → Option (Action × (Interface × World))
chld_of b child none i w = some (not_handled, (i, w))
chld_of b child (some pid) i w =
    if child == pid
    then close_channel b i.wpa w >>= (λ x. some (child_died i x))
    else some (not_handled, (i, w))

unfoldable pub dispatch_chld :
    CloseAnswers → ℕ → Interface → World → Option (Action × (Interface × World))
unfolding close_channel
dispatch_chld b child i w = chld_of b child i.pid i w

-- The request of `owfd_p2pd_interface_connect`; `none` is no PIN mode.
abbrev pub connect_text : Bytes → Bytes → Option Bytes → Bytes
connect_text mac pin none = codes "P2P_CONNECT " ++ mac ++ b' ' ∷ pin
connect_text mac pin (some mode) = codes "P2P_CONNECT " ++ mac ++ b' ' ∷ pin ++ b' ' ∷ mode

-- `owfd_p2pd_interface_connect`, with what `asprintf` answers; `reply` answers to a request
unfoldable pub connect :
    Bool → (Bytes → Exchange) → Interface → Bytes → Bytes → Option Bytes → Option Status
unfolding request_ok
connect alloc reply i mac pin mode =
    if alloc then request_ok i.wpa none (reply (connect_text mac pin mode)) else some (fail enomem)
