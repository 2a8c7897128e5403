-- ===== src/P2p/Dummy.antt =====
-- The user of events of src/p2pd_dummy.c, which answers to a shown PIN, and the set-up of the daemon around it in
-- src/p2pd.c: `owfd_p2pd_setup` and `owfd_p2pd_teardown`.
use openwfd.Common.{ℕ, Bool, Option, none, some, List, ◌==◌, if◌then◌else◌}
use openwfd.Common.Memory.{Status, ok, fail, Errno, enomem, Bytes, ◌>>=◌}
use openwfd.Common.Text.{codes}
use openwfd.Common.World.{Made, made, make_failed, World, add_fd, close_fd}
use openwfd.Wpa.Ctrl.Timed.{Exchange}
use openwfd.Wpa.Ctrl.Channel.{CloseAnswers}
use openwfd.Wpa.Event.{WpaEvent}
use openwfd.Wpa.Events.{number, p2p_prov_disc_show_pin}
use openwfd.Wpa.Payload.{Payload, show_pin}
use openwfd.P2p.Users.{User, register, unregister}
use openwfd.P2p.Control.{
  Interface, KillAnswers, free_interface, connect, NewInterface, Started, new_interface,
}

-- The address and the PIN of a payload; another payload is none of a SHOW-PIN event.
abbrev pub pin_in : Payload → Option (Bytes × Bytes)
pin_in (show_pin mac pin) = some (mac, pin)
pin_in _ = none

abbrev pub acknowledge :
    Bool → (Bytes → Exchange) → Interface → Option (Bytes × Bytes) → Option (Option Status)
acknowledge alloc reply i none = some none
acknowledge alloc reply i (some (mac, pin)) =
    connect alloc reply i mac pin (some (codes "display")) >>= (λ s. some (some s))

-- `dummy_event_fn`: what the connect request gives, if there is one
unfoldable pub dummy_event_fn :
    Bool → (Bytes → Exchange) → Interface → WpaEvent → Option (Option Status)
unfolding connect
dummy_event_fn alloc reply i ev =
    if number ev.type == number p2p_prov_disc_show_pin
    then acknowledge alloc reply i (pin_in ev.payload)
    else some none

-- The pointer `dummy_event_fn`
abbrev pub dummy_fn : ℕ
dummy_fn = 2

abbrev pub registered : Interface → Status × List User → Status × Interface
registered i (s, us) = (s, record i { event_users = us })

-- `owfd_p2pd_dummy_new`, with what `calloc` answers for it and for its entry, and its own pointer
unfoldable pub dummy_new : Bool → Bool → ℕ → Interface → Status × Interface
unfolding register
dummy_new alloc entry self i =
    if alloc then registered i (register entry dummy_fn self i.event_users) else (fail enomem, i)

-- `owfd_p2pd_dummy_free`; `none` is no dummy
unfoldable pub dummy_free : Option ℕ → Interface → Interface
unfolding unregister
dummy_free none i = i
dummy_free (some self) i = record i { event_users = unregister dummy_fn self i.event_users }

-- `struct owfd_p2pd`, but for its configuration.
pub record Daemon : Type 0 where
  pub efd : Option ℕ
  pub sfd : Option ℕ
  pub interface : Option Interface
  pub dummy : Option ℕ

-- What is answered to `owfd_p2pd_teardown`.
pub record TeardownAnswers : Type 0 where
  pub kill : KillAnswers
  pub close : CloseAnswers

-- `owfd_p2pd_teardown`: the process that is sent SIGTERM, and the kernel
abbrev pub free_known :
    TeardownAnswers → Option ℕ → Option Interface → World → Option (Option ℕ × World)
free_known a dummy none w = some (none, w)
free_known a dummy (some i) w = free_interface a.kill a.close (dummy_free dummy i) w

unfoldable pub teardown : TeardownAnswers → Daemon → World → Option (Option ℕ × World)
unfolding free_interface dummy_free
teardown a d w =
    free_known a d.dummy d.interface w >>= (λ x. some (x.0, close_fd d.efd (close_fd d.sfd x.1)))

-- What is answered to `owfd_p2pd_setup`: `signals` is what `sigaction` and `sigprocmask` answer, as far as the first error.
pub record SetupDaemon : Type 0 where
  pub epoll : Made
  pub signals : Option Errno
  pub signalfd : Made
  pub add : Option Errno
  pub interface : NewInterface
  pub dummy_alloc : Bool
  pub dummy_entry : Bool
  pub teardown : TeardownAnswers

-- What `owfd_p2pd_setup` leaves.
pub record SetUp : Type 0 where
  pub status : Status
  pub daemon : Daemon
  pub signal : Option ℕ
  pub world : World

abbrev pub no_daemon : Daemon
no_daemon = record { efd = none; sfd = none; interface = none; dummy = none }

-- `error`, where a signal may have been sent before
abbrev pub or_signal : Option ℕ → Option ℕ → Option ℕ
or_signal (some pid) q = some pid
or_signal none q = q

unfoldable pub give_up : SetupDaemon → Errno → Option ℕ → Daemon → World → Option SetUp
unfolding teardown
give_up a e before d w = teardown a.teardown d w >>= (λ x.
    some (record { status = fail e; daemon = d; signal = or_signal before x.0; world = x.1 }))

abbrev pub with_dummy :
    SetupDaemon → ℕ → Daemon → World → Interface → Status × Interface → Option SetUp
with_dummy a self d w old (fail e, i) = give_up a e none (record d { interface = some old }) w
with_dummy a self d w old (ok, i) = some (record {
  status = ok;
  daemon = record d { interface = some i; dummy = some self };
  signal = none;
  world = w;
})

abbrev pub with_interface :
    SetupDaemon → ℕ → Daemon → Started → Status → Option Interface → Option SetUp
with_interface a self d s (fail e) i = give_up a e s.signal d s.world
with_interface a self d s ok none = give_up a enomem s.signal d s.world
with_interface a self d s ok (some i) =
    with_dummy a self d s.world i (dummy_new a.dummy_alloc a.dummy_entry self i)

-- `owfd_p2pd_setup` behind each of its calls; the names and the mask are those of `owfd_p2pd_interface_new`.
module _ (ctrldir name mask : Bytes) (self : ℕ) where
  abbrev pub setup_interface : SetupDaemon → Daemon → Option Started → Option SetUp
  setup_interface a d none = none
  setup_interface a d (some s) = with_interface a self d s s.status s.interface

  abbrev pub setup_added : SetupDaemon → Option Errno → Daemon → World → Option SetUp
  setup_added a (some e) d w = give_up a e none d w
  setup_added a none d w = setup_interface a d (new_interface ctrldir name mask self a.interface w)

  abbrev pub setup_signalfd : SetupDaemon → Made → Daemon → World → Option SetUp
  setup_signalfd a (make_failed e) d w = give_up a e none d w
  setup_signalfd a (made fd) d w = setup_added a a.add (record d { sfd = some fd }) (add_fd fd w)

  abbrev pub setup_signals : SetupDaemon → Option Errno → Daemon → World → Option SetUp
  setup_signals a (some e) d w = give_up a e none d w
  setup_signals a none d w = setup_signalfd a a.signalfd d w

  abbrev pub setup_epoll : SetupDaemon → Made → World → Option SetUp
  setup_epoll a (make_failed e) w = give_up a e none no_daemon w
  setup_epoll a (made fd) w =
      setup_signals a a.signals (record no_daemon { efd = some fd }) (add_fd fd w)

  -- `owfd_p2pd_setup`
  unfoldable pub setup : SetupDaemon → World → Option SetUp
  unfolding give_up new_interface dummy_new
  setup a w = setup_epoll a a.epoll w
