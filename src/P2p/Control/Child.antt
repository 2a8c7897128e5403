-- ===== src/P2p/Control/Child.antt =====
-- The death of wpa_supplicant in src/p2pd_interface.c.
use openwfd.Common.{
  ℕ, ◌≡◌, refl, sym, ap, ◌∙◌, Bool, true, false, Option, none, some, arith, ◌==◌, if◌then◌else◌,
}
use mathlib.Core.Path.{subst}
use mathlib.Core.Option.{some-injective}
use openwfd.Common.Memory.{◌>>=◌}
use openwfd.Common.World.{World}
use openwfd.Wpa.Ctrl.Timed.{wpa_request, reply_max}
use openwfd.Wpa.Ctrl.Channel.{
  Ctrl, is_open, CloseAnswers, closed_channel, closed_world, close_channel,
}
use openwfd.P2p.Control.{
  Interface, KillAnswers, kill_wpa, not_handled, quit, child_died, chld_of, dispatch_chld,
}

bind_some :
    {A B : Type 0} (x : Option A) (f : A → B) (q : B)
    → (x >>= (λ a. some (f a))) ≡ some q
    → (a : A) × ((x ≡ some a) × (f a ≡ q))
bind_some none f q h = absurd (ground (arith, h))
bind_some (some a) f q h = (a, (refl, some-injective _ _ h))

close_test :
    (b : CloseAnswers) (c : Ctrl) (w : World) (x : Ctrl × World) (is : Bool)
    → is_open c ≡ is
    → (if is
        then wpa_request c.ev_fd reply_max (some 0) b.detach
          >>= (λ e. some (closed_channel c, closed_world b c w))
        else some (c, w))
      ≡ some x
    → is_open x.0 ≡ false
close_test b c w x true t h =
    let e =
      bind_some (wpa_request c.ev_fd reply_max (some 0) b.detach)
        (λ e. (closed_channel c, closed_world b c w)) x h in
    ap (λ y. is_open y.0) (sym e.1.1)
close_test b c w x false t h = ap (λ y. is_open y.0) (sym (some-injective _ _ h)) ∙ t

close_channel-is_open :
    (b : CloseAnswers) (c : Ctrl) (w : World) (x : Ctrl × World)
    → close_channel b c w ≡ some x
    → is_open x.0 ≡ false
unfolding close_channel
close_channel-is_open b c w x h = close_test b c w x (is_open c) refl h

-- What is left of a child that has died.
pub record Gone (i : Interface) : Type 0 where
  pub no_pid : i.pid ≡ none
  pub closed : is_open i.wpa ≡ false

Gone-some :
    (b : CloseAnswers) (i j : Interface) (w v : World) (same : Bool)
    → (if same
        then close_channel b i.wpa w >>= (λ x. some (child_died i x))
        else some (not_handled, (i, w)))
      ≡ some (quit, (j, v))
    → Gone j
Gone-some b i j w v false h =
    let e = ap (λ y. y.0) (some-injective _ _ h) in absurd (ground (arith, e))
Gone-some b i j w v true h =
    let (x, (e, f)) = bind_some (close_channel b i.wpa w) (child_died i) (quit, (j, v)) h in
    let g = ap (λ y. y.1.0) f in
    subst Gone g (record { no_pid = refl; closed = close_channel-is_open b i.wpa w x e })

Gone-chld :
    (b : CloseAnswers) (child : ℕ) (pid : Option ℕ) (i j : Interface) (w v : World)
    → chld_of b child pid i w ≡ some (quit, (j, v))
    → Gone j
Gone-chld b child none i j w v h =
    let e = ap (λ y. y.0) (some-injective _ _ h) in absurd (ground (arith, e))
Gone-chld b child (some pid) i j w v h = Gone-some b i j w v (child == pid) h

no_kill : (a : KillAnswers) (c : Ctrl) → kill_wpa a c none ≡ some none
unfolding kill_wpa
no_kill a c = refl

-- Where `owfd_p2pd_interface_dispatch_chld` makes the daemon quit for the death of a child, the channel is closed and the
-- interface has no child any more, so that `kill_wpa` then makes no request and sends no signal: the number of a
-- process that is gone is not used again.
pub dispatch_chld-Gone :
    (b : CloseAnswers) (a : KillAnswers) (child : ℕ) (i j : Interface) (w v : World)
    → dispatch_chld b child i w ≡ some (quit, (j, v))
    → Gone j × (kill_wpa a j.wpa j.pid ≡ some none)
unfolding dispatch_chld
dispatch_chld-Gone b a child i j w v h =
    let g = Gone-chld b child i.pid i j w v h in
    (g, ap (kill_wpa a j.wpa) g.no_pid ∙ no_kill a j.wpa)
