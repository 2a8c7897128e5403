-- ===== src/Wpa/Ctrl/Dispatch/Hangup.antt =====
-- A hangup in `owfd_wpa_ctrl_dispatch` of src/wpa_ctrl.c.
use openwfd.Common.{
  ℕ, ◌≡◌, refl, sym, ap, ◌∙◌, ◌⊎◌, inl, inr, Bool, true, false, ◌&&◌, Option, none, some, List, [],
  ◌∷◌, arith, if◌then◌else◌, Bool-cases,
}
use mathlib.Core.Option.{some-injective}
use openwfd.Common.{take}
use openwfd.Common.Memory.{Status-cases, Status, ok, fail, Errno, epipe, efault, Bytes, ◌>>=◌}
use openwfd.Common.World.{World}
use openwfd.Wpa.Ctrl.Channel.{Ctrl, is_open, Outcome, outcome}
use openwfd.Wpa.Ctrl.Dispatch.{
  Source, at_ev, at_req, at_tfd, at_other, EpollEvent, Pending, waited, then_hangup, hung,
  dispatch_req, tfd_done, read_req, dispatch_tfd, read_ev, dispatch_ev, dispatch_one, go_on,
  dispatch_loop, events_max, dispatch,
}

abbrev pub is_known : Source → Bool
is_known at_other = false
is_known _ = true

-- No event is a hangup of one of the channel's descriptors.
abbrev pub NoHangup : List Pending → Type 0
NoHangup [] = Unit
NoHangup (p ∷ ps) = ((is_known p.event.source && p.event.hangup) ≡ false) × NoHangup ps

bind_some :
    {A B : Type 0} (x : Option A) (f : A → B) (q : B)
    → (x >>= (λ a. some (f a))) ≡ some q
    → (a : A) × (f a ≡ q)
bind_some none f q h = absurd (ground (arith, h))
bind_some (some a) f q h = (a, some-injective _ _ h)

then_hangup-ok : (e : EpollEvent) (s : Status) → then_hangup e s ≡ ok → e.hangup ≡ false
then_hangup-ok e (fail x) h = absurd (ground (arith, h))
then_hangup-ok e ok h = elim (Bool-cases e.hangup) [
  | inl t ↦ let p = sym (ap (λ b. if b then fail epipe else ok) t) ∙ h in absurd (ground (arith, p))
  | inr t ↦ t
]

if_cases : {A : Type 0} (b : Bool) (x y z : A) → (if b then x else y) ≡ z → (x ≡ z) ⊎ (y ≡ z)
if_cases true x y z h = inl h
if_cases false x y z h = inr h

req_status : (p : Pending) (s : Status) → dispatch_req p ≡ some s → s ≡ ok → p.event.hangup ≡ false
unfolding dispatch_req
req_status p s h k = elim (if_cases p.event.readable _ _ _ h) [
  | inl e ↦
      let b = bind_some (read_req p.reads) (then_hangup p.event) s e in
      then_hangup-ok p.event b.0 (b.1 ∙ k)
  | inr e ↦ then_hangup-ok p.event ok (some-injective _ _ e ∙ k)
]

bind_value :
    {A B : Type 0} (x : Option A) (f : A → B) (q : B)
    → (x >>= (λ a. some (f a))) ≡ some q
    → (a : A) × ((x ≡ some a) × (f a ≡ q))
bind_value none f q h = absurd (ground (arith, h))
bind_value (some a) f q h = (a, (refl, some-injective _ _ h))

tfd_hung :
    (p : Pending) (c : Ctrl) (w : World)
    → p.event.hangup ≡ true
    → dispatch_tfd p c w ≡ some (tfd_done c w (fail efault))
unfolding dispatch_tfd
tfd_hung p c w t = rw (dispatch_tfd, t)

go_ok :
    (r : Outcome) (s : Status) (rest : Option Outcome) (o : Outcome)
    → s ≡ ok
    → go_on r s rest ≡ some o
    → rest ≡ some o
go_ok r ok rest o s h = h
go_ok r (fail e) rest o s h = absurd (ground (arith, s))

go_fail :
    (r : Outcome) (rest : Option Outcome) (o : Outcome) (e : Errno)
    → r.status ≡ fail e
    → go_on r r.status rest ≡ some o
    → o.status ≡ fail e
go_fail r rest o e s h =
    let g = ap (λ x. go_on r x rest) s in ap (λ q. q.status) (some-injective _ _ (sym h ∙ g)) ∙ s

module _ (deliver : ℕ → Bytes → Ctrl → World → Ctrl × World) where
  ev_hangup :
      (p : Pending) (c : Ctrl) (w : World) (o : Outcome)
      → dispatch_ev deliver p c w ≡ some o
      → o.status ≡ ok
      → p.event.hangup ≡ false
  unfolding dispatch_ev
  ev_hangup p c w o h k = elim (if_cases p.event.readable _ _ _ h) [
    | inl e ↦
        let b = bind_some (read_ev deliver p.reads c w) (hung p.event) o e in
        then_hangup-ok p.event b.0.status (ap (λ q. q.status) b.1 ∙ k)
    | inr e ↦ then_hangup-ok p.event ok (ap (λ q. q.status) (some-injective _ _ e) ∙ k)
  ]

  req_hangup :
      (p : Pending) (c : Ctrl) (w : World) (o : Outcome)
      → dispatch_one deliver at_req p c w ≡ some o
      → o.status ≡ ok
      → p.event.hangup ≡ false
  unfolding dispatch_one
  req_hangup p c w o h k =
      let b = bind_value (dispatch_req p) (λ s. outcome s c w) o h in
      req_status p b.0 b.1.0 (ap (λ q. q.status) b.1.1 ∙ k)

  tfd_hangup :
      (p : Pending) (c : Ctrl) (w : World) (o : Outcome)
      → dispatch_tfd p c w ≡ some o
      → o.status ≡ ok
      → p.event.hangup ≡ false
  unfolding dispatch_tfd
  tfd_hangup p c w o h k = elim (Bool-cases p.event.hangup) [
    | inl t ↦
        let e = ap (λ q. q.status) (some-injective _ _ (sym (tfd_hung p c w t) ∙ h)) ∙ k in
        absurd (ground (arith, e))
    | inr t ↦ t
  ]

  one_hangup :
      (x : Source) (p : Pending) (c : Ctrl) (w : World) (o : Outcome)
      → dispatch_one deliver x p c w ≡ some o
      → o.status ≡ ok
      → (is_known x && p.event.hangup) ≡ false
  unfolding dispatch_one
  one_hangup at_ev p c w o h k = ev_hangup p c w o h k
  one_hangup at_req p c w o h k = req_hangup p c w o h k
  one_hangup at_tfd p c w o h k = tfd_hangup p c w o h k
  one_hangup at_other p c w o h k = refl

  round_hangup :
      (p : Pending) (ps : List Pending) (c : Ctrl) (w : World) (o : Outcome) (x : Option Outcome)
      → dispatch_one deliver p.event.source p c w ≡ x
      → (x >>= (λ r. let rest = dispatch_loop deliver ps r.ctrl r.world in go_on r r.status rest))
        ≡ some o
      → o.status ≡ ok
      → ((d : Ctrl) (v : World)
          → dispatch_loop deliver ps d v ≡ some o
          → o.status ≡ ok
          → NoHangup ps)
      → NoHangup (p ∷ ps)
  round_hangup p ps c w o none e h k rest = absurd (ground (arith, h))
  round_hangup p ps c w o (some r) e h k rest = elim (Status-cases r.status) [
    | inl s ↦
        (one_hangup p.event.source p c w r e s, rest r.ctrl r.world (go_ok r r.status _ o s h) k)
    | inr (f, s) ↦ let g = sym k ∙ go_fail r _ o f s h in absurd (ground (arith, g))
  ]

  loop_hangup :
      (ps : List Pending) (c : Ctrl) (w : World) (o : Outcome)
      → dispatch_loop deliver ps c w ≡ some o
      → o.status ≡ ok
      → NoHangup ps
  unfolding dispatch_loop
  loop_hangup [] c w o h k = tt
  loop_hangup (p ∷ ps) c w o h k =
      round_hangup p ps c w o (dispatch_one deliver p.event.source p c w) refl h k
        (λ d v. loop_hangup ps d v o)

  -- Where `owfd_wpa_ctrl_dispatch` returns success with events, none of those that it takes is a hangup or
  -- an error of one of the channel's three descriptors: such an event is never lost, whatever the
  -- callback and the kernel do.
  pub dispatch-NoHangup :
      (ps : List Pending) (c : Ctrl) (w : World) (o : Outcome)
      → dispatch deliver (waited ps) c w ≡ some o
      → o.status ≡ ok
      → NoHangup (take events_max ps)
  unfolding dispatch
  dispatch-NoHangup ps c w o h k = elim (if_cases (is_open c) _ _ _ h) [
    | inl e ↦ loop_hangup (take events_max ps) c w o e k
    | inr e ↦ let g = ap (λ q. q.status) (some-injective _ _ e) ∙ k in absurd (ground (arith, g))
  ]
