-- ===== src/Rtsp/Ctrl/Dispatch/Ends.antt =====
-- How `recv_all` and `owfd_rtsp_ctrl_dispatch` of src/rtsp_ctrl.c end.
use openwfd.Common.{
  ℕ, zero, suc, ◌≤◌, ◌<◌, ◌≡◌, refl, sym, ap, ◌∙◌, Bool, true, false, not, ◌&&◌, Option, none, some,
  List, [], ◌∷◌, arith, ◌==◌, if◌then◌else◌,
}
use mathlib.Core.Option.{some-injective}
use openwfd.Common.{length, take}
use openwfd.Common.Memory.{Status, ok, fail, Errno, enodev, Bytes, ◌>>=◌}
use openwfd.Rtsp.Ctrl.{Ctrl, Net, Outcome, outcome, is_fd, is_open, close_at, close_channel}
use openwfd.Rtsp.Ctrl.Dispatch.{
  SocketEvent, waited, round_max, buf_max, while_connected, call_back, recv_loop, recv_all,
  dispatch_ctrl, finish, dispatch_waited, dispatch,
}
use openwfd.Wpa.Ctrl.Timed.{Moved, moved, move_failed}

-- A function that has returned.
pub record Returned (o : Option Outcome) : Type 0 where
  pub result : Outcome
  pub returned : o ≡ some result

module _ (deliver : ℕ → Bytes → Ctrl → Net → Ctrl × Net) where
  round-Returned :
      (b : Bool) (rest : Option Outcome) (o : Outcome)
      → (b ≡ true → Returned rest)
      → Returned (if b then rest else some o)
  round-Returned true rest o r = r refl
  round-Returned false rest o r = record { result = o; returned = refl }

  recv_loop-Returned :
      (rounds : ℕ) (rs : List Moved) (c : Ctrl) (k : Net)
      → rounds < length rs
      → Returned (recv_loop deliver (suc rounds) rs c k)
  unfolding recv_loop
  recv_loop-Returned rounds [] c k h = absurd (omega arith)
  recv_loop-Returned rounds (move_failed e ∷ rs) c k h = record { result = _; returned = refl }
  recv_loop-Returned rounds (moved [] ∷ rs) c k h = record { result = _; returned = refl }
  recv_loop-Returned zero (moved (b ∷ bs) ∷ rs) c k h = record { result = _; returned = refl }
  recv_loop-Returned (suc rounds) (moved (b ∷ bs) ∷ rs) c k h =
      let x = call_back deliver c.cb (take buf_max (b ∷ bs)) c k in
      round-Returned (not (suc rounds == 0) && x.0.connected)
        (recv_loop deliver (suc rounds) rs x.0 x.1) (while_connected x.0 x.1)
        (λ t. recv_loop-Returned rounds rs x.0 x.1 (omega arith))

  -- `recv_all` returns behind at most 128 reads, whatever these answer and whatever the callback does: a peer
  -- that sends without end does not keep it in its loop.
  pub recv_all-Returned :
      (rs : List Moved) (c : Ctrl) (k : Net)
      → round_max ≤ length rs
      → Returned (recv_all deliver rs c k)
  unfolding recv_all
  recv_all-Returned rs c k h = recv_loop-Returned 127 rs c k (omega arith)

close_at-none : (x : Option ℕ) (c : Ctrl) (k : Net) → c.fd ≡ x → (close_at x c k).0.fd ≡ none
unfolding close_at
close_at-none none c k h = h
close_at-none (some fd) c k h = refl

close_channel-none : (c : Ctrl) (k : Net) → (close_channel c k).0.fd ≡ none
unfolding close_channel
close_channel-none c k = close_at-none c.fd c k refl

is_open-closed : (c : Ctrl) (k : Net) → is_open (close_channel c k).0 ≡ false
is_open-closed c k = ap is_fd (close_channel-none c k)

finish-fail :
    (s : Status) (o q : Outcome) (x : Errno)
    → o.status ≡ s
    → finish s o ≡ q
    → q.status ≡ fail x
    → is_open q.ctrl ≡ false
finish-fail ok o q x h e f = let g = sym h ∙ ap (λ p. p.status) e ∙ f in absurd (ground (arith, g))
finish-fail (fail y) o q x h e f = ap (λ p. is_open p.ctrl) (sym e) ∙ is_open-closed o.ctrl o.net

bind_some :
    {A B : Type 0} (x : Option A) (f : A → B) (q : B)
    → (x >>= (λ a. some (f a))) ≡ some q
    → (a : A) × (f a ≡ q)
bind_some none f q h = absurd (ground (arith, h))
bind_some (some a) f q h = (a, some-injective _ _ h)

-- Where the event of an open channel is handled with an error, whichever it is and whatever the callback
-- has done, `owfd_rtsp_ctrl_dispatch` leaves the channel closed.
pub dispatch_closes :
    (deliver : ℕ → Bytes → Ctrl → Net → Ctrl × Net) (e : SocketEvent) (c : Ctrl) (k : Net)
    (o : Outcome) (x : Errno)
    → is_open c ≡ true
    → dispatch deliver (waited e) c k ≡ some o
    → o.status ≡ fail x
    → is_open o.ctrl ≡ false
unfolding dispatch
dispatch_closes deliver e c k o x h d f =
    let g =
      sym (
        ap
          (λ b.
            if b then dispatch_waited deliver (waited e) c k else some (outcome (fail enodev) c k))
          h)
      ∙ d in
    let b = bind_some (dispatch_ctrl deliver e c k) (λ p. finish p.status p) o g in
    finish-fail b.0.status b.0 o x refl b.1 f
