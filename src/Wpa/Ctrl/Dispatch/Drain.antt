-- ===== src/Wpa/Ctrl/Dispatch/Drain.antt =====
-- The messages that `dispatch_ev` of src/wpa_ctrl.c passes to the callback, and those that `read_req` drops.
use openwfd.Common.{
  ℕ, ◌<◌, ◌≡◌, refl, sym, ap, ◌∙◌, inl, inr, true, false, Option, none, some, List, [], ◌∷◌, arith,
  if◌then◌else◌, Bool-cases,
}
use openwfd.Common.{length, take}
use openwfd.Common.Memory.{ok, fail, Errno, eagain, enodev, epipe, Bytes, ◌>>=◌}
use openwfd.Common.World.{World}
use openwfd.Wpa.Ctrl.Timed.{Moved, moved, move_failed, reply_max}
use openwfd.Wpa.Ctrl.Channel.{Ctrl, is_open, Outcome, outcome}
use openwfd.Wpa.Ctrl.Dispatch.{
  Pending, read_error, hung, read_req, call_back, is_event, on_message, read_ev, dispatch_ev,
}

-- A socket with these messages in its queue.
abbrev pub queue : List Bytes → List Moved
queue [] = move_failed eagain ∷ []
queue (m ∷ ms) = moved m ∷ queue ms

-- No message is empty.
abbrev pub Full : List Bytes → Type 0
Full [] = Unit
Full (m ∷ ms) = (0 < length m) × Full ms

-- The events among messages.
abbrev pub events : List Bytes → List Bytes
events [] = []
events (m ∷ ms) = if is_event m then m ∷ events ms else events ms

events_yes : (m : Bytes) (ms : List Bytes) → is_event m ≡ true → events (m ∷ ms) ≡ m ∷ events ms
events_yes m ms h = rw h

events_no : (m : Bytes) (ms : List Bytes) → is_event m ≡ false → events (m ∷ ms) ≡ events ms
events_no m ms h = rw h

-- The socket of requests, with these messages in its queue and an error behind them.
abbrev stale : List Bytes → Errno → List Moved
stale [] e = move_failed e ∷ []
stale (m ∷ ms) e = moved m ∷ stale ms e

-- `read_req` reads all messages before it returns: it reports the error that stands behind them.
read_req-drained :
    (ms : List Bytes) (e : Errno) → Full ms → read_req (stale ms e) ≡ some (read_error e)
unfolding read_req
read_req-drained [] e f = refl
read_req-drained ([] ∷ ms) e f = let p = f.0 in absurd (omega arith)
read_req-drained ((b ∷ bs) ∷ ms) e f = read_req-drained ms e f.1

module _ (deliver : ℕ → Bytes → Ctrl → World → Ctrl × World) where
  -- One call of the callback for each message, in order, with as much of it as the buffer holds.
  abbrev pub handled : List Bytes → Ctrl → World → Ctrl × World
  handled [] c w = (c, w)
  handled (m ∷ ms) c w = let x = call_back deliver c.cb (take reply_max m) c w in handled ms x.0 x.1

  -- A callback that leaves the channel open.
  abbrev pub KeepsOpen : Type 0
  KeepsOpen =
      (cb : ℕ) (buf : Bytes) (c : Ctrl) (w : World)
      → is_open c ≡ true
      → is_open (deliver cb buf c w).0 ≡ true

  call_back-open :
      (cb : Option ℕ) (buf : Bytes) (c : Ctrl) (w : World)
      → KeepsOpen
      → is_open c ≡ true
      → is_open (call_back deliver cb buf c w).0 ≡ true
  call_back-open none buf c w k h = h
  call_back-open (some cb) buf c w k h = k cb buf c w h

  read_next :
      (b : ℕ) (bs : Bytes) (rs : List Moved) (c : Ctrl) (w : World) (x : Ctrl × World)
      → on_message deliver (take reply_max (b ∷ bs)) c w ≡ x
      → is_open x.0 ≡ true
      → read_ev deliver (moved (b ∷ bs) ∷ rs) c w ≡ read_ev deliver rs x.0 x.1
  unfolding read_ev
  read_next b bs rs c w x e h =
      ap
        (λ y.
          if is_open y.0 then read_ev deliver rs y.0 y.1 else some (outcome (fail enodev) y.0 y.1))
        e
      ∙ ap (λ t. if t then read_ev deliver rs x.0 x.1 else some (outcome (fail enodev) x.0 x.1)) h

  message_yes :
      (b : ℕ) (bs : Bytes) (c : Ctrl) (w : World)
      → is_event (b ∷ bs) ≡ true
      → on_message deliver (take reply_max (b ∷ bs)) c w
        ≡ call_back deliver c.cb (take reply_max (b ∷ bs)) c w
  unfolding on_message
  message_yes b bs c w h =
      ap (λ t. if t then call_back deliver c.cb (take reply_max (b ∷ bs)) c w else (c, w)) h

  message_no :
      (b : ℕ) (bs : Bytes) (c : Ctrl) (w : World)
      → is_event (b ∷ bs) ≡ false
      → on_message deliver (take reply_max (b ∷ bs)) c w ≡ (c, w)
  unfolding on_message
  message_no b bs c w h =
      ap (λ t. if t then call_back deliver c.cb (take reply_max (b ∷ bs)) c w else (c, w)) h

  abbrev done : Ctrl × World → Option Outcome
  done x = some (outcome ok x.0 x.1)

  read_ev-handled :
      (ms : List Bytes) (c : Ctrl) (w : World)
      → KeepsOpen
      → is_open c ≡ true
      → Full ms
      → read_ev deliver (queue ms) c w ≡ done (handled (events ms) c w)
  unfolding read_ev
  read_ev-handled [] c w k h f = refl
  read_ev-handled ([] ∷ ms) c w k h f = let p = f.0 in absurd (omega arith)
  read_ev-handled ((b ∷ bs) ∷ ms) c w k h f = elim (Bool-cases (is_event (b ∷ bs))) [
    | inl e ↦
        let x = call_back deliver c.cb (take reply_max (b ∷ bs)) c w in
        let open_still = call_back-open c.cb (take reply_max (b ∷ bs)) c w k h in
        read_next b bs (queue ms) c w x (message_yes b bs c w e) open_still
        ∙ read_ev-handled ms x.0 x.1 k open_still f.1
        ∙ ap (λ l. done (handled l c w)) (sym (events_yes (b ∷ bs) ms e))
    | inr e ↦
        read_next b bs (queue ms) c w (c, w) (message_no b bs c w e) h
        ∙ read_ev-handled ms c w k h f.1
        ∙ ap (λ l. done (handled l c w)) (sym (events_no (b ∷ bs) ms e))
  ]

  -- With an input event, a callback that leaves the channel open and any messages in the queue of the
  -- socket, `dispatch_ev` calls the callback once for each of these that starts with '<', in order, with at
  -- most 512 bytes of it, before it looks at a hangup: that is reported behind all of them, as -EPIPE.
  pub dispatch_ev-handled :
      (ms : List Bytes) (p : Pending) (c : Ctrl) (w : World)
      → KeepsOpen
      → is_open c ≡ true
      → Full ms
      → p.event.readable ≡ true
      → p.reads ≡ queue ms
      → dispatch_ev deliver p c w
        ≡ some (
            outcome
              (if p.event.hangup then fail epipe else ok)
              (handled (events ms) c w).0
              (handled (events ms) c w).1)
  unfolding dispatch_ev
  dispatch_ev-handled ms p c w k h f r q =
      ap
        (λ t.
          if t
          then read_ev deliver p.reads c w >>= (λ o. some (hung p.event o))
          else some (hung p.event (outcome ok c w)))
        r
      ∙ ap (λ l. read_ev deliver l c w >>= (λ o. some (hung p.event o))) q
      ∙ ap (λ x. x >>= (λ o. some (hung p.event o))) (read_ev-handled ms c w k h f)
