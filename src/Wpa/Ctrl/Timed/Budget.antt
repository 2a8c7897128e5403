-- ===== src/Wpa/Ctrl/Timed/Budget.antt =====
-- The time that the loops of src/wpa_ctrl.c take, and what they return.
use openwfd.Common.{
  ℕ, suc, ◌-◌, ◌≤◌, ◌<◌, ◌≡◌, refl, ◌∙◌, ◌⊎◌, inl, inr, true, false, Option, some, List, [], ◌∷◌,
  arith, leb, Bool-cases, leb→gt,
}
use openwfd.Common.{length}
use openwfd.Common.Memory.{Status-cases, ok, fail, Errno, etimedout, Bytes}
use openwfd.Wpa.Ctrl.Timed.{
  Moved, Round, Tried, refused, quiet, complete, sent, recved, try_round, left_after, Ended, ended,
  timed_loop, Rounds, timed_send, timed_recv, after_send,
}

-- Behind every round the clock has moved on from the start.
abbrev pub Ticking : ℕ → List Round → Type 0
Ticking start [] = Unit
Ticking start (r ∷ rs) = (start < r.now) × Ticking start rs

-- A call that has returned.
pub record Returned {A : Type 0} (o : Option A) : Type 0 where
  pub result : A
  pub returned : o ≡ some result

-- The ends of a round's middle.
pub Tried-cases :
    (t : Tried)
    → ((e : Errno) × (t ≡ refused e)) ⊎ ((t ≡ quiet) ⊎ ((bs : Bytes) × (t ≡ complete bs)))
Tried-cases (refused e) = inl (e, refl)
Tried-cases quiet = inr (inl refl)
Tried-cases (complete bs) = inr (inr (bs, refl))

pub returns : {A : Type 0} (o : Option A) (e : A) → o ≡ some e → Returned o
returns o e h = record { result = e; returned = h }

pub next_round : {A : Type 0} (a b : Option A) → a ≡ b → Returned b → Returned a
next_round a b h r = record { result = r.result; returned = h ∙ r.returned }

-- What one round does.
pub loop-refused :
    (test : Moved → Tried) (start timeout : ℕ) (r : Round) (rs : List Round) (e : Errno)
    → try_round test r ≡ refused e
    → timed_loop test start timeout (r ∷ rs) ≡ some (ended (fail e) [] timeout)
unfolding timed_loop
loop-refused test start timeout r rs e h = rw (timed_loop, h)

pub loop-complete :
    (test : Moved → Tried) (start timeout : ℕ) (r : Round) (rs : List Round) (bs : Bytes)
    → try_round test r ≡ complete bs
    → timed_loop test start timeout (r ∷ rs) ≡ some (ended ok bs (left_after start timeout r.now))
unfolding timed_loop
loop-complete test start timeout r rs bs h = rw (timed_loop, h)

pub loop-late :
    (test : Moved → Tried) (start timeout : ℕ) (r : Round) (rs : List Round)
    → try_round test r ≡ quiet
    → leb timeout (r.now - start) ≡ true
    → timed_loop test start timeout (r ∷ rs) ≡ some (ended (fail etimedout) [] 0)
unfolding timed_loop
loop-late test start timeout r rs h l = rw (timed_loop, h, l)

pub loop-quiet :
    (test : Moved → Tried) (start timeout : ℕ) (r : Round) (rs : List Round)
    → try_round test r ≡ quiet
    → leb timeout (r.now - start) ≡ false
    → timed_loop test start timeout (r ∷ rs)
      ≡ timed_loop test start (left_after start timeout r.now) rs
unfolding timed_loop
loop-quiet test start timeout r rs h l = rw (timed_loop, h, l)

returns-round :
    (test : Moved → Tried) (start timeout : ℕ) (r : Round) (rs : List Round)
    → (leb timeout (r.now - start) ≡ false
        → Returned (timed_loop test start (left_after start timeout r.now) rs))
    → Returned (timed_loop test start timeout (r ∷ rs))
returns-round test start timeout r rs k = elim (Tried-cases (try_round test r)) [
  | inl (e, q) ↦ returns _ _ (loop-refused test start timeout r rs e q)
  | inr (inl q) ↦ elim (Bool-cases (leb timeout (r.now - start))) [
    | inl l ↦ returns _ _ (loop-late test start timeout r rs q l)
    | inr l ↦ next_round _ _ (loop-quiet test start timeout r rs q l) (k l)
  ]
  | inr (inr (bs, q)) ↦ returns _ _ (loop-complete test start timeout r rs bs q)
]

pub timed_loop-Returned :
    (test : Moved → Tried) (start timeout : ℕ) (r : Round) (rs : List Round)
    → Ticking start (r ∷ rs)
    → timeout ≤ suc (length rs)
    → Returned (timed_loop test start timeout (r ∷ rs))
timed_loop-Returned test start timeout r [] t h =
    returns-round test start timeout r []
      (λ l. let p = leb→gt timeout (r.now - start) l in let q = t.0 in absurd (omega arith))
timed_loop-Returned test start timeout r (s ∷ rs) t h =
    returns-round test start timeout r (s ∷ rs) (λ l.
      let q = t.0 in
      timed_loop-Returned test start (left_after start timeout r.now) s rs t.1 (omega arith))

-- Enough rounds for a time of `n` microseconds, with a clock that moves on.
abbrev pub Lasting : ℕ → Rounds → Type 0
Lasting n a = Ticking a.start a.rounds × ((n ≤ length a.rounds) × (0 < length a.rounds))

loop_lasts :
    (test : Moved → Tried) (start timeout : ℕ) (rs : List Round)
    → Ticking start rs
    → timeout ≤ length rs
    → 0 < length rs
    → Returned (timed_loop test start timeout rs)
loop_lasts test start timeout [] t h p = absurd (omega arith)
loop_lasts test start timeout (r ∷ rs) t h p = timed_loop-Returned test start timeout r rs t h

pub timed_send-Returned :
    (timeout : ℕ) (a : Rounds) → Lasting timeout a → Returned (timed_send timeout a)
unfolding timed_send
timed_send-Returned timeout a l = loop_lasts sent a.start timeout a.rounds l.0 l.1.0 l.1.1

pub timed_recv-Returned :
    (size timeout : ℕ) (a : Rounds) → Lasting timeout a → Returned (timed_recv size timeout a)
unfolding timed_recv
timed_recv-Returned size timeout a l =
    loop_lasts (recved size) a.start timeout a.rounds l.0 l.1.0 l.1.1

after_ok :
    (size : ℕ) (a : Rounds) (e : Ended)
    → e.status ≡ ok
    → after_send size a e ≡ timed_recv size e.left a
after_ok size a e h = rw h

after_fail :
    (size : ℕ) (a : Rounds) (e : Ended) (x : Errno)
    → e.status ≡ fail x
    → after_send size a e ≡ some e
after_fail size a e x h = rw h

pub after_send-Returned :
    (size : ℕ) (a : Rounds) (e : Ended) → Lasting e.left a → Returned (after_send size a e)
after_send-Returned size a e l = elim (Status-cases e.status) [
  | inl h ↦ next_round _ _ (after_ok size a e h) (timed_recv-Returned size e.left a l)
  | inr (x, h) ↦ returns _ e (after_fail size a e x h)
]
