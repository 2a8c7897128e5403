-- ===== src/Wpa/Ctrl/Timed/Spent.antt =====
-- The clock of `timed_send` and `timed_recv` of src/wpa_ctrl.c: `start` is read once, and each round
-- takes the time since then off what the round before has left.
use openwfd.Common.{
  ℕ, ◌+◌, ◌-◌, ◌≤◌, ◌<◌, ◌≡◌, ap, ◌∙◌, inl, inr, some, List, [], ◌∷◌, ◌++◌, arith, leb, Bool-cases,
  le→leb, lt→leb,
}
use openwfd.Common.Memory.{fail, etimedout}
use openwfd.Wpa.Ctrl.Timed.{
  Moved, Round, Tried, quiet, recved, try_round, left_after, ended, timed_loop, Rounds, timed_recv,
}
use openwfd.Wpa.Ctrl.Timed.Budget.{loop-late, loop-quiet}

-- What rounds take off the time: for each of them, the whole time since the start.
abbrev pub spent : ℕ → List Round → ℕ
spent start [] = 0
spent start (r ∷ rs) = (r.now - start) + spent start rs

-- Rounds on which the loop goes on, as far as the socket is concerned.
abbrev pub Silent : (Moved → Tried) → List Round → Type 0
Silent test [] = Unit
Silent test (r ∷ rs) = (try_round test r ≡ quiet) × Silent test rs

same_left :
    (test : Moved → Tried) (start m n : ℕ) (rs : List Round)
    → m ≡ n
    → timed_loop test start m rs ≡ timed_loop test start n rs
same_left test start m n rs e = ap (λ k. timed_loop test start k rs) e

timed_loop-Silent :
    (test : Moved → Tried) (start timeout : ℕ) (qs rs : List Round)
    → Silent test qs
    → spent start qs < timeout
    → timed_loop test start timeout (qs ++ rs) ≡ timed_loop test start (timeout - spent start qs) rs
timed_loop-Silent test start timeout [] rs s h = same_left test start timeout _ rs (omega arith)
timed_loop-Silent test start timeout (r ∷ qs) rs s h =
    loop-quiet test start timeout r (qs ++ rs) s.0 (lt→leb timeout (r.now - start) (omega arith))
    ∙ timed_loop-Silent test start (left_after start timeout r.now) qs rs s.1 (omega arith)
    ∙ same_left test start _ _ rs (omega arith)

timed_loop-late :
    (test : Moved → Tried) (start timeout : ℕ) (r : Round) (qs rs : List Round)
    → Silent test (r ∷ qs)
    → timeout ≤ spent start (r ∷ qs)
    → timed_loop test start timeout (r ∷ qs ++ rs) ≡ some (ended (fail etimedout) [] 0)
timed_loop-late test start timeout r [] rs s h =
    loop-late test start timeout r rs s.0 (le→leb timeout (r.now - start) (omega arith))
timed_loop-late test start timeout r (q ∷ qs) rs s h =
    elim (Bool-cases (leb timeout (r.now - start))) [
      | inl l ↦ loop-late test start timeout r (q ∷ qs ++ rs) s.0 l
      | inr l ↦
          loop-quiet test start timeout r (q ∷ qs ++ rs) s.0 l
          ∙ timed_loop-late test start (left_after start timeout r.now) q qs rs s.1 (omega arith)
    ]

abbrev pub answers : ℕ → List Round → Rounds
answers t rs = record { start = t; rounds = rs }

-- Behind rounds in which no reply arrives, `timed_recv` goes on with the time less the sum, over these
-- rounds, of the whole time since the start, as long as that sum is below the time.
pub timed_recv-Silent :
    (size start timeout : ℕ) (qs rs : List Round)
    → Silent (recved size) qs
    → spent start qs < timeout
    → timed_recv size timeout (answers start (qs ++ rs))
      ≡ timed_recv size (timeout - spent start qs) (answers start rs)
unfolding timed_recv
timed_recv-Silent size start timeout qs rs s h =
    timed_loop-Silent (recved size) start timeout qs rs s h

-- `timed_recv` returns -ETIMEDOUT behind rounds in which no reply arrives as soon as the sum, over these
-- rounds, of the whole time since the start has reached the time, whatever the clock shows.
pub timed_recv-late :
    (size start timeout : ℕ) (r : Round) (qs rs : List Round)
    → Silent (recved size) (r ∷ qs)
    → timeout ≤ spent start (r ∷ qs)
    → timed_recv size timeout (answers start (r ∷ qs ++ rs)) ≡ some (ended (fail etimedout) [] 0)
unfolding timed_recv
timed_recv-late size start timeout r qs rs s h =
    timed_loop-late (recved size) start timeout r qs rs s h
