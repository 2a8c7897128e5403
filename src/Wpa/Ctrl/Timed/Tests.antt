-- ===== src/Wpa/Ctrl/Timed/Tests.antt =====
-- Tests of the requests of src/wpa_ctrl.c, and its theorems on concrete answers.
use openwfd.Common.{ℕ, ◌≤◌, ◌≡◌, refl, Option, none, some, [], ◌∷◌, arith}
use openwfd.Common.Memory.{ok, fail, eagain, eintr, etimedout}
use openwfd.Wpa.Ctrl.Timed.{
  Poll, poll_hangup, poll_ready, Moved, moved, move_failed, Round, sent, recved, try_round, ended,
  Requested, requested, timed_loop, Rounds, timed_send, timed_recv, Exchange, max_time, clamp_time,
  wpa_request, is_ok, wpa_request_ok,
}
use openwfd.Common.Text.{codes}
use openwfd.Wpa.Ctrl.Timed.Budget.{Returned}
use openwfd.Wpa.Ctrl.Timed.Total.{wpa_request-Returned}
use openwfd.Wpa.Ctrl.Timed.Reply.{Answer, wpa_request-Answer, Granted, wpa_request_ok-Granted}
use openwfd.Wpa.Ctrl.Timed.Spent.{answers, timed_recv-Silent, timed_recv-late}

abbrev round : Poll → Moved → ℕ → Round
round p m t = record { poll = p; io = m; now = t }

abbrev sending : Rounds
sending =
    answers 100 (
      round poll_ready (move_failed eagain) 101
      ∷ round poll_ready (moved (codes "ATTACH")) 102
      ∷ [])

-- An event that is ignored, an interrupted call, the reply.
abbrev event_round : Round
event_round = round poll_ready (moved (codes "<3>CTRL-EVENT-SCAN-RESULTS")) 203

abbrev again_round : Round
again_round = round poll_ready (move_failed eintr) 204

abbrev ok_round : Round
ok_round = round poll_ready (moved (b'O' ∷ b'K' ∷ 10 ∷ [])) 205

abbrev receiving : Rounds
receiving = answers 200 (event_round ∷ again_round ∷ ok_round ∷ [])

abbrev exchange : Exchange
exchange = record { sending = sending; receiving = receiving }

-- The clock has moved by 2 and by 5, the time is less by 1 + 2 and by 3 + 4 + 5.
unfoldable run : Option ℕ → Option Requested
unfolding wpa_request timed_send timed_recv timed_loop try_round sent recved clamp_time
run t = wpa_request (some 7) 512 t exchange

run_time : run (some 50) ≡ some (requested ok (b'O' ∷ b'K' ∷ 10 ∷ []) (some 35))
unfolding run
run_time = refl

run_late : run (some 9) ≡ some (requested (fail etimedout) [] (some 0))
unfolding run
run_late = refl

run_default : run none ≡ some (requested ok (b'O' ∷ b'K' ∷ 10 ∷ []) (some 9999985))
unfolding run
run_default = refl

abbrev quick : Exchange
quick = record {
  sending = answers 0 (round poll_ready (moved (1 ∷ [])) 1 ∷ []);
  receiving = answers 1 (round poll_hangup (moved []) 2 ∷ []);
}

wpa_request-Returned_example : Returned (wpa_request (some 7) 10 (some 0) quick)
unfolding clamp_time
wpa_request-Returned_example =
    wpa_request-Returned (some 7) 10 (some 0) quick (omega arith, (omega arith, omega arith))
      (omega arith, (omega arith, omega arith))

wpa_request-Answer_example :
    ((35 ≤ max_time) × (35 ≤ clamp_time (some 50))) × Answer 512 ok (b'O' ∷ b'K' ∷ 10 ∷ [])
unfolding run
wpa_request-Answer_example =
    wpa_request-Answer (some 7) 512 (some 50) exchange
      (requested ok (b'O' ∷ b'K' ∷ 10 ∷ []) (some 35)) run_time

wpa_request_ok-Granted_example : Granted (some 7) (some 50) exchange
unfolding run wpa_request_ok is_ok
wpa_request_ok-Granted_example = wpa_request_ok-Granted (some 7) (some 50) exchange refl

timed_recv-Silent_example :
    timed_recv 512 50 receiving ≡ timed_recv 512 43 (answers 200 (ok_round ∷ []))
unfolding try_round recved
timed_recv-Silent_example =
    timed_recv-Silent 512 200 50 (event_round ∷ again_round ∷ []) (ok_round ∷ []) (refl, (refl, tt))
      (omega arith)

timed_recv-late_example : timed_recv 512 7 receiving ≡ some (ended (fail etimedout) [] 0)
unfolding try_round recved
timed_recv-late_example =
    timed_recv-late 512 200 7 event_round (again_round ∷ []) (ok_round ∷ []) (refl, (refl, tt))
      (omega arith)
