-- ===== src/Wpa/Ctrl/Timed/Total.antt =====
-- `wpa_request` of src/wpa_ctrl.c returns.
use openwfd.Common.{ℕ, ◌≤◌, ◌≡◌, refl, ap, Option, none, some, arith}
use mathlib.Core.Path.{subst}
use openwfd.Common.Memory.{◌>>=◌}
use openwfd.Wpa.Ctrl.Timed.{
  Ended, Rounds, timed_send, Exchange, clamp_time, requested, finished, after_send, wpa_request,
}
use mathlib.Core.Path.{subst}
use openwfd.Wpa.Ctrl.Timed.Budget.{
  Returned, returns, Lasting, next_round, timed_send-Returned, after_send-Returned,
}
use openwfd.Wpa.Ctrl.Timed.Reply.{Within, Failure, timed_send-Within}

lasts_less : (m n : ℕ) (a : Rounds) → m ≤ n → Lasting n a → Lasting m a
lasts_less m n a h l = let p = l.1.0 in (l.0, (omega arith, l.1.1))

sent_left :
    (timeout : ℕ) (a : Rounds) (e : Ended) → timed_send timeout a ≡ some e → e.left ≤ timeout
sent_left timeout a e h =
    let w : Within Failure timeout (some e) =
      subst (Within Failure timeout) h (timed_send-Within timeout a) in
    w.0

bound : (o : Option Ended) (e : Ended) (f : Ended → Option Ended) → o ≡ some e → (o >>= f) ≡ f e
bound o e f h = ap (λ p. p >>= f) h

finished-Returned : (o : Option Ended) → Returned o → Returned (o >>= finished)
finished-Returned o r =
    returns _ (requested r.result.status r.result.bytes (some r.result.left))
      (ap (λ p. p >>= finished) r.returned)

-- On a clock that moves on, a request returns before it has used up as many rounds of each loop as its
-- time has microseconds, and one round at least: no sequence of answers of the kernel keeps it waiting.
pub wpa_request-Returned :
    (fd : Option ℕ) (size : ℕ) (t : Option ℕ) (a : Exchange)
    → Lasting (clamp_time t) a.sending
    → Lasting (clamp_time t) a.receiving
    → Returned (wpa_request fd size t a)
unfolding wpa_request
wpa_request-Returned none size t a l m = returns _ _ refl
wpa_request-Returned (some fd) size t a l m =
    let g = timed_send-Returned (clamp_time t) a.sending l in
    finished-Returned _ (
      next_round _ _ (bound _ g.result (after_send size a.receiving) g.returned) (
        after_send-Returned size a.receiving g.result (
          lasts_less g.result.left (clamp_time t) a.receiving
            (sent_left (clamp_time t) a.sending g.result g.returned) m)))
