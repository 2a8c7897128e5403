-- ===== src/Rtsp/Ctrl/Output.antt =====
-- Output on the channel of src/rtsp_ctrl.c: `send_all` and `owfd_rtsp_ctrl_send`.
pub mod Queue
pub mod Write
use openwfd.Common.{
  ℕ, zero, suc, ◌+◌, ◌-◌, ◌*◌, ◌/◌, ◌%◌, ◌^◌, ◌≤◌, ◌<◌, min, ◌≡◌, refl, sym, ap, ◌∙◌, ◌≢◌, ◌↔◌, ◌⊎◌,
  inl, inr, Bool, true, false, not, ◌&&◌, ◌||◌, Option, none, some, List, [], ◌∷◌, ◌++◌, append-nil,
  append_assoc, arith, ltb, leb, ◌==◌, if◌then◌else◌, Bool-cases, Option-cases, ltb→lt, ltb→ge,
  lt→ltb, ge→ltb, leb→le, leb→gt, le→leb, lt→leb, ==_iff, ==_refl,
}
use openwfd.Common.{length, take}
use openwfd.Common.Memory.{Status, ok, fail, Errno, enomem, enodev, Bytes, Block, Malloc, ◌>>=◌}
use openwfd.Common.World.{status_of}
use openwfd.Ring.{Ring, Iovec, push, peek}
use openwfd.Ring.Peek.{segments}
use openwfd.Rtsp.Ctrl.{Ctrl, Net, Outcome, outcome, is_open}
use openwfd.Wpa.Ctrl.Timed.{is_again}

-- What `writev` answers: how many bytes it has taken, or an error.
pub data Wrote : Type 0 where
  wrote : ℕ → Wrote
  write_failed : Errno → Wrote

-- The ends of `send_all`: done or not.
abbrev pub end_write : Option Errno → Ctrl → Net → Outcome
end_write (some e) c k = outcome (fail e) c k
end_write none c k = outcome ok c (record k { out = false })

abbrev pub finish_write : Bool → Option Errno → Ctrl → Net → Outcome
finish_write true set c k = end_write set c k
finish_write false set c k = outcome ok c k

-- `send_all` behind `writev`, for the bytes that the two pieces hold.
unfoldable pub send_pieces : Bytes → Wrote → Option Errno → Ctrl → Net → Outcome
send_pieces bytes (write_failed e) set c k =
    if is_again e then outcome ok c k else outcome (fail e) c k
send_pieces bytes (wrote l) set c k =
    finish_write (leb (length bytes) l) set c (record k { sent = k.sent ++ take l bytes })

abbrev pub send_peeked : List Iovec → Wrote → Option Errno → Ctrl → Net → Outcome
send_peeked [] w set c k = end_write set c k
send_peeked (v ∷ vs) w set c k = send_pieces (segments c.out_ring (v ∷ vs)) w set c k

-- `send_all`, with what `writev` and `epoll_ctl` answer
unfoldable pub send_all : Wrote → Option Errno → Ctrl → Net → Outcome
unfolding send_pieces peek
send_all w set c k = send_peeked (peek c.out_ring) w set c k

abbrev pub is_empty : List Iovec → Bool
is_empty [] = true
is_empty (v ∷ vs) = false

-- `owfd_rtsp_ctrl_send` behind `shl_ring_push`.
abbrev pub want_out : Option Errno → Ctrl → Net → Outcome
want_out (some e) c k = outcome (fail e) c k
want_out none c k = outcome ok c (record k { out = true })

abbrev pub pushed : Bool → Option Errno → Ctrl → Net → Status × Ring → Outcome
pushed empty set c k (fail e, r) = outcome (fail e) (record c { out_ring = r }) k
pushed true set c k (ok, r) = want_out set (record c { out_ring = r }) k
pushed false set c k (ok, r) = outcome ok (record c { out_ring = r }) k

-- `owfd_rtsp_ctrl_send`
unfoldable pub send : Malloc → Block → ℕ → Option Errno → Ctrl → Net → Option Outcome
unfolding push peek
send m buf len set c k =
    if is_open c
    then push m c.out_ring buf len >>= (λ x. some (pushed (is_empty (peek c.out_ring)) set c k x))
    else some (outcome (fail enodev) c k)

-- `owfd_rtsp_ctrl_vsendf` and `owfd_rtsp_ctrl_sendf`, with the text that `vasprintf` makes, or none
unfoldable pub sendf : Option Block → Malloc → Option Errno → Ctrl → Net → Option Outcome
unfolding send
sendf none m set c k = some (outcome (fail enomem) c k)
sendf (some text) m set c k = send m text text.cap set c k
