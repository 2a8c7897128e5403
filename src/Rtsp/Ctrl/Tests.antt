-- ===== src/Rtsp/Ctrl/Tests.antt =====
-- Tests of the channel of src/rtsp_ctrl.c, and its theorems on concrete channels and answers.
use openwfd.Common.{
  ℕ, zero, suc, ◌≡◌, refl, inr, true, false, Option, none, some, List, [], ◌∷◌, arith,
}
use openwfd.Common.Memory.{ok, fail, eagain, epipe, other, Bytes, of_list, bytes_of}
use openwfd.Common.World.{made}
use openwfd.Ring
use openwfd.Ring.{Ring, zeroed}
use openwfd.Ring.View.{IsValid, zeroed-IsValid}
use openwfd.Rtsp.Ctrl.{
  Ctrl, Net, Outcome, outcome, fresh_ctrl, TcpAnswers, open_tcp, close_channel, close_at, is_open,
}
use openwfd.Rtsp.Ctrl.Output.{wrote, send, send_all, send_pieces}
use openwfd.Rtsp.Ctrl.Output.Queue.{Sent, send_lem}
use openwfd.Rtsp.Ctrl.Output.Write.{Written, send_all-Written, Stuck, send-Stuck}
use openwfd.Rtsp.Ctrl.Life.{Owned, start, opening, rtsp_Life-Owned}
use openwfd.Rtsp.Ctrl.Dispatch.{
  SocketEvent, waited, connect_done, recv_loop, recv_all, output_part, read_part, dispatch_ctrl,
  dispatch,
}
use openwfd.Rtsp.Ctrl.Dispatch.Ends.{Returned, recv_all-Returned, dispatch_closes}
use openwfd.Wpa.Ctrl.Timed.{Moved, moved, move_failed}

abbrev net : Net
net = record { fds = 3 ∷ 2 ∷ 1 ∷ 0 ∷ []; polled = []; out = false; sent = [] }

abbrev channel : Ctrl
channel = fresh_ctrl (some 3)

-- 13, then 10, round the end of the buffer.
abbrev holding : Ring
holding = record { buf = of_list (10 ∷ 11 ∷ 12 ∷ 13 ∷ []); size = 4; start = 3; end = 1 }

holding-IsValid : IsValid holding
holding-IsValid = record {
  size_pow = inr (2, omega arith, refl);
  buf_cap = refl;
  start_in = omega arith;
  end_in = omega arith;
}

abbrev holds : Ctrl
holds = record channel { fd = some 7; connected = true; out_ring = holding }

abbrev open_net : Net
open_net = record { fds = 7 ∷ 3 ∷ []; polled = 7 ∷ []; out = true; sent = [] }

abbrev answers : TcpAnswers
answers = record {
  socket = made 7;
  bind = none;
  connect = none;
  fd_answers = record { get_flags = none; set_flags = none; add = none };
}

-- A socket that is not blocking answers EINPROGRESS to `connect`.
opens_not :
    (open_tcp 9 (record answers { connect = some (other 115) }) channel net).status
    ≡ fail (other 115)
unfolding open_tcp
opens_not = refl

rtsp_Life-Owned_example :
    Owned
      (3 ∷ 2 ∷ 1 ∷ 0 ∷ [])
      (open_tcp 9 answers channel net).ctrl
      (open_tcp 9 answers channel net).net
unfolding Ring.length
rtsp_Life-Owned_example = rtsp_Life-Owned (3 ∷ 2 ∷ 1 ∷ 0 ∷ []) _ _ (
    opening 9 answers channel net (
      start channel net (record {
        no_fd = refl;
        no_cb = refl;
        not_connected = refl;
        ring_valid = zeroed-IsValid;
        ring_empty = refl;
        base_fds = refl;
        none_polled = refl;
      })))

send_lem_example :
    (o : Outcome) × (send none (of_list (7 ∷ [])) 1 none holds open_net ≡ some o)
    × Sent none (bytes_of (of_list (7 ∷ [])) 1) none holds open_net o
send_lem_example =
    send_lem none (of_list (7 ∷ [])) 1 none holds open_net refl holding-IsValid (omega arith)
      (omega arith)

send_all-Written_example : Written 1 holds open_net (send_all (wrote 1) none holds open_net)
send_all-Written_example = send_all-Written 1 holds open_net holding-IsValid

send-Stuck_example : Stuck none (of_list (7 ∷ [])) 1 none (send_all (wrote 2) none holds open_net)
unfolding Ring.length
send-Stuck_example =
    send-Stuck none (of_list (7 ∷ [])) 1 none holds open_net 2 refl holding-IsValid
      (λ e. ground (arith, e)) (omega arith) (omega arith) (omega arith)

-- A callback that keeps the channel as it is.
abbrev keep : ℕ → Bytes → Ctrl → Net → Ctrl × Net
keep cb buf c k = (c, k)

abbrev many : ℕ → List Moved
many zero = []
many (suc n) = moved (1 ∷ []) ∷ many n

recv_all-Returned_example : Returned (recv_all keep (many 128) holds open_net)
recv_all-Returned_example = recv_all-Returned keep (many 128) holds open_net (omega arith)

abbrev hangup : SocketEvent
hangup = record {
  readable = true;
  writable = true;
  hangup = true;
  reads = moved (1 ∷ []) ∷ move_failed eagain ∷ [];
  write = wrote 1;
  set = none;
}

unfoldable run : Option Outcome
unfolding dispatch dispatch_ctrl read_part output_part recv_all recv_loop connect_done send_all
    send_pieces close_channel close_at Ring.peek Ring.flush
run = dispatch keep (waited hangup) holds open_net

abbrev got : Option Outcome → Outcome
got none = outcome ok holds open_net
got (some o) = o

dispatch_closes_example : is_open (got run).ctrl ≡ false
unfolding run
dispatch_closes_example = dispatch_closes keep hangup holds open_net (got run) epipe refl refl refl
