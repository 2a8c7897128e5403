-- ===== src/Rtsp/Ctrl/Output/Write.antt =====
-- What `send_all` of src/rtsp_ctrl.c writes, and what it leaves in the ring.
use openwfd.Common.{
  ℕ, zero, suc, ◌+◌, ◌-◌, ◌*◌, ◌/◌, ◌%◌, ◌^◌, ◌≤◌, ◌<◌, min, ◌≡◌, refl, sym, ap, ◌∙◌, ◌≢◌, ◌↔◌, ◌⊎◌,
  inl, inr, Bool, true, false, not, ◌&&◌, ◌||◌, Option, none, some, List, [], ◌∷◌, ◌++◌, append-nil,
  append_assoc, arith, ltb, leb, ◌==◌, if◌then◌else◌, Bool-cases, Option-cases, ltb→lt, ltb→ge,
  lt→ltb, ge→ltb, leb→le, leb→gt, le→leb, lt→leb, ==_iff, ==_refl,
}
use openwfd.Common
use openwfd.Common.{take}
use openwfd.Common.Memory.{ok, fail, Errno, enomem, Bytes, Block, Malloc, bytes_of}
use openwfd.Ring.{Iovec, peek}
use openwfd.Ring.View.{contents, IsValid}
use openwfd.Ring.Peek.{segments, peek_lem}
use openwfd.Rtsp.Ctrl.{Ctrl, Net, Outcome, outcome, is_open}
use openwfd.Rtsp.Ctrl.Output.{wrote, finish_write, send_pieces, send_peeked, send_all, send}
use openwfd.Rtsp.Ctrl.Output.Queue.{Sent, behind, first, unpolled, refused, send_lem}

-- What `send_all` does with the answer of `writev`: bytes that it has taken are written, EPOLLOUT is
-- dropped where these are all there are.
pub record Written (l : ℕ) (c : Ctrl) (k : Net) (o : Outcome) : Type 0 where
  pub same_ctrl : o.ctrl ≡ c
  pub bytes_sent : o.net.sent ≡ k.sent ++ take l (contents c.out_ring)
  pub out_bit : o.net.out ≡ (if leb (Common.length (contents c.out_ring)) l then false else k.out)
  pub succeeds : o.status ≡ ok

out_of :
    (l : ℕ) (bs : Bytes) (c : Ctrl) (k : Net) (b : Bool)
    → leb (Common.length bs) l ≡ b
    → contents c.out_ring ≡ bs
    → (if b then false else k.out)
      ≡ (if leb (Common.length (contents c.out_ring)) l then false else k.out)
out_of l bs c k b h e =
    ap (λ x. if x then false else k.out) (sym h)
    ∙ ap (λ x. if leb (Common.length x) l then false else k.out) (sym e)

take_nil : (l : ℕ) → take {A = ℕ} l [] ≡ []
take_nil zero = refl
take_nil (suc l) = refl

nothing_sent : (l : ℕ) (s : Bytes) → s ≡ s ++ take l []
nothing_sent l s = sym (append-nil s) ∙ ap (λ x. s ++ x) (sym (take_nil l))

pieces-Written :
    (l : ℕ) (bs : Bytes) (c : Ctrl) (k : Net) (b : Bool)
    → leb (Common.length bs) l ≡ b
    → contents c.out_ring ≡ bs
    → Written l c k (finish_write b none c (record k { sent = k.sent ++ take l bs }))
pieces-Written l bs c k true h e = record {
  same_ctrl = refl;
  bytes_sent = ap (λ x. k.sent ++ take l x) (sym e);
  out_bit = out_of l bs c k true h e;
  succeeds = refl;
}
pieces-Written l bs c k false h e = record {
  same_ctrl = refl;
  bytes_sent = ap (λ x. k.sent ++ take l x) (sym e);
  out_bit = out_of l bs c k false h e;
  succeeds = refl;
}

send_peeked-Written :
    (l : ℕ) (c : Ctrl) (k : Net) (vs : List Iovec)
    → segments c.out_ring vs ≡ contents c.out_ring
    → Written l c k (send_peeked vs (wrote l) none c k)
unfolding send_pieces
send_peeked-Written l c k [] e = record {
  same_ctrl = refl;
  bytes_sent = nothing_sent l k.sent ∙ ap (λ x. k.sent ++ take l x) e;
  out_bit = out_of l [] c k true (le→leb 0 l (omega arith)) (sym e);
  succeeds = refl;
}
send_peeked-Written l c k (v ∷ vs) e =
    pieces-Written l (segments c.out_ring (v ∷ vs)) c k _ refl (sym e)

-- Over a well-formed ring, where `writev` takes `l` bytes and `epoll_ctl` succeeds, `send_all` returns 0
-- and writes the first `l` bytes of the ring, all if there are fewer; it drops EPOLLOUT if and only if these
-- are all there are, and it leaves the channel, with the ring, as it was: what has been written stays in
-- the ring.
pub send_all-Written :
    (l : ℕ) (c : Ctrl) (k : Net) → IsValid c.out_ring → Written l c k (send_all (wrote l) none c k)
unfolding send_all
send_all-Written l c k v = send_peeked-Written l c k (peek c.out_ring) (peek_lem v).0

-- A call of `owfd_rtsp_ctrl_send` that leaves the socket without EPOLLOUT and writes nothing.
pub record Stuck (m : Malloc) (buf : Block) (len : ℕ) (set : Option Errno) (o : Outcome)
    : Type 0 where
  pub end : Outcome
  pub returned : send m buf len set o.ctrl o.net ≡ some end
  pub no_out : end.net.out ≡ false
  pub nothing_written : end.net.sent ≡ o.net.sent

Sent-Stuck :
    (m : Malloc) (buf : Block) (len : ℕ) (set : Option Errno) (c : Ctrl) (k : Net) (o : Outcome)
    → contents c.out_ring ≢ []
    → k.out ≡ false
    → send m buf len set c k ≡ some o
    → Sent m (bytes_of buf len) set c k o
    → Stuck m buf len set (outcome ok c k)
Sent-Stuck m buf len set c k _ n h e (behind d q p) = record {
  end = outcome ok d k;
  returned = e;
  no_out = h;
  nothing_written = refl;
}
Sent-Stuck m buf len set c k _ n h e (first d q p) = absurd (n p)
Sent-Stuck m buf len set c k _ n h e (unpolled d x q p) = record {
  end = outcome (fail x) d k;
  returned = e;
  no_out = h;
  nothing_written = refl;
}
Sent-Stuck m buf len set c k _ n h e (refused p) = record {
  end = outcome (fail enomem) c k;
  returned = e;
  no_out = h;
  nothing_written = refl;
}

-- On an open channel with a well-formed ring that is not empty: where `send_all` has written every byte,
-- the next call of `owfd_rtsp_ctrl_send` leaves the socket without EPOLLOUT, so that `send_all` is not
-- called for its bytes.
pub send-Stuck :
    (m : Malloc) (buf : Block) (len : ℕ) (set : Option Errno) (c : Ctrl) (k : Net) (l : ℕ)
    → is_open c ≡ true
    → IsValid c.out_ring
    → contents c.out_ring ≢ []
    → Common.length (contents c.out_ring) ≤ l
    → len ≤ buf.cap
    → len < 2 ^ 63
    → Stuck m buf len set (send_all (wrote l) none c k)
send-Stuck m buf len set c k l h v n all fits small =
    let w = send_all-Written l c k v in
    let o = send_all (wrote l) none c k in
    let quiet =
      w.out_bit
      ∙ ap (λ b. if b then false else k.out) (le→leb (Common.length (contents c.out_ring)) l all) in
    let (p, e, s) = send_lem m buf len set c o.net h v fits small in
    let x = Sent-Stuck m buf len set c o.net p n quiet e s in
    record {
      end = x.end;
      returned = ap (λ d. send m buf len set d o.net) w.same_ctrl ∙ x.returned;
      no_out = x.no_out;
      nothing_written = x.nothing_written;
    }
