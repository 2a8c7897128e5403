-- ===== src/Rtsp/Ctrl/Output/Queue.antt =====
-- The output ring of the channel of src/rtsp_ctrl.c: what `owfd_rtsp_ctrl_send` puts in and what
-- `send_all` writes.
use openwfd.Common.{
  ℕ, zero, suc, ◌+◌, ◌-◌, ◌*◌, ◌/◌, ◌%◌, ◌^◌, ◌≤◌, ◌<◌, min, ◌≡◌, refl, sym, ap, ◌∙◌, ◌≢◌, ◌↔◌, ◌⊎◌,
  inl, inr, Bool, true, false, not, ◌&&◌, ◌||◌, Option, none, some, List, [], ◌∷◌, ◌++◌, append-nil,
  append_assoc, arith, ltb, leb, ◌==◌, if◌then◌else◌, Bool-cases, Option-cases, ltb→lt, ltb→ge,
  lt→ltb, ge→ltb, leb→le, leb→gt, le→leb, lt→leb, ==_iff, ==_refl,
}
use openwfd.Common
use openwfd.Common.{take, length-append}
use openwfd.Common.Table.{length-table}
use openwfd.Common.Memory.{
  Status, ok, fail, Errno, enomem, enodev, Bytes, Block, Malloc, bytes_of, ◌>>=◌,
}
use openwfd.Ring.{Ring, Iovec, length, push, peek}
use openwfd.Ring.View.{contents, IsValid}
use openwfd.Ring.Push.{IsPushed, appended, push_lem}
use openwfd.Ring.Peek.{segment, segments, Inside, peek_lem}
use openwfd.Rtsp.Ctrl.{Ctrl, Net, Outcome, outcome, is_open}
use openwfd.Rtsp.Ctrl.Output.{is_empty, want_out, pushed, send}

-- A channel with these bytes more in its ring.
pub record Queued (bytes : Bytes) (c d : Ctrl) : Type 0 where
  pub valid : IsValid d.out_ring
  pub appends : contents d.out_ring ≡ contents c.out_ring ++ bytes
  pub same_fd : d.fd ≡ c.fd

-- What `owfd_rtsp_ctrl_send` may leave.
pub data Sent (m : Malloc) (bytes : Bytes) (set : Option Errno) (c : Ctrl) (k : Net)
    : Outcome → Type 0 where
  -- behind others
  behind :
      (d : Ctrl)
      → Queued bytes c d
      → contents c.out_ring ≢ []
      → Sent m bytes set c k (outcome ok d k)
  -- as the first bytes, for which EPOLLOUT is asked
  first :
      (d : Ctrl)
      → Queued bytes c d
      → contents c.out_ring ≡ []
      → Sent m bytes set c k (outcome ok d (record k { out = true }))
  -- in the ring, but EPOLLOUT could not be asked for
  unpolled :
      (d : Ctrl) (e : Errno)
      → Queued bytes c d
      → set ≡ some e
      → Sent m bytes set c k (outcome (fail e) d k)
  -- not in the ring
  refused :
      (m ≡ none) ⊎ (2 ^ 63 < length c.out_ring + Common.length bytes + 1)
      → Sent m bytes set c k (outcome (fail enomem) c k)

segments-empty : (r : Ring) (vs : List Iovec) → is_empty vs ≡ true → segments r vs ≡ []
segments-empty r [] h = refl
segments-empty r (v ∷ vs) h = absurd (ground (arith, h))

segments-full :
    (r : Ring) (vs : List Iovec) → is_empty vs ≡ false → Inside r vs → segments r vs ≢ []
segments-full r [] h i e = absurd (ground (arith, h))
segments-full r (v ∷ vs) h i e =
    let p = i.1 in
    let q = ap Common.length e in
    absurd (
      omega (
        arith,
        q,
        length-append (segment r v) (segments r vs),
        length-table v.len (λ n. r.buf.byte (v.base + n)),
      ))

none_waits : (r : Ring) → IsValid r → is_empty (peek r) ≡ true → contents r ≡ []
none_waits r v h = sym (peek_lem v).0 ∙ segments-empty r (peek r) h

some_wait : (r : Ring) → IsValid r → is_empty (peek r) ≡ false → contents r ≢ []
some_wait r v h e = segments-full r (peek r) h (peek_lem v).1 ((peek_lem v).0 ∙ e)

want_out-Sent :
    (m : Malloc) (bytes : Bytes) (set : Option Errno) (c d : Ctrl) (k : Net)
    → Queued bytes c d
    → contents c.out_ring ≡ []
    → Sent m bytes set c k (want_out set d k)
want_out-Sent m bytes none c d k q e = first d q e
want_out-Sent m bytes (some x) c d k q e = unpolled d x q refl

pushed-Sent :
    (m : Malloc) (bytes : Bytes) (set : Option Errno) (c : Ctrl) (k : Net) (empty : Bool)
    (x : Status × Ring)
    → IsValid c.out_ring
    → is_empty (peek c.out_ring) ≡ empty
    → IsPushed m c.out_ring bytes x
    → Sent m bytes set c k (pushed empty set c k x)
pushed-Sent m bytes set c k true _ v h (appended {r' = r} w e) =
    want_out-Sent m bytes set c (record c { out_ring = r }) k
      (record { valid = w; appends = e; same_fd = refl }) (none_waits c.out_ring v h)
pushed-Sent m bytes set c k false _ v h (appended {r' = r} w e) =
    behind (record c { out_ring = r }) (record { valid = w; appends = e; same_fd = refl })
      (some_wait c.out_ring v h)
pushed-Sent m bytes set c k true _ v h (IsPushed.refused why) = refused why
pushed-Sent m bytes set c k false _ v h (IsPushed.refused why) = refused why

send_open :
    (m : Malloc) (buf : Block) (len : ℕ) (set : Option Errno) (c : Ctrl) (k : Net)
    (x : Status × Ring)
    → is_open c ≡ true
    → push m c.out_ring buf len ≡ some x
    → send m buf len set c k ≡ some (pushed (is_empty (peek c.out_ring)) set c k x)
unfolding send
send_open m buf len set c k x h e =
    ap
      (λ b.
        if b
        then push m c.out_ring buf len
          >>= (λ y. some (pushed (is_empty (peek c.out_ring)) set c k y))
        else some (outcome (fail enodev) c k))
      h
    ∙ ap (λ o. o >>= (λ y. some (pushed (is_empty (peek c.out_ring)) set c k y))) e

-- On an open channel with a well-formed ring, and for less than 2 ^ 63 bytes that lie in the caller's
-- block, `owfd_rtsp_ctrl_send` never accesses memory out of bounds. It appends exactly its bytes to the
-- ring, which stays well formed, and asks for EPOLLOUT if and only if the ring was empty; where `epoll_ctl`
-- refuses, it returns that error with the bytes in the ring. Or it returns -ENOMEM and changes nothing,
-- only if `malloc` fails or the ring would need more than 2 ^ 63 bytes.
pub send_lem :
    (m : Malloc) (buf : Block) (len : ℕ) (set : Option Errno) (c : Ctrl) (k : Net)
    → is_open c ≡ true
    → IsValid c.out_ring
    → len ≤ buf.cap
    → len < 2 ^ 63
    → (o : Outcome) × (send m buf len set c k ≡ some o) × Sent m (bytes_of buf len) set c k o
send_lem m buf len set c k h v fits small =
    let (x, e, g) = push_lem m buf len v fits small in
    (
      pushed (is_empty (peek c.out_ring)) set c k x,
      send_open m buf len set c k x h e,
      pushed-Sent m (bytes_of buf len) set c k (is_empty (peek c.out_ring)) x v refl g,
    )
