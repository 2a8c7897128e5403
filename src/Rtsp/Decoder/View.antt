-- ===== src/Rtsp/Decoder/View.antt =====
-- A decoder of src/rtsp_decoder.c over the ring, seen over the list of the bytes that the ring
-- holds; and finishing a header line, over both.
use openwfd.Common.{
  ℕ, zero, suc, ◌^◌, ◌<◌, ◌≡◌, refl, sym, ap, ◌∙◌, inl, inr, Option, none, some, List, [], ◌∷◌,
  arith, ltb, Bool-cases, ltb→lt, ltb→ge, lt→ltb, ge→ltb,
}
use mathlib.Core.Path.{subst}
use openwfd.Common.{drop, take, length}
use openwfd.Common.Memory.{enomem, Status, fail, Bytes, Malloc, ◌>>=◌}
use openwfd.Ring
use openwfd.Ring.{Ring, copy_size}
use openwfd.Ring.Copy.{copy_lem}
use openwfd.Ring.Pull.{pull_lem}
use openwfd.Ring.View.{IsValid, contents, length-contents}
use openwfd.Rtsp.Buffer.{list_buffer, ring_buffer, copied_bytes, list_line}
use openwfd.Rtsp.Header.{Decoder, Answers, finish_copied, parse_header_line, push_header_line}
use openwfd.Rtsp.Decoder.{Fed, go, err, finish_header_line}

-- The same decoder with another byte queue.
abbrev pub with_ring : {A B : Type 0} → Decoder A → B → Decoder B
with_ring dec b = record {
  ring = b;
  state = dec.state;
  last_chr = dec.last_chr;
  remaining_body = dec.remaining_body;
  quoted = dec.quoted;
  header_size = dec.header_size;
  msg = dec.msg;
}

-- A decoder over the ring, seen over the bytes that the ring holds.
abbrev pub view : Decoder Ring → Decoder Bytes
view dec = with_ring dec (contents dec.ring)

abbrev pub view_fed : Option (Fed Ring) → Option (Fed Bytes)
view_fed none = none
view_fed (some (go n d out)) = some (go n (view d) out)
view_fed (some (err e d out)) = some (err e (view d) out)

abbrev pub view_status : Option (Status × Decoder Ring) → Option (Status × Decoder Bytes)
view_status none = none
view_status (some (s, d)) = some (s, view d)

-- The ring stays well formed.
abbrev pub FedValid : Option (Fed Ring) → Type 0
FedValid none = Unit
FedValid (some (go n d out)) = IsValid d.ring
FedValid (some (err e d out)) = IsValid d.ring

take_size {ℓ} :
    {A : Type ℓ} (n : ℕ) (xs : List A) → take (copy_size (length xs) (some n)) xs ≡ take n xs
take_size zero [] = refl
take_size (suc n) [] = rw (ge→ltb (suc n) 0 (omega arith))
take_size zero (x ∷ xs) = rw (lt→ltb 0 (suc (length xs)) (omega arith))
take_size (suc n) (x ∷ xs) = elim (Bool-cases (ltb n (length xs))) [
  | inl less ↦
      rw (lt→ltb (suc n) (suc (length xs)) (omega (arith, ltb→lt n (length xs) less)))
        (ap (◌∷◌ x) (rw less at (take_size n xs)))
  | inr more ↦
      rw (ge→ltb (suc n) (suc (length xs)) (omega (arith, ltb→ge n (length xs) more)))
        (ap (◌∷◌ x) (rw more at (take_size n xs)))
]

-- A copy of the ring's bytes is a copy of the list's.
pub copy_view :
    {r : Ring} (m : Malloc) (n : ℕ)
    → IsValid r
    → (Ring.copy m r (some n) >>= λ c. some (copied_bytes c)) ≡ some (list_line m (contents r) n)
copy_view {r} none n v = rw (copy_lem (λ _. 0) (some n) v).4
copy_view {r} (some fresh) n v =
    let (c, k, e, x, _) = copy_lem fresh (some n) v in
    rw e (
      ap (λ t. some (some t))
        (x.taken
          ∙ ap (λ t. take t (contents r))
              (x.count ∙ ap (λ t. copy_size t (some n)) (sym (length-contents r)))
          ∙ take_size n (contents r)))

abbrev pub map_status :
    {A B : Type 0}
    → (Decoder A → Decoder B)
    → Option (Status × Decoder A)
    → Option (Status × Decoder B)
map_status f none = none
map_status f (some (s, d)) = some (s, f d)

abbrev pub SameRing : {A : Type 0} → A → Option (Status × Decoder A) → Type 0
SameRing b none = Unit
SameRing b (some (s, d)) = d.ring ≡ b

-- Finishing a line leaves the queue alone and does not look at it.
pub finish_copied-with_ring :
    {A B : Type 0} (a : Answers) (d : Decoder A) (b : B) (bytes : Bytes)
    → finish_copied a (with_ring d b) bytes
      ≡ map_status (λ d'. with_ring d' b) (finish_copied a d bytes)
unfolding finish_copied parse_header_line push_header_line
finish_copied-with_ring a d b bytes = ground arith

pub finish_copied-SameRing :
    {A : Type 0} (a : Answers) (d : Decoder A) (bytes : Bytes)
    → SameRing d.ring (finish_copied a d bytes)
unfolding finish_copied parse_header_line push_header_line
finish_copied-SameRing a d bytes = ground arith

view_status_same :
    (r : Ring) (x : Option (Status × Decoder Ring))
    → SameRing r x
    → view_status x ≡ map_status (λ d'. with_ring d' (contents r)) x
view_status_same r none h = refl
view_status_same r (some (s, d)) h = ap (λ t. some (s, with_ring d (contents t))) h

finish_copied-view :
    (a : Answers) (d : Decoder Ring) (bytes : Bytes)
    → view_status (finish_copied a d bytes) ≡ finish_copied a (view d) bytes
finish_copied-view a d bytes =
    view_status_same d.ring (finish_copied a d bytes) (finish_copied-SameRing a d bytes)
    ∙ sym (finish_copied-with_ring a d (contents d.ring) bytes)

abbrev pub StatusValid : Option (Status × Decoder Ring) → Type 0
StatusValid none = Unit
StatusValid (some (s, d)) = IsValid d.ring

valid_of_same :
    (r : Ring) (x : Option (Status × Decoder Ring)) → IsValid r → SameRing r x → StatusValid x
valid_of_same r none v h = tt
valid_of_same r (some (s, d)) v h = subst IsValid (sym h) v

module _ (a : Answers) (d : Decoder Ring) (rlen : ℕ) (v : IsValid d.ring) (w : rlen < 2 ^ 64) where
  abbrev pulled : Decoder Ring
  pulled = record d { ring = Ring.pull d.ring rlen }

  finish_line_view :
      (line : Option Bytes)
      → view_status
          (elim line [ none ↦ some (fail enomem, d) | some bytes ↦ finish_copied a pulled bytes ])
        ≡ (elim line [
          | none ↦ some (fail enomem, view d)
          | some bytes ↦
              finish_copied a (record (view d) { ring = drop rlen (contents d.ring) }) bytes
        ])
  finish_line_view none = refl
  finish_line_view (some bytes) =
      finish_copied-view a pulled bytes
      ∙ ap (λ t. finish_copied a (with_ring d t) bytes) (pull_lem rlen v w).1

  finish_line-StatusValid :
      (line : Option Bytes)
      → StatusValid
          (elim line [ none ↦ some (fail enomem, d) | some bytes ↦ finish_copied a pulled bytes ])
  finish_line-StatusValid none = v
  finish_line-StatusValid (some bytes) =
      valid_of_same pulled.ring (finish_copied a pulled bytes) (pull_lem rlen v w).0
        (finish_copied-SameRing a pulled bytes)

  pub finish_view :
      view_status (finish_header_line ring_buffer a d rlen)
      ≡ finish_header_line list_buffer a (view d) rlen
  unfolding finish_header_line
  finish_view =
      rw (copy_view a.line rlen v) (finish_line_view (list_line a.line (contents d.ring) rlen))

  pub finish-StatusValid : StatusValid (finish_header_line ring_buffer a d rlen)
  unfolding finish_header_line
  finish-StatusValid =
      rw (copy_view a.line rlen v)
        (finish_line-StatusValid (list_line a.line (contents d.ring) rlen))
