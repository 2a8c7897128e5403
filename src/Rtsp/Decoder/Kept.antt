-- ===== src/Rtsp/Decoder/Kept.antt =====
-- What the decoder of src/rtsp_decoder.c keeps of its message and its arrays: they have room for the
-- entry behind the last, and the lengths beside the lines are right.
use openwfd.Common.{
  ℕ, ◌+◌, ◌^◌, ◌≤◌, ◌<◌, ◌≡◌, refl, sym, ap, ◌∙◌, inl, inr, Bool, false, not, ◌||◌, Option, none,
  some, List, [], ◌∷◌, ◌++◌, arith, ltb, ◌==◌, Bool-cases, lt→ltb,
}
use openwfd.Common.{length, drop, length-append}
use openwfd.Common.Memory.{Status, ok, fail, enomem, mul_size, Bytes}
use openwfd.Common.Text.{codes, starts_with_nocase, strtoul}
use openwfd.Rtsp.Sanitize.{sanitize}
use openwfd.Rtsp.Header.{
  Message, Decoder, Answers, resized, slots, grow_headers, push_header_line, set_content_length,
  parse_header_line, finish_copied,
}

abbrev pub lengths : List Bytes → List ℕ
lengths [] = []
lengths (l ∷ ls) = length l ∷ lengths ls

abbrev pub content_length : Option Bytes → ℕ
content_length none = 0
content_length (some b) = length b

-- A message as a client may read it.
pub record WellFormed (m : Message) : Type 0 where
  pub line_lens : m.line_lens ≡ lengths m.lines
  pub content_len : m.content_len ≡ content_length m.content

-- The message in the decoder, and the number of slots of its arrays.
pub record Fits (size : ℕ) (m : Message) : Type 0 where
  pub room : length m.lines + 2 ≤ size
  pub limit : size < 2 ^ 60
  pub formed : WellFormed m

-- A status and a decoder that fits, and no fault.
pub data Kept : Option (Status × Decoder Bytes) → Type 0 where
  kept : (s : Status) (d : Decoder Bytes) → Fits d.header_size d.msg → Kept (some (s, d))

pub by_equation : (o o' : Option (Status × Decoder Bytes)) → o ≡ o' → Kept o' → Kept o
by_equation o o' e k = rw e k

lengths-append :
    (ls : List Bytes) (l : Bytes) → lengths (ls ++ l ∷ []) ≡ lengths ls ++ length l ∷ []
lengths-append [] l = refl
lengths-append (x ∷ ls) l = ap (◌∷◌ (length x)) (lengths-append ls l)

-- The number of slots behind `grow_headers`.
data Grown (num : ℕ) : Option ℕ → Type 0 where
  no_memory : Grown num none
  grown : (n : ℕ) → num + 3 ≤ n → n < 2 ^ 60 → Grown num (some n)

small_lem :
    (p q : Bool) (size : ℕ)
    → size < 2 ^ 60
    → (ltb (mul_size size 2) size
        || not (resized p (mul_size size 2))
        || not (resized q (mul_size size 2)))
      ≡ false
    → mul_size size 2 < 2 ^ 60
small_lem p q size l f = ground (arith, f)

slots_lem : (n : ℕ) → n < 2 ^ 60 → slots n ≡ n
slots_lem n h = omega arith

grow_headers_lem :
    (a : Answers) (size num : ℕ)
    → num + 2 ≤ size
    → size < 2 ^ 60
    → Grown num (grow_headers a size num)
unfolding grow_headers
grow_headers_lem a size num h l = elim (Bool-cases (size == num + 2)) [
  | inr e ↦ rw e (grown size (ground arith) l)
  | inl e ↦
      let n = mul_size size 2 in
      elim (Bool-cases
        (ltb n size || not (resized a.grow_header n) || not (resized a.grow_header_len n))) [
          | inl f ↦ rw (e, f) no_memory
          | inr f ↦
              rw (e, f)
                (grown n (ground arith) (small_lem a.grow_header a.grow_header_len size l f))
        ]
]

pushed :
    (dec : Decoder Bytes) (line : Bytes) (n : ℕ)
    → Fits dec.header_size dec.msg
    → length dec.msg.lines + 3 ≤ n
    → n < 2 ^ 60
    → Fits n (record (dec.msg) {
      lines = dec.msg.lines ++ line ∷ [];
      line_lens = dec.msg.line_lens ++ length line ∷ [];
    })
pushed dec line n f h l = record {
  room = omega (arith, length-append dec.msg.lines (line ∷ []));
  limit = l;
  formed = record {
    line_lens =
        ap (λ x. x ++ length line ∷ []) f.formed.line_lens
        ∙ sym (lengths-append dec.msg.lines line);
    content_len = f.formed.content_len;
  };
}

arrays-Kept :
    (a : Answers) (dec : Decoder Bytes) (line : Bytes) (o : Option ℕ)
    → Fits dec.header_size dec.msg
    → Grown (length dec.msg.lines) o
    → grow_headers a dec.header_size (length dec.msg.lines) ≡ o
    → Kept (push_header_line a dec line (length line))
unfolding push_header_line
arrays-Kept a dec line none f no_memory e =
    by_equation (push_header_line a dec line (length line)) (some (fail enomem, dec))
      (rw (push_header_line, e)) (kept (fail enomem) dec f)
arrays-Kept a dec line _ f (grown n h l) e =
    let d : Decoder Bytes = record dec {
      header_size = n;
      msg = record (dec.msg) {
        lines = dec.msg.lines ++ line ∷ [];
        line_lens = dec.msg.line_lens ++ length line ∷ [];
      };
    } in
    by_equation (push_header_line a dec line (length line)) (some (ok, d))
      (rw (push_header_line, e, slots_lem n l, lt→ltb (length dec.msg.lines + 1) n (omega arith)))
      (kept ok d (pushed dec line n f h l))

push_header_line-Kept :
    (a : Answers) (dec : Decoder Bytes) (line : Bytes)
    → Fits dec.header_size dec.msg
    → Kept (push_header_line a dec line (length line))
push_header_line-Kept a dec line f =
    arrays-Kept a dec line (grow_headers a dec.header_size (length dec.msg.lines)) f
      (grow_headers_lem a dec.header_size (length dec.msg.lines) f.room f.limit) refl

-- Reading a line changes neither the message nor the arrays.
record SameMessage (d e : Decoder Bytes) : Type 0 where
  msg : e.msg ≡ d.msg
  header_size : e.header_size ≡ d.header_size

set_content_length-SameMessage :
    (dec : Decoder Bytes) (value : Bytes) (r : ℕ × Bytes)
    → SameMessage dec (set_content_length dec value r).1
unfolding set_content_length
set_content_length-SameMessage dec value r = record {
  msg = ground arith;
  header_size = ground arith;
}

parse_header_line-SameMessage :
    (dec : Decoder Bytes) (line : Bytes) → SameMessage dec (parse_header_line dec line).1
unfolding parse_header_line
parse_header_line-SameMessage dec line =
    elim (Bool-cases (starts_with_nocase (codes "content-length:") line)) [
      | inl e ↦ rw e (set_content_length-SameMessage dec (drop 15 line) (strtoul (drop 15 line)))
      | inr e ↦ rw e (record { msg = refl; header_size = refl })
    ]

fits_same :
    (d e : Decoder Bytes) → SameMessage d e → Fits d.header_size d.msg → Fits e.header_size e.msg
fits_same d e s f = rw (s.msg, s.header_size) f

parsed_line-Kept :
    (a : Answers) (line : Bytes) (s : Status) (d : Decoder Bytes)
    → Fits d.header_size d.msg
    → Kept (elim s [ fail e ↦ some (fail e, d) | ok ↦ push_header_line a d line (length line) ])
parsed_line-Kept a line (fail e) d f = kept (fail e) d f
parsed_line-Kept a line ok d f = push_header_line-Kept a d line f

pub finish_copied-Kept :
    (a : Answers) (dec : Decoder Bytes) (copy : Bytes)
    → Fits dec.header_size dec.msg
    → Kept (finish_copied a dec copy)
unfolding finish_copied
finish_copied-Kept a dec copy f =
    let line = sanitize copy in
    let p = parse_header_line dec line in
    parsed_line-Kept a line p.0 p.1 (fits_same dec p.1 (parse_header_line-SameMessage dec line) f)
