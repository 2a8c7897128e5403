-- ===== src/Wpa/Tokenizer/Steps.antt =====
-- What a step of `tokenize` of src/wpa_parser.c keeps of its output.
use openwfd.Common.{
  ℕ, suc, ◌+◌, ◌^◌, ◌≤◌, ◌<◌, ◌≡◌, refl, ap, ◌∙◌, ◌≢◌, inl, inr, Bool, true, false, ◌||◌, Option,
  some, ◌∷◌, arith, ◌==◌, Bool-cases, lt→ltb, ==_iff,
}
use openwfd.Common.{length}
use openwfd.Common.Memory.{add_size}
use openwfd.Common.Strings.{zeros, at_start, zeros_bound}
use openwfd.Wpa.Tokenizer.{
  Words, append, append_char, quoted_char, end_word, after_word, plain_char, read_char,
}

-- What holds behind `k` bytes.
pub record Fits (k : ℕ) (t : Words) : Type 0 where
  pub bound : length t.written ≤ k
  pub counted : zeros t.written ≡ t.n
  pub start : t.last_c ≡ 0 → at_start t.written ≡ true

-- A result `some u` that fits.
pub record Gives (k : ℕ) (o : Option Words) : Type 0 where
  pub state : Words
  pub given : o ≡ some state
  pub holds : Fits k state

append_lem :
    (room c : ℕ) (t : Words)
    → length t.written < room
    → append room c t ≡ some (record t { written = c ∷ t.written })
unfolding append
append_lem room c t h = rw (lt→ltb (length t.written) room h)

append_char-Fits :
    (room k c : ℕ) (t : Words) → Fits k t → c ≢ 0 → k < room → Gives (suc k) (append_char room t c)
append_char-Fits room k c t f h s = record {
  state = record t { last_c = c; written = c ∷ t.written };
  given = append_lem room c (record t { last_c = c }) (omega (arith, f.bound));
  holds = record {
    bound = omega (arith, f.bound);
    counted = ground (arith, f.counted);
    start = λ e. absurd (h e);
  };
}

fits_later : (k : ℕ) (t : Words) → Fits k t → Fits (suc k) t
fits_later k t f = record { bound = omega (arith, f.bound); counted = f.counted; start = f.start }

by_equation : (k : ℕ) (o o' : Option Words) → o ≡ o' → Gives k o' → Gives k o
by_equation k o o' e g = record { state = g.state; given = e ∙ g.given; holds = g.holds }

-- A byte that only moves the flags.
flags-Fits :
    (k : ℕ) (t : Words) (q x : Bool)
    → Fits k t
    → Gives (suc k) (some (record t { quoted = q; escaped = x }))
flags-Fits k t q x f = record {
  state = record t { quoted = q; escaped = x };
  given = refl;
  holds = record { bound = omega (arith, f.bound); counted = f.counted; start = f.start };
}

quoted_char-Fits :
    (room k c : ℕ) (t : Words) → Fits k t → c ≢ 0 → k < room → Gives (suc k) (quoted_char room t c)
unfolding quoted_char
quoted_char-Fits room k c t f h s = elim (Bool-cases t.escaped) [
  | inl e ↦
      by_equation (suc k) (quoted_char room t c) (append_char room (record t { escaped = false }) c)
        (rw e)
        (append_char-Fits room k c (record t { escaped = false })
          (record { bound = f.bound; counted = f.counted; start = f.start }) h s)
  | inr e ↦ elim (Bool-cases (c == 39)) [
    | inl e2 ↦
        by_equation (suc k) (quoted_char room t c) (some (record t { quoted = false })) (rw (e, e2))
          (flags-Fits k t false t.escaped f)
    | inr e2 ↦ elim (Bool-cases (c == b'\\')) [
      | inl e3 ↦
          by_equation (suc k) (quoted_char room t c) (some (record t { escaped = true }))
            (rw (e, e2, e3)) (flags-Fits k t t.quoted true f)
      | inr e3 ↦
          by_equation (suc k) (quoted_char room t c) (append_char room t c) (rw (e, e2, e3))
            (append_char-Fits room k c t f h s)
    ]
  ]
]

-- The end of a word writes behind the bytes that are there; then no word is open.
pub record Ended (k : ℕ) (o : Option Words) : Type 0 where
  pub state : Words
  pub given : o ≡ some state
  pub bound : length state.written ≤ suc k
  pub counted : zeros state.written ≡ state.n
  pub start : at_start state.written ≡ true

pub end_word_lem :
    (room k : ℕ) (t : Words) → Fits k t → k < room → room ≤ 2 ^ 63 → Ended k (end_word room t)
unfolding end_word
end_word_lem room k t f h b = elim (Bool-cases (t.last_c == 0)) [
  | inl e ↦ record {
    state = t;
    given = rw e;
    bound = omega (arith, f.bound);
    counted = f.counted;
    start = f.start ((==_iff t.last_c 0).0 e);
  }
  | inr e ↦
      let one : add_size t.n 1 ≡ t.n + 1 =
        omega (arith, f.bound, f.counted, zeros_bound t.written) in
      record {
        state = record t { written = 0 ∷ t.written; n = t.n + 1 };
        given = rw (e, append_lem room 0 t (omega (arith, f.bound)), one);
        bound = omega (arith, f.bound);
        counted = omega (arith, f.counted);
        start = refl;
      }
]

after_some : (t : Words) → after_word (some t) ≡ some (record t { last_c = 0 })
unfolding after_word
after_some t = refl

plain_char-Fits :
    (room k c : ℕ) (t : Words)
    → Fits k t
    → c ≢ 0
    → k < room
    → room ≤ 2 ^ 63
    → Gives (suc k) (plain_char room t c)
unfolding plain_char
plain_char-Fits room k c t f h s b =
    elim (Bool-cases (c == b' ' || c == b'\n' || c == b'\t' || c == b'\r')) [
      | inl e ↦
          let w = end_word_lem room k t f s b in
          by_equation (suc k) (plain_char room t c) (after_word (end_word room t)) (rw e) (record {
            state = record w.state { last_c = 0 };
            given = ap after_word w.given ∙ after_some w.state;
            holds = record { bound = w.bound; counted = w.counted; start = λ _. w.start };
          })
      | inr e ↦ elim (Bool-cases (c == 39)) [
        | inl e2 ↦
            by_equation (suc k) (plain_char room t c)
              (some (record t { quoted = true; escaped = false; last_c = c })) (rw (e, e2))
              (record {
                state = record t { quoted = true; escaped = false; last_c = c };
                given = refl;
                holds = record {
                  bound = omega (arith, f.bound);
                  counted = f.counted;
                  start = λ z. absurd (h z);
                };
              })
        | inr e2 ↦
            by_equation (suc k) (plain_char room t c) (append_char room t c) (rw (e, e2))
              (append_char-Fits room k c t f h s)
      ]
    ]

pub read_char-Fits :
    (room k c : ℕ) (t : Words)
    → Fits k t
    → c ≢ 0
    → k < room
    → room ≤ 2 ^ 63
    → Gives (suc k) (read_char room t c)
unfolding read_char
read_char-Fits room k c t f h s b = elim (Bool-cases t.quoted) [
  | inl e ↦
      by_equation (suc k) (read_char room t c) (quoted_char room t c) (rw e)
        (quoted_char-Fits room k c t f h s)
  | inr e ↦
      by_equation (suc k) (read_char room t c) (plain_char room t c) (rw e)
        (plain_char-Fits room k c t f h s b)
]
