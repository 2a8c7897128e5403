-- ===== src/Rtsp/Tokenizer/Step.antt =====
-- One step of the tokenizer of src/rtsp_tokenizer.c keeps the invariant of the loop.
use openwfd.Common.{
  ℕ, suc, ◌+◌, ◌*◌, ◌^◌, ◌≤◌, ◌<◌, ◌≡◌, refl, sym, ◌∙◌, ◌≢◌, inl, inr, true, false, ◌||◌, Option,
  ◌∷◌, arith, ◌==◌, Bool-cases, ==_iff,
}
use openwfd.Common.{length}
use openwfd.Common.{length}
use openwfd.Common.Strings.{zeros}
use openwfd.Common.Memory.{Bytes, ◌>>=◌}
use openwfd.Rtsp.Tokenizer.{
  Tokenizer, put, end_token, end_open, unescape, is_separator, is_control, step_escaped,
  step_quoted, step_plain, step,
}
use openwfd.Rtsp.Tokenizer.Bounds.{Fits, put_lem, end_token_lem, Gives, end_open_lem}

-- The invariant of the loop behind `k` bytes, the last of which is `p`.
pub record Ready (k p : ℕ) (t : Tokenizer) : Type 0 where
  pub fits : Fits k t.written t.num t.last_c
  pub escape : t.escaped ≡ true → p ≡ b'\\'
  pub plain : t.quoted ≡ false → t.escaped ≡ false

-- What the body of the loop is called with.
record Before (room k c : ℕ) (t : Tokenizer) : Type 0 where
  last : t.last_c ≡ c
  nonzero : c ≢ 0
  space : 2 * k + 2 < room
  limit : room ≤ 2 ^ 63

put_fits :
    (k c n : ℕ) (w : Bytes)
    → c ≢ 0
    → length w ≤ 2 * k
    → zeros w ≡ n
    → (x : ℕ) → x ≢ 0
    → Fits (suc k) (c ∷ w) n x
put_fits k c n w h b z x hx = record {
  bound = ground arith;
  tokens = ground arith;
  start = λ e. absurd (hx e);
}

fits_length : (k : ℕ) (w : Bytes) (n prev : ℕ) → Fits k w n prev → length w ≤ 2 * k
fits_length k w n prev f = ground (arith, f.bound)

later : (k : ℕ) (w : Bytes) (n : ℕ) → Fits k w n 0 → Fits (suc k) w n 0
later k w n f = record { bound = ground (arith, f.bound); tokens = f.tokens; start = f.start }

unescape-nonzero : (c : ℕ) → c ≢ 0 → unescape c ≢ 0
unfolding unescape
unescape-nonzero c h = ground arith

step_escaped_lem :
    (room k c prev : ℕ) (t : Tokenizer)
    → Before room k c t
    → Fits k t.written t.num prev
    → t.quoted ≡ true
    → c ≢ b'0'
    → Gives (Ready (suc k) c) (step_escaped room t c)
unfolding step_escaped
step_escaped_lem room k c prev t b f q h =
    let e : (c == b'0' || c == 0) ≡ false = ground (arith, b.nonzero, h) in
    record {
      state = record t { escaped = false; written = unescape c ∷ t.written };
      given = rw e (
          put_lem room (unescape c) (record t { escaped = false })
            (omega (arith, fits_length k t.written t.num prev f, b.space)));
      holds = record {
        fits =
            put_fits k (unescape c) t.num t.written (unescape-nonzero c b.nonzero)
              (fits_length k t.written t.num prev f) f.tokens t.last_c (rw b.last b.nonzero);
        escape = λ e. absurd (ground (arith, e));
        plain = λ e. refl;
      };
    }

-- A byte written as it is.
put-Ready :
    (room k c prev : ℕ) (t : Tokenizer)
    → Before room k c t
    → Fits k t.written t.num prev
    → t.escaped ≡ false
    → Gives (Ready (suc k) c) (put room c t)
put-Ready room k c prev t b f q = record {
  state = record t { written = c ∷ t.written };
  given = put_lem room c t (omega (arith, fits_length k t.written t.num prev f, b.space));
  holds = record {
    fits =
        put_fits k c t.num t.written b.nonzero (fits_length k t.written t.num prev f) f.tokens
          t.last_c (rw b.last b.nonzero);
    escape = λ e. ground (arith, e, q);
    plain = λ _. q;
  };
}

step_quoted_lem :
    (room k c prev : ℕ) (t : Tokenizer)
    → Before room k c t
    → Fits k t.written t.num prev
    → t.quoted ≡ true
    → t.escaped ≡ false
    → Gives (Ready (suc k) c) (step_quoted room t c)
unfolding step_quoted
step_quoted_lem room k c prev t b f q x = elim (Bool-cases (c == b'"')) [
  | inl e ↦ record {
    state = record t { quoted = false; last_c = 0; written = 0 ∷ t.written; num = t.num + 1 };
    given = rw e (
        end_token_lem room (record t { quoted = false; last_c = 0 })
          (omega (arith, fits_length k t.written t.num prev f, b.space)) f.tokens b.limit);
    holds = record {
      fits = record {
        bound = omega (arith, fits_length k t.written t.num prev f);
        tokens = omega (arith, f.tokens);
        start = λ _. refl;
      };
      escape = λ e. ground (arith, e, x);
      plain = λ _. x;
    };
  }
  | inr e ↦ elim (Bool-cases (c == b'\\')) [
    | inl e2 ↦ record {
      state = record t { escaped = true };
      given = rw (e, e2);
      holds = record {
        fits = record {
          bound = ground (arith, fits_length k t.written t.num prev f);
          tokens = f.tokens;
          start = λ z. absurd (b.nonzero (sym b.last ∙ z));
        };
        escape = λ _. (==_iff c b'\\').0 e2;
        plain = λ e3. ground (arith, e3, q);
      };
    }
    | inr e2 ↦
        let e3 : (c == 0) ≡ false = ground (arith, b.nonzero) in
        rw (e, e2, e3) (put-Ready room k c prev t b f x)
  ]
]

fits_last : (k : ℕ) (w : Bytes) (n x : ℕ) → x ≡ 0 → Fits k w n 0 → Fits k w n x
fits_last k w n x e f = rw e f

by_equation : {P : Tokenizer → Type 0} (o o' : Option Tokenizer) → o ≡ o' → Gives P o' → Gives P o
by_equation o o' e g = record { state = g.state; given = e ∙ g.given; holds = g.holds }

-- A closed token, outside of quotes or at their start.
closed_Ready :
    (room k c prev : ℕ) (t : Tokenizer)
    → 2 * k < room
    → room ≤ 2 ^ 63
    → Fits k t.written t.num prev
    → t.escaped ≡ false
    → t.last_c ≡ 0
    → Gives (Ready (suc k) c) (end_open room prev t)
closed_Ready room k c prev t b l f x z =
    let r = end_open_lem room k prev t f b l in
    record {
      state = r.state;
      given = r.given;
      holds = record {
        fits =
            fits_last (suc k) r.state.written r.state.num r.state.last_c (r.holds.same_last ∙ z)
              (later k r.state.written r.state.num r.holds.fits);
        escape = λ e. absurd (ground (arith, e, r.holds.same_escaped, x));
        plain = λ _. r.holds.same_escaped ∙ x;
      };
    }

separator_Ready :
    (room k c prev : ℕ) (t : Tokenizer)
    → Before room k c t
    → Fits k t.written t.num prev
    → t.escaped ≡ false
    → Gives
        (Ready (suc k) c)
        (end_open room prev (record t { last_c = 0 }) >>= (λ u. put room c u >>= end_token room))
separator_Ready room k c prev t b f x =
    let r = end_open_lem room k prev (record t { last_c = 0 }) f (omega (arith, b.space)) b.limit in
    let u = r.state in
    let l = fits_length k u.written u.num 0 r.holds.fits in
    let v : Tokenizer = record u { written = c ∷ u.written } in
    let z : zeros v.written ≡ v.num = ground (arith, b.nonzero, r.holds.fits.tokens) in
    record {
      state = record v { written = 0 ∷ v.written; num = v.num + 1 };
      given =
          rw (r.given, put_lem room c u (omega (arith, l, b.space)))
            (end_token_lem room v (omega (arith, l, b.space)) z b.limit);
      holds = record {
        fits = record {
          bound = ground (arith, l, r.holds.same_last);
          tokens = omega (arith, z);
          start = λ _. refl;
        };
        escape = λ e. absurd (ground (arith, e, r.holds.same_escaped, x));
        plain = λ _. r.holds.same_escaped ∙ x;
      };
    }

step_plain_lem :
    (room k c prev : ℕ) (t : Tokenizer)
    → Before room k c t
    → Fits k t.written t.num prev
    → t.escaped ≡ false
    → Gives (Ready (suc k) c) (step_plain room prev t c)
unfolding step_plain
step_plain_lem room k c prev t b f x =
    let z : (c == 0) ≡ false = ground (arith, b.nonzero) in
    let s : 2 * k < room = omega (arith, b.space) in
    elim (Bool-cases (c == b'"')) [
      | inl e ↦ rw e (
          closed_Ready room k c prev (record t { quoted = true; escaped = false; last_c = 0 }) s
            b.limit f refl refl)
      | inr e ↦ elim (Bool-cases (c == b' ')) [
        | inl e2 ↦
            rw (e, z, e2) (closed_Ready room k c prev (record t { last_c = 0 }) s b.limit f x refl)
        | inr e2 ↦ elim (Bool-cases (is_separator c)) [
          | inl e3 ↦ rw (e, z, e2, e3) (separator_Ready room k c prev t b f x)
          | inr e3 ↦ elim (Bool-cases (is_control c)) [
            | inl e4 ↦
                rw (e, z, e2, e3, e4)
                  (closed_Ready room k c prev (record t { last_c = 0 }) s b.limit f x refl)
            | inr e4 ↦ rw (e, z, e2, e3, e4) (put-Ready room k c prev t b f x)
          ]
        ]
      ]
    ]

pub step_lem :
    (room k p c : ℕ) (t : Tokenizer)
    → Ready k p t
    → c ≢ 0
    → ¬ (p ≡ b'\\' × c ≡ b'0')
    → 2 * k + 2 < room
    → room ≤ 2 ^ 63
    → Gives (Ready (suc k) c) (step room t c)
unfolding step
step_lem room k p c t r h esc s l =
    let b : Before room k c (record t { last_c = c }) = record {
      last = refl;
      nonzero = h;
      space = s;
      limit = l;
    } in
    let u : Tokenizer = record t { last_c = c } in
    elim (Bool-cases t.quoted) [
      | inl q ↦ elim (Bool-cases t.escaped) [
        | inl x ↦
            by_equation (step room t c) (step_escaped room u c) (rw (q, x))
              (step_escaped_lem room k c t.last_c u b r.fits q (λ e. esc (r.escape x, e)))
        | inr x ↦
            by_equation (step room t c) (step_quoted room u c) (rw (q, x))
              (step_quoted_lem room k c t.last_c u b r.fits q x)
      ]
      | inr q ↦
          by_equation (step room t c) (step_plain room t.last_c u c) (rw q)
            (step_plain_lem room k c t.last_c u b r.fits (r.plain q))
    ]
