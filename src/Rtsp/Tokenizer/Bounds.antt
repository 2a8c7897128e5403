-- ===== src/Rtsp/Tokenizer/Bounds.antt =====
-- The output of the tokenizer of src/rtsp_tokenizer.c: what the loop keeps, for lines without the
-- escape `\0`.
use openwfd.Common.{
  ℕ, ◌+◌, ◌*◌, ◌^◌, ◌≤◌, ◌<◌, ◌≡◌, refl, inl, inr, true, Option, some, ◌∷◌, arith, ◌==◌,
  if◌then◌else◌, Bool-cases, lt→ltb,
}
use openwfd.Common.{length}
use openwfd.Common.Strings.{zeros, at_start, zeros_bound}
use openwfd.Common.Memory.{add_size, Bytes}
use openwfd.Rtsp.Tokenizer.{Tokenizer, put, end_token, end_open}

-- The zero that a byte in front will cost.
abbrev pub pending : ℕ → ℕ
pending prev = if prev == 0 then 0 else 1

-- What holds of the output behind `k` bytes.
pub record Fits (k : ℕ) (w : Bytes) (n prev : ℕ) : Type 0 where
  pub bound : length w + pending prev ≤ 2 * k
  pub tokens : zeros w ≡ n
  pub start : prev ≡ 0 → at_start w ≡ true

pub put_lem :
    (room c : ℕ) (t : Tokenizer)
    → length t.written < room
    → put room c t ≡ some (record t { written = c ∷ t.written })
unfolding put
put_lem room c t h = rw (lt→ltb (length t.written) room h)

pub end_token_lem :
    (room : ℕ) (t : Tokenizer)
    → length t.written < room
    → zeros t.written ≡ t.num
    → room ≤ 2 ^ 63
    → end_token room t ≡ some (record t { written = 0 ∷ t.written; num = t.num + 1 })
unfolding end_token
end_token_lem room t h z b =
    let e : add_size t.num 1 ≡ t.num + 1 = omega (arith, zeros_bound t.written) in
    rw (put_lem room 0 t h, e)

-- A result `some u`, with a predicate of `u`.
pub record Gives (P : Tokenizer → Type 0) (o : Option Tokenizer) : Type 0 where
  pub state : Tokenizer
  pub given : o ≡ some state
  pub holds : P state

-- The same tokenizer but for its output.
pub record Closed (k : ℕ) (t u : Tokenizer) : Type 0 where
  pub fits : Fits k u.written u.num 0
  pub same_quoted : u.quoted ≡ t.quoted
  pub same_escaped : u.escaped ≡ t.escaped
  pub same_last : u.last_c ≡ t.last_c

pub end_open_lem :
    (room k prev : ℕ) (t : Tokenizer)
    → Fits k t.written t.num prev
    → 2 * k < room
    → room ≤ 2 ^ 63
    → Gives (Closed k t) (end_open room prev t)
unfolding end_open
end_open_lem room k prev t f h b = elim (Bool-cases (prev == 0)) [
  | inl e ↦ record {
    state = t;
    given = rw e;
    holds = record {
      fits = record {
        bound = ground (arith, f.bound);
        tokens = f.tokens;
        start = λ _. f.start (ground arith);
      };
      same_quoted = refl;
      same_escaped = refl;
      same_last = refl;
    };
  }
  | inr e ↦ record {
    state = record t { written = 0 ∷ t.written; num = t.num + 1 };
    given = rw e (end_token_lem room t (ground (arith, f.bound)) f.tokens b);
    holds = record {
      fits = record {
        bound = ground (arith, f.bound);
        tokens = omega (arith, f.tokens);
        start = λ _. refl;
      };
      same_quoted = refl;
      same_escaped = refl;
      same_last = refl;
    };
  }
]
