-- ===== src/Rtsp/Tokenizer/Tokens.antt =====
-- The tokens that `owfd_rtsp_tokenize` of src/rtsp_tokenizer.c returns, for lines without the escape
-- `\0`.
use openwfd.Common.{
  ℕ, suc, ◌+◌, ◌*◌, ◌^◌, ◌≤◌, ◌<◌, ◌≡◌, refl, Bool, true, false, not, ◌&&◌, Option, some, [], ◌∷◌,
  arith, leb, ◌==◌,
}
use mathlib.Core.List.{reverse}
use openwfd.Common.{length}
use openwfd.Common.Memory.{add_size, mul_size, Bytes}
use openwfd.Rtsp.Tokenizer.{Tokenizer, first_state, end_open, run, tokenize}
use openwfd.Common.Strings.{
  zeros, skip_strings, skip_strings_lem, zeros-reverse_aux, length-reverse_aux, ends-reverse,
}
use openwfd.Rtsp.Tokenizer.Bounds.{Fits, Gives, end_open_lem}
use openwfd.Rtsp.Tokenizer.Step.{Ready, step_lem}

-- No byte is zero, and no digit 0 stands behind a backslash; `p` is the byte in front.
unfoldable pub is_plain : ℕ → Bytes → Bool
is_plain p [] = true
is_plain p (c ∷ cs) = not (c == 0) && not (p == b'\\' && c == b'0') && is_plain c cs

run_lem :
    (room k p : ℕ) (t : Tokenizer) (line : Bytes)
    → Ready k p t
    → is_plain p line ≡ true
    → 2 * (k + length line) < room
    → room ≤ 2 ^ 63
    → Gives (λ u. Fits (k + length line) u.written u.num u.last_c) (run room t line)
unfolding run is_plain
run_lem room k p t [] r h s l = record {
  state = t;
  given = refl;
  holds = let e : k + 0 ≡ k = omega arith in rw e r.fits;
}
run_lem room k p t (c ∷ cs) r h s l =
    let q = step_lem room k p c t r (ground arith) (ground arith) (omega arith) l in
    let i = run_lem room (suc k) c q.state cs q.holds (ground arith) (omega arith) l in
    let e : k + suc (length cs) ≡ suc k + length cs = omega arith in
    record { state = i.state; given = rw q.given i.given; holds = rw e i.holds }

first_Ready : Ready 0 0 first_state
first_Ready = record {
  fits = record { bound = omega arith; tokens = refl; start = λ _. refl };
  escape = λ e. absurd (ground (arith, e));
  plain = λ _. refl;
}

-- The result of a call: `num` strings fill the output, which lies in the allocated bytes.
pub record Tokenized (line : Bytes) (result : Option (Option (Bytes × ℕ))) : Type 0 where
  pub output : Bytes
  pub num : ℕ
  pub returned : result ≡ some (some (output, num))
  pub strings : skip_strings num output ≡ some []
  pub bound : length output ≤ 2 * length line + 1

tokenize_returns :
    (fresh : ℕ → ℕ) (line : Bytes) (room : ℕ) (t u : Tokenizer)
    → add_size (mul_size (length line) 2) 1 ≡ room
    → leb room (length line) ≡ false
    → run room first_state line ≡ some t
    → end_open room t.last_c t ≡ some u
    → tokenize (some fresh) line ≡ some (some (reverse u.written, u.num))
unfolding tokenize
tokenize_returns fresh line room t u e f g h = rw (e, f, g, h)

-- For a line shorter than 2^62 bytes, with no zero byte and no digit 0 behind a backslash, and
-- memory for the output, owfd_rtsp_tokenize never accesses memory out of bounds, and the number it
-- returns is that of the zero-terminated strings that make up the output.
pub tokenize_lem :
    (fresh : ℕ → ℕ) (line : Bytes)
    → is_plain 0 line ≡ true
    → length line < 2 ^ 62
    → Tokenized line (tokenize (some fresh) line)
tokenize_lem fresh line h b =
    let room : add_size (mul_size (length line) 2) 1 ≡ 2 * length line + 1 = omega arith in
    let enough : leb (2 * length line + 1) (length line) ≡ false = ground arith in
    let r =
      run_lem (2 * length line + 1) 0 0 first_state line first_Ready h (omega arith)
        (omega arith) in
    let t =
      end_open_lem (2 * length line + 1) (0 + length line) r.state.last_c r.state r.holds
        (omega arith) (omega arith) in
    let w = t.state.written in
    let z : zeros (reverse w) ≡ t.state.num =
      omega (arith, zeros-reverse_aux w [], t.holds.fits.tokens) in
    record {
      output = reverse w;
      num = t.state.num;
      returned =
          tokenize_returns fresh line (2 * length line + 1) r.state t.state room enough r.given
            t.given;
      strings = rw (← z) (skip_strings_lem (reverse w) (ends-reverse w (t.holds.fits.start refl)));
      bound = omega (arith, length-reverse_aux w [], t.holds.fits.bound);
    }
