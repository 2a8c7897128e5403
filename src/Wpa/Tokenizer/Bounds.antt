-- ===== src/Wpa/Tokenizer/Bounds.antt =====
-- The output of `tokenize` of src/wpa_parser.c.
use openwfd.Common.{
  ℕ, suc, ◌+◌, ◌^◌, ◌≤◌, ◌<◌, ◌≡◌, refl, Bool, true, not, ◌&&◌, Option, some, [], ◌∷◌, arith, ◌==◌,
}
use mathlib.Core.List.{reverse}
use openwfd.Common.{length}
use openwfd.Common.Memory.{add_size, Bytes}
use openwfd.Common.Strings.{
  zeros, skip_strings, skip_strings_lem, zeros-reverse_aux, length-reverse_aux, ends-reverse,
}
use openwfd.Wpa.Tokenizer.{Words, no_words, end_word, read_chars, tokenize}
use openwfd.Wpa.Tokenizer.Steps.{Fits, Gives, end_word_lem, read_char-Fits}

-- A C string: no byte is zero.
unfoldable pub is_string : Bytes → Bool
is_string [] = true
is_string (c ∷ cs) = not (c == 0) && is_string cs

read_chars-Fits :
    (room k : ℕ) (t : Words) (src : Bytes)
    → Fits k t
    → is_string src ≡ true
    → k + length src < room
    → room ≤ 2 ^ 63
    → Gives (k + length src) (read_chars room t src)
unfolding read_chars is_string
read_chars-Fits room k t [] f h s b = record {
  state = t;
  given = refl;
  holds = let e : k + 0 ≡ k = omega arith in rw e f;
}
read_chars-Fits room k t (c ∷ cs) f h s b =
    let q = read_char-Fits room k c t f (ground arith) (omega arith) b in
    let i = read_chars-Fits room (suc k) q.state cs q.holds (ground arith) (omega arith) b in
    let e : k + suc (length cs) ≡ suc k + length cs = omega arith in
    record { state = i.state; given = rw q.given i.given; holds = rw e i.holds }

-- The result of a call: `n` strings fill the output.
pub record Tokens (src : Bytes) (result : Option (Option (Bytes × ℕ))) : Type 0 where
  pub output : Bytes
  pub n : ℕ
  pub returned : result ≡ some (some (output, n))
  pub strings : skip_strings n output ≡ some []
  pub bound : length output ≤ length src + 1

tokenize_returns :
    (fresh : ℕ → ℕ) (src : Bytes) (room : ℕ) (t u : Words)
    → add_size (length src) 1 ≡ room
    → read_chars room no_words src ≡ some t
    → end_word room t ≡ some u
    → tokenize (some fresh) src ≡ some (some (reverse u.written, u.n))
unfolding tokenize
tokenize_returns fresh src room t u e f g = rw (e, f, g)

-- For every C string shorter than 2^62 bytes and memory for the output, `tokenize` never writes
-- behind its output, and the number it sets is that of the zero-terminated strings in it.
pub wpa_tokenize_lem :
    (fresh : ℕ → ℕ) (src : Bytes)
    → is_string src ≡ true
    → length src < 2 ^ 62
    → Tokens src (tokenize (some fresh) src)
wpa_tokenize_lem fresh src h b =
    let first : Fits 0 no_words = record {
      bound = omega arith;
      counted = refl;
      start = λ _. refl;
    } in
    let r = read_chars-Fits (length src + 1) 0 no_words src first h (omega arith) (omega arith) in
    let w =
      end_word_lem (length src + 1) (0 + length src) r.state r.holds (omega arith) (omega arith) in
    let out = w.state.written in
    let z : zeros (reverse out) ≡ w.state.n = omega (arith, zeros-reverse_aux out [], w.counted) in
    record {
      output = reverse out;
      n = w.state.n;
      returned =
          tokenize_returns fresh src (length src + 1) r.state w.state (omega arith) r.given w.given;
      strings = rw (← z) (skip_strings_lem (reverse out) (ends-reverse out w.start));
      bound = omega (arith, length-reverse_aux out [], w.bound);
    }
