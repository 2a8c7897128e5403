-- ===== src/Wpa/Tokenizer.antt =====
-- `tokenize` of src/wpa_parser.c: words and strings in single quotes. The bytes written are kept
-- newest first, and `none` is a write behind the end of the output.
pub mod Steps
pub mod Bounds
use openwfd.Common.{
  ℕ, zero, suc, ◌+◌, ◌-◌, ◌*◌, ◌/◌, ◌%◌, ◌^◌, ◌≤◌, ◌<◌, min, ◌≡◌, refl, sym, ap, ◌∙◌, ◌≢◌, ◌↔◌, ◌⊎◌,
  inl, inr, Bool, true, false, not, ◌&&◌, ◌||◌, Option, none, some, List, [], ◌∷◌, ◌++◌, append-nil,
  append_assoc, arith, ltb, leb, ◌==◌, if◌then◌else◌, Bool-cases, Option-cases, ltb→lt, ltb→ge,
  lt→ltb, ge→ltb, leb→le, leb→gt, le→leb, lt→leb, ==_iff, ==_refl,
}
use mathlib.Core.List.{reverse}
use openwfd.Common.{length}
use openwfd.Common.Memory.{add_size, Bytes, Malloc, ◌>>=◌}

-- The variables of the loop.
pub record Words : Type 0 where
  pub written : Bytes
  pub n : ℕ
  pub quoted : Bool
  pub escaped : Bool
  pub last_c : ℕ

abbrev pub no_words : Words
no_words = record { written = []; n = 0; quoted = false; escaped = false; last_c = 0 }

-- `*dst++ = c`
unfoldable pub append : ℕ → ℕ → Words → Option Words
append room c t =
    if ltb (length t.written) room then some (record t { written = c ∷ t.written }) else none

-- `last_c = *src; *dst++ = last_c;`
abbrev pub append_char : ℕ → Words → ℕ → Option Words
append_char room t c = append room c (record t { last_c = c })

-- In quotes.
unfoldable pub quoted_char : ℕ → Words → ℕ → Option Words
unfolding append
quoted_char room t c =
    if t.escaped
    then append_char room (record t { escaped = false }) c
    else if c == 39
    then some (record t { quoted = false })
    else if c == b'\\'
    then some (record t { escaped = true })
    else append_char room t c

-- The end of a word: `if (last_c) { *dst++ = 0; ++n; }`.
unfoldable pub end_word : ℕ → Words → Option Words
unfolding append
end_word room t =
    if t.last_c == 0
    then some t
    else append room 0 t >>= (λ u. some (record u { n = add_size u.n 1 }))

unfoldable pub after_word : Option Words → Option Words
after_word none = none
after_word (some t) = some (record t { last_c = 0 })

-- Outside of quotes.
unfoldable pub plain_char : ℕ → Words → ℕ → Option Words
unfolding append end_word after_word
plain_char room t c =
    if c == b' ' || c == b'\n' || c == b'\t' || c == b'\r'
    then after_word (end_word room t)
    else if c == 39
    then some (record t { quoted = true; escaped = false; last_c = c })
    else append_char room t c

-- The body of the loop.
unfoldable pub read_char : ℕ → Words → ℕ → Option Words
unfolding quoted_char plain_char
read_char room t c = if t.quoted then quoted_char room t c else plain_char room t c

unfoldable pub read_chars : ℕ → Words → Bytes → Option Words
read_chars room t [] = some t
read_chars room t (c ∷ cs) = read_char room t c >>= (λ u. read_chars room u cs)

-- The output, oldest byte first, and the number of tokens; the inner `none` is NULL.
unfoldable pub tokenize : Malloc → Bytes → Option (Option (Bytes × ℕ))
unfolding read_chars end_word
tokenize none src = some none
tokenize (some _) src =
    let room = add_size (length src) 1 in
    read_chars room no_words src
    >>= (λ t. end_word room t >>= (λ u. some (some (reverse u.written, u.n))))
