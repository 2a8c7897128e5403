-- ===== src/Rtsp/Tokenizer.antt =====
-- `owfd_rtsp_tokenize` of src/rtsp_tokenizer.c. `char` is signed, so a byte from 128 on is below 32.
-- The bytes written to the output are kept newest first; `dst` points behind the newest one. `none`
-- is a write behind the end of the output, or a `dst` in front of it.
pub mod Bounds
pub mod Step
pub mod Tokens
mod Tests
use openwfd.Common.{
  ℕ, zero, suc, ◌+◌, ◌-◌, ◌*◌, ◌/◌, ◌%◌, ◌^◌, ◌≤◌, ◌<◌, min, ◌≡◌, refl, sym, ap, ◌∙◌, ◌≢◌, ◌↔◌, ◌⊎◌,
  inl, inr, Bool, true, false, not, ◌&&◌, ◌||◌, Option, none, some, List, [], ◌∷◌, ◌++◌, append-nil,
  append_assoc, arith, length, ltb, leb, ◌==◌, if◌then◌else◌, Bool-cases, Option-cases, ltb→lt,
  ltb→ge, lt→ltb, ge→ltb, leb→le, leb→gt, le→leb, lt→leb, ==_iff, ==_refl,
}
use mathlib.Core.List.{reverse}
use openwfd.Common.Memory.{add_size, mul_size, Bytes, Malloc, ◌>>=◌}

-- The variables of the loop.
pub record Tokenizer : Type 0 where
  pub written : Bytes
  pub num : ℕ
  pub quoted : Bool
  pub escaped : Bool
  pub last_c : ℕ

abbrev pub first_state : Tokenizer
first_state = record { written = []; num = 0; quoted = false; escaped = false; last_c = 0 }

-- `*dst++ = c`
unfoldable pub put : ℕ → ℕ → Tokenizer → Option Tokenizer
put room c t =
    if ltb (length t.written) room then some (record t { written = c ∷ t.written }) else none

-- `*dst++ = 0; ++num;`
unfoldable pub end_token : ℕ → Tokenizer → Option Tokenizer
unfolding put
end_token room t = put room 0 t >>= (λ u. some (record u { num = add_size u.num 1 }))

-- `--dst`
abbrev pub unput : Bytes → Option Bytes
unput [] = none
unput (_ ∷ cs) = some cs

-- `if (prev) { *dst++ = 0; ++num; }`
unfoldable pub end_open : ℕ → ℕ → Tokenizer → Option Tokenizer
end_open room prev t = if prev == 0 then some t else end_token room t

-- What an escaped byte stands for.
unfoldable pub unescape : ℕ → ℕ
unescape c =
    if c == b'n'
    then 10
    else if c == b'r'
    then 13
    else if c == b't'
    then 9
    else if c == b'a'
    then 7
    else if c == b'f'
    then 12
    else if c == b'v'
    then 11
    else if c == b'b'
    then 8
    else if c == b'e'
    then 27
    else c

-- The bytes that end a token and are one themselves.
unfoldable pub is_separator : ℕ → Bool
is_separator c =
    c == b'('
    || c == b')'
    || c == b'['
    || c == b']'
    || c == b'{'
    || c == b'}'
    || c == b'<'
    || c == b'>'
    || c == b'@'
    || c == b','
    || c == b';'
    || c == b':'
    || c == b'\\'
    || c == b'/'
    || c == b'?'
    || c == b'='

-- `c <= 31 || c == 127` on a signed `char`.
unfoldable pub is_control : ℕ → Bool
is_control c = leb c 31 || leb 127 c

-- Behind a backslash in quotes.
unfoldable pub step_escaped : ℕ → Tokenizer → ℕ → Option Tokenizer
unfolding put unescape
step_escaped room t c =
    if c == b'0' || c == 0
    then unput t.written >>= (λ cs. some (record t { written = cs; escaped = false }))
    else put room (unescape c) (record t { escaped = false })

-- In quotes.
unfoldable pub step_quoted : ℕ → Tokenizer → ℕ → Option Tokenizer
unfolding put end_token
step_quoted room t c =
    if c == b'"'
    then end_token room (record t { quoted = false; last_c = 0 })
    else if c == b'\\'
    then some (record t { escaped = true })
    else if c == 0
    then some t
    else put room c t

-- Outside of quotes; the argument `prev` is the variable of that name.
unfoldable pub step_plain : ℕ → ℕ → Tokenizer → ℕ → Option Tokenizer
unfolding put end_token end_open is_separator is_control
step_plain room prev t c =
    if c == b'"'
    then end_open room prev (record t { quoted = true; escaped = false; last_c = 0 })
    else if c == 0
    then some t
    else if c == b' '
    then end_open room prev (record t { last_c = 0 })
    else if is_separator c
    then end_open room prev (record t { last_c = 0 }) >>= (λ u. put room c u >>= end_token room)
    else if is_control c
    then end_open room prev (record t { last_c = 0 })
    else put room c t

-- The body of the loop.
unfoldable pub step : ℕ → Tokenizer → ℕ → Option Tokenizer
unfolding step_escaped step_quoted step_plain
step room t c =
    let u = record t { last_c = c } in
    if t.quoted
    then if t.escaped then step_escaped room u c else step_quoted room u c
    else step_plain room t.last_c u c

unfoldable pub run : ℕ → Tokenizer → Bytes → Option Tokenizer
run room t [] = some t
run room t (c ∷ cs) = step room t c >>= (λ u. run room u cs)

-- The output in front of `dst`, oldest byte first, and the number of tokens. The inner `none` is
-- -ENOMEM.
unfoldable pub tokenize : Malloc → Bytes → Option (Option (Bytes × ℕ))
unfolding run end_open
tokenize m line =
    let l = add_size (mul_size (length line) 2) 1 in
    if leb l (length line) then some none else elim m [
      | none ↦ some none
      | some _ ↦
          run l first_state line
          >>= (λ t. end_open l t.last_c t >>= (λ u. some (some (reverse u.written, u.num))))
    ]
