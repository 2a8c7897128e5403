-- ===== src/Rtsp/Sanitize.antt =====
-- `sanitize_header_line` of src/rtsp_decoder.c. It works in place: the write position never
-- passes the read position, so what it writes is a list behind the list that it reads.
use openwfd.Common.{ℕ, Bool, true, false, not, ◌&&◌, ◌||◌, [], ◌∷◌, ◌++◌, ◌==◌, if◌then◌else◌}
use mathlib.Core.List.{reverse}
use openwfd.Common.Memory.{Bytes}

-- The locals that one round of the loop hands to the next.
pub record Scan : Type 0 where
  pub last_c : ℕ
  pub quoted : Bool
  pub escaped : Bool

abbrev pub scan_start : Scan
scan_start = record { last_c = 0; quoted = false; escaped = false }

-- A round inside quotes: the byte `c`, with the byte before it in `s.last_c`. The list holds what
-- the round writes.
unfoldable pub scan_quoted : Scan → ℕ → Scan × Bytes
scan_quoted s c =
    if s.last_c == b'\\' && not s.escaped
    then (record { last_c = c; quoted = true; escaped = true }, (if c == 0 then b'0' else c) ∷ [])
    else if c == b'"'
    then (record { last_c = c; quoted = false; escaped = false }, c ∷ [])
    else if c == 0
    then (record { last_c = c; quoted = true; escaped = false }, [])
    else (record { last_c = c; quoted = true; escaped = false }, c ∷ [])

-- A byte outside of quotes, new-lines and tabs turned into blanks.
unfoldable pub scan_plain : Scan → ℕ → Scan × Bytes
scan_plain s c =
    let s' = record s { last_c = c } in
    if c == b' ' && s.last_c == b' '
    then (s', [])
    else if c == b'"'
    then (record s' { quoted = true; escaped = false }, c ∷ [])
    else (s', c ∷ [])

unfoldable pub scan_byte : Scan → ℕ → Scan × Bytes
unfolding scan_quoted scan_plain
scan_byte s c =
    if s.quoted
    then scan_quoted s c
    else if c == 0
    then (record s { last_c = c }, [])
    else if c == b'\r' || c == b'\n' || c == b'\t'
    then scan_plain s b' '
    else scan_plain s c

unfoldable pub scan : Scan → Bytes → Bytes
unfolding scan_byte
scan s [] = []
scan s (c ∷ cs) = let (s', out) = scan_byte s c in out ++ scan s' cs

unfoldable pub skip_blanks : Bytes → Bytes
skip_blanks [] = []
skip_blanks (c ∷ cs) = if c == b' ' then skip_blanks cs else c ∷ cs

-- The loop that removes trailing blanks walks from the end.
unfoldable pub trim : Bytes → Bytes
unfolding skip_blanks
trim line = reverse (skip_blanks (reverse line))

unfoldable pub sanitize : Bytes → Bytes
unfolding scan trim
sanitize line = trim (scan scan_start line)
