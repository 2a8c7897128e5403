-- ===== src/Wpa/Event.antt =====
-- `owfd_wpa_event_parse` of src/wpa_parser.c. The outer `none` is an access out of bounds.
pub mod Outcome
use openwfd.Common.{
  ℕ, zero, suc, ◌+◌, ◌-◌, ◌*◌, ◌/◌, ◌%◌, ◌^◌, ◌≤◌, ◌<◌, min, ◌≡◌, refl, sym, ap, ◌∙◌, ◌≢◌, ◌↔◌, ◌⊎◌,
  inl, inr, Bool, true, false, not, ◌&&◌, ◌||◌, Option, none, some, List, [], ◌∷◌, ◌++◌, append-nil,
  append_assoc, arith, ltb, leb, ◌==◌, if◌then◌else◌, Bool-cases, Option-cases, ltb→lt, ltb→ge,
  lt→ltb, ge→ltb, leb→le, leb→gt, le→leb, lt→leb, ==_iff, ==_refl,
}
use openwfd.Common.{length, drop}
use openwfd.Common.Memory.{Bytes, Malloc, Status, ok, fail, enomem, ◌>>=◌}
use openwfd.Common.Text.{strtoul}
use openwfd.Wpa.Events
use openwfd.Wpa.Events.{Kind, EventType, lookup}
use openwfd.Wpa.Tokenizer.{tokenize}
use openwfd.Wpa.Payload.{Payload, Parsed, parsed, failed, blank, parse_payload}

-- `struct owfd_wpa_event`
pub record WpaEvent : Type 0 where
  pub type : Kind
  pub priority : ℕ
  pub raw : Option Bytes
  pub payload : Payload

abbrev pub zero_event : WpaEvent
zero_event = record { type = Events.unknown; priority = 0; raw = none; payload = blank }

-- `owfd_wpa_event_reset`, without what it frees.
unfoldable pub event_reset : WpaEvent → WpaEvent
event_reset ev = zero_event

-- `strchr(event, '>')` and `++t`.
unfoldable pub behind_priority : Bytes → Option Bytes
behind_priority [] = none
behind_priority (c ∷ cs) = if c == b'>' then some cs else behind_priority cs

abbrev first_is : ℕ → Bytes → Bool
first_is c [] = false
first_is c (d ∷ ds) = d == c

-- The priority in front of `t`; the field is an `unsigned int`.
unfoldable pub priority_of : Bytes → Bytes → ℕ
priority_of s t =
    let (l, e) = strtoul s in
    if leb 5 (l % 2 ^ 32) || not (length e == length t + 1) || first_is b'=' s || first_is b'-' s
    then 0
    else l % 2 ^ 32

-- The first `if` of `owfd_wpa_event_parse`: the priority and `t`, or `goto unknown`.
unfoldable pub read_priority : Bytes → Option (ℕ × Bytes)
unfolding behind_priority priority_of
read_priority [] = some (0, [])
read_priority (c ∷ cs) =
    if c == b'<'
    then elim (behind_priority cs) [ none ↦ none | some t ↦ some (priority_of cs t, t) ]
    else some (0, c ∷ cs)

-- `while (*t == ' ') ++t;`
unfoldable pub skip_blanks : Bytes → Bytes
skip_blanks [] = []
skip_blanks (c ∷ cs) = if c == b' ' then skip_blanks cs else c ∷ cs

-- What the allocator answers: for `raw`, for the tokens and for a string of the payload.
pub record Answers : Type 0 where
  pub raw : Bool
  pub tokens : Malloc
  pub field : Bool

-- Behind the `switch`: an error resets the event.
unfoldable pub finish_parse : WpaEvent → Parsed → Status × WpaEvent
unfolding event_reset
finish_parse ev (parsed p) = (ok, record ev { payload = p })
finish_parse ev (failed e) = (fail e, event_reset ev)

-- `tokenize` and the `switch`.
unfoldable pub parse_tokens : Answers → WpaEvent → Option (Bytes × ℕ) → Option (Status × WpaEvent)
unfolding event_reset finish_parse
parse_tokens a ev none = some (fail enomem, event_reset ev)
parse_tokens a ev (some (tokens, num)) =
    parse_payload ev.type a.field tokens num >>= (λ p. some (finish_parse ev p))

-- Behind `bsearch`: `t` stands behind the name.
unfoldable pub parse_args : Answers → WpaEvent → Bytes → Option (Status × WpaEvent)
unfolding event_reset parse_tokens
parse_args a ev t =
    if a.raw
    then tokenize a.tokens t >>= parse_tokens a (record ev { raw = some t })
    else some (fail enomem, event_reset ev)

unfoldable pub parse_named :
    Answers → WpaEvent → Bytes → Option EventType → Option (Status × WpaEvent)
unfolding skip_blanks
parse_named a ev t none = some (ok, ev)
parse_named a ev t (some code) =
    parse_args a (record ev { type = code.code }) (skip_blanks (drop (length code.name) t))

unfoldable pub parse_from : Answers → WpaEvent → Option (ℕ × Bytes) → Option (Status × WpaEvent)
unfolding parse_named
parse_from a ev none = some (ok, ev)
parse_from a ev (some (p, t)) = parse_named a (record ev { priority = p }) t (lookup t)

-- `owfd_wpa_event_parse`
unfoldable pub event_parse : Answers → WpaEvent → Bytes → Option (Status × WpaEvent)
unfolding event_reset read_priority parse_from
event_parse a ev event = parse_from a (event_reset ev) (read_priority event)
