-- ===== src/Wpa/Event/Outcome.antt =====
-- What `owfd_wpa_event_parse` of src/wpa_parser.c does with an event.
use openwfd.Common.{ℕ, ◌≤◌, ◌≡◌, ◌≢◌, true, Option, none, some}
use openwfd.Common.{length, drop}
use openwfd.Common.Memory.{Bytes, Status, Errno, ok, fail}
use openwfd.Wpa.Events
use openwfd.Wpa.Events.{Kind, EventType, event_list}
use openwfd.Wpa.Events.Order.{word}
use openwfd.Wpa.Tokenizer.Bounds.{is_string}
use openwfd.Wpa.Payload.{Payload}
use openwfd.Wpa.Event.{WpaEvent, zero_event, priority_of, read_priority, skip_blanks}

-- The event of `e` at the arguments `args`, with any payload.
abbrev event_of : ℕ → Kind → Bytes → Payload → WpaEvent
event_of p k args payload = record { type = k; priority = p; raw = some args; payload = payload }

-- The results that a call may have.
pub data Outcome (event : Bytes) : Option (Status × WpaEvent) → Type 0 where
  no_priority : read_priority event ≡ none → Outcome event (some (ok, zero_event))
  not_listed :
      (p : ℕ) (t : Bytes)
      → read_priority event ≡ some (p, t)
      → ((i : ℕ) (e : EventType) → Events.entry event_list i ≡ some e → e.name ≢ word t)
      → Outcome event (some (ok, record zero_event { priority = p }))
  listed :
      (p : ℕ) (t : Bytes) (e : EventType) (payload : Payload)
      → read_priority event ≡ some (p, t)
      → e.name ≡ word t
      → Outcome event
          (some (ok, event_of p e.code (skip_blanks (drop (length (word t)) t)) payload))
  error : (e : Errno) → Outcome event (some (fail e, zero_event))

-- A C string of at most `n` bytes, or none.
data Piece (n : ℕ) : Option Bytes → Type 0 where
  absent : Piece n none
  piece : (t : Bytes) → is_string t ≡ true → length t ≤ n → Piece n (some t)

data Read (n : ℕ) : Option (ℕ × Bytes) → Type 0 where
  unreadable : Read n none
  readable : (p : ℕ) (t : Bytes) → is_string t ≡ true → length t ≤ n → Read n (some (p, t))

abbrev with_priority : Bytes → Option Bytes → Option (ℕ × Bytes)
with_priority cs o = elim o [ none ↦ none | some t ↦ some (priority_of cs t, t) ]

-- The results of the second half, at a known type.
data Ran (p : ℕ) (k : Kind) (args : Bytes) : Option (Status × WpaEvent) → Type 0 where
  done : (payload : Payload) → Ran p k args (some (ok, event_of p k args payload))
  stopped : (e : Errno) → Ran p k args (some (fail e, zero_event))
