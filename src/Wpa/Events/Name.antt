-- ===== src/Wpa/Events/Name.antt =====
-- `owfd_wpa_event_name` of src/wpa_parser.c and the search of the table are inverse to each other.
use openwfd.Common.{
  ℕ, zero, suc, ◌≡◌, refl, sym, ap, ◌∙◌, Bool, true, false, not, ◌&&◌, Option, some, List, [], ◌∷◌,
  arith, ◌==◌, ==_refl,
}
use openwfd.Common.Strings.{none-some}
use openwfd.Common.Memory.{Bytes}
use openwfd.Wpa.Events.{EventType, event_list, entry, lookup, name_in, event_name, number}
use openwfd.Wpa.Events.Order.{word, Looked, hit, miss, lookup_lem}

-- No two entries have the same code.
abbrev has_no_code : ℕ → List EventType → Bool
has_no_code n [] = true
has_no_code n (t ∷ ts) = not (n == number t.code) && has_no_code n ts

abbrev are_distinct : List EventType → Bool
are_distinct [] = true
are_distinct (t ∷ ts) = has_no_code (number t.code) ts && are_distinct ts

other_code :
    (n : ℕ) (ts : List EventType) (i : ℕ) (t : EventType)
    → has_no_code n ts ≡ true
    → entry ts i ≡ some t
    → (n == number t.code) ≡ false
other_code n [] i t h e = absurd (none-some e)
other_code n (x ∷ ts) zero t h e = let same : x ≡ t = cc in rw (← same) (ground arith)
other_code n (x ∷ ts) (suc i) t h e = other_code n ts i t (ground arith) e

name_in-entry :
    (ts : List EventType) (i : ℕ) (t : EventType)
    → are_distinct ts ≡ true
    → entry ts i ≡ some t
    → name_in ts (number t.code) ≡ t.name
unfolding name_in
name_in-entry [] i t h e = absurd (none-some e)
name_in-entry (x ∷ ts) zero t h e = let same : x ≡ t = cc in rw (← same, ==_refl (number x.code))
name_in-entry (x ∷ ts) (suc i) t h e =
    rw (other_code (number x.code) ts i t (ground arith) e) (name_in-entry ts i t (ground arith) e)

list_distinct : are_distinct event_list ≡ true
list_distinct = refl

name_of-Looked :
    (w : Bytes) (o : Option EventType) (e : EventType)
    → Looked w event_list o
    → o ≡ some e
    → event_name (number e.code) ≡ w
name_of-Looked w _ e (hit i t stands n) h =
    let same : t ≡ e = cc in
    name_in-entry event_list i e list_distinct (stands ∙ ap some same)
    ∙ ap (λ y. y.name) (sym same)
    ∙ n
name_of-Looked w _ e (miss f) h = absurd (none-some h)

-- If the search of the table finds an entry for an event, then owfd_wpa_event_name of the entry's
-- code is the first word of the event.
pub event_name-lookup :
    (t : Bytes) (e : EventType) → lookup t ≡ some e → event_name (number e.code) ≡ word t
event_name-lookup t e h = name_of-Looked (word t) (lookup t) e (lookup_lem t) h
