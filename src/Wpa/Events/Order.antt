-- ===== src/Wpa/Events/Order.antt =====
-- The search of the event table of src/wpa_parser.c finds the entry that is the first word of the
-- event.
use openwfd.Common.{
  ℕ, zero, suc, ◌<◌, ◌≡◌, refl, sym, ap, ◌∙◌, ◌≢◌, inl, inr, Bool, true, false, ◌&&◌, Option, none,
  some, List, [], ◌∷◌, arith, ltb, ◌==◌, if◌then◌else◌, Option-cases,
}
use Prim.Native.Nat.Ordering.{lt}
use openwfd.Common.{length}
use openwfd.Common.Strings.{none-some}
use openwfd.Common.Memory.{Bytes, ◌>>=◌}
use openwfd.Wpa.Search.{
  lex, bsearch, lex_trans, lex-gt, lex-eq, lex_refl, Falls, bsearch-some, bsearch-none,
}
use openwfd.Wpa.Events.{EventType, event_list, strncmp, event_comp, entry, name_of, lookup}

-- The bytes in front of the first space.
abbrev pub word : Bytes → Bytes
word [] = []
word (c ∷ cs) = if c == b' ' then [] else c ∷ word cs

-- A name has no blanks.
abbrev is_name : Bytes → Bool
is_name [] = true
is_name (c ∷ cs) = ltb b' ' c && is_name cs

event_comp_lem : (k name : Bytes) → is_name name ≡ true → event_comp k name ≡ lex (word k) name
unfolding event_comp strncmp lex
event_comp_lem [] [] h = refl
event_comp_lem [] (n ∷ ns) h = refl
event_comp_lem (c ∷ cs) [] h = ground arith
event_comp_lem (c ∷ cs) (n ∷ ns) h = ground (arith, event_comp_lem cs ns (ground arith))

abbrev are_names : List EventType → Bool
are_names [] = true
are_names (t ∷ ts) = is_name t.name && are_names ts

abbrev is_below : Bytes → List EventType → Bool
is_below n [] = true
is_below n (t ∷ ts) = elim (lex n t.name) [ lt ↦ is_below n ts | _ ↦ false ]

abbrev is_sorted : List EventType → Bool
is_sorted [] = true
is_sorted (t ∷ ts) = is_below t.name ts && is_sorted ts

name_of-is_name :
    (ts : List EventType) (i : ℕ) → are_names ts ≡ true → is_name (name_of ts i) ≡ true
name_of-is_name [] i h = refl
name_of-is_name (t ∷ ts) zero h = ground arith
name_of-is_name (t ∷ ts) (suc i) h = name_of-is_name ts i (ground arith)

below_lem :
    (n : Bytes) (ts : List EventType) (i : ℕ)
    → is_below n ts ≡ true
    → i < length ts
    → lex n (name_of ts i) ≡ lt
below_lem n [] i h p = absurd (omega arith)
below_lem n (t ∷ ts) zero h p = ground arith
below_lem n (t ∷ ts) (suc i) h p = below_lem n ts i (ground arith) (omega arith)

sorted_lem :
    (ts : List EventType) (i j : ℕ)
    → is_sorted ts ≡ true
    → i < j
    → j < length ts
    → lex (name_of ts i) (name_of ts j) ≡ lt
sorted_lem [] i j h p q = absurd (omega arith)
sorted_lem (t ∷ ts) i zero h p q = absurd (omega arith)
sorted_lem (t ∷ ts) zero (suc j) h p q = below_lem t.name ts j (ground arith) (omega arith)
sorted_lem (t ∷ ts) (suc i) (suc j) h p q =
    sorted_lem ts i j (ground arith) (omega arith) (omega arith)

list_names : are_names event_list ≡ true
list_names = refl

list_sorted : is_sorted event_list ≡ true
unfolding lex
list_sorted = refl

comp_lem :
    (k : Bytes) (i : ℕ) → event_comp k (name_of event_list i) ≡ lex (word k) (name_of event_list i)
comp_lem k i = event_comp_lem k (name_of event_list i) (name_of-is_name event_list i list_names)

comparison-Falls :
    (k : Bytes) → Falls (λ i. event_comp k (name_of event_list i)) (length event_list)
comparison-Falls k = record {
  stay_lt = λ i j p q o.
      comp_lem k j
      ∙ lex_trans (word k) (name_of event_list i) (name_of event_list j) (sym (comp_lem k i) ∙ o)
          (sorted_lem event_list i j list_sorted p q);
  stay_gt = λ i j p q o.
      comp_lem k i
      ∙ lex-gt (word k) (name_of event_list i) (name_of event_list j)
          (sorted_lem event_list i j list_sorted p q) (sym (comp_lem k j) ∙ o);
}

-- What a search of the table returns: the entry of that name, or nothing if no entry has it.
pub data Looked (n : Bytes) (ts : List EventType) : Option EventType → Type 0 where
  hit : (i : ℕ) (t : EventType) → entry ts i ≡ some t → t.name ≡ n → Looked n ts (some t)
  miss : ((i : ℕ) (t : EventType) → entry ts i ≡ some t → t.name ≢ n) → Looked n ts none

record Entry (ts : List EventType) (i : ℕ) : Type 0 where
  type : EventType
  stands : entry ts i ≡ some type
  named : name_of ts i ≡ type.name

standing : (ts : List EventType) (i : ℕ) → i < length ts → Entry ts i
standing [] i p = absurd (omega arith)
standing (t ∷ ts) zero p = record { type = t; stands = refl; named = refl }
standing (t ∷ ts) (suc i) p =
    let e = standing ts i (omega arith) in
    record { type = e.type; stands = e.stands; named = e.named }

entry_bound : (ts : List EventType) (i : ℕ) (t : EventType) → entry ts i ≡ some t → i < length ts
entry_bound [] i t e = absurd (none-some e)
entry_bound (x ∷ ts) zero t e = omega arith
entry_bound (x ∷ ts) (suc i) t e = omega (arith, entry_bound ts i t e)

entry-name :
    (ts : List EventType) (i : ℕ) (t : EventType) → entry ts i ≡ some t → name_of ts i ≡ t.name
entry-name [] i t e = absurd (none-some e)
entry-name (x ∷ ts) zero t e = let same : x ≡ t = cc in ap (λ y. y.name) same
entry-name (x ∷ ts) (suc i) t e = entry-name ts i t e

looked_of :
    {n : Bytes} {ts : List EventType} (o o' : Option EventType)
    → o ≡ o'
    → Looked n ts o'
    → Looked n ts o
looked_of o o' e l = rw e l

abbrev searched_index : Bytes → Option ℕ
searched_index t =
    bsearch (length event_list) (λ i. event_comp t (name_of event_list i)) 0 (length event_list)

lookup_index :
    (t : Bytes) (o : Option ℕ) → searched_index t ≡ o → lookup t ≡ (o >>= entry event_list)
unfolding lookup
lookup_index t o e = ap (λ x. x >>= entry event_list) e

-- For every event the search of the table returns the entry whose name is the first word of the
-- event, or nothing if no entry has that name.
pub lookup_lem : (t : Bytes) → Looked (word t) event_list (lookup t)
lookup_lem t = elim (Option-cases (searched_index t)) [
  | inl e ↦ looked_of (lookup t) none (lookup_index t none e) (
      miss (λ i x p n.
        bsearch-none (length event_list) (λ i. event_comp t (name_of event_list i))
          (length event_list) 0 (length event_list) i (comparison-Falls t) (omega arith)
          (omega arith) (omega arith) (entry_bound event_list i x p) e
          (comp_lem t i
            ∙ ap (λ y. lex (word t) y) (entry-name event_list i x p ∙ n)
            ∙ lex_refl (word t))))
  | inr (i, e) ↦
      let (p, q) =
        bsearch-some (length event_list) (λ i. event_comp t (name_of event_list i)) 0
          (length event_list) i e in
      let x = standing event_list i q in
      looked_of (lookup t) (some x.type) (lookup_index t (some i) e ∙ x.stands) (
        hit i x.type x.stands
          (sym x.named ∙ sym (lex-eq (word t) (name_of event_list i) (sym (comp_lem t i) ∙ p))))
]
