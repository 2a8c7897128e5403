-- ===== src/Dlist.antt =====
-- The doubly linked list of src/shl_dlist.h on a heap of pointers; 0 is the null pointer.
pub mod Chain
pub mod Unlink
pub mod Walk
mod Tests
use openwfd.Common.{
  ℕ, zero, suc, ◌+◌, ◌-◌, ◌*◌, ◌/◌, ◌%◌, ◌^◌, ◌≤◌, ◌<◌, min, ◌≡◌, refl, sym, ap, ◌∙◌, ◌≢◌, ◌↔◌, ◌⊎◌,
  inl, inr, Bool, true, false, not, ◌&&◌, ◌||◌, Option, none, some, List, [], ◌∷◌, ◌++◌, append-nil,
  append_assoc, arith, ltb, leb, ◌==◌, if◌then◌else◌, Bool-cases, Option-cases, ltb→lt, ltb→ge,
  lt→ltb, ge→ltb, leb→le, leb→gt, le→leb, lt→leb, ==_iff, ==_refl,
}

-- The `next` and `prev` of every `struct shl_dlist`.
pub record Heap : Type 0 where
  pub next : ℕ → ℕ
  pub prev : ℕ → ℕ

-- A field with a new value at one pointer.
abbrev pub write : ℕ → ℕ → (ℕ → ℕ) → ℕ → ℕ
write a v f p = if p == a then v else f p

abbrev pub set_next : ℕ → ℕ → Heap → Heap
set_next a v h = record h { next = write a v h.next }

abbrev pub set_prev : ℕ → ℕ → Heap → Heap
set_prev a v h = record h { prev = write a v h.prev }

-- `shl_dlist_init`
unfoldable pub init : ℕ → Heap → Heap
init list h = set_prev list list (set_next list list h)

-- `shl_dlist__link`
unfoldable pub link_between : ℕ → ℕ → ℕ → Heap → Heap
link_between prev next n h = set_next prev n (set_prev n prev (set_next n next (set_prev next n h)))

-- `shl_dlist_link`
unfoldable pub link : ℕ → ℕ → Heap → Heap
unfolding link_between
link head n h = link_between head (h.next head) n h

-- `shl_dlist_link_tail`
unfoldable pub link_tail : ℕ → ℕ → Heap → Heap
unfolding link_between
link_tail head n h = link_between (h.prev head) head n h

-- `shl_dlist__unlink`
unfoldable pub unlink_between : ℕ → ℕ → Heap → Heap
unlink_between prev next h = set_next prev next (set_prev next prev h)

-- `shl_dlist_unlink`
unfoldable pub unlink : ℕ → Heap → Heap
unfolding unlink_between
unlink e h = set_next e 0 (set_prev e 0 (unlink_between (h.prev e) (h.next e) h))

-- `shl_dlist_empty`, `shl_dlist_first` and `shl_dlist_last`
abbrev pub empty : ℕ → Heap → Bool
empty head h = h.next head == head

abbrev pub first : ℕ → Heap → ℕ
first head h = h.next head

abbrev pub last : ℕ → Heap → ℕ
last head h = h.prev head

-- The entries that `shl_dlist_for_each` visits from `iter` on; `none` where more than `fuel` rounds are
-- needed.
unfoldable pub for_each : ℕ → ℕ → ℕ → Heap → Option (List ℕ)
for_each zero head iter h = none
for_each (suc fuel) head iter h =
    let rest = for_each fuel head (h.next iter) h in
    if iter == head then some [] else elim rest [ none ↦ none | some xs ↦ some (iter ∷ xs) ]
