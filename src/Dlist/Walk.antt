-- ===== src/Dlist/Walk.antt =====
-- The loops over a list of src/shl_dlist.h.
use openwfd.Common.{
  ℕ, suc, ◌≡◌, ap, ◌∙◌, false, Option, none, some, List, [], ◌∷◌, arith, ◌==◌, if◌then◌else◌,
  ==_iff,
}
use openwfd.Common.{length}
use openwfd.Dlist.{Heap, for_each}
use openwfd.Dlist.Chain.{Forth, NotIn, Holds}

abbrev cons_to : ℕ → Option (List ℕ) → Option (List ℕ)
cons_to x rest = elim rest [ none ↦ none | some xs ↦ some (x ∷ xs) ]

visit_end :
    (fuel head iter : ℕ) (h : Heap) → iter ≡ head → for_each (suc fuel) head iter h ≡ some []
unfolding for_each
visit_end fuel head iter h e =
    ap (λ b. if b then some [] else cons_to iter (for_each fuel head (h.next iter) h))
      ((==_iff iter head).1 e)

visit_next :
    (fuel head iter : ℕ) (h : Heap)
    → (iter == head) ≡ false
    → for_each (suc fuel) head iter h ≡ cons_to iter (for_each fuel head (h.next iter) h)
unfolding for_each
visit_next fuel head iter h e =
    ap (λ b. if b then some [] else cons_to iter (for_each fuel head (h.next iter) h)) e

for_each_from :
    (h : Heap) (head p : ℕ) (xs : List ℕ)
    → Forth h.next p xs head
    → NotIn head xs
    → for_each (suc (length xs)) head (h.next p) h ≡ some xs
for_each_from h head p [] w n = visit_end 0 head (h.next p) h w
for_each_from h head p (x ∷ xs) w n =
    let differ : (x == head) ≡ false = ground (arith, n.0) in
    ap (λ y. for_each (suc (suc (length xs))) head y h) w.0
    ∙ visit_next (suc (length xs)) head x h differ
    ∙ ap (cons_to x) (for_each_from h head x xs w.1 n.1)

-- Over a heap that holds a list, `shl_dlist_for_each` visits its entries, in order, once each, and ends behind
-- as many rounds as there are entries, and one.
pub for_each-Holds :
    (h : Heap) (head : ℕ) (xs : List ℕ)
    → Holds h head xs
    → for_each (suc (length xs)) head (h.next head) h ≡ some xs
for_each-Holds h head xs w = for_each_from h head head xs w.forth w.distinct.0
