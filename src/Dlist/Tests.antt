-- ===== src/Dlist/Tests.antt =====
-- Tests of the list of src/shl_dlist.h, and its theorems on a concrete heap.
use openwfd.Common.{◌≡◌, refl, some, [], ◌∷◌, arith}
use openwfd.Dlist.{Heap, init, link_between, link, unlink, for_each}
use openwfd.Dlist.Chain.{Holds, init-Holds, link-Holds}
use openwfd.Dlist.Unlink.{unlink-Holds}
use openwfd.Dlist.Walk.{for_each-Holds}

abbrev fresh : Heap
fresh = record { next = λ p. 0; prev = λ p. 0 }

-- A list at 1 with the entries 3 and 2.
abbrev two : Heap
two = link 1 3 (link 1 2 (init 1 fresh))

one-Holds : Holds (link 1 2 (init 1 fresh)) 1 (2 ∷ [])
one-Holds = link-Holds (init 1 fresh) 1 2 [] (omega arith) tt (init-Holds 1 fresh)

link-Holds_example : Holds two 1 (3 ∷ 2 ∷ [])
link-Holds_example =
    link-Holds (link 1 2 (init 1 fresh)) 1 3 (2 ∷ []) (omega arith) (omega arith, tt) one-Holds

two-Holds : Holds two 1 (3 ∷ 2 ∷ [])
two-Holds =
    link-Holds (link 1 2 (init 1 fresh)) 1 3 (2 ∷ []) (omega arith) (omega arith, tt) one-Holds

unlink-Holds_example :
    Holds (unlink 3 two) 1 (2 ∷ []) × ((unlink 3 two).next 3 ≡ 0) × ((unlink 3 two).prev 3 ≡ 0)
unlink-Holds_example = unlink-Holds two 1 [] 3 (2 ∷ []) two-Holds

for_each-Holds_example : for_each 3 1 (two.next 1) two ≡ some (3 ∷ 2 ∷ [])
for_each-Holds_example = for_each-Holds two 1 (3 ∷ 2 ∷ []) two-Holds

run_two : for_each 9 1 (two.next 1) two ≡ some (3 ∷ 2 ∷ [])
unfolding for_each link link_between init
run_two = refl
