-- ===== src/Dlist/Unlink.antt =====
-- That `shl_dlist_unlink` of src/shl_dlist.h takes an entry out of its list.
use openwfd.Common.{ℕ, ◌≡◌, sym, ap, ◌∙◌, ◌≢◌, List, [], ◌∷◌, ◌++◌}
use mathlib.Core.Path.{subst}
use openwfd.Dlist.{Heap, write, unlink_between, unlink}
use openwfd.Dlist.Chain.{
  Forth, Back, NotIn, Distinct, Holds, write_same, write_other, Forth-write, Back-write,
}

NotIn-front : (z : ℕ) (xs ys : List ℕ) → NotIn z (xs ++ ys) → NotIn z xs
NotIn-front z [] ys n = tt
NotIn-front z (x ∷ xs) ys n = (n.0, NotIn-front z xs ys n.1)

NotIn-back : (z : ℕ) (xs ys : List ℕ) → NotIn z (xs ++ ys) → NotIn z ys
NotIn-back z [] ys n = n
NotIn-back z (x ∷ xs) ys n = NotIn-back z xs ys n.1

NotIn-drop : (z e : ℕ) (xs ys : List ℕ) → NotIn z (xs ++ e ∷ ys) → NotIn z (xs ++ ys)
NotIn-drop z e [] ys n = n.1
NotIn-drop z e (x ∷ xs) ys n = (n.0, NotIn-drop z e xs ys n.1)

Distinct-drop : (e : ℕ) (xs ys : List ℕ) → Distinct (xs ++ e ∷ ys) → Distinct (xs ++ ys)
Distinct-drop e [] ys d = d.1
Distinct-drop e (x ∷ xs) ys d = (NotIn-drop x e xs ys d.0, Distinct-drop e xs ys d.1)

-- The entry in front of `e` is the start or one before `e`, the one behind it is one after `e` or the end.
prev_other :
    (g : ℕ → ℕ) (p : ℕ) (xs : List ℕ) (e : ℕ) (ys : List ℕ) (q z : ℕ)
    → Back g p (xs ++ e ∷ ys) q
    → NotIn z (p ∷ xs)
    → g e ≢ z
prev_other g p [] e ys q z b n eq = n.0 (sym eq ∙ b.0)
prev_other g p (x ∷ xs) e ys q z b n eq = prev_other g x xs e ys q z b.1 n.1 eq

first_other :
    (f : ℕ → ℕ) (e : ℕ) (ys : List ℕ) (q z : ℕ) → Forth f e ys q → NotIn z ys → z ≢ q → f e ≢ z
first_other f e [] q z w n d eq = d (sym eq ∙ w)
first_other f e (y ∷ ys) q z w n d eq = n.0 (sym eq ∙ w.0)

next_other :
    (f : ℕ → ℕ) (p : ℕ) (xs : List ℕ) (e : ℕ) (ys : List ℕ) (q z : ℕ)
    → Forth f p (xs ++ e ∷ ys) q
    → NotIn z ys
    → z ≢ q
    → f e ≢ z
next_other f p [] e ys q z w n d = first_other f e ys q z w.1 n d
next_other f p (x ∷ xs) e ys q z w n d = next_other f x xs e ys q z w.1 n d

abbrev next_without : ℕ → (ℕ → ℕ) → (ℕ → ℕ) → ℕ → ℕ
next_without e f g = write e 0 (write (g e) (f e) f)

abbrev prev_without : ℕ → (ℕ → ℕ) → (ℕ → ℕ) → ℕ → ℕ
prev_without e f g = write e 0 (write (f e) (g e) g)

-- The pointer in front of `e` now points behind it, and the other way round.
skip_forth : (f g : ℕ → ℕ) (p e : ℕ) → e ≢ p → g e ≡ p → next_without e f g p ≡ f e
skip_forth f g p e d b =
    write_other e 0 (write (g e) (f e) f) p d ∙ ap (λ y. write y (f e) f p) b ∙ write_same p (f e) f

skip_back : (f g : ℕ → ℕ) (x e : ℕ) → e ≢ x → f e ≡ x → prev_without e f g x ≡ g e
skip_back f g x e d w =
    write_other e 0 (write (f e) (g e) g) x d ∙ ap (λ y. write y (g e) g x) w ∙ write_same x (g e) g

unlink-Forth :
    (f g : ℕ → ℕ) (p : ℕ) (xs : List ℕ) (e : ℕ) (ys : List ℕ) (q : ℕ)
    → Distinct (p ∷ xs ++ e ∷ ys)
    → Forth f p (xs ++ e ∷ ys) q
    → Back g p (xs ++ e ∷ ys) q
    → Forth (next_without e f g) p (xs ++ ys) q
unlink-Forth f g p [] e [] q d w b = skip_forth f g p e (λ x. d.0.0 (sym x)) b.0 ∙ w.1
unlink-Forth f g p [] e (y ∷ ys) q d w b = (
  skip_forth f g p e (λ x. d.0.0 (sym x)) b.0 ∙ w.1.0,
  Forth-write e 0 (write (g e) (f e) f) y ys q d.1.0.0 d.1.0.1 (
      subst (λ z. Forth (write z (f e) f) y ys q) (sym b.0)
        (Forth-write p (f e) f y ys q d.0.1.0 d.0.1.1 w.1.1)),
)
unlink-Forth f g p (x ∷ xs) e ys q d w b =
    let n = NotIn-back p (x ∷ xs) (e ∷ ys) d.0 in
    (
      write_other e 0 (write (g e) (f e) f) p (λ z. n.0 (sym z))
          ∙ write_other (g e) (f e) f p
              (prev_other g x xs e ys q p b.1 (NotIn-front p (x ∷ xs) (e ∷ ys) d.0))
          ∙ w.0,
      unlink-Forth f g x xs e ys q d.1 w.1 b.1,
    )

unlink-Back :
    (f g : ℕ → ℕ) (p : ℕ) (xs : List ℕ) (e : ℕ) (ys : List ℕ) (q : ℕ)
    → Distinct (xs ++ e ∷ ys)
    → NotIn q (xs ++ e ∷ ys)
    → Forth f p (xs ++ e ∷ ys) q
    → Back g p (xs ++ e ∷ ys) q
    → Back (prev_without e f g) p (xs ++ ys) q
unlink-Back f g p [] e [] q d n w b = skip_back f g q e (λ x. n.0 (sym x)) w.1 ∙ b.0
unlink-Back f g p [] e (y ∷ ys) q d n w b = (
  skip_back f g y e d.0.0 w.1.0 ∙ b.0,
  Back-write e 0 (write (f e) (g e) g) y ys q (λ x. n.0 (sym x)) d.0.1
      (subst (λ z. Back (write z (g e) g) y ys q) (sym w.1.0)
        (Back-write y (g e) g y ys q (λ x. n.1.0 (sym x)) d.1.0 b.1.1)),
)
unlink-Back f g p (x ∷ xs) e ys q d n w b =
    let m = NotIn-back x xs (e ∷ ys) d.0 in
    (
      write_other e 0 (write (f e) (g e) g) x (λ z. m.0 (sym z))
          ∙ write_other (f e) (g e) g x (next_other f p (x ∷ xs) e ys q x w m.1 (λ z. n.0 (sym z)))
          ∙ b.0,
      unlink-Back f g x xs e ys q d.1 n.1 w.1 b.1,
    )

-- Where the heap holds a list with the entry `e`, behind `shl_dlist_unlink` it holds the list without it, and
-- both pointers of `e` are null.
pub unlink-Holds :
    (h : Heap) (head : ℕ) (xs : List ℕ) (e : ℕ) (ys : List ℕ)
    → Holds h head (xs ++ e ∷ ys)
    → Holds (unlink e h) head (xs ++ ys) × ((unlink e h).next e ≡ 0) × ((unlink e h).prev e ≡ 0)
unfolding unlink unlink_between
unlink-Holds h head xs e ys w = (
  record {
    forth = unlink-Forth h.next h.prev head xs e ys head w.distinct w.forth w.back;
    back = unlink-Back h.next h.prev head xs e ys head w.distinct.1 w.distinct.0 w.forth w.back;
    distinct = (NotIn-drop head e xs ys w.distinct.0, Distinct-drop e xs ys w.distinct.1);
  },
  write_same e 0 (write (h.prev e) (h.next e) h.next),
  write_same e 0 (write (h.next e) (h.prev e) h.prev),
)
