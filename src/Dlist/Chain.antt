-- ===== src/Dlist/Chain.antt =====
-- What a list of src/shl_dlist.h stands for, and that `shl_dlist_link` puts an entry in front.
use openwfd.Common.{ℕ, ◌≡◌, sym, ap, ◌∙◌, ◌≢◌, List, [], ◌∷◌, arith, ==_refl}
use mathlib.Core.Path.{subst}
use openwfd.Dlist.{Heap, write, init, link_between, link}

-- From `p` through `xs` to `q`, by `next`.
abbrev pub Forth : (ℕ → ℕ) → ℕ → List ℕ → ℕ → Type 0
Forth f p [] q = f p ≡ q
Forth f p (x ∷ xs) q = (f p ≡ x) × Forth f x xs q

-- The same way back, by `prev`.
abbrev pub Back : (ℕ → ℕ) → ℕ → List ℕ → ℕ → Type 0
Back g p [] q = g q ≡ p
Back g p (x ∷ xs) q = (g x ≡ p) × Back g x xs q

abbrev pub NotIn : ℕ → List ℕ → Type 0
NotIn a [] = Unit
NotIn a (x ∷ xs) = (a ≢ x) × NotIn a xs

abbrev pub Distinct : List ℕ → Type 0
Distinct [] = Unit
Distinct (x ∷ xs) = NotIn x xs × Distinct xs

-- The heap holds the list of the entries `xs` at `head`, both ways round.
pub record Holds (h : Heap) (head : ℕ) (xs : List ℕ) : Type 0 where
  pub forth : Forth h.next head xs head
  pub back : Back h.prev head xs head
  pub distinct : Distinct (head ∷ xs)

pub write_same : (a v : ℕ) (f : ℕ → ℕ) → write a v f a ≡ v
write_same a v f = rw (==_refl a)

pub write_other : (a v : ℕ) (f : ℕ → ℕ) (p : ℕ) → a ≢ p → write a v f p ≡ f p
write_other a v f p n = ground (arith, n)

-- A write elsewhere leaves the way as it is.
pub Forth-write :
    (a v : ℕ) (f : ℕ → ℕ) (p : ℕ) (xs : List ℕ) (q : ℕ)
    → a ≢ p
    → NotIn a xs
    → Forth f p xs q
    → Forth (write a v f) p xs q
Forth-write a v f p [] q n m h = write_other a v f p n ∙ h
Forth-write a v f p (x ∷ xs) q n m h =
    (write_other a v f p n ∙ h.0, Forth-write a v f x xs q m.0 m.1 h.1)

pub Back-write :
    (a v : ℕ) (g : ℕ → ℕ) (p : ℕ) (xs : List ℕ) (q : ℕ)
    → a ≢ q
    → NotIn a xs
    → Back g p xs q
    → Back (write a v g) p xs q
Back-write a v g p [] q n m h = write_other a v g q n ∙ h
Back-write a v g p (x ∷ xs) q n m h =
    (write_other a v g x m.0 ∙ h.0, Back-write a v g x xs q n m.1 h.1)

pub init-Holds : (head : ℕ) (h : Heap) → Holds (init head h) head []
unfolding init
init-Holds head h = record {
  forth = write_same head head h.next;
  back = write_same head head h.prev;
  distinct = (tt, tt);
}

link-Forth :
    (f : ℕ → ℕ) (head n : ℕ) (xs : List ℕ)
    → n ≢ head
    → NotIn n xs
    → NotIn head xs
    → Forth f head xs head
    → Forth (write head n (write n (f head) f)) head (n ∷ xs) head
link-Forth f head n [] d m k h = (
  write_same head n (write n (f head) f),
  write_other head n (write n (f head) f) n (λ e. d (sym e)) ∙ write_same n (f head) f ∙ h,
)
link-Forth f head n (x ∷ xs) d m k h = (
  write_same head n (write n (f head) f),
  (
    write_other head n (write n (f head) f) n (λ e. d (sym e)) ∙ write_same n (f head) f ∙ h.0,
    Forth-write head n (write n (f head) f) x xs head k.0 k.1
        (Forth-write n (f head) f x xs head m.0 m.1 h.1),
  ),
)

link-Back :
    (g : ℕ → ℕ) (head n : ℕ) (xs : List ℕ) (f : ℕ → ℕ)
    → n ≢ head
    → NotIn n xs
    → Distinct (head ∷ xs)
    → Forth f head xs head
    → Back g head xs head
    → Back (write n head (write (f head) n g)) head (n ∷ xs) head
link-Back g head n [] f d m k w h = (
  write_same n head (write (f head) n g),
  write_other n head (write (f head) n g) head d
      ∙ ap (λ y. write y n g head) w
      ∙ write_same head n g,
)
link-Back g head n (x ∷ xs) f d m k w h = (
  write_same n head (write (f head) n g),
  (
    write_other n head (write (f head) n g) x m.0 ∙ ap (λ y. write y n g x) w.0 ∙ write_same x n g,
    Back-write n head (write (f head) n g) x xs head d m.1 (
        subst (λ y. Back (write y n g) x xs head) (sym w.0)
          (Back-write x n g x xs head (λ e. k.0.0 (sym e)) k.1.0 h.1)),
  ),
)

-- Where the heap holds a list and `n` is neither the head nor an entry, behind `shl_dlist_link` it holds the
-- list with `n` in front.
pub link-Holds :
    (h : Heap) (head n : ℕ) (xs : List ℕ)
    → n ≢ head
    → NotIn n xs
    → Holds h head xs
    → Holds (link head n h) head (n ∷ xs)
unfolding link link_between
link-Holds h head n xs d m w = record {
  forth = link-Forth h.next head n xs d m w.distinct.0 w.forth;
  back = link-Back h.prev head n xs h.next d m w.distinct w.forth w.back;
  distinct = (((λ e. d (sym e)), w.distinct.0), (m, w.distinct.1));
}
