-- ===== src/P2p/Users/Unlinked.antt =====
-- `owfd_p2pd_interface_unregister_event_fn` of src/p2pd_interface.c on the doubly linked list, and the list of users that
-- it stands for.
use openwfd.Common.{
  ℕ, zero, suc, ◌≡◌, refl, sym, ap, ◌∙◌, inl, inr, true, false, Option, none, some, List, [], ◌∷◌,
  ◌++◌, append_assoc, arith, ◌==◌, if◌then◌else◌, Bool-cases, ==_iff,
}
use mathlib.Core.Path.{subst}
use openwfd.Common.{length}
use openwfd.Dlist.{Heap, unlink}
use openwfd.Dlist.Chain.{Forth, NotIn, Holds}
use openwfd.Dlist.Unlink.{unlink-Holds}
use openwfd.P2p.Users.{User, is_user, unregister}

-- The function on the heap, from `iter` on; `users` is what stands around each entry, and `none` says that more
-- than `fuel` rounds are needed.
unfoldable pub unregister_at : ℕ → ℕ → ℕ → (ℕ → User) → ℕ → ℕ → Heap → Option Heap
unregister_at zero fn d users head iter h = none
unregister_at (suc fuel) fn d users head iter h =
    let rest = unregister_at fuel fn d users head (h.next iter) h in
    if iter == head
    then some h
    else if is_user fn d (users iter)
    then some (unlink iter h)
    else rest

abbrev pub users_of : (ℕ → User) → List ℕ → List User
users_of users [] = []
users_of users (x ∷ xs) = users x ∷ users_of users xs

users_of-append :
    (users : ℕ → User) (xs ys : List ℕ)
    → users_of users (xs ++ ys) ≡ users_of users xs ++ users_of users ys
users_of-append users [] ys = refl
users_of-append users (x ∷ xs) ys = ap (λ l. users x ∷ l) (users_of-append users xs ys)

-- The heap behind the function, from the entries `as'` on that it has passed.
pub record Unregistered (fn d : ℕ) (users : ℕ → User) (head : ℕ) (front xs : List ℕ)
    (o : Option Heap) : Type 0 where
  pub heap : Heap
  pub returned : o ≡ some heap
  pub entries : List ℕ
  pub holds : Holds heap head (front ++ entries)
  pub same_users : users_of users entries ≡ unregister fn d (users_of users xs)

at_end :
    (fuel fn d : ℕ) (users : ℕ → User) (head iter : ℕ) (h : Heap)
    → iter ≡ head
    → unregister_at (suc fuel) fn d users head iter h ≡ some h
unfolding unregister_at
at_end fuel fn d users head iter h e = rw (unregister_at, (==_iff iter head).1 e)

at_user :
    (fuel fn d : ℕ) (users : ℕ → User) (head iter : ℕ) (h : Heap)
    → (iter == head) ≡ false
    → is_user fn d (users iter) ≡ true
    → unregister_at (suc fuel) fn d users head iter h ≡ some (unlink iter h)
unfolding unregister_at
at_user fuel fn d users head iter h e f = rw (unregister_at, e, f)

at_other :
    (fuel fn d : ℕ) (users : ℕ → User) (head iter : ℕ) (h : Heap)
    → (iter == head) ≡ false
    → is_user fn d (users iter) ≡ false
    → unregister_at (suc fuel) fn d users head iter h
      ≡ unregister_at fuel fn d users head (h.next iter) h
unfolding unregister_at
at_other fuel fn d users head iter h e f = rw (unregister_at, e, f)

unregister_yes :
    (fn d : ℕ) (u : User) (us : List User) → is_user fn d u ≡ true → unregister fn d (u ∷ us) ≡ us
unfolding unregister
unregister_yes fn d u us h = ap (λ b. if b then us else u ∷ unregister fn d us) h

unregister_no :
    (fn d : ℕ) (u : User) (us : List User)
    → is_user fn d u ≡ false
    → unregister fn d (u ∷ us) ≡ u ∷ unregister fn d us
unfolding unregister
unregister_no fn d u us h = ap (λ b. if b then us else u ∷ unregister fn d us) h

nobody : (fn d : ℕ) → [] ≡ unregister fn d []
unfolding unregister
nobody fn d = refl

NotIn-append : (z : ℕ) (xs ys : List ℕ) → NotIn z (xs ++ ys) → NotIn z ys
NotIn-append z [] ys n = n
NotIn-append z (x ∷ xs) ys n = NotIn-append z xs ys n.1

unregister_from :
    (fn d : ℕ) (users : ℕ → User) (head p : ℕ) (front xs : List ℕ) (h : Heap)
    → Holds h head (front ++ xs)
    → Forth h.next p xs head
    → Unregistered fn d users head front xs
        (unregister_at (suc (length xs)) fn d users head (h.next p) h)
unregister_from fn d users head p front [] h w f = record {
  heap = h;
  returned = at_end 0 fn d users head (h.next p) h f;
  entries = [];
  holds = w;
  same_users = nobody fn d;
}
unregister_from fn d users head p front (x ∷ xs) h w f =
    let n = NotIn-append head front (x ∷ xs) w.distinct.0 in
    let differ : (x == head) ≡ false = ground (arith, n.0) in
    let here = ap (λ y. unregister_at (suc (suc (length xs))) fn d users head y h) f.0 in
    elim (Bool-cases (is_user fn d (users x))) [
      | inl e ↦ record {
        heap = unlink x h;
        returned = here ∙ at_user (suc (length xs)) fn d users head x h differ e;
        entries = xs;
        holds = (unlink-Holds h head front x xs w).0;
        same_users = sym (unregister_yes fn d (users x) (users_of users xs) e);
      }
      | inr e ↦
          let more =
            unregister_from fn d users head x (front ++ x ∷ []) xs h
              (subst (Holds h head) (sym (append_assoc front (x ∷ []) xs)) w) f.1 in
          record {
            heap = more.heap;
            returned =
                here ∙ at_other (suc (length xs)) fn d users head x h differ e ∙ more.returned;
            entries = x ∷ more.entries;
            holds =
                subst (Holds more.heap head) (append_assoc front (x ∷ []) more.entries) more.holds;
            same_users =
                ap (λ l. users x ∷ l) more.same_users
                ∙ sym (unregister_no fn d (users x) (users_of users xs) e);
          }
    ]

-- Over a heap that holds the list of users at `head`, the loop of `owfd_p2pd_interface_unregister_event_fn` ends within as
-- many rounds as there are entries, and one; behind it the heap holds a list whose users are those of the model
-- that is a plain list: without the first one with this function and this pointer.
pub unregister_at-Unregistered :
    (fn d : ℕ) (users : ℕ → User) (head : ℕ) (xs : List ℕ) (h : Heap)
    → Holds h head xs
    → Unregistered fn d users head [] xs
        (unregister_at (suc (length xs)) fn d users head (h.next head) h)
unregister_at-Unregistered fn d users head xs h w =
    unregister_from fn d users head head [] xs h w w.forth
