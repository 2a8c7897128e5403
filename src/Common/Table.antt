-- ===== src/Common/Table.antt =====
-- Lists read off a function on indices: what a piece of memory holds.
use Prim.Native.Nat.{ℕ, zero, suc, ◌+◌, ◌-◌, ◌≤◌, ◌<◌}
use mathlib.Core.Path.{◌≡◌, refl, ap, ap₂, ◌∙◌}
use mathlib.Core.List.{List, [], ◌∷◌, ◌++◌}
use native.Mathlib.Omega.{arith}
use openwfd.Common.Lists.{length, get_or, take, drop}

module _ {ℓ} {A : Type ℓ} where
  abbrev pub table : ℕ → (ℕ → A) → List A
  table zero f = []
  table (suc n) f = f 0 ∷ table n (λ i. f (suc i))

  pub length-table : (n : ℕ) (f : ℕ → A) → length (table n f) ≡ n
  length-table zero f = refl
  length-table (suc n) f = ap suc (length-table n (λ i. f (suc i)))

  pub table-cong :
      (n m : ℕ) (f g : ℕ → A) → n ≡ m → ((i : ℕ) → i < n → f i ≡ g i) → table n f ≡ table m g
  table-cong zero zero f g e h = refl
  table-cong zero (suc m) f g e h = absurd (omega arith)
  table-cong (suc n) zero f g e h = absurd (omega arith)
  table-cong (suc n) (suc m) f g e h = ap₂ ◌∷◌ (h 0 (omega arith)) (
      table-cong n m (λ i. f (suc i)) (λ i. g (suc i)) (omega arith)
        (λ i p. h (suc i) (omega arith)))

  pub table-append :
      (n m k : ℕ) (f : ℕ → A) → k ≡ n + m → table k f ≡ table n f ++ table m (λ i. f (n + i))
  table-append zero m k f e =
      table-cong k m f (λ i. f (0 + i)) (omega arith) (λ i p. ap f (omega arith))
  table-append (suc n) m zero f e = absurd (omega arith)
  table-append (suc n) m (suc k) f e = ap (◌∷◌ (f 0)) (
      table-append n m k (λ i. f (suc i)) (omega arith)
      ∙ ap (λ t. table n (λ i. f (suc i)) ++ t)
          (table-cong m m (λ i. f (suc (n + i))) (λ i. f (suc n + i)) refl
            (λ i p. ap f (omega arith))))

  pub table-get_or : (xs : List A) (d : A) → table (length xs) (λ i. get_or xs i d) ≡ xs
  table-get_or [] d = refl
  table-get_or (x ∷ xs) d = ap (◌∷◌ x) (table-get_or xs d)

  pub drop-table : (k n : ℕ) (f : ℕ → A) → drop k (table n f) ≡ table (n - k) (λ i. f (k + i))
  drop-table zero n f =
      table-cong n (n - 0) f (λ i. f (0 + i)) (omega arith) (λ i p. ap f (omega arith))
  drop-table (suc k) zero f =
      table-cong 0 (0 - suc k) f (λ i. f (suc k + i)) (omega arith) (λ i p. absurd (omega arith))
  drop-table (suc k) (suc n) f =
      drop-table k n (λ i. f (suc i))
      ∙ table-cong (n - k) (suc n - suc k) (λ i. f (suc (k + i))) (λ i. f (suc k + i)) (omega arith)
          (λ i p. ap f (omega arith))

  pub take-table : (k n : ℕ) (f : ℕ → A) → k ≤ n → take k (table n f) ≡ table k f
  take-table zero n f h = refl
  take-table (suc k) zero f h = absurd (omega arith)
  take-table (suc k) (suc n) f h = ap (◌∷◌ (f 0)) (take-table k n (λ i. f (suc i)) (omega arith))
