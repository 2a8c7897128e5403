-- ===== src/Wpa/Search.antt =====
-- Byte strings in the order of `strcmp`, and the binary search of the C library.
use openwfd.Common.{
  ℕ, zero, suc, ◌+◌, ◌/◌, ◌≤◌, ◌<◌, ◌≡◌, refl, sym, ap, ◌∙◌, ◌≢◌, inl, inr, false, Option, none,
  some, [], ◌∷◌, arith, ltb, if◌then◌else◌, Bool-cases, ltb→lt, ltb→ge,
}
use Prim.Native.Nat.{Ordering, compare}
use Prim.Native.Nat.Ordering.{lt, eq, gt}
use openwfd.Common.Memory.{Bytes}

unfoldable pub lex : Bytes → Bytes → Ordering
lex [] [] = eq
lex [] (n ∷ ns) = lt
lex (c ∷ cs) [] = gt
lex (c ∷ cs) (n ∷ ns) = let rest = lex cs ns in elim (compare c n) [ lt ↦ lt | eq ↦ rest | gt ↦ gt ]

-- `bsearch` between the indices `l` and `u`, with the comparison of the key and an entry.
unfoldable pub bsearch : ℕ → (ℕ → Ordering) → ℕ → ℕ → Option ℕ
bsearch zero f l u = none
bsearch (suc fuel) f l u =
    let below = bsearch fuel f l ((l + u) / 2) in
    let above = bsearch fuel f ((l + u) / 2 + 1) u in
    if ltb l u
    then elim (f ((l + u) / 2)) [ lt ↦ below | eq ↦ some ((l + u) / 2) | gt ↦ above ]
    else none

pub lex_trans : (w a b : Bytes) → lex w a ≡ lt → lex a b ≡ lt → lex w b ≡ lt
unfolding lex
lex_trans [] [] b p q = q
lex_trans [] (x ∷ a) [] p q = absurd (ground (arith, q))
lex_trans [] (x ∷ a) (y ∷ b) p q = refl
lex_trans (c ∷ w) [] b p q = absurd (ground (arith, p))
lex_trans (c ∷ w) (x ∷ a) [] p q = absurd (ground (arith, q))
lex_trans (c ∷ w) (x ∷ a) (y ∷ b) p q = ground (arith, lex_trans w a b)

pub lex-gt : (w a b : Bytes) → lex a b ≡ lt → lex w b ≡ gt → lex w a ≡ gt
unfolding lex
lex-gt w [] [] p q = q
lex-gt [] [] (y ∷ b) p q = absurd (ground (arith, q))
lex-gt (c ∷ w) [] (y ∷ b) p q = refl
lex-gt w (x ∷ a) [] p q = absurd (ground (arith, p))
lex-gt [] (x ∷ a) (y ∷ b) p q = absurd (ground (arith, q))
lex-gt (c ∷ w) (x ∷ a) (y ∷ b) p q = ground (arith, lex-gt w a b)

pub lex-eq : (w a : Bytes) → lex w a ≡ eq → w ≡ a
unfolding lex
lex-eq [] [] p = refl
lex-eq [] (x ∷ a) p = absurd (ground (arith, p))
lex-eq (c ∷ w) [] p = absurd (ground (arith, p))
lex-eq (c ∷ w) (x ∷ a) p =
    let same : c ≡ x = ground (arith, p) in
    let rest : lex w a ≡ eq = ground (arith, p) in rw (same, lex-eq w a rest)

pub lex_refl : (w : Bytes) → lex w w ≡ eq
unfolding lex
lex_refl [] = refl
lex_refl (c ∷ w) = ground (arith, lex_refl w)

data Compared (o : Ordering) : Type 0 where
  less : o ≡ lt → Compared o
  same : o ≡ eq → Compared o
  more : o ≡ gt → Compared o

compared : (o : Ordering) → Compared o
compared lt = less refl
compared eq = same refl
compared gt = more refl

-- The binary search at each answer of the comparison in the middle.
data Searched (fuel : ℕ) (f : ℕ → Ordering) (l u : ℕ) (r : Option ℕ) : Type 0 where
  stopped : ltb l u ≡ false → r ≡ none → Searched fuel f l u r
  lower : l < u → f ((l + u) / 2) ≡ lt → r ≡ bsearch fuel f l ((l + u) / 2) → Searched fuel f l u r
  found : l < u → f ((l + u) / 2) ≡ eq → r ≡ some ((l + u) / 2) → Searched fuel f l u r
  upper :
      l < u → f ((l + u) / 2) ≡ gt → r ≡ bsearch fuel f ((l + u) / 2 + 1) u → Searched fuel f l u r

searched : (fuel : ℕ) (f : ℕ → Ordering) (l u : ℕ) → Searched fuel f l u (bsearch (suc fuel) f l u)
unfolding bsearch
searched fuel f l u = elim (Bool-cases (ltb l u)) [
  | inr h ↦ stopped h (rw h)
  | inl h ↦ elim (compared (f ((l + u) / 2))) [
    | less o ↦ lower (ltb→lt l u h) o (rw (h, o))
    | same o ↦ found (ltb→lt l u h) o (rw (h, o))
    | more o ↦ upper (ltb→lt l u h) o (rw (h, o))
  ]
]

some-none : {A : Type 0} {x : A} → some x ≢ none
some-none e = cc

-- A comparison that falls along the first `n` entries.
pub record Falls (f : ℕ → Ordering) (n : ℕ) : Type 0 where
  pub stay_lt : (i j : ℕ) → i < j → j < n → f i ≡ lt → f j ≡ lt
  pub stay_gt : (i j : ℕ) → i < j → j < n → f j ≡ gt → f i ≡ gt

lt-eq : {o : Ordering} → o ≡ lt → o ≢ eq
lt-eq p q = let e : lt ≡ eq = sym p ∙ q in absurd (ground (arith, e))

gt-eq : {o : Ordering} → o ≡ gt → o ≢ eq
gt-eq p q = let e : gt ≡ eq = sym p ∙ q in absurd (ground (arith, e))

none_from : (f : ℕ → Ordering) (n m i : ℕ) → Falls f n → f m ≡ lt → m ≤ i → i < n → f i ≢ eq
none_from f n m i h o p q = elim (Bool-cases (ltb m i)) [
  | inl e ↦ lt-eq (h.stay_lt m i (ltb→lt m i e) q o)
  | inr e ↦ let same : m ≡ i = omega (arith, ltb→ge m i e) in lt-eq (ap f (sym same) ∙ o)
]

none_up_to : (f : ℕ → Ordering) (n m i : ℕ) → Falls f n → f m ≡ gt → i ≤ m → m < n → f i ≢ eq
none_up_to f n m i h o p q = elim (Bool-cases (ltb i m)) [
  | inl e ↦ gt-eq (h.stay_gt i m (ltb→lt i m e) q o)
  | inr e ↦ let same : m ≡ i = omega (arith, ltb→ge i m e) in gt-eq (ap f (sym same) ∙ o)
]

pub bsearch-some :
    (fuel : ℕ) (f : ℕ → Ordering) (l u i : ℕ) → bsearch fuel f l u ≡ some i → f i ≡ eq × i < u
unfolding bsearch
bsearch-some zero f l u i e = absurd (some-none (sym e))
bsearch-some (suc fuel) f l u i e = elim (searched fuel f l u) [
  | stopped h r ↦ absurd (some-none (sym e ∙ r))
  | lower h o r ↦ let (p, q) = bsearch-some fuel f l ((l + u) / 2) i (sym r ∙ e) in (p, omega arith)
  | found h o r ↦ let same : (l + u) / 2 ≡ i = cc in (ap f (sym same) ∙ o, omega arith)
  | upper h o r ↦ bsearch-some fuel f ((l + u) / 2 + 1) u i (sym r ∙ e)
]

pub bsearch-none :
    (fuel : ℕ) (f : ℕ → Ordering) (n l u i : ℕ)
    → Falls f n
    → u ≤ l + fuel
    → u ≤ n
    → l ≤ i
    → i < u
    → bsearch fuel f l u ≡ none
    → f i ≢ eq
bsearch-none zero f n l u i m h b p q e = absurd (omega arith)
bsearch-none (suc fuel) f n l u i m h b p q e = elim (searched fuel f l u) [
  | stopped x r ↦ absurd (ground (arith, x))
  | lower x o r ↦ elim (Bool-cases (ltb i ((l + u) / 2))) [
    | inl y ↦
        bsearch-none fuel f n l ((l + u) / 2) i m (omega arith) (omega arith) p
          (ltb→lt i ((l + u) / 2) y) (sym r ∙ e)
    | inr y ↦ none_from f n ((l + u) / 2) i m o (ltb→ge i ((l + u) / 2) y) (omega arith)
  ]
  | found x o r ↦ absurd (some-none (sym r ∙ e))
  | upper x o r ↦ elim (Bool-cases (ltb ((l + u) / 2) i)) [
    | inl y ↦
        bsearch-none fuel f n ((l + u) / 2 + 1) u i m (omega arith) b
          (omega (arith, ltb→lt ((l + u) / 2) i y)) q (sym r ∙ e)
    | inr y ↦ none_up_to f n ((l + u) / 2) i m o (ltb→ge ((l + u) / 2) i y) (omega arith)
  ]
]
