-- ===== src/Common/Strings.antt =====
-- Strings one behind the other in a buffer, as the tokenizers leave them.
use Prim.Native.Nat.{ℕ, zero, suc, ◌+◌, ◌≤◌}
use mathlib.Core.Path.{◌≡◌, refl, ◌∙◌}
use mathlib.Core.Logic.{◌≢◌, inl, inr}
use mathlib.Core.Bool.{Bool, true, false}
use mathlib.Core.Option.{Option, none, some}
use mathlib.Core.List.{[], ◌∷◌, reverse, reverse_aux}
use native.Mathlib.Omega.{arith}
use openwfd.Common.Tests.{◌==◌, if◌then◌else◌, Bool-cases}
use openwfd.Common.Lists.{length}
use openwfd.Common.Memory.{Bytes}

abbrev pub zeros : Bytes → ℕ
zeros [] = 0
zeros (c ∷ cs) = if c == 0 then suc (zeros cs) else zeros cs

-- The newest byte, if there is one, ends a token.
abbrev pub at_start : Bytes → Bool
at_start [] = true
at_start (c ∷ cs) = c == 0

pub zeros_bound : (w : Bytes) → zeros w ≤ length w
zeros_bound [] = omega arith
zeros_bound (c ∷ cs) = ground (arith, zeros_bound cs)

pub none-some : {A : Type 0} {x : A} → none ≢ some x
none-some e = cc

-- A client's walk over `n` strings that end in zeros, each found with `strlen`; `none` is a read
-- behind the output.
unfoldable pub skip_strings : ℕ → Bytes → Option Bytes
skip_strings zero s = some s
skip_strings (suc n) [] = none
skip_strings (suc n) (c ∷ cs) = if c == 0 then skip_strings n cs else skip_strings (suc n) cs

abbrev pub ends_in_zero : Bytes → Bool
ends_in_zero [] = true
ends_in_zero (c ∷ []) = c == 0
ends_in_zero (c ∷ d ∷ cs) = ends_in_zero (d ∷ cs)

pub zeros-reverse_aux : (w acc : Bytes) → zeros (reverse_aux w acc) ≡ zeros w + zeros acc
zeros-reverse_aux [] acc = omega arith
zeros-reverse_aux (c ∷ w) acc = ground (arith, zeros-reverse_aux w (c ∷ acc))

pub length-reverse_aux : (w acc : Bytes) → length (reverse_aux w acc) ≡ length w + length acc
length-reverse_aux [] acc = omega arith
length-reverse_aux (c ∷ w) acc = omega (arith, length-reverse_aux w (c ∷ acc))

ends-reverse_aux :
    (w : Bytes) (c : ℕ) (acc : Bytes)
    → ends_in_zero (reverse_aux w (c ∷ acc)) ≡ ends_in_zero (c ∷ acc)
ends-reverse_aux [] c acc = refl
ends-reverse_aux (d ∷ w) c acc = ends-reverse_aux w d (c ∷ acc)

pub ends-reverse : (w : Bytes) → at_start w ≡ true → ends_in_zero (reverse w) ≡ true
ends-reverse [] h = refl
ends-reverse (c ∷ w) h = ends-reverse_aux w c [] ∙ h

ends_zeros : (c : ℕ) (cs : Bytes) → ends_in_zero (c ∷ cs) ≡ true → 1 ≤ zeros (c ∷ cs)
ends_zeros c [] h = ground arith
ends_zeros c (d ∷ cs) h = ground (arith, ends_zeros d cs h)

skip_strings-cons :
    (n c : ℕ) (s : Bytes) → (c == 0) ≡ false → 1 ≤ n → skip_strings n (c ∷ s) ≡ skip_strings n s
unfolding skip_strings
skip_strings-cons zero c s e h = absurd (omega arith)
skip_strings-cons (suc n) c s e h = rw e

pub skip_strings_lem : (s : Bytes) → ends_in_zero s ≡ true → skip_strings (zeros s) s ≡ some []
unfolding skip_strings
skip_strings_lem [] h = refl
skip_strings_lem (c ∷ []) h = rw (h, h)
skip_strings_lem (c ∷ d ∷ cs) h = elim (Bool-cases (c == 0)) [
  | inl e ↦ rw (e, e) (skip_strings_lem (d ∷ cs) h)
  | inr e ↦ rw e (
      skip_strings-cons (zeros (d ∷ cs)) c (d ∷ cs) e (ends_zeros d cs h)
      ∙ skip_strings_lem (d ∷ cs) h)
]

-- The string at a pointer, and the buffer behind its zero.
unfoldable pub next_string : Bytes → Option (Bytes × Bytes)
next_string [] = none
next_string (c ∷ cs) =
    if c == 0
    then some ([], cs)
    else elim (next_string cs) [ none ↦ none | some (s, rest) ↦ some (c ∷ s, rest) ]

-- One string of a walk.
pub record Next (n : ℕ) (s : Bytes) : Type 0 where
  pub string : Bytes
  pub rest : Bytes
  pub taken : next_string s ≡ some (string, rest)
  pub left : skip_strings n rest ≡ some []

pub next_string_lem : (n : ℕ) (s : Bytes) → skip_strings (suc n) s ≡ some [] → Next n s
unfolding next_string skip_strings
next_string_lem n [] h = absurd (none-some h)
next_string_lem n (c ∷ cs) h = elim (Bool-cases (c == 0)) [
  | inl e ↦ record { string = []; rest = cs; taken = rw e; left = ground (arith, h) }
  | inr e ↦
      let r = next_string_lem n cs (ground (arith, h)) in
      record { string = c ∷ r.string; rest = r.rest; taken = rw (e, r.taken); left = r.left }
]
