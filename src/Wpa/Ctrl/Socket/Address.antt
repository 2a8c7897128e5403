-- ===== src/Wpa/Ctrl/Socket/Address.antt =====
-- The address that `connect_socket` of src/wpa_ctrl.c fills in.
use openwfd.Common.{
  ℕ, zero, suc, ◌+◌, ◌-◌, ◌≤◌, ◌<◌, ◌≡◌, refl, sym, ap, ◌∙◌, ◌≢◌, inl, inr, Bool, true, false, ◌&&◌,
  Option, none, some, [], ◌∷◌, ◌++◌, arith, ltb, ◌==◌, if◌then◌else◌, Bool-cases, ltb→lt, ltb→ge,
  ==_iff,
}
use mathlib.Core.Path.{subst}
use openwfd.Common.{length, drop, length-append, length-drop}
use openwfd.Common.Memory.{Bytes}
use openwfd.Common.Text.{codes, starts_with}
use openwfd.Wpa.Ctrl.Socket.{path_max, strncpy, sun_path}

-- A string in front of the first zero of a field.
abbrev pub until_zero : Bytes → Bytes
until_zero [] = []
until_zero (c ∷ cs) = if c == 0 then [] else c ∷ until_zero cs

-- How an address names a socket: with a zero in front, an abstract name.
abbrev pub path_of : Bytes → Bytes
path_of [] = []
path_of (c ∷ cs) = if c == 0 then codes "@abstract:" ++ until_zero cs else until_zero (c ∷ cs)

abbrev pub NoZero : Bytes → Type 0
NoZero [] = Unit
NoZero (c ∷ cs) = (c ≢ 0) × NoZero cs

length-strncpy : (n : ℕ) (s : Bytes) → length (strncpy n s) ≡ n
unfolding strncpy
length-strncpy zero s = refl
length-strncpy (suc n) [] = omega (arith, length-strncpy n [])
length-strncpy (suc n) (c ∷ cs) = omega (arith, length-strncpy n cs)

until_zero-cons : (c : ℕ) (cs : Bytes) → c ≢ 0 → until_zero (c ∷ cs) ≡ c ∷ until_zero cs
until_zero-cons c cs h = ground (arith, h)

until_zero-strncpy :
    (n : ℕ) (s : Bytes) → length s ≤ n → NoZero s → until_zero (strncpy n s ++ 0 ∷ []) ≡ s
unfolding strncpy
until_zero-strncpy zero [] h z = refl
until_zero-strncpy (suc n) [] h z = refl
until_zero-strncpy zero (c ∷ cs) h z = absurd (omega arith)
until_zero-strncpy (suc n) (c ∷ cs) h z =
    until_zero-cons c (strncpy n cs ++ 0 ∷ []) z.0
    ∙ ap (λ l. c ∷ l) (until_zero-strncpy n cs (omega arith) z.1)

and_split : (a b : Bool) → (a && b) ≡ true → (a ≡ true) × (b ≡ true)
and_split true b h = (refl, h)
and_split false b h = absurd (ground (arith, h))

starts_with-split : (q s : Bytes) → starts_with q s ≡ true → q ++ drop (length q) s ≡ s
unfolding starts_with
starts_with-split [] s h = refl
starts_with-split (p ∷ ps) [] h = absurd (ground (arith, h))
starts_with-split (p ∷ ps) (c ∷ cs) h =
    let e : (p == c ≡ true) × (starts_with ps cs ≡ true) =
      and_split (p == c) (starts_with ps cs) h in
    ap (λ x. x ∷ ps ++ drop (length ps) cs) ((==_iff p c).0 e.0)
    ∙ ap (λ l. c ∷ l) (starts_with-split ps cs e.1)

NoZero-drop : (n : ℕ) (s : Bytes) → NoZero s → NoZero (drop n s)
NoZero-drop zero s z = z
NoZero-drop (suc n) [] z = z
NoZero-drop (suc n) (c ∷ cs) z = NoZero-drop n cs z.1

path_of-plain : (c : ℕ) (cs : Bytes) → c ≢ 0 → path_of (c ∷ cs) ≡ until_zero (c ∷ cs)
path_of-plain c cs h = ground (arith, h)

-- An address of a path.
pub record AddressOf (path a : Bytes) : Type 0 where
  pub fits : length a ≡ path_max
  pub stands_for : path_of a ≡ path

plain-AddressOf :
    (c : ℕ) (cs : Bytes)
    → NoZero (c ∷ cs)
    → length (c ∷ cs) ≤ path_max - 1
    → AddressOf (c ∷ cs) (strncpy (path_max - 1) (c ∷ cs) ++ 0 ∷ [])
unfolding strncpy
plain-AddressOf c cs z h = record {
  fits =
      length-append (strncpy 107 (c ∷ cs)) (0 ∷ []) ∙ ap (λ n. n + 1) (length-strncpy 107 (c ∷ cs));
  stands_for = path_of-plain c (strncpy 106 cs ++ 0 ∷ []) z.0 ∙ until_zero-strncpy 107 (c ∷ cs) h z;
}

abstract-AddressOf :
    (path : Bytes)
    → starts_with (codes "@abstract:") path ≡ true
    → NoZero path
    → length path ≤ path_max - 2
    → AddressOf path (0 ∷ strncpy (path_max - 2) (drop 10 path) ++ 0 ∷ [])
abstract-AddressOf path s z h = record {
  fits = ap suc (
      length-append (strncpy 106 (drop 10 path)) (0 ∷ [])
      ∙ ap (λ n. n + 1) (length-strncpy 106 (drop 10 path)));
  stands_for =
      ap (λ l. codes "@abstract:" ++ l)
        (until_zero-strncpy 106 (drop 10 path) (omega (arith, length-drop 10 path))
          (NoZero-drop 10 path z))
      ∙ starts_with-split (codes "@abstract:") path s;
}

-- The longest path that has an address.
abbrev pub limit : Bytes → ℕ
limit path = if starts_with (codes "@abstract:") path then path_max - 2 else path_max - 1

abbrev pub Addressed : Bytes → Option Bytes → Type 0
Addressed path none = limit path < length path
Addressed path (some a) = AddressOf path a

too_long :
    (path : Bytes) (b : Bool)
    → starts_with (codes "@abstract:") path ≡ b
    → (if b then path_max - 2 else path_max - 1) < length path
    → limit path < length path
too_long path b s h =
    subst (λ x. (if x then path_max - 2 else path_max - 1) < length path) (sym s) h

-- A path that is not empty and has no zero in it has an address, or is too long: longer than 106 bytes
-- for an abstract name with its prefix, than 107 bytes for a file. The address fills `sun_path`, ends
-- the name with a zero and stands for that path, whole.
pub sun_path-Addressed :
    (c : ℕ) (cs : Bytes) → NoZero (c ∷ cs) → Addressed (c ∷ cs) (sun_path (c ∷ cs))
unfolding sun_path
sun_path-Addressed c cs z = elim (Bool-cases (starts_with (codes "@abstract:") (c ∷ cs))) [
  | inl s ↦ elim (Bool-cases (ltb 106 (length (c ∷ cs)))) [
    | inl t ↦ rw (sun_path, s, t) (too_long (c ∷ cs) true s (ltb→lt 106 (length (c ∷ cs)) t))
    | inr t ↦ rw (sun_path, s, t) (abstract-AddressOf (c ∷ cs) s z (ltb→ge 106 (length (c ∷ cs)) t))
  ]
  | inr s ↦ elim (Bool-cases (ltb 107 (length (c ∷ cs)))) [
    | inl t ↦ rw (sun_path, s, t) (too_long (c ∷ cs) false s (ltb→lt 107 (length (c ∷ cs)) t))
    | inr t ↦ rw (sun_path, s, t) (plain-AddressOf c cs z (ltb→ge 107 (length (c ∷ cs)) t))
  ]
]
