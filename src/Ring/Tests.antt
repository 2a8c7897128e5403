-- ===== src/Ring/Tests.antt =====
-- Runs of the ring of src/shl_ring.c, and the theorems at concrete inputs.
use openwfd.Common.{ℕ, ◌+◌, ◌^◌, ◌≤◌, ◌<◌, ◌≡◌, refl, inr, Option, none, some, [], ◌∷◌, arith, drop}
use openwfd.Common.Memory.{Status, Bytes, Block, of_list, bytes_of, memcpy}
use openwfd.Ring.{Ring, pow2, resize, grow, push_grown, push_tail, push, pull, copy, length}
use openwfd.Ring.Copy.{IsCopy, copy_lem}
use openwfd.Ring.Pow2.{pow2_lem}
use openwfd.Ring.Pull.{pull_lem}
use openwfd.Ring.Push.{IsPushed, push_lem}
use openwfd.Ring.View.{IsValid, contents}

-- 13, then 10, round the end of the buffer.
abbrev wrapped : Ring
wrapped = record { buf = of_list (10 ∷ 11 ∷ 12 ∷ 13 ∷ []); size = 4; start = 3; end = 1 }

wrapped-IsValid : IsValid wrapped
wrapped-IsValid = record {
  size_pow = inr (2, omega arith, refl);
  buf_cap = refl;
  start_in = omega arith;
  end_in = omega arith;
}

contents-wrapped : contents wrapped ≡ 13 ∷ 10 ∷ []
unfolding length
contents-wrapped = refl

pow2_runs :
    pow2 0 ∷ pow2 1 ∷ pow2 5 ∷ pow2 4097 ∷ pow2 (2 ^ 63 + 1) ∷ [] ≡ 4096 ∷ 1 ∷ 8 ∷ 8192 ∷ 0 ∷ []
unfolding pow2
pow2_runs = refl

abbrev held : Option (Status × Ring) → Bytes
held none = []
held (some (s, r)) = contents r

-- A push that moves the bytes to a larger buffer.
push_runs :
    held (push (some (λ _. 0)) wrapped (of_list (1 ∷ 2 ∷ 3 ∷ [])) 3) ≡ 13 ∷ 10 ∷ 1 ∷ 2 ∷ 3 ∷ []
unfolding push grow resize pow2 push_grown push_tail memcpy length
push_runs = refl

pull_runs : contents (pull wrapped 1) ≡ 10 ∷ []
unfolding pull length
pull_runs = refl

pow2_lem_example : (k : ℕ) × (k ≤ 63) × (pow2 5000 ≡ 2 ^ k) × (5000 ≤ 2 ^ k) × (2 ^ k < 5000 + 5000)
pow2_lem_example = pow2_lem 5000 (omega arith) (omega arith)

push_lem_example :
    (out : Status × Ring) × (push none wrapped (of_list (7 ∷ [])) 1 ≡ some out)
    × IsPushed none wrapped (bytes_of (of_list (7 ∷ [])) 1) out
push_lem_example = push_lem none (of_list (7 ∷ [])) 1 wrapped-IsValid (omega arith) (omega arith)

pull_lem_example :
    IsValid (pull wrapped 1) × (contents (pull wrapped 1) ≡ drop 1 (contents wrapped))
pull_lem_example = pull_lem 1 wrapped-IsValid (omega arith)

copy_lem_example :
    (c : Block) × (n : ℕ) × (copy (some (λ i. i)) wrapped (some 5) ≡ some (some (c, n)))
    × IsCopy wrapped (some 5) c n
    × (copy none wrapped (some 5) ≡ some none)
copy_lem_example = copy_lem (λ i. i) (some 5) wrapped-IsValid
