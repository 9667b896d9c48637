-- ===== src/Prelude/Memory.antt =====
-- Byte memory as a list: reading and overwriting a stretch of it.
use Prim.Native.Nat.{ℕ, zero, suc, ◌+◌, ◌≤◌}
use mathlib.Core.Path.{◌≡◌, refl, ap}
use mathlib.Core.List.{List, [], ◌∷◌}
use native.Mathlib.Omega.{arith}
use ublk_go.Prelude.Lists.{length, take, drop}

module _ {ℓ} {A : Type ℓ} where
  -- The `n` cells from `start` on.
  unfoldable pub stretch : ℕ → ℕ → List A → List A
  stretch start n m = take n (drop start m)

  -- The first `n` of the new values go to the cells from `start` on; what lies outside stays.
  unfoldable pub overwrite : ℕ → ℕ → List A → List A → List A
  overwrite start n bs [] = []
  overwrite zero zero bs (x ∷ m) = x ∷ m
  overwrite zero (suc n) [] (x ∷ m) = x ∷ m
  overwrite zero (suc n) (b ∷ bs) (x ∷ m) = b ∷ overwrite zero n bs m
  overwrite (suc start) n bs (x ∷ m) = x ∷ overwrite start n bs m

  pub length-overwrite : (start n : ℕ) (bs m : List A) → length (overwrite start n bs m) ≡ length m
  unfolding overwrite
  length-overwrite start n bs [] = refl
  length-overwrite zero zero bs (x ∷ m) = refl
  length-overwrite zero (suc n) [] (x ∷ m) = refl
  length-overwrite zero (suc n) (b ∷ bs) (x ∷ m) = ap suc (length-overwrite zero n bs m)
  length-overwrite (suc start) n bs (x ∷ m) = ap suc (length-overwrite start n bs m)

  -- A stretch that does not meet the written one is unchanged.
  pub stretch-overwrite_before :
      (s l start n : ℕ) (bs m : List A)
      → s + l ≤ start
      → stretch s l (overwrite start n bs m) ≡ stretch s l m
  unfolding stretch overwrite
  stretch-overwrite_before s l start n bs [] h = refl
  stretch-overwrite_before zero zero start n bs (x ∷ m) h = refl
  stretch-overwrite_before zero (suc l) zero n bs (x ∷ m) h = absurd (omega arith)
  stretch-overwrite_before zero (suc l) (suc start) n bs (x ∷ m) h =
      ap (λ (t : List A). x ∷ t) (stretch-overwrite_before zero l start n bs m (omega arith))
  stretch-overwrite_before (suc s) l zero n bs (x ∷ m) h = absurd (omega arith)
  stretch-overwrite_before (suc s) l (suc start) n bs (x ∷ m) h =
      stretch-overwrite_before s l start n bs m (omega arith)

  pub stretch-overwrite_after :
      (s l start n : ℕ) (bs m : List A)
      → start + n ≤ s
      → stretch s l (overwrite start n bs m) ≡ stretch s l m
  unfolding stretch overwrite
  stretch-overwrite_after s l start n bs [] h = refl
  stretch-overwrite_after s l zero zero bs (x ∷ m) h = refl
  stretch-overwrite_after s l zero (suc n) [] (x ∷ m) h = refl
  stretch-overwrite_after zero l zero (suc n) (b ∷ bs) (x ∷ m) h = absurd (omega arith)
  stretch-overwrite_after (suc s) l zero (suc n) (b ∷ bs) (x ∷ m) h =
      stretch-overwrite_after s l zero n bs m (omega arith)
  stretch-overwrite_after zero l (suc start) n bs (x ∷ m) h = absurd (omega arith)
  stretch-overwrite_after (suc s) l (suc start) n bs (x ∷ m) h =
      stretch-overwrite_after s l start n bs m (omega arith)

  -- What was written is read back.
  pub stretch-overwrite_self :
      (start n : ℕ) (bs m : List A)
      → length bs ≡ n
      → start + n ≤ length m
      → stretch start n (overwrite start n bs m) ≡ bs
  unfolding stretch overwrite
  stretch-overwrite_self zero zero [] [] e h = refl
  stretch-overwrite_self zero zero [] (x ∷ m) e h = refl
  stretch-overwrite_self zero zero (b ∷ bs) m e h = absurd (omega arith)
  stretch-overwrite_self zero (suc n) [] m e h = absurd (omega arith)
  stretch-overwrite_self zero (suc n) (b ∷ bs) [] e h = absurd (omega arith)
  stretch-overwrite_self zero (suc n) (b ∷ bs) (x ∷ m) e h =
      ap (λ (t : List A). b ∷ t) (stretch-overwrite_self zero n bs m (omega arith) (omega arith))
  stretch-overwrite_self (suc start) n bs [] e h = absurd (omega arith)
  stretch-overwrite_self (suc start) n bs (x ∷ m) e h =
      stretch-overwrite_self start n bs m e (omega arith)

  pub length-stretch : (s l : ℕ) (m : List A) → s + l ≤ length m → length (stretch s l m) ≡ l
  unfolding stretch
  length-stretch zero zero m h = refl
  length-stretch zero (suc l) [] h = absurd (omega arith)
  length-stretch zero (suc l) (x ∷ m) h = ap suc (length-stretch zero l m (omega arith))
  length-stretch (suc s) zero [] h = refl
  length-stretch (suc s) (suc l) [] h = absurd (omega arith)
  length-stretch (suc s) l (x ∷ m) h = length-stretch s l m (omega arith)
