-- ===== src/Uring/Window.antt =====
-- A run of cells of a circular buffer, counted from an index that is not yet reduced.
use native.Mathlib.Nat.{
  add-mod, div-add-mod, zero-add, add-zero, suc-add, add_assoc, mul-le-mul_left, mod-lt,
}
use native.Mathlib.Numerals.{one-add, add-one}
use ublk_go.Prelude.{
  ℕ, zero, suc, ◌+◌, ◌-◌, ◌*◌, ◌%◌, ◌/◌, ◌<◌, ◌≡◌, ◌≢◌, refl, sym, ap, ap₂, ◌∙◌, List, [], ◌∷◌,
  ◌++◌, arith, dec_lt, get_or, set, length, get_or-set_ne, get_or-set_self,
}

-- Two steps less than a whole round apart never meet.
-- No multiple of `m` lies strictly between 0 and `m`.
index_gap : (m p q g : ℕ) → 0 < g → g < m → m * q ≡ m * p + g → ⊥
index_gap m p q g lo hi e = elim (dec_lt p q) [
  | yes up ↦ omega (arith, e, mul-le-mul_left {m = p + 1} {n = q} m (omega arith))
  | no down ↦ omega (arith, e, mul-le-mul_left {m = q} {n = p} m (omega arith))
]

pub index_ne : (m h i j : ℕ) → i < j → j < m + i → (h + i) % m ≢ (h + j) % m
index_ne m h i j lt near e =
    index_gap m ((h + i) / m) ((h + j) / m) (j - i) (omega arith) (omega arith)
      (omega (arith, div-add-mod (h + i) m, div-add-mod (h + j) m))

module _ {ℓ} {A : Type ℓ} (d : A) (m : ℕ) where
  unfoldable pub window : List A → ℕ → ℕ → List A
  window xs h zero = []
  window xs h (suc n) = get_or xs (h % m) d ∷ window xs (h + 1) n

  pub length-window : (xs : List A) (h n : ℕ) → length (window xs h n) ≡ n
  unfolding window
  length-window xs h zero = refl
  length-window xs h (suc n) = ap suc (length-window xs (h + 1) n)

  next_mod : (h g : ℕ) → h % m ≡ g % m → (h + 1) % m ≡ (g + 1) % m
  next_mod h g e = add-mod h 1 m ∙ ap (λ (r : ℕ). (r + 1 % m) % m) e ∙ sym (add-mod g 1 m)

  pub window_empty : (xs : List A) (h n : ℕ) → n ≡ 0 → window xs h n ≡ []
  unfolding window
  window_empty xs h n e = ap (window xs h) e

  pub window_step :
      (xs : List A) (h n : ℕ)
      → n ≢ 0
      → window xs h n ≡ get_or xs (h % m) d ∷ window xs (h + 1) (n - 1)
  unfolding window
  window_step xs h zero ne = absurd (ne refl)
  window_step xs h (suc n) ne =
      ap (λ (i : ℕ). get_or xs (h % m) d ∷ window xs (h + 1) i) (omega arith)

  -- Only the remainder of the start counts.
  pub window_of_mod : (xs : List A) (n h g : ℕ) → h % m ≡ g % m → window xs h n ≡ window xs g n
  unfolding window
  window_of_mod xs zero h g e = refl
  window_of_mod xs (suc n) h g e =
      ap₂ ◌∷◌ (ap (λ (i : ℕ). get_or xs i d) e)
        (window_of_mod xs n (h + 1) (g + 1) (next_mod h g e))

  pub window-add :
      (xs : List A) (h a b : ℕ) → window xs h (a + b) ≡ window xs h a ++ window xs (h + a) b
  unfolding window
  window-add xs h zero b = rw (zero-add, add-zero)
  window-add xs h (suc a) b = rw (suc-add, window-add xs (h + 1) a b, add_assoc, one-add)

  -- A write to a cell outside the run leaves the run.
  pub window-set_out :
      (xs : List A) (h n i : ℕ) (v : A)
      → ((j : ℕ) → j < n → i ≢ (h + j) % m)
      → window (set xs i v) h n ≡ window xs h n
  unfolding window
  window-set_out xs h zero i v out = refl
  window-set_out xs h (suc n) i v out =
      ap₂ ◌∷◌ (get_or-set_ne xs i (h % m) v d (rw (← add-zero h) (out 0 (omega arith)))) (
        window-set_out xs (h + 1) n i v
          (λ j lt. rw (add_assoc, one-add) (out (suc j) (omega arith))))

  -- Writing the cell just past the run extends it by the new value.
  pub window-snoc_set :
      (xs : List A) (h n : ℕ) (v : A)
      → n < m
      → length xs ≡ m
      → window (set xs ((h + n) % m) v) h (suc n) ≡ window xs h n ++ v ∷ []
  unfolding window
  window-snoc_set xs h n v lt all =
      ap (window (set xs ((h + n) % m) v) h) (sym (add-one n))
      ∙ window-add (set xs ((h + n) % m) v) h n 1
      ∙ (ap₂ ◌++◌
          (window-set_out xs h n ((h + n) % m) v
            (λ j below e. index_ne m h j n below (omega arith) (sym e)))
          (ap (λ (a : A). a ∷ [])
            (get_or-set_self xs ((h + n) % m) v d (rw all (mod-lt (h + n) (omega arith))))))
