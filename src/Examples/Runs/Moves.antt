-- ===== src/Examples/Runs/Moves.antt =====
-- Flows that hold devices open on the way: what is still held and still to be closed is counted.
use ublk_go.Prelude.{ℕ, ◌+◌, ◌≤◌, ◌≡◌, Bool, true, false, ◌∷◌, Option, none, some, arith, if_both}
use ublk_go.Examples.Runs.{
  not_made, made, Trail, Outside, Flow, ◌>>=◌, ◌>>◌, give, unused, new_device, open_node,
  close_node, shut_device,
}
use ublk_go.Examples.Runs.Counts.{
  IsTidy, nothing, plus, holds, frees, makings, shuttings, IsSafe, unused_lem,
}
use ublk_go.Examples.Runs.Kept.{Tidy}

-- No device is held.
abbrev pub IsEven : Trail → Type 0
IsEven t = (d : ℕ) → holds d t ≡ frees d t

-- From one trail to a later one: how often each device is held, and whether it is still to be closed.
pub record Rel (h m : ℕ → ℕ) (t t' : Trail) : Type 0 where
  pub safe : IsSafe t → IsSafe t'
  pub held : (d : ℕ) → holds d t' + frees d t ≡ holds d t + frees d t' + h d
  pub over : (d : ℕ) → makings d t' + shuttings d t ≤ makings d t + shuttings d t' + m d

abbrev pub if_open : (ℕ → ℕ) → ℕ → Bool → ℕ → ℕ
if_open h d true = plus h d
if_open h d false = h

module _ (W : Outside → Type 0) where
  pub record Moves {A : Type 0} (h m : ℕ → ℕ) (f : Flow A) (h' m' : A → ℕ → ℕ) : Type 0 where
    pub moves :
        (w : Outside) (t t₁ : Trail)
        → W w
        → IsEven t
        → Rel h m t t₁
        → Rel (h' (f w t₁).0) (m' (f w t₁).0) t (f w t₁).1

  pub bind-Moves :
      {A B : Type 0} {h m : ℕ → ℕ} {f : Flow A} {g : A → Flow B} {h₁ m₁ : A → ℕ → ℕ}
      {h₂ m₂ : B → ℕ → ℕ}
      → Moves h m f h₁ m₁
      → ((a : A) → Moves (h₁ a) (m₁ a) (g a) h₂ m₂)
      → Moves h m (f >>= g) h₂ m₂
  unfolding ◌>>=◌
  bind-Moves {f = f} mf mg = record {
    moves = λ w t t₁ ok even r.
        (mg (f w t₁).0).moves w t (f w t₁).1 ok even (mf.moves w t t₁ ok even r);
  }

  pub seq-Moves :
      {A B : Type 0} {h m h₁ m₁ : ℕ → ℕ} {f : Flow A} {g : Flow B} {h₂ m₂ : B → ℕ → ℕ}
      → Moves h m f (λ _. h₁) (λ _. m₁)
      → Moves h₁ m₁ g h₂ m₂
      → Moves h m (f >> g) h₂ m₂
  unfolding ◌>>◌
  seq-Moves mf mg = bind-Moves mf (λ _. mg)

  pub Tidy-Moves :
      {A : Type 0} {f : Flow A} (h m : ℕ → ℕ) → Tidy W h f → Moves h m f (λ _. h) (λ _. m)
  Tidy-Moves h m tf = record {
    moves = λ w t t₁ ok even r.
        let s = tf.same w t₁ ok (λ d. omega (arith, r.held d, even d)) in
        record {
          safe = λ x. s.safe (r.safe x);
          held = λ d. omega (arith, r.held d, s.held d);
          over = λ d. omega (arith, r.over d, s.over d);
        };
  }

  pub give-Moves : {A : Type 0} (h m : ℕ → ℕ) (a : A) → Moves h m (give a) (λ _. h) (λ _. m)
  unfolding give
  give-Moves h m a = record { moves = λ w t t₁ ok even r. r }

  pub open-Moves : (h m : ℕ → ℕ) (d : ℕ) → Moves h m (open_node d) (if_open h d) (λ _. m)
  unfolding open_node
  open-Moves h m d = record {
    moves = λ w t t₁ ok even r.
        if_both (λ (x : Bool × Trail). Rel (if_open h d x.0) m t x.1) (w.opens t₁ d) _ _
          (record {
            safe = λ s. (tt, r.safe s);
            held = λ e. omega (arith, r.held e);
            over = λ e. omega (arith, r.over e);
          })
          (record {
            safe = λ s. (tt, r.safe s);
            held = λ e. omega (arith, r.held e);
            over = λ e. omega (arith, r.over e);
          });
  }

  pub close-Moves : (h m : ℕ → ℕ) (d : ℕ) → Moves (plus h d) m (close_node d) (λ _. h) (λ _. m)
  unfolding close_node
  close-Moves h m d = record {
    moves = λ w t t₁ ok even r. record {
      safe = λ s. (tt, r.safe s);
      held = λ e. omega (arith, r.held e);
      over = λ e. omega (arith, r.over e);
    };
  }

  pub shut-Moves :
      (h m : ℕ → ℕ) (d : ℕ) → h d ≡ 0 → Moves h (plus m d) (shut_device d) (λ _. h) (λ _. m)
  unfolding shut_device
  shut-Moves h m d none_held = record {
    moves = λ w t t₁ ok even r. record {
      safe = λ s. (omega (arith, r.held d, even d, none_held), r.safe s);
      held = λ e. omega (arith, r.held e);
      over = λ e. omega (arith, r.over e);
    };
  }

  -- `Close` once more.
  pub shut_again : (h m : ℕ → ℕ) (d : ℕ) → h d ≡ 0 → Moves h m (shut_device d) (λ _. h) (λ _. m)
  unfolding shut_device
  shut_again h m d none_held = record {
    moves = λ w t t₁ ok even r. record {
      safe = λ s. (omega (arith, r.held d, even d, none_held), r.safe s);
      held = λ e. omega (arith, r.held e);
      over = λ e. omega (arith, r.over e);
    };
  }

  -- A new device is held nowhere.
  pub new-Moves :
      {B : Type 0} (h m : ℕ → ℕ) (g : Option ℕ → Flow B) {h₂ m₂ : B → ℕ → ℕ}
      → Moves h m (g none) h₂ m₂
      → ((d : ℕ) → h d ≡ 0 → Moves h (plus m d) (g (some d)) h₂ m₂)
      → Moves h m (new_device >>= g) h₂ m₂
  unfolding new_device ◌>>=◌
  new-Moves h m g {h₂} {m₂} if_none if_some = record {
    moves = λ w t t₁ ok even r.
        let u = unused t₁ in
        let (none_held, none_freed) = unused_lem t₁ u (omega arith) in
        if_both
          (λ (x : Option ℕ × Trail).
            Rel (h₂ (g x.0 w x.1).0) (m₂ (g x.0 w x.1).0) t (g x.0 w x.1).1)
          (w.makes t₁) _ _
          ((if_some u (omega (arith, r.held u, even u, none_held, none_freed))).moves w t
            (made u ∷ t₁) ok even
            (record {
              safe = λ s. (tt, r.safe s);
              held = λ e. omega (arith, r.held e);
              over = λ e. omega (arith, r.over e);
            }))
          (if_none.moves w t (not_made ∷ t₁) ok even (record {
            safe = λ s. (tt, r.safe s);
            held = λ e. omega (arith, r.held e);
            over = λ e. omega (arith, r.over e);
          }));
  }

  -- The same counts, written differently.
  pub recount :
      {A : Type 0} {h m h₁ m₁ : ℕ → ℕ} {f : Flow A} {h' m' : A → ℕ → ℕ}
      → ((d : ℕ) → h₁ d ≡ h d)
      → ((d : ℕ) → m₁ d ≡ m d)
      → Moves h m f h' m'
      → Moves h₁ m₁ f h' m'
  recount same_h same_m mf = record {
    moves = λ w t t₁ ok even r. mf.moves w t t₁ ok even (record {
      safe = r.safe;
      held = λ d. omega (arith, r.held d, same_h d);
      over = λ d. omega (arith, r.over d, same_m d);
    });
  }

  -- A flow that ends with nothing held and nothing to be closed, from a trail with nothing held.
  abbrev pub Settles : {A : Type 0} → Flow A → Type 0
  Settles f = Moves nothing nothing f (λ _. nothing) (λ _. nothing)

  -- Such a flow leaves a tidy trail tidy.
  pub Settles-IsTidy :
      {A : Type 0} {f : Flow A}
      → Settles f
      → (w : Outside) (t : Trail) → W w
      → IsTidy t
      → IsTidy (f w t).1
  Settles-IsTidy s w t ok before =
      let r =
        s.moves w t t ok before.released
          (record { safe = λ x. x; held = λ d. omega arith; over = λ d. omega arith }) in
      record {
        safe = r.safe before.safe;
        released = λ d. omega (arith, r.held d, before.released d);
        all_shut = λ d. omega (arith, r.over d, before.all_shut d);
      }
