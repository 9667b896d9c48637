-- ===== src/Examples/Runs/Kept.antt =====
-- A trail on which devices are used as `Close` of ublk/device.go asks for, and flows that keep it so.
use ublk_go.Prelude.{ℕ, ◌+◌, ◌≤◌, ◌<◌, ◌≡◌, Bool, true, false, ◌∷◌, Option, arith, if_both}
use ublk_go.Examples.Runs.{
  looked, made, not_made, shut, opened, not_opened, closed, mounted, unmounted, ran, Trail, Outside,
  Flow, ◌>>=◌, ◌>>◌, give, unused, new_device, open_node, close_node, shut_device, mount_device,
  unmount_device, Transfer, transfer, run_command, reads, if_made, with_device, if_opened,
  with_node, if_mounted, with_mount, if_fine, checked,
}
use ublk_go.Examples.Runs.Counts.{Has, plus, holds, frees, makings, shuttings, IsSafe, unused_lem}

-- From one trail to a later one: what was held is held, and what was made was closed.
pub record Same (t t' : Trail) : Type 0 where
  pub safe : IsSafe t → IsSafe t'
  pub held : (d : ℕ) → holds d t' + frees d t ≡ holds d t + frees d t'
  pub over : (d : ℕ) → makings d t' + shuttings d t ≤ makings d t + shuttings d t'

pub Same-refl : (t : Trail) → Same t t
Same-refl t = record { safe = λ s. s; held = λ d. omega arith; over = λ d. omega arith }

pub Same-trans : {t t' t'' : Trail} → Same t t' → Same t' t'' → Same t t''
Same-trans a b = record {
  safe = λ s. b.safe (a.safe s);
  held = λ d. omega (arith, a.held d, b.held d);
  over = λ d. omega (arith, a.over d, b.over d);
}

shut-Same :
    (u : ℕ) (t t' : Trail)
    → holds u t ≡ 0
    → frees u t ≡ 0
    → Same (made u ∷ t) t'
    → Same t (shut u ∷ t')
shut-Same u t t' none_held none_freed kept = record {
  safe = λ s. (omega (arith, kept.held u, none_held, none_freed), kept.safe (tt, s));
  held = λ d. omega (arith, kept.held d);
  over = λ d. omega (arith, kept.over d);
}

not_made-Same : (t : Trail) → Same t (not_made ∷ t)
not_made-Same t = record { safe = λ s. (tt, s); held = λ d. omega arith; over = λ d. omega arith }

not_opened-Same : (e : ℕ) (t : Trail) → Same t (not_opened e ∷ t)
not_opened-Same e t = record {
  safe = λ s. (tt, s);
  held = λ d. omega arith;
  over = λ d. omega arith;
}

closed-Same : (e : ℕ) (t t' : Trail) → Same (opened e ∷ t) t' → Same t (closed e ∷ t')
closed-Same e t t' kept = record {
  safe = λ s. (tt, kept.safe (tt, s));
  held = λ d. omega (arith, kept.held d);
  over = λ d. omega (arith, kept.over d);
}

unmounted-Same : (e : ℕ) (t t' : Trail) → Same (mounted e ∷ t) t' → Same t (unmounted e ∷ t')
unmounted-Same e t t' kept = record {
  safe = λ s. (tt, kept.safe (tt, s));
  held = λ d. omega (arith, kept.held d);
  over = λ d. omega (arith, kept.over d);
}

pub looked-Same : (t : Trail) → Same t (looked ∷ t)
looked-Same t = record { safe = λ s. (tt, s); held = λ d. omega arith; over = λ d. omega arith }

-- What is held at least stays so.
pub Has-Same : (h : ℕ → ℕ) {t t' : Trail} → Same t t' → Has h t → Has h t'
Has-Same h kept has = λ d. omega (arith, kept.held d, has d)

-- A flow that leaves things as it found them, whatever is answered; `W` says what is needed of the
-- answers, `h` how often each device has to be held.
module _ (W : Outside → Type 0) where
  pub record Tidy {A : Type 0} (h : ℕ → ℕ) (m : Flow A) : Type 0 where
    pub same : (w : Outside) (t : Trail) → W w → Has h t → Same t (m w t).1

  pub bind-Tidy :
      {A B : Type 0} {h : ℕ → ℕ} {m : Flow A} {f : A → Flow B}
      → Tidy h m
      → ((a : A) → Tidy h (f a))
      → Tidy h (m >>= f)
  unfolding ◌>>=◌
  bind-Tidy {h = h} {m = m} {f = f} tm tf = record {
    same = λ w t ok has.
        let first = tm.same w t ok has in
        Same-trans first ((tf (m w t).0).same w (m w t).1 ok (Has-Same h first has));
  }

  pub seq-Tidy :
      {A B : Type 0} {h : ℕ → ℕ} {m : Flow A} {n : Flow B} → Tidy h m → Tidy h n → Tidy h (m >> n)
  unfolding ◌>>◌
  seq-Tidy tm tn = bind-Tidy tm (λ _. tn)

  pub give-Tidy : {A : Type 0} {h : ℕ → ℕ} (a : A) → Tidy h (give a)
  unfolding give
  give-Tidy a = record { same = λ w t ok has. Same-refl t }

  pub reads-Tidy : {A : Type 0} {h : ℕ → ℕ} (f : Outside → Trail → A) → Tidy h (reads f)
  unfolding reads
  reads-Tidy f = record {
    same = λ w t ok has. record {
      safe = λ s. (tt, s);
      held = λ d. omega arith;
      over = λ d. omega arith;
    };
  }

  ran-Same : (t : Trail) → Same t (ran ∷ t)
  ran-Same t = record { safe = λ s. (tt, s); held = λ d. omega arith; over = λ d. omega arith }

  pub run_command-Tidy : {h : ℕ → ℕ} → Tidy h run_command
  unfolding run_command
  run_command-Tidy = record { same = λ w t ok has. ran-Same t }

  pub transfer-Tidy :
      {h : ℕ → ℕ} (c : Transfer) (d off n : ℕ) → 0 < h d → Tidy h (transfer c d off n)
  unfolding transfer
  transfer-Tidy c d off n is_open = record {
    same = λ w t ok has. record {
      safe = λ s. (omega (arith, has d, is_open), s);
      held = λ e. omega arith;
      over = λ e. omega arith;
    };
  }

  pub if_fine-Tidy :
      {A : Type 0} {h : ℕ → ℕ} (failed : A) {rest : Flow A}
      → Tidy h rest
      → (ok : Bool) → Tidy h (if_fine failed rest ok)
  unfolding if_fine
  if_fine-Tidy failed kept false = give-Tidy failed
  if_fine-Tidy failed kept true = kept

  with_device-Same :
      {A : Type 0} {h : ℕ → ℕ} (failed : A) (body : ℕ → Flow A)
      → ((d : ℕ) → Tidy h (body d))
      → (w : Outside) (t : Trail) → W w
      → Has h t
      → Same t (with_device failed body w t).1
  unfolding with_device new_device ◌>>=◌ ◌>>◌ if_made shut_device give
  with_device-Same failed body kept w t ok has =
      let u = unused t in
      let (none_held, none_freed) = unused_lem t u (omega arith) in
      if_both (λ (x : Option ℕ × Trail). Same t (if_made failed body x.0 w x.1).1) (w.makes t) _ _
        (shut-Same u t _ none_held none_freed
          ((kept u).same w (made u ∷ t) ok (λ d. omega (arith, has d))))
        (not_made-Same t)

  pub with_device-Tidy :
      {A : Type 0} {h : ℕ → ℕ} (failed : A) {body : ℕ → Flow A}
      → ((d : ℕ) → Tidy h (body d))
      → Tidy h (with_device failed body)
  with_device-Tidy failed {body} kept = record { same = with_device-Same failed body kept }

  pub with_node-Tidy :
      {A : Type 0} {h : ℕ → ℕ} (failed : A) (d : ℕ) {body : Flow A}
      → Tidy (plus h d) body
      → Tidy h (with_node failed d body)
  unfolding with_node open_node ◌>>=◌ ◌>>◌ if_opened close_node give
  with_node-Tidy failed d {body} kept = record {
    same = λ w t ok has.
        if_both (λ (x : Bool × Trail). Same t (if_opened failed d body x.0 w x.1).1) (w.opens t d) _
          _ (closed-Same d t _ (kept.same w (opened d ∷ t) ok (λ e. omega (arith, has e))))
          (not_opened-Same d t);
  }

  pub with_mount-Tidy :
      ((w : Outside) → W w → (t : Trail) (d : ℕ) → w.unmounts t d ≡ true)
      → {A : Type 0} {h : ℕ → ℕ} (failed : A) (d : ℕ) {body : Flow A} → Tidy (plus h d) body
      → Tidy h (with_mount failed d body)
  unfolding with_mount mount_device ◌>>=◌ ◌>>◌ if_mounted unmount_device give
  with_mount-Tidy frees_all failed d {body} kept = record {
    same = λ w t ok has.
        if_both (λ (x : Bool × Trail). Same t (if_mounted failed d body x.0 w x.1).1) (w.mounts t d)
          _ _
          (rw (frees_all w ok (body w (mounted d ∷ t)).1 d)
            (unmounted-Same d t _ (kept.same w (mounted d ∷ t) ok (λ e. omega (arith, has e)))))
          (ran-Same t);
  }

  pub checked-Tidy :
      {A : Type 0} {h : ℕ → ℕ} (failed : A) {m : Flow Bool} {rest : Flow A}
      → Tidy h m
      → Tidy h rest
      → Tidy h (checked failed m rest)
  unfolding checked
  checked-Tidy failed tm kept = bind-Tidy tm (if_fine-Tidy failed kept)
