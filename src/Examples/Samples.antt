-- ===== src/Examples/Samples.antt =====
-- What `printSince` of example/flushbench/main.go prints.
use native.Mathlib.Nat.{mul-le-mul_right, mul_comm}
use ublk_go.Prelude.{
  if_both, leb, ℕ, zero, suc, ◌+◌, ◌-◌, ◌*◌, ◌/◌, ◌≤◌, ◌<◌, ◌≡◌, refl, ◌∙◌, sym, ap, subst, ◌⊎◌,
  inl, inr, List, [], ◌∷◌, none, some, length, arith, Option-cases, get_or, dec_le,
}
use ublk_go.Examples.Flushbench.{
  TraceEvent, zero_event, first_since, step_of, samples, Printed, printed_from, print_since,
}

-- The indices that are printed, from the first on: they are inside the range, and the number of
-- them is what the step allows.
samples_end : (fuel step i last : ℕ) → last < i → samples fuel step i last ≡ []
unfolding samples
samples_end zero step i last past = refl
samples_end (suc fuel) step i last past = ground arith

samples_next :
    (fuel step i last : ℕ)
    → i ≤ last
    → samples (suc fuel) step i last ≡ i ∷ samples fuel step (i + step) last
unfolding samples
samples_next fuel step i last inside = ground arith

length-samples :
    (fuel step i last : ℕ)
    → 0 < step
    → i ≤ last
    → last < i + fuel
    → (n : ℕ) × (length (samples fuel step i last) ≡ suc n)
      × (step * n ≤ last - i)
      × (last - i < step * n + step)
length-samples zero step i last some_step inside enough = absurd (omega arith)
length-samples (suc fuel) step i last some_step inside enough = elim (dec_le (i + step) last) [
  | yes more ↦
      let (n, long, low, high) =
        length-samples fuel step (i + step) last some_step more (omega arith) in
      (suc n, rw (samples_next fuel step i last inside) (ap suc long), grind arith, grind arith)
  | no done ↦ (
    0,
    rw (samples_next fuel step i last inside, samples_end fuel step (i + step) last (omega arith))
        refl,
    omega arith,
    omega arith,
  )
]

step_of_few : (count : ℕ) → count ≤ 19 → step_of count ≡ 1
unfolding step_of
step_of_few count few = ground arith

step_of_many : (count : ℕ) → 19 < count → step_of count ≡ count / 10
unfolding step_of
step_of_many count many = ground arith

-- From `i` on, one step after the other.
abbrev pub IsSpaced : ℕ → ℕ → List ℕ → Type 0
IsSpaced step i [] = Unit
IsSpaced step i (j ∷ js) = (j ≡ i) × IsSpaced step (i + step) js

samples-IsSpaced : (fuel step i last : ℕ) → IsSpaced step i (samples fuel step i last)
unfolding samples
samples-IsSpaced zero step i last = tt
samples-IsSpaced (suc fuel) step i last =
    if_both (IsSpaced step i) (leb i last) _ _ (refl, samples-IsSpaced fuel step (i + step) last) tt

-- With `count` events in the window: all of them up to 19, and 10 to 19 of more.
abbrev pub SampleCount : ℕ → ℕ → Type 0
SampleCount count shown =
    ((count ≤ 19) × (shown ≡ count)) ⊎ ((19 < count) × (10 ≤ shown) × (shown ≤ 19))

at_most : (s n count : ℕ) → 0 < s → count < 10 * s + 10 → s * n < count → n ≤ 18
at_most s n count some_step above less = elim (dec_le n 18) [
  | yes h ↦ h
  | no more ↦ absurd (omega (arith, mul-le-mul_right {m = 19} {n = n} s (omega arith)))
]

at_least : (s n count : ℕ) → 0 < s → 10 * s ≤ count → count ≤ s * n + s → 9 ≤ n
at_least s n count some_step below more = elim (dec_le 9 n) [
  | yes h ↦ h
  | no less ↦ absurd (omega (arith, mul-le-mul_right {m = n} {n = 8} s (omega arith), mul_comm s n))
]

few_samples :
    (first last : ℕ)
    → first ≤ last
    → last - first + 1 ≤ 19
    → let count = last - first + 1 in
      length (samples (count + 1) (step_of count) first last) ≡ count
few_samples first last inside few =
    let count = last - first + 1 in
    let step : step_of count ≡ 1 = step_of_few count few in
    let (n, long, low, high) =
      length-samples (count + 1) (step_of count) first last (omega (arith, step)) inside
        (omega arith) in
    omega (arith, long, low, high, step, ap (λ (s : ℕ). s * n) step)

many_samples :
    (first last : ℕ)
    → first ≤ last
    → 19 < last - first + 1
    → let count = last - first + 1 in
      let shown = length (samples (count + 1) (step_of count) first last) in
      (10 ≤ shown) × (shown ≤ 19)
many_samples first last inside many =
    let count = last - first + 1 in
    let step : step_of count ≡ count / 10 = step_of_many count many in
    let (n, long, low, high) =
      length-samples (count + 1) (step_of count) first last (omega (arith, step, many)) inside
        (omega arith) in
    (
      omega (
        arith,
        long,
        at_least (step_of count) n count (omega (arith, step, many)) (omega (arith, step))
            (omega (arith, high)),
      ),
      omega (
        arith,
        long,
        at_most (step_of count) n count (omega (arith, step, many)) (omega (arith, step))
            (omega (arith, low)),
      ),
    )

samples_count :
    (first last : ℕ)
    → first ≤ last
    → let count = last - first + 1 in
      SampleCount count (length (samples (count + 1) (step_of count) first last))
samples_count first last inside = elim (dec_le (last - first + 1) 19) [
  | yes few ↦ inl (few, few_samples first last inside few)
  | no more ↦
      let many : 19 < last - first + 1 = omega (arith, more) in
      let (low, high) = many_samples first last inside many in inr (many, low, high)
]

-- The first event of the window, `k` from the one where the search starts.
pub record FirstAt (mark k : ℕ) (ev : List TraceEvent) : Type 0 where
  pub exists : k < length ev
  pub reached : mark ≤ (get_or ev k zero_event).at
  pub before : (j : ℕ) → j < k → (get_or ev j zero_event).at < mark

before_cons :
    (mark k : ℕ) (e : TraceEvent) (es : List TraceEvent)
    → e.at < mark
    → ((j : ℕ) → j < k → (get_or es j zero_event).at < mark)
    → (j : ℕ) → j < suc k
    → (get_or (e ∷ es) j zero_event).at < mark
before_cons mark k e es early rest zero lt = early
before_cons mark k e es early rest (suc j) lt = rest j (omega arith)

some_inj : (a b : ℕ) → some a ≡ some b → a ≡ b
some_inj a b e = cc

module _ (mark i : ℕ) (e : TraceEvent) (es : List TraceEvent) where
  first_since_now : mark ≤ e.at → first_since mark i (e ∷ es) ≡ some i
  unfolding first_since
  first_since_now late = ground arith

  first_since_later : e.at < mark → first_since mark i (e ∷ es) ≡ first_since mark (i + 1) es
  unfolding first_since
  first_since_later early = ground arith

first_since-FirstAt :
    (mark i : ℕ) (ev : List TraceEvent) (f : ℕ)
    → first_since mark i ev ≡ some f
    → (k : ℕ) × (f ≡ i + k) × FirstAt mark k ev
unfolding first_since
first_since-FirstAt mark i [] f e = cc
first_since-FirstAt mark i (x ∷ es) f e = elim (dec_le mark x.at) [
  | yes late ↦ (
    0,
    omega (arith, some_inj i f (sym (first_since_now mark i x es late) ∙ e)),
    record { exists = omega arith; reached = late; before = λ j lt. absurd (omega (arith, lt)) },
  )
  | no early ↦
      let (k, at, first) =
        first_since-FirstAt mark (i + 1) es f
          (sym (first_since_later mark i x es (omega (arith, early))) ∙ e) in
      (
        suc k,
        omega (arith, at),
        record {
          exists = omega (arith, first.exists);
          reached = first.reached;
          before = before_cons mark k x es (omega arith) first.before;
        },
      )
]

module _ (mark : ℕ) (ev : List TraceEvent) where
  printed_none : first_since mark 0 ev ≡ none → print_since mark ev ≡ none
  unfolding print_since
  printed_none e = rw e refl

  printed_some :
      (f : ℕ) → first_since mark 0 ev ≡ some f → print_since mark ev ≡ some (printed_from f ev)
  unfolding print_since
  printed_some f e = rw e refl

printed_inj : (a b : Printed) → some a ≡ some b → a ≡ b
printed_inj a b e = cc

none_ne : {p : Printed} → none ≡ some p → ⊥
none_ne e = cc

-- What `printSince` prints, if it prints calls: it counts the events from the first one on that is
-- not before the mark, and shows all of them if they are at most 19, and 10 to 19 of them otherwise:
-- the first one and then each that is a whole number of steps on, where a step is one event for up to
-- 10 of them and a tenth of their number, rounded down, for more.
pub print_since_window :
    (mark : ℕ) (ev : List TraceEvent) (p : Printed)
    → print_since mark ev ≡ some p
    → (first : ℕ) × FirstAt mark first ev
      × (p.calls ≡ length ev - first)
      × SampleCount p.calls (length p.shown)
      × IsSpaced (step_of p.calls) first p.shown
unfolding printed_from
print_since_window mark ev p e = elim (Option-cases (first_since mark 0 ev)) [
  | inl nothing ↦ absurd (none_ne (sym (printed_none mark ev nothing) ∙ e))
  | inr (f, found) ↦
      let (k, at, first) = first_since-FirstAt mark 0 ev f found in
      let same : f ≡ k = omega (arith, at) in
      let shows = printed_inj _ _ (sym (printed_some mark ev f found) ∙ e) in
      (
        f,
        subst (λ (j : ℕ). FirstAt mark j ev) (sym same) first,
        ap (λ (q : Printed). q.calls) (sym shows) ∙ omega (arith, same, first.exists),
        subst (λ (q : Printed). SampleCount q.calls (length q.shown)) shows
            (samples_count f (length ev - 1) (omega (arith, same, first.exists))),
        subst (λ (q : Printed). IsSpaced (step_of q.calls) f q.shown) shows
            (samples-IsSpaced _ _ f (length ev - 1)),
      )
]
