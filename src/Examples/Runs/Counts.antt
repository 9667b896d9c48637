-- ===== src/Examples/Runs/Counts.antt =====
-- What is counted of a trail, and when a device may be closed.
use ublk_go.Prelude.{ℕ, ◌+◌, ◌≤◌, ◌<◌, ◌≡◌, refl, [], ◌∷◌, arith, ◌==◌, if◌then◌else◌}
use ublk_go.Examples.Runs.{
  Step, made, not_made, shut, opened, not_opened, closed, mounted, unmounted, transferred, looked,
  ran, Trail, device_of, unused,
}

abbrev pub one_if : ℕ → ℕ → ℕ
one_if d e = if d == e then 1 else 0

pub one_if_self : (d : ℕ) → one_if d d ≡ 1
one_if_self d = ground arith

-- How often a step opens or mounts the device, and how often it closes or unmounts it.
abbrev pub holds_one : ℕ → Step → ℕ
holds_one d (opened e) = one_if d e
holds_one d (mounted e) = one_if d e
holds_one d (made _) = 0
holds_one d not_made = 0
holds_one d (shut _) = 0
holds_one d (not_opened _) = 0
holds_one d (closed _) = 0
holds_one d (unmounted _) = 0
holds_one d (transferred _ _ _ _) = 0
holds_one d looked = 0
holds_one d ran = 0

abbrev pub frees_one : ℕ → Step → ℕ
frees_one d (closed e) = one_if d e
frees_one d (unmounted e) = one_if d e
frees_one d (made _) = 0
frees_one d not_made = 0
frees_one d (shut _) = 0
frees_one d (opened _) = 0
frees_one d (not_opened _) = 0
frees_one d (mounted _) = 0
frees_one d (transferred _ _ _ _) = 0
frees_one d looked = 0
frees_one d ran = 0

abbrev pub makes_one : ℕ → Step → ℕ
makes_one d (made e) = one_if d e
makes_one d not_made = 0
makes_one d (shut _) = 0
makes_one d (opened _) = 0
makes_one d (not_opened _) = 0
makes_one d (closed _) = 0
makes_one d (mounted _) = 0
makes_one d (unmounted _) = 0
makes_one d (transferred _ _ _ _) = 0
makes_one d looked = 0
makes_one d ran = 0

abbrev pub shuts_one : ℕ → Step → ℕ
shuts_one d (shut e) = one_if d e
shuts_one d (made _) = 0
shuts_one d not_made = 0
shuts_one d (opened _) = 0
shuts_one d (not_opened _) = 0
shuts_one d (closed _) = 0
shuts_one d (mounted _) = 0
shuts_one d (unmounted _) = 0
shuts_one d (transferred _ _ _ _) = 0
shuts_one d looked = 0
shuts_one d ran = 0

abbrev pub sum : (Step → ℕ) → Trail → ℕ
sum f [] = 0
sum f (s ∷ t) = f s + sum f t

abbrev pub holds : ℕ → Trail → ℕ
holds d t = sum (holds_one d) t

abbrev pub frees : ℕ → Trail → ℕ
frees d t = sum (frees_one d) t

abbrev pub makings : ℕ → Trail → ℕ
makings d t = sum (makes_one d) t

abbrev pub shuttings : ℕ → Trail → ℕ
shuttings d t = sum (shuts_one d) t

-- Each device is held at least so often.
abbrev pub Has : (ℕ → ℕ) → Trail → Type 0
Has h t = (d : ℕ) → frees d t + h d ≤ holds d t

abbrev pub nothing : ℕ → ℕ
nothing d = 0

abbrev pub plus : (ℕ → ℕ) → ℕ → ℕ → ℕ
plus h d e = h e + one_if e d

-- A step that may be taken: a device is only closed while none of its descriptors is open and no
-- filesystem of it is mounted, and its bytes are only transferred while one is.
abbrev pub MayTake : Step → Trail → Type 0
MayTake (shut d) t = holds d t ≡ frees d t
MayTake (made _) t = Unit
MayTake not_made t = Unit
MayTake (opened _) t = Unit
MayTake (not_opened _) t = Unit
MayTake (closed _) t = Unit
MayTake (mounted _) t = Unit
MayTake (unmounted _) t = Unit
MayTake (transferred _ d _ _) t = frees d t < holds d t
MayTake looked t = Unit
MayTake ran t = Unit

abbrev pub IsSafe : Trail → Type 0
IsSafe [] = Unit
IsSafe (s ∷ t) = MayTake s t × IsSafe t

-- A trail on which no device was closed while a descriptor of its node was open or a filesystem of it
-- was mounted, its bytes were only transferred while one was, each one that was opened or mounted was
-- closed or unmounted, and each device that was made was closed.
pub record IsTidy (t : Trail) : Type 0 where
  pub safe : IsSafe t
  pub released : (d : ℕ) → holds d t ≡ frees d t
  pub all_shut : (d : ℕ) → makings d t ≤ shuttings d t

pub begun-IsTidy : IsTidy []
begun-IsTidy = record { safe = tt; released = λ d. refl; all_shut = λ d. omega arith }

-- A number above all of a trail is held nowhere in it.
step_below : (d : ℕ) (s : Step) → device_of s < d → (holds_one d s ≡ 0) × (frees_one d s ≡ 0)
step_below d (made e) lt = (refl, refl)
step_below d not_made lt = (refl, refl)
step_below d (shut e) lt = (refl, refl)
step_below d (opened e) lt = (ground arith, refl)
step_below d (not_opened e) lt = (refl, refl)
step_below d (closed e) lt = (refl, ground arith)
step_below d (mounted e) lt = (ground arith, refl)
step_below d (unmounted e) lt = (refl, ground arith)
step_below d (transferred c e off n) lt = (refl, refl)
step_below d looked lt = (refl, refl)
step_below d ran lt = (refl, refl)

pub unused_lem : (t : Trail) (d : ℕ) → unused t ≤ d → (holds d t ≡ 0) × (frees d t ≡ 0)
unused_lem [] d le = (refl, refl)
unused_lem (s ∷ t) d le =
    let one = step_below d s (omega (arith, le)) in
    let rest = unused_lem t d (omega (arith, le)) in
    (omega (arith, one.0, rest.0), omega (arith, one.1, rest.1))
