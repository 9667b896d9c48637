-- ===== src/Examples/Runs.antt =====
-- What the programs under example/ do with devices: their calls as steps of a trail. What the library,
-- the kernel and the clock answer is a parameter.
pub mod Counts
pub mod Kept
pub mod Chained
pub mod Faults
pub mod Demos
pub mod Moves
pub mod Writers
pub mod Writing
pub mod Stressors
pub mod Settling
pub mod Programs
pub mod Scenarios
pub mod Mains
pub mod Tidy
use ublk_go.Prelude.{
  ◌-◌, min, drop, length, ℕ, suc, ◌+◌, Bool, true, false, List, [], ◌∷◌, Option, none, some,
  if◌then◌else◌,
}

pub data Transfer : Type 0 where
  pread : Transfer
  pwrite : Transfer

-- A device stands for the object that `ublk.New` returned.
pub data Step : Type 0 where
  made : ℕ → Step  -- ublk.New
  not_made : Step
  shut : ℕ → Step  -- Close of the device
  opened : ℕ → Step  -- unix.Open of the device's block node
  not_opened : ℕ → Step
  closed : ℕ → Step  -- unix.Close of a descriptor of the node
  mounted : ℕ → Step
  unmounted : ℕ → Step
  transferred : Transfer → ℕ → ℕ → ℕ → Step  -- device, offset, length
  looked : Step  -- the program reads what is answered without a call
  ran : Step  -- any other call of the system

-- Newest first.
abbrev pub Trail : Type 0
Trail = List Step

pub record Outside : Type 0 where
  pub makes : Trail → Bool
  pub opens : Trail → ℕ → Bool
  pub shut_fails : Trail → ℕ → Bool
  pub mounts : Trail → ℕ → Bool
  pub unmounts : Trail → ℕ → Bool
  pub transfers : Trail → Transfer → ℕ → ℕ → ℕ → Option ℕ  -- the count, or an error
  pub runs : Trail → Bool  -- whether a call of the system succeeds
  pub holds_good : Trail → Bool  -- what a program tests of its data
  pub in_time : Trail → Bool  -- whether the deadline has not passed
  pub counted : Trail → ℕ  -- a counter of the program's backend
  pub drawn : Trail → ℕ  -- what else is open: whose turn it is, and for how long
  pub rand_int : Trail → ℕ → ℕ  -- a random number, for the bound that is passed

abbrev pub Flow : Type 0 → Type 0
Flow A = Outside → Trail → A × Trail

infixl 5 ◌>>=◌
unfoldable pub ◌>>=◌ : {A B : Type 0} → Flow A → (A → Flow B) → Flow B
m >>= f = λ w t. let (a, t') = m w t in f a w t'

infixl 5 ◌>>◌
unfoldable pub ◌>>◌ : {A B : Type 0} → Flow A → Flow B → Flow B
unfolding ◌>>=◌
m >> n = m >>= λ _. n

unfoldable pub give : {A : Type 0} → A → Flow A
give a = λ w t. (a, t)

-- The highest number of a device in a step, and a number above all of a trail.
abbrev pub device_of : Step → ℕ
device_of (made d) = d
device_of not_made = 0
device_of (shut d) = d
device_of (opened d) = d
device_of (not_opened d) = d
device_of (closed d) = d
device_of (mounted d) = d
device_of (unmounted d) = d
device_of (transferred _ d _ _) = d
device_of looked = 0
device_of ran = 0

abbrev pub unused : Trail → ℕ
unused [] = 0
unused (s ∷ t) = suc (device_of s) + unused t

-- Each new device gets a number of its own.
unfoldable pub new_device : Flow (Option ℕ)
new_device =
    λ w t. if w.makes t then (some (unused t), made (unused t) ∷ t) else (none, not_made ∷ t)

-- Whether there is a descriptor.
unfoldable pub open_node : ℕ → Flow Bool
open_node d = λ w t. if w.opens t d then (true, opened d ∷ t) else (false, not_opened d ∷ t)

unfoldable pub close_node : ℕ → Flow Unit
close_node d = λ w t. (tt, closed d ∷ t)

-- Whether `Close` returned an error.
unfoldable pub shut_device : ℕ → Flow Bool
shut_device d = λ w t. (w.shut_fails t d, shut d ∷ t)

unfoldable pub mount_device : ℕ → Flow Bool
mount_device d = λ w t. if w.mounts t d then (true, mounted d ∷ t) else (false, ran ∷ t)

unfoldable pub unmount_device : ℕ → Flow Unit
unmount_device d = λ w t. (tt, (if w.unmounts t d then unmounted d else ran) ∷ t)

unfoldable pub transfer : Transfer → ℕ → ℕ → ℕ → Flow (Option ℕ)
transfer c d off n = λ w t. (w.transfers t c d off n, transferred c d off n ∷ t)

unfoldable pub run_command : Flow Bool
run_command = λ w t. (w.runs t, ran ∷ t)

-- What a program reads without a call. Whatever it reads next may have another answer.
unfoldable pub reads : {A : Type 0} → (Outside → Trail → A) → Flow A
reads f = λ w t. (f w t, looked ∷ t)

-- `x, err := …; if err != nil { return … }; defer …`: what the function returns if there is none, and
-- what the rest returns otherwise, after which the deferred call is made.
unfoldable pub if_made : {A : Type 0} → A → (ℕ → Flow A) → Option ℕ → Flow A
if_made failed body none = give failed
if_made failed body (some d) = do r ← body d; shut_device d; give r

unfoldable pub with_device : {A : Type 0} → A → (ℕ → Flow A) → Flow A
with_device failed body = new_device >>= if_made failed body

unfoldable pub if_opened : {A : Type 0} → A → ℕ → Flow A → Bool → Flow A
if_opened failed d body false = give failed
if_opened failed d body true = do r ← body; close_node d; give r

unfoldable pub with_node : {A : Type 0} → A → ℕ → Flow A → Flow A
with_node failed d body = open_node d >>= if_opened failed d body

unfoldable pub if_mounted : {A : Type 0} → A → ℕ → Flow A → Bool → Flow A
if_mounted failed d body false = give failed
if_mounted failed d body true = do r ← body; unmount_device d; give r

unfoldable pub with_mount : {A : Type 0} → A → ℕ → Flow A → Flow A
with_mount failed d body = mount_device d >>= if_mounted failed d body

-- `if err := …; err != nil { return … }`.
unfoldable pub if_fine : {A : Type 0} → A → Flow A → Bool → Flow A
if_fine failed rest false = give failed
if_fine failed rest true = rest

-- The same around the call that may fail.
unfoldable pub checked : {A : Type 0} → A → Flow Bool → Flow A → Flow A
checked failed m rest = m >>= if_fine failed rest

-- The trail of a flow that began at `t` and would end at `t'`, in the middle of it: how many of its last
-- calls are missing is answered from outside.
abbrev pub cut : Outside → Trail → Trail → Trail
cut w t t' = drop (min (w.drawn t') (length t' - length t)) t'
