-- ===== src/Device/Life/Refused.antt =====
-- What `New` of ublk/ublk.go refuses before it calls the kernel: `isNilBackend`, and a configuration
-- that `validate` does not accept.
use ublk_go.Prelude.{ℕ, ◌≡◌, ◌⊎◌, inl, inr, refl, Bool, true, false, Option, none, some, List}
use ublk_go.Config.{Config, ConfigOption, default_config, apply_options, validate}
use ublk_go.Config.Accepts.{Accepts, IsTyped, validate-Accepts}
use ublk_go.System.{Log, Kernel}
use ublk_go.Device.Life.{Made, nil_backend, bad_config, failed, made, if_valid, new}

-- The kinds of `reflect` that `isNilBackend` names, and any other.
pub data Kind : Type 0 where
  chan_kind : Kind
  func_kind : Kind
  interface_kind : Kind
  map_kind : Kind
  pointer_kind : Kind
  slice_kind : Kind
  other_kind : Kind

-- The value in an interface, with what its `IsNil` answers.
pub record Value : Type 0 where
  pub kind : Kind
  pub nil : Bool

-- `v.IsNil()` for the kinds that are named.
abbrev nil_of : Kind → Bool → Bool
nil_of chan_kind nil = nil
nil_of func_kind nil = nil
nil_of interface_kind nil = nil
nil_of map_kind nil = nil
nil_of pointer_kind nil = nil
nil_of slice_kind nil = nil
nil_of other_kind nil = false

-- `none` stands for the nil interface.
unfoldable pub is_nil_backend : Option Value → Bool
is_nil_backend none = true
is_nil_backend (some v) = nil_of v.kind v.nil

-- A nil interface, or one that holds a nil of a kind that has one.
abbrev pub IsAbsent : Option Value → Type 0
IsAbsent none = Unit
IsAbsent (some v) = (¬ (v.kind ≡ other_kind)) × (v.nil ≡ true)

nil_of-absent : (k : Kind) (nil : Bool) → ¬ (k ≡ other_kind) → nil ≡ true → nil_of k nil ≡ true
nil_of-absent chan_kind nil known eq = eq
nil_of-absent func_kind nil known eq = eq
nil_of-absent interface_kind nil known eq = eq
nil_of-absent map_kind nil known eq = eq
nil_of-absent pointer_kind nil known eq = eq
nil_of-absent slice_kind nil known eq = eq
nil_of-absent other_kind nil known eq = absurd (known refl)

is_nil-absent : (b : Option Value) → IsAbsent b → is_nil_backend b ≡ true
unfolding is_nil_backend
is_nil-absent none h = refl
is_nil-absent (some v) h = nil_of-absent v.kind v.nil h.0 h.1

-- An error of `New` that is found before the kernel is called.
abbrev pub IsRefusal : Made → Type 0
IsRefusal nil_backend = Unit
IsRefusal (bad_config _) = Unit
IsRefusal (failed _) = ⊥
IsRefusal (made _) = ⊥

module _ (addr : ℕ) (has_discarder has_zeroer : Bool) where
  absent_refused :
      (size : ℕ) (opts : List ConfigOption) (k : Kernel) (l : Log) (is_nil : Bool)
      → is_nil ≡ true
      → new addr has_discarder has_zeroer is_nil size opts k l ≡ (nil_backend, l)
  unfolding new
  absent_refused size opts k l is_nil eq = rw eq refl

  unaccepted_refused :
      (c : Config) (size : ℕ) (k : Kernel) (l : Log)
      → IsTyped c size
      → ¬ (Accepts c size)
      → (m : Made) × (if_valid addr has_discarder has_zeroer c size (validate c size) k l ≡ (m, l))
        × IsRefusal m
  unfolding if_valid
  unaccepted_refused c size k l typed unaccepted =
      elim (validate c size)
          as (λ r.
            (validate c size ≡ r)
            → (m : Made) × (if_valid addr has_discarder has_zeroer c size r k l ≡ (m, l))
              × IsRefusal m) [
                | none ↦ λ eq. absurd (unaccepted ((validate-Accepts c size typed).0 eq))
                | some e ↦ λ eq. (bad_config e, refl, tt)
              ]
        refl

  config_refused :
      (is_nil : Bool) (size : ℕ) (opts : List ConfigOption) (k : Kernel) (l : Log)
      → IsTyped (apply_options opts default_config) size
      → ¬ (Accepts (apply_options opts default_config) size)
      → (m : Made) × (new addr has_discarder has_zeroer is_nil size opts k l ≡ (m, l)) × IsRefusal m
  unfolding new
  config_refused true size opts k l typed unaccepted = (nil_backend, refl, tt)
  config_refused false size opts k l typed unaccepted =
      unaccepted_refused (apply_options opts default_config) size k l typed unaccepted

  -- For options that give a configuration within the types of its fields: if the backend is nil, or
  -- an interface that holds a nil, or if the configuration is beyond the documented limits, then
  -- `New` returns the error for a nil backend or one for the configuration, and makes no call of the
  -- kernel.
  pub new_refuses :
      (b : Option Value) (size : ℕ) (opts : List ConfigOption) (k : Kernel) (l : Log)
      → IsTyped (apply_options opts default_config) size
      → IsAbsent b ⊎ (¬ (Accepts (apply_options opts default_config) size))
      → (m : Made) × (new addr has_discarder has_zeroer (is_nil_backend b) size opts k l ≡ (m, l))
        × IsRefusal m
  new_refuses b size opts k l typed (inl absent) =
      (nil_backend, absent_refused size opts k l (is_nil_backend b) (is_nil-absent b absent), tt)
  new_refuses b size opts k l typed (inr unaccepted) =
      config_refused (is_nil_backend b) size opts k l typed unaccepted
