-- ===== src/Storage.antt =====
-- The storage that the caller of `New` supplies: `Backend`, `Discarder` and `ZeroWriter` of
-- ublk/ublk.go. Its code is not part of the program, so it is a parameter with a state of its own.
use ublk_go.Prelude.{ℕ, ◌^◌, Bool, List, Option}
use ublk_go.Prelude.Int.{ℤ}

-- What a call returns: the count, whether the error is non-nil, and the state afterwards.
pub record Reply (S : Type 0) : Type 0 where
  pub count : ℤ  -- int
  pub failed : Bool
  pub after : S

-- `ReadAt(p, off)` also returns what it put into `p`, from its start on.
pub record ReadReply (S : Type 0) : Type 0 where
  pub reply : Reply S
  pub filled : List ℕ

-- `ZeroNoUnmap`: `1 << iota` in a declaration of its own, where iota is 0.
abbrev pub zero_no_unmap : ℕ
zero_no_unmap = 2 ^ 0

-- `none` for a capability that the backend does not have. `ReadAt` is given the length of `p`.
pub record Backend (S : Type 0) : Type 0 where
  pub read_at : ℕ → ℤ → S → ReadReply S
  pub write_at : List ℕ → ℤ → S → Reply S
  pub discarder : Option (ℤ → ℤ → S → Reply S)
  pub zeroer : Option (ℤ → ℤ → ℕ → S → Reply S)
