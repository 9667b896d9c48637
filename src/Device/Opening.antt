-- ===== src/Device/Opening.antt =====
-- `openCharDev` acquires the descriptor that the device then holds, and nothing on an error.
use ublk_go.Prelude.{ℕ, zero, suc, ◌≡◌, ◌==◌, ◌∷◌, none, some, arith, if_both, if◌then◌else◌}
use ublk_go.System.{
  Ret, fine, fail, DevicePath, opened, slept, Log, Kernel, Act, keep, give, refuse,
}
use ublk_go.System.Kept.{Res, Kept, Fits, Keeps, refuse-Keeps, look-Keeps}
use ublk_go.Device.{Device}
use ublk_go.Device.Control.{tried, open_loop, open_char_dev, enoent}
use ublk_go.Device.Control.Balance.{own_device}

abbrev pub NoQueue : Device → Type 0
NoQueue d = d.queue ≡ none

abbrev pub Fresh : Device → Type 0
Fresh d = (d.char_fd ≡ none) × NoQueue d

-- Sleeping before the passes that are left.
slept-Keeps :
    {m : Act Device Unit}
    → Keeps own_device NoQueue Fresh m NoQueue
    → Keeps own_device NoQueue Fresh (λ k d l. m k d (slept ∷ l)) NoQueue
slept-Keeps km = record {
  balance = λ k d l r p. omega (arith, km.balance k d (slept ∷ l) r p);
  after = λ k d l p. km.after k d (slept ∷ l) p;
}

abbrev holding : ℕ → Device → Device
holding fd d = record d { char_fd = some fd }

module _ (path : DevicePath) (again : ℕ → Act Device Unit)
    (ka : (e : ℕ) → Keeps own_device NoQueue Fresh (again e) NoQueue) where
  -- A pass that failed: the next one, or the error.
  failed-Keeps :
      (e : ℕ)
      → Keeps own_device NoQueue Fresh
          (if e == enoent then (λ k d l. again e k d (slept ∷ l)) else refuse e)
          NoQueue
  failed-Keeps e =
      if_both (λ (m : Act Device Unit). Keeps own_device NoQueue Fresh m NoQueue) (e == enoent) _ _
        (slept-Keeps (ka e)) (refuse-Keeps own_device NoQueue Unit e (λ d p. p.1))

  tried-Kept :
      (k : Kernel) (d : Device) (l : Log) (r : Res) (x : Ret ℕ)
      → Fresh d
      → let out = tried again x k (keep holding x d) (opened path x ∷ l) in
        Kept r (own_device r d) l (own_device r out.1) out.2
  unfolding tried keep give
  tried-Kept k d l r (fine fd) p = rw p.0 (omega arith)
  tried-Kept k d l r (fail e) p =
      omega (arith, (failed-Keeps e).balance k d (opened path (fail e) ∷ l) r p)

  tried-Fits :
      (k : Kernel) (d : Device) (l : Log) (x : Ret ℕ)
      → Fresh d
      → Fits NoQueue NoQueue (tried again x k (keep holding x d) (opened path x ∷ l))
  unfolding tried keep give
  tried-Fits k d l (fine fd) p = p.1
  tried-Fits k d l (fail e) p = (failed-Keeps e).after k d (opened path (fail e) ∷ l) p

open_loop-Keeps :
    (n : ℕ) (path : DevicePath) (last : ℕ)
    → Keeps own_device NoQueue Fresh (open_loop n path last) NoQueue
unfolding open_loop
open_loop-Keeps zero path last = refuse-Keeps own_device NoQueue Unit last (λ d p. p.1)
open_loop-Keeps (suc n) path last =
    let again = open_loop n path in
    record {
      balance = λ k d l r p.
          tried-Kept path again (open_loop-Keeps n path) k d l r (k.open_path l path) p;
      after =
          λ k d l p. tried-Fits path again (open_loop-Keeps n path) k d l (k.open_path l path) p;
    }

pub open_char_dev-Keeps : Keeps own_device NoQueue Fresh open_char_dev NoQueue
unfolding open_char_dev
open_char_dev-Keeps = look-Keeps own_device NoQueue (λ d. open_loop-Keeps 50 _ 0)
