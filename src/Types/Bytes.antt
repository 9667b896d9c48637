-- ===== src/Types/Bytes.antt =====
-- Little-endian bytes of an unsigned number, written and read.
use native.Mathlib.Nat.{pow-suc}
use ublk_go.Prelude.{
  ℕ, zero, suc, ◌+◌, ◌*◌, ◌/◌, ◌%◌, ◌^◌, ◌<◌, ◌≡◌, refl, ap, List, [], ◌∷◌, ◌++◌, arith, length,
  drop,
}

unfoldable pub le_bytes : ℕ → ℕ → List ℕ
le_bytes zero x = []
le_bytes (suc n) x = (x % 256) ∷ le_bytes n (x / 256)

-- Missing bytes read as 0.
unfoldable pub from_le : ℕ → List ℕ → ℕ
from_le zero bs = 0
from_le (suc n) [] = 0
from_le (suc n) (b ∷ bs) = b + 256 * from_le n bs

pub length-le_bytes : (n x : ℕ) → length (le_bytes n x) ≡ n
unfolding le_bytes
length-le_bytes zero x = refl
length-le_bytes (suc n) x = ap suc (length-le_bytes n (x / 256))

pub from_le-le_bytes :
    (n x : ℕ) (rest : List ℕ) → x < 256 ^ n → from_le n (le_bytes n x ++ rest) ≡ x
unfolding le_bytes from_le
from_le-le_bytes zero x rest h = omega arith
from_le-le_bytes (suc n) x rest h =
    omega (arith, pow-suc 256 n, from_le-le_bytes n (x / 256) rest (omega (arith, pow-suc 256 n)))

pub drop-le_bytes : (n x : ℕ) (rest : List ℕ) → drop n (le_bytes n x ++ rest) ≡ rest
unfolding le_bytes
drop-le_bytes zero x rest = refl
drop-le_bytes (suc n) x rest = drop-le_bytes n (x / 256) rest
