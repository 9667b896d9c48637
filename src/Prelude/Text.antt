-- ===== src/Prelude/Text.antt =====
-- Texts as lists of bytes: prefixes, decimal numbers and lines, as strings, fmt and bufio of Go
-- have them.
use Prim.Native.Char.{code}
use Prim.Native.String.{String}
use Prim.Native.Nat.{ℕ, zero, suc, ◌+◌, ◌-◌, ◌*◌, ◌/◌, ◌%◌, ◌^◌, ◌≤◌, ◌<◌}
use mathlib.Core.Path.{◌≡◌, refl, ap}
use mathlib.Core.Logic.{◌≢◌}
use mathlib.Core.Option.{Option, none, some}
use mathlib.Core.List.{List, [], ◌∷◌, ◌++◌}
use native.Mathlib.Omega.{arith}
use ublk_go.Prelude.Tests.{ltb, ◌==◌, if_both, if◌then◌else◌}
use ublk_go.Prelude.Lists.{length, length-append}

-- The bytes of an ASCII text.
abbrev pub codes : String → List ℕ
codes String.[] = []
codes (String.◌∷◌ c s) = code c ∷ codes s

-- What is left of a text after a prefix, if it has it.
unfoldable pub strip : List ℕ → List ℕ → Option (List ℕ)
strip [] s = some s
strip (p ∷ ps) [] = none
strip (p ∷ ps) (c ∷ s) = if p == c then strip ps s else none

pub strip-append : (p s : List ℕ) → strip p (p ++ s) ≡ some s
unfolding strip
strip-append [] s = refl
strip-append (c ∷ p) s = ground (arith, strip-append p s)

-- The digits of a number below ten to the fuel.
unfoldable pub digits : ℕ → ℕ → List ℕ
digits zero n = []
digits (suc fuel) n =
    let rest = digits fuel (n / 10) in
    if ltb n 10 then (b'0' + n) ∷ [] else rest ++ ((b'0' + n % 10) ∷ [])

-- `%d` of a number that is not negative.
unfoldable pub decimal : ℕ → List ℕ
decimal n = digits (suc n) n

unfoldable pub value : ℕ → List ℕ → ℕ
value n [] = n
value n (c ∷ s) = value (n * 10 + (c - b'0')) s

value-append : (n : ℕ) (s : List ℕ) (c : ℕ) → value n (s ++ (c ∷ [])) ≡ value n s * 10 + (c - b'0')
unfolding value
value-append n [] c = refl
value-append n (d ∷ s) c = value-append (n * 10 + (d - b'0')) s c

value-digits : (fuel n : ℕ) → n < fuel → value 0 (digits fuel n) ≡ n
unfolding digits value
value-digits zero n h = absurd (omega (arith, h))
value-digits (suc fuel) n h =
    ground
      (arith, value-append 0 (digits fuel (n / 10)) (b'0' + n % 10), value-digits fuel (n / 10))

pub value-decimal : (n : ℕ) → value 0 (decimal n) ≡ n
unfolding decimal
value-decimal n = value-digits (suc n) n (omega arith)

tenth : (n m : ℕ) → n < m * 10 → n / 10 < m
tenth n m h = omega (arith, h)

length-digits_le : (k fuel n : ℕ) → 0 < k → n < 10 ^ k → length (digits fuel n) ≤ k
unfolding digits
length-digits_le zero fuel n h small = absurd (omega (arith, h))
length-digits_le (suc k) zero n h small = omega arith
length-digits_le (suc zero) (suc fuel) n h small = ground (arith, small)
length-digits_le (suc (suc k)) (suc fuel) n h small = ground (
  arith,
  length-append (digits fuel (n / 10)) ((b'0' + n % 10) ∷ []),
  length-digits_le (suc k) fuel (n / 10) (omega arith)
      (tenth n (10 ^ suc k) (omega (arith, small))),
)

pub length-decimal_le : (n : ℕ) → n < 2 ^ 32 → length (decimal n) ≤ 10
unfolding decimal
length-decimal_le n h = length-digits_le 10 (suc n) n (omega arith) (omega (arith, h))

-- No byte of the text ends a line or is a carriage return.
unfoldable pub IsPlain : List ℕ → Type 0
IsPlain [] = Unit
IsPlain (c ∷ s) = (c ≢ b'\n') × (c ≢ b'\r') × IsPlain s

pub append-IsPlain : (s t : List ℕ) → IsPlain s → IsPlain t → IsPlain (s ++ t)
unfolding IsPlain
append-IsPlain [] t hs ht = ht
append-IsPlain (c ∷ s) t hs ht = (hs.0, hs.1, append-IsPlain s t hs.2 ht)

digits-IsPlain : (fuel n : ℕ) → IsPlain (digits fuel n)
unfolding digits IsPlain
digits-IsPlain zero n = tt
digits-IsPlain (suc fuel) n =
    if_both IsPlain (ltb n 10) ((b'0' + n) ∷ []) (digits fuel (n / 10) ++ ((b'0' + n % 10) ∷ []))
      (omega arith, omega arith, tt)
      (append-IsPlain (digits fuel (n / 10)) ((b'0' + n % 10) ∷ []) (digits-IsPlain fuel (n / 10))
        (omega arith, omega arith, tt))

pub decimal-IsPlain : (n : ℕ) → IsPlain (decimal n)
unfolding decimal
decimal-IsPlain n = digits-IsPlain (suc n) n

abbrev push : ℕ → List (List ℕ) → List (List ℕ)
push c [] = (c ∷ []) ∷ []
push c (l ∷ ls) = (c ∷ l) ∷ ls

-- A line runs up to a newline or to the end of the text.
unfoldable pub lines : List ℕ → List (List ℕ)
lines [] = []
lines (c ∷ s) = let rest = lines s in if c == b'\n' then [] ∷ rest else push c rest

pub lines-append : (l s : List ℕ) → IsPlain l → lines (l ++ (b'\n' ∷ s)) ≡ l ∷ lines s
unfolding lines IsPlain
lines-append [] s h = refl
lines-append (c ∷ l) s h = ground (arith, lines-append l s h.2, h.0)

-- A carriage return at the end is dropped.
unfoldable pub drop_cr : List ℕ → List ℕ
drop_cr [] = []
drop_cr (c ∷ []) = if c == b'\r' then [] else c ∷ []
drop_cr (c ∷ d ∷ s) = c ∷ drop_cr (d ∷ s)

pub drop_cr_plain : (s : List ℕ) → IsPlain s → drop_cr s ≡ s
unfolding drop_cr IsPlain
drop_cr_plain [] h = refl
drop_cr_plain (c ∷ []) h = ground (arith, h.1)
drop_cr_plain (c ∷ d ∷ s) h = ap (c ∷◌) (drop_cr_plain (d ∷ s) h.2)
