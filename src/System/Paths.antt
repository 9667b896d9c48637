-- ===== src/System/Paths.antt =====
-- The names of the device nodes, as ublk/device.go prints them.
use ublk_go.Prelude.{
  ℕ, ◌≡◌, refl, sym, ◌∙◌, if◌then◌else◌, ◌==◌, ap, List, [], ◌∷◌, ◌++◌, Option, none, some, arith,
}
use ublk_go.Prelude.Text.{
  codes, strip, decimal, value, value-decimal, IsPlain, append-IsPlain, decimal-IsPlain,
}
use ublk_go.System.{DevicePath, control, char_dev, block_dev}

abbrev pub char_prefix : List ℕ
char_prefix = codes "/dev/ublkc"

abbrev pub block_prefix : List ℕ
block_prefix = codes "/dev/ublkb"

unfoldable pub text_of : DevicePath → List ℕ
text_of control = codes "/dev/ublk-control"
text_of (char_dev n) = char_prefix ++ decimal n
text_of (block_dev n) = block_prefix ++ decimal n

-- The node that a name stands for.
node_from : List ℕ → Option DevicePath
node_from [] = none
node_from (c ∷ s) =
    if c == b'-'
    then some control
    else if c == b'c'
    then some (char_dev (value 0 s))
    else some (block_dev (value 0 s))

node_of : Option (List ℕ) → Option DevicePath
node_of none = none
node_of (some s) = node_from s

abbrev named : List ℕ → Option DevicePath
named s = node_of (strip (codes "/dev/ublk") s)

named_lem : (p : DevicePath) → named (text_of p) ≡ some p
unfolding text_of node_of node_from strip
named_lem control = refl
named_lem (char_dev n) = ap (λ k. some (char_dev k)) (value-decimal n)
named_lem (block_dev n) = ap (λ k. some (block_dev k)) (value-decimal n)

some_same : {p q : DevicePath} → some p ≡ some q → p ≡ q
some_same e = cc

-- Different nodes have different names.
pub text_of_inj : (p q : DevicePath) → text_of p ≡ text_of q → p ≡ q
text_of_inj p q e = some_same (sym (named_lem p) ∙ ap named e ∙ named_lem q)

pub text_of-IsPlain : (p : DevicePath) → IsPlain (text_of p)
unfolding text_of IsPlain
text_of-IsPlain control = ground arith
text_of-IsPlain (char_dev n) =
    append-IsPlain char_prefix (decimal n) ground arith (decimal-IsPlain n)
text_of-IsPlain (block_dev n) =
    append-IsPlain block_prefix (decimal n) ground arith (decimal-IsPlain n)
