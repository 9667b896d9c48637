-- ===== src/Examples/Announce.antt =====
-- How the parent of example/sigkill/main.go learns the device of its child: the line that the child
-- prints, `readReady`, and the names of the nodes that `waitGone` looks for.
use ublk_go.Prelude.{
  ℕ, ◌<◌, ◌*◌, ◌^◌, ◌≤◌, ◌≡◌, ◌↔◌, refl, ap, sym, ◌∙◌, Bool, true, if◌then◌else◌, ltb, lt→ltb, List,
  [], ◌∷◌, ◌++◌, Option, none, some, length, arith,
}
use mathlib.Core.List.{append_assoc, append-nil}
use ublk_go.Prelude.Text.{
  codes, decimal, strip, strip-append, length-decimal_le, lines, lines-append, drop_cr,
  drop_cr_plain, IsPlain, append-IsPlain,
}
use ublk_go.System.{DevicePath, char_dev, block_dev}
use ublk_go.System.Paths.{text_of, text_of-IsPlain, text_of_inj, block_prefix, char_prefix}
use ublk_go.Device.{Device}
use ublk_go.Device.Control.{path}

-- The text of `Path`, which is empty for a device that was never created.
unfoldable pub path_text : Option DevicePath → List ℕ
path_text none = []
path_text (some p) = text_of p

abbrev pub ready_prefix : List ℕ
ready_prefix = codes "CHILD_READY "

-- What the child prints, with the space and the newline of `Println`.
unfoldable pub announcement : Device → List ℕ
announcement dev = ready_prefix ++ (path_text (path dev) ++ (b'\n' ∷ []))

-- A Scanner gives up at a line of this length.
abbrev pub max_token : ℕ
max_token = 64 * 1024

unfoldable pub or_later : Option (List ℕ) → Option (List ℕ) → Option (List ℕ)
or_later none later = later
or_later (some p) later = some p

-- The loop of `readReady` over the lines that the Scanner returns.
unfoldable pub first_ready : List (List ℕ) → Option (List ℕ)
first_ready [] = none
first_ready (l ∷ ls) =
    let later = first_ready ls in
    if ltb (length l) max_token then or_later (strip ready_prefix (drop_cr l)) later else none

pub data Ready : Type 0 where
  announced : List ℕ → Ready
  unannounced : Ready  -- the output ended first
  late : Ready  -- nothing within five seconds

ready_or : Option (List ℕ) → Ready
ready_or none = unannounced
ready_or (some p) = announced p

-- `readReady` of the child's output: whether its goroutine answers before the timeout is given.
unfoldable pub read_ready : Bool → List ℕ → Ready
unfolding ready_or
read_ready in_time out = if in_time then ready_or (first_ready (lines out)) else late

or_self : List ℕ → Option (List ℕ) → List ℕ
or_self s none = s
or_self s (some rest) = rest

unfoldable pub trim_prefix : List ℕ → List ℕ → List ℕ
unfolding or_self
trim_prefix p s = or_self s (strip p s)

-- The character node that `waitGone` looks for.
unfoldable pub char_path : List ℕ → List ℕ
char_path block_path = char_prefix ++ trim_prefix block_prefix block_path

-- Lines that are short and announce nothing.
unfoldable pub IsQuiet : List (List ℕ) → Type 0
IsQuiet [] = Unit
IsQuiet (l ∷ ls) = IsPlain l × (length l < max_token) × (strip ready_prefix l ≡ none) × IsQuiet ls

unfoldable pub printed : List (List ℕ) → List ℕ
printed [] = []
printed (l ∷ ls) = l ++ (b'\n' ∷ printed ls)

first_ready-line :
    (l after : List ℕ)
    → IsPlain l
    → length l < max_token
    → first_ready (lines (l ++ (b'\n' ∷ after)))
      ≡ or_later (strip ready_prefix l) (first_ready (lines after))
unfolding first_ready
first_ready-line l after plain short =
    rw (lines-append l after plain, drop_cr_plain l plain, lt→ltb (length l) max_token short) refl

first_ready-printed :
    (before : List (List ℕ)) (out : List ℕ)
    → IsQuiet before
    → first_ready (lines (printed before ++ out)) ≡ first_ready (lines out)
unfolding or_later IsQuiet printed
first_ready-printed [] out h = refl
first_ready-printed (l ∷ ls) out h =
    rw
      (append_assoc l (b'\n' ∷ printed ls) out, first_ready-line l (printed ls ++ out) h.0 h.1, h.2)
      (first_ready-printed ls out h.3)

path_text-path :
    (dev : Device) (n : ℕ) → dev.id ≡ some n → path_text (path dev) ≡ text_of (block_dev n)
unfolding path_text path
path_text-path dev n e = rw e refl

length-text_of_le : (n : ℕ) → n < 2 ^ 32 → length (text_of (block_dev n)) ≤ 20
unfolding text_of
length-text_of_le n h = omega (arith, length-decimal_le n h)

first_ready-announcement :
    (p after : List ℕ)
    → IsPlain p
    → length p ≤ 20
    → first_ready (lines ((ready_prefix ++ (p ++ (b'\n' ∷ []))) ++ after)) ≡ some p
unfolding or_later IsPlain
first_ready-announcement p after h short =
    ap (λ out. first_ready (lines out)) (ap (ready_prefix ++◌) (append_assoc p (b'\n' ∷ []) after))
    ∙ first_ready-line (ready_prefix ++ p) after (append-IsPlain ready_prefix p (ground arith) h)
        (omega (arith, short))
    ∙ ap (λ r. or_later r (first_ready (lines after))) (strip-append ready_prefix p)

block_dev_inj : (m n : ℕ) → block_dev m ≡ block_dev n → m ≡ n
block_dev_inj m n e = cc

names_agree : (m n : ℕ) → (text_of (block_dev m) ≡ text_of (block_dev n)) ↔ (m ≡ n)
names_agree m n = (
  λ e. block_dev_inj m n (text_of_inj (block_dev m) (block_dev n) e),
  ap (λ k. text_of (block_dev k)),
)

-- Let a child print any lines shorter than 65536 bytes that announce nothing and then announce its
-- device, whose number is below 2^32. If the answer is in time, `readReady` gives the block node of
-- that device, whatever follows, and `waitGone` looks for the character node that the child opened;
-- from a child that ends before it announces a device `readReady` gives an error. The nodes of two
-- numbers have the same name only if the numbers are the same.
pub announced_device :
    (dev : Device) (m n : ℕ) (before : List (List ℕ)) (after : List ℕ)
    → dev.id ≡ some n
    → n < 2 ^ 32
    → IsQuiet before
    → (read_ready true (printed before ++ (announcement dev ++ after))
        ≡ announced (text_of (block_dev n)))
      × (char_path (text_of (block_dev n)) ≡ text_of (char_dev n))
      × (read_ready true (printed before) ≡ unannounced)
      × ((text_of (block_dev m) ≡ text_of (block_dev n)) ↔ (m ≡ n))
unfolding read_ready char_path text_of trim_prefix announcement first_ready lines
announced_device dev m n before after known small quiet = (
  ap ready_or (
      first_ready-printed before (announcement dev ++ after) quiet
      ∙ ap (λ p. first_ready (lines ((ready_prefix ++ (p ++ (b'\n' ∷ []))) ++ after)))
          (path_text-path dev n known)
      ∙ first_ready-announcement (text_of (block_dev n)) after (text_of-IsPlain (block_dev n))
          (length-text_of_le n small)),
  ap (λ r. char_prefix ++ or_self (text_of (block_dev n)) r)
      (strip-append block_prefix (decimal n)),
  ap ready_or (
      ap (λ out. first_ready (lines out)) (sym (append-nil (printed before)))
      ∙ first_ready-printed before [] quiet),
  names_agree m n,
)
