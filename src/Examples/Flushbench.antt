-- ===== src/Examples/Flushbench.antt =====
-- example/flushbench/main.go: the backend that records its calls, and what is printed of them.
use ublk_go.Prelude.{ℕ, ◌+◌, ◌*◌, List, Option, some, length}
use ublk_go.Prelude.Int.{ℤ, pos}
use ublk_go.Storage.{Reply, ReadReply}
use ublk_go.Examples.{PartialBackend, ◌>>=◌, copy_out, copy_in, transferred}
use ublk_go.Prelude.{zero, suc, ◌-◌, ◌/◌, [], ◌∷◌, ◌++◌, none, ltb, leb, get_or, if◌then◌else◌}

abbrev pub dev_size : ℕ
dev_size = 64 * 1024 * 1024

pub data Op : Type 0 where
  op_r : Op
  op_w : Op

-- `event`, with the time in nanoseconds.
pub record TraceEvent : Type 0 where
  pub at : ℕ
  pub op : Op
  pub off : ℤ
  pub size : ℕ

-- `trace` and `tracingBackend`. `clock i` is what the reading `i` of the clock since `t0` gives.
pub record TracingBackend : Type 0 where
  pub bytes : List ℕ
  pub ev : List TraceEvent
  pub reads : ℕ
  pub writes : ℕ
  pub readings : ℕ

module _ (clock : ℕ → ℕ) where
  unfoldable pub push : Op → ℤ → ℕ → TracingBackend → TracingBackend
  push op off size b = record b {
    ev = b.ev ++ record { at = clock b.readings; op = op; off = off; size = size } ∷ [];
    readings = b.readings + 1;
  }

  unfoldable pub read_at : ℕ → ℤ → TracingBackend → Option (ReadReply TracingBackend)
  read_at n off b = do
    p ← copy_out b.bytes off n
    some (record {
      reply = transferred n (push op_r off n (record b { reads = b.reads + 1 }));
      filled = p;
    })

  unfoldable pub write_at : List ℕ → ℤ → TracingBackend → Option (Reply TracingBackend)
  write_at p off b = do
    bytes' ← copy_in b.bytes p off
    some (
        transferred (length p)
          (record (push op_w off (length p) (record b { writes = b.writes + 1 })) {
            bytes = bytes';
          }))

  abbrev pub backend : PartialBackend TracingBackend
  backend = record { read_at = read_at; write_at = write_at }

abbrev pub print_samples : ℕ
print_samples = 10

abbrev pub zero_event : TraceEvent
zero_event = record { at = 0; op = op_r; off = pos 0; size = 0 }

-- The first loop of `printSince`, from index `i` on: the first event from `mark` on.
unfoldable pub first_since : ℕ → ℕ → List TraceEvent → Option ℕ
first_since mark i [] = none
first_since mark i (e ∷ es) =
    let later = first_since mark (i + 1) es in if leb mark e.at then some i else later

-- The second: the longest gap between events, from the one at `i` on with `n` left.
unfoldable pub max_gap : ℕ → ℕ → ℕ → List TraceEvent → ℕ
max_gap zero i gap ev = gap
max_gap (suc n) i gap ev =
    let g = (get_or ev i zero_event).at - (get_or ev (i - 1) zero_event).at in
    max_gap n (i + 1) (if ltb gap g then g else gap) ev

-- The step between the events that are printed, for `count` of them.
unfoldable pub step_of : ℕ → ℕ
step_of count = if ltb print_samples count then count / print_samples else 1

-- The third: the indices of the events that are printed, from `i` to `last`, on fuel.
unfoldable pub samples : ℕ → ℕ → ℕ → ℕ → List ℕ
samples zero step i last = []
samples (suc fuel) step i last =
    let rest = samples fuel step (i + step) last in if leb i last then i ∷ rest else []

-- What `printSince` prints: how many calls and their longest gap, and the events.
pub record Printed : Type 0 where
  pub calls : ℕ
  pub gap : ℕ
  pub shown : List ℕ

unfoldable pub printed_from : ℕ → List TraceEvent → Printed
printed_from first ev =
    let last = length ev - 1 in
    let count = last - first + 1 in
    record {
      calls = count;
      gap = max_gap (last - first) (first + 1) 0 ev;
      shown = samples (count + 1) (step_of count) first last;
    }

-- `none` if there is no event, or none from `mark` on.
unfoldable pub print_since : ℕ → List TraceEvent → Option Printed
print_since mark ev = do first ← first_since mark 0 ev; some (printed_from first ev)
