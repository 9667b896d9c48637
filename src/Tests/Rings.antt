-- ===== src/Tests/Rings.antt =====
-- ublk/uring/uring.go at rings of four entries.
use ublk_go.Prelude.{
  ℕ, zero, suc, ◌+◌, ◌-◌, ◌%◌, ◌^◌, ◌<◌, ◌≡◌, ◌≢◌, ◌↔◌, refl, inl, inr, true, false, List, some,
  none, [], ◌∷◌, ◌++◌, arith, replicate, get_or,
}
use ublk_go.Prelude.Int.{pos}
use ublk_go.Uring.Entry.{Cqe, zero_sqe, zero_cqe, sqe64_cmd, sqe128_cmd}
use ublk_go.Uring.Sq.{Sq, next_sqe, get_sqe64, get_sqe128, flush_sq, flush_loop}
use ublk_go.Uring.Sq.Valid.{IsValid}
use ublk_go.Uring.Sq.Flush.{Published, flush_sq-Published}
use ublk_go.Uring.Sq.Slots.{
  Handed, get_sqe64-Handed, get_sqe128-Handed, get_sqe64-none, next_sqe_overruns,
}
use ublk_go.Uring.Cq.{
  Cq, Wake, interrupted, err_cancelled, blocked, cancel, post, peek_cqe, seen_cqe, wait_cqe,
}
use ublk_go.Uring.Cq.Queue
use ublk_go.Uring.Cq.Queue.{
  waiting, completions, head?, tail_of, peek_cqe-head, seen_cqe-tail, post-append,
}
use ublk_go.Uring.Cq.Wait.{wait_cqe-cancel, wait_cqe-ne-blocked}

abbrev pub fresh : Sq
fresh = record {
  head = 0;
  tail = 0;
  mask = 3;
  array = replicate 4 0;
  slots = replicate 4 (zero_sqe 16);
  local_head = 0;
  local_tail = 0;
  entries = 4;
}

-- Three entries pending, across the end of the ring and of the 32-bit index.
abbrev wrapping : Sq
wrapping = record fresh {
  head = 2 ^ 32 - 2;
  tail = 2 ^ 32 - 2;
  local_head = 2 ^ 32 - 2;
  local_tail = 1;
}

-- One entry that the kernel has not read, and three pending.
abbrev lagging : Sq
lagging = record fresh { array = 0 ∷ 1 ∷ 2 ∷ 3 ∷ []; tail = 1; local_head = 1; local_tail = 4 }

pub fresh-IsValid : IsValid 2 fresh
fresh-IsValid = record {
  small = omega arith;
  entries_pow = refl;
  mask_pow = refl;
  slots_all = refl;
  array_all = refl;
  flushed = refl;
  head_word = omega arith;
  tail_word = omega arith;
  local_word = omega arith;
  pending_fits = omega arith;
  unread_fits = omega arith;
  named = λ j lt. absurd (omega arith);
}

wrapping-IsValid : IsValid 2 wrapping
wrapping-IsValid = record {
  small = omega arith;
  entries_pow = refl;
  mask_pow = refl;
  slots_all = refl;
  array_all = refl;
  flushed = refl;
  head_word = omega arith;
  tail_word = omega arith;
  local_word = omega arith;
  pending_fits = omega arith;
  unread_fits = omega arith;
  named = λ j lt. absurd (omega arith);
}

lagging_named : (j : ℕ) → j < 1 → get_or (0 ∷ 1 ∷ 2 ∷ 3 ∷ []) ((0 + j) % 4) 0 ≡ (0 + j) % 4
lagging_named zero lt = refl
lagging_named (suc j) lt = absurd (omega arith)

lagging-IsValid : IsValid 2 lagging
lagging-IsValid = record {
  small = omega arith;
  entries_pow = refl;
  mask_pow = refl;
  slots_all = refl;
  array_all = refl;
  flushed = refl;
  head_word = omega arith;
  tail_word = omega arith;
  local_word = omega arith;
  pending_fits = omega arith;
  unread_fits = omega arith;
  named = lagging_named;
}

get_sqe64-Handed_example : Handed 2 sqe64_cmd wrapping (get_sqe64 wrapping)
get_sqe64-Handed_example = get_sqe64-Handed 2 wrapping wrapping-IsValid (omega arith)

get_sqe128-Handed_example : Handed 2 sqe128_cmd fresh (get_sqe128 fresh)
get_sqe128-Handed_example = get_sqe128-Handed 2 fresh fresh-IsValid (omega arith)

get_sqe64-none_example : ((get_sqe64 wrapping).0 ≡ none) ↔ ◌≡◌ {A = ℕ} 3 4
get_sqe64-none_example = get_sqe64-none 2 wrapping wrapping-IsValid

flush_sq-Published_example : Published 2 wrapping (flush_sq wrapping)
flush_sq-Published_example = flush_sq-Published 2 wrapping wrapping-IsValid (omega arith)

-- The slots that the kernel is told to read, in order.
flush_wrapping : (flush_sq wrapping).1.array ≡ 0 ∷ 0 ∷ 2 ∷ 3 ∷ []
unfolding flush_sq flush_loop
flush_wrapping = refl

next_sqe_overruns_example : (next_sqe lagging).0 ≡ some 0
next_sqe_overruns_example = next_sqe_overruns 2 lagging lagging-IsValid (omega arith) (omega arith)

abbrev done : Cqe
done = record { user_data = 7; res = pos 0; flags = 0 }

abbrev quiet : Cq
quiet = record {
  head = 5;
  tail = 5;
  mask = 3;
  cqes = replicate 4 zero_cqe;
  cancel_fd = some 9;
  cancelled = false;
  signals = 0;
}

-- One completion waits, in slot 1.
abbrev posted : Cq
posted = record quiet { cqes = zero_cqe ∷ done ∷ zero_cqe ∷ zero_cqe ∷ []; tail = 6 }

quiet-IsValid : Queue.IsValid 2 quiet
quiet-IsValid = omega arith

posted-IsValid : Queue.IsValid 2 posted
posted-IsValid = omega arith

peek_cqe-head_example : peek_cqe posted ≡ head? (completions 2 posted)
peek_cqe-head_example = peek_cqe-head 2 posted posted-IsValid

seen_cqe-tail_example :
    Queue.IsValid 2 (seen_cqe posted)
    × (completions 2 (seen_cqe posted) ≡ tail_of (completions 2 posted))
seen_cqe-tail_example = seen_cqe-tail 2 posted posted-IsValid (omega arith)

post-append_example :
    Queue.IsValid 2 (post done quiet)
    × (completions 2 (post done quiet) ≡ completions 2 quiet ++ done ∷ [])
post-append_example = post-append 2 quiet done quiet-IsValid (omega arith)

-- A pass that is interrupted, and one in which the ring is cancelled.
abbrev passes : List Wake
passes =
    record { posted = []; cancels = false; returns = interrupted }
    ∷ record { posted = []; cancels = true; returns = interrupted }
    ∷ []

wait_cqe-ne-blocked_example : (wait_cqe passes quiet).0 ≢ blocked
wait_cqe-ne-blocked_example = wait_cqe-ne-blocked passes quiet (inr (inl refl))

-- The test TestCancelObservedWithCQEReady.
wait_cqe-cancel_example : wait_cqe [] (cancel posted) ≡ (err_cancelled, cancel posted)
wait_cqe-cancel_example = wait_cqe-cancel [] posted
