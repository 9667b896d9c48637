-- ===== src/Tests/Serving.antt =====
-- The loops of ublk/worker.go at the worker of Tests/Requests.antt.
use ublk_go.Prelude.{
  ◌++◌, inl, inr, ℕ, ◌≡◌, refl, true, false, List, some, [], ◌∷◌, arith, replicate,
}
use ublk_go.Prelude.Int.{pos}
use ublk_go.Uring.Entry.{Cqe, zero_cqe}
use ublk_go.Uring.Sq.{Sq}
use ublk_go.Uring.Sq.Valid as Sub
use ublk_go.Uring.Cq.{peek_cqe}
use ublk_go.Serve.{Memory, Meanwhile, Serving, fetch_loop, drain}
use ublk_go.Serve.Command.{HasBuffers, alloc_buffers-HasBuffers, fetch_loop-fetch_sqes, fetch_sqes}
use ublk_go.Serve.Step.{IsReady}
use ublk_go.Serve.Drain.{Emptied, Enough, drain-Emptied}
use ublk_go.System.{fine}
use ublk_go.Uring.Cq.{Wake, interrupted, ready, has_cancel, wait_cqe, front}
use ublk_go.Uring.Cq.Arrival.{IsCalm}
use ublk_go.Serve.Order.{IsRequest, IsSized}
use ublk_go.Serve.Run.{Pass, on, run_loop}
use ublk_go.Serve.Run.Rounds.{IsIdle, AllFeed, Rounds, run_loop-Rounds}
use ublk_go.Types.Layout.{desc_area}
use ublk_go.Tests.Requests.{read_desc, write_desc, worker, worker-IsValid, memory}
use ublk_go.Tests.Rings.{fresh, fresh-IsValid}

pub worker-HasBuffers : HasBuffers worker
worker-HasBuffers = alloc_buffers-HasBuffers worker 100 refl (omega arith)

fetch_loop-fetch_sqes_example :
    (sq' : Sq) × (fetch_loop 2 (pos 5) worker 0 fresh ≡ some sq')
    × Sub.IsValid 2 sq'
    × (Sub.pending_sqes 2 sq' ≡ fetch_sqes (pos 5) worker 0 2)
    × (Sub.unread sq' ≡ Sub.unread fresh)
fetch_loop-fetch_sqes_example =
    fetch_loop-fetch_sqes 2 (pos 5) worker worker-HasBuffers fresh fresh-IsValid refl (omega arith)

abbrev pub tag_zero : Cqe
tag_zero = zero_cqe

abbrev tag_one : Cqe
tag_one = record zero_cqe { user_data = 1 }

-- The completion of tag 0 waits.
abbrev pub serving : Serving (List ℕ)
serving = record {
  worker = worker;
  char_fd = pos 5;
  sq = fresh;
  cq = record {
    head = 0;
    tail = 1;
    mask = 3;
    cqes = tag_zero ∷ zero_cqe ∷ zero_cqe ∷ zero_cqe ∷ [];
    cancel_fd = some 9;
    cancelled = false;
    signals = 0;
  };
  store = replicate 1024 0;
}

serving-IsReady : IsReady memory 2 2 serving
serving-IsReady = record {
  working = worker-IsValid;
  buffers = worker-HasBuffers;
  submission = fresh-IsValid;
  completing = record {
    small = omega arith;
    mask_pow = refl;
    cqes_all = refl;
    head_word = omega arith;
    tail_word = omega arith;
    fits = omega arith;
  };
}

serving_front : peek_cqe serving.cq ≡ some tag_zero
unfolding peek_cqe
serving_front = refl

-- What the kernel has written: the requests as they are, and other requests with other bytes.
abbrev requests_stay : Memory
requests_stay = record { descs = worker.descs; pool = worker.pool }

abbrev requests_change : Memory
requests_change = record {
  descs = desc_area (read_desc ∷ write_desc ∷ []);
  pool = replicate 512 1 ++ replicate 512 2;
}

stay-IsSized : IsSized 2 512 requests_stay
unfolding desc_area ublk_go.Types.io_desc_bytes
stay-IsSized = record { area = refl; buffers = refl }

change-IsSized : IsSized 2 512 requests_change
unfolding desc_area ublk_go.Types.io_desc_bytes
change-IsSized = record { area = refl; buffers = refl }

abbrev then_post : List Cqe → Memory → Meanwhile
then_post cs m = record { posted = cs; memory = m }

abbrev two_posts : List Meanwhile
two_posts = then_post (tag_one ∷ []) requests_change ∷ then_post [] requests_stay ∷ []

-- While tag 0 is served, the kernel posts the completion of tag 1.
serving-Enough : Enough memory 2 2 serving two_posts
unfolding ublk_go.Uring.Window.window
serving-Enough = record {
  requests = (
    record { fine = refl; listed = omega arith },
    (record { fine = refl; listed = omega arith }, tt),
  );
  sized = (change-IsSized, (stay-IsSized, tt));
  events = omega arith;
  room = omega arith;
  slots = omega arith;
}

drain-Emptied_example :
    Emptied memory 2 2 serving two_posts (drain memory two_posts tag_zero serving)
drain-Emptied_example =
    drain-Emptied memory 2 2 two_posts serving tag_zero serving-IsReady serving_front serving-Enough

-- A pass in which the kernel takes all that it is given.
abbrev full_pass : Pass
full_pass = record { wakes = []; memory = requests_stay; posts = two_posts; enters = λ n. fine n }

abbrev cancelled_serving : Serving (List ℕ)
cancelled_serving = record serving { cq = record serving.cq { cancelled = true } }

-- Nothing waits, and the ring goes round at its fourth slot.
abbrev waiting_for_work : Serving (List ℕ)
waiting_for_work = record serving { cq = record serving.cq { head = 3; tail = 3 } }

waiting-IsIdle : IsIdle memory 2 2 waiting_for_work
unfolding ublk_go.Uring.Window.window
waiting-IsIdle = record {
  ready = record {
    working = worker-IsValid;
    buffers = worker-HasBuffers;
    submission = fresh-IsValid;
    completing = record {
      small = omega arith;
      mask_pow = refl;
      cqes_all = refl;
      head_word = omega arith;
      tail_word = omega arith;
      fits = omega arith;
    };
  };
  quiet = (refl, refl);
  all_seen = refl;
  live = refl;
}

abbrev spurious : Wake
spurious = record { posted = []; cancels = false; returns = interrupted }

abbrev posts_one : Cqe → Wake
posts_one c = record { posted = c ∷ []; cancels = false; returns = ready (3 ∷ []) }

-- The first pass is woken by a signal before its first request, and the request of tag 1 comes while
-- that of tag 0 is served.
abbrev two_passes : List Pass
two_passes =
    record {
      wakes = spurious ∷ posts_one tag_zero ∷ [];
      memory = requests_stay;
      posts = two_posts;
      enters = λ n. fine n;
    }
    ∷ record {
      wakes = posts_one tag_one ∷ [];
      memory = requests_change;
      posts = then_post [] requests_change ∷ [];
      enters = λ n. fine n;
    }
    ∷ []

tag_zero-IsRequest : IsRequest 2 tag_zero
tag_zero-IsRequest = record { fine = refl; listed = omega arith }

tag_one-IsRequest : IsRequest 2 tag_one
tag_one-IsRequest = record { fine = refl; listed = omega arith }

spurious-IsCalm : IsCalm (some 9) spurious
spurious-IsCalm = record { uncancelled = refl; returned = inl refl }

posts-IsCalm : (c : Cqe) → IsCalm (some 9) (posts_one c)
unfolding has_cancel ublk_go.Uring.Cq.is_cancel_fd
posts-IsCalm c = record { uncancelled = refl; returned = inr (3 ∷ [], refl, refl) }

two_passes-AllFeed : AllFeed (some 9) 2 512 2 2 two_passes
two_passes-AllFeed = (
  record {
    arrives = (spurious-IsCalm, inr (refl, (posts-IsCalm tag_zero, inl (omega arith))));
    requests = (tag_zero-IsRequest, (tag_one-IsRequest, tt));
    events = omega arith;
    room = omega arith;
    slots = omega arith;
    waited_room = omega arith;
    arrived_room = omega arith;
    waited_memory = stay-IsSized;
    later_memory = (change-IsSized, (stay-IsSized, tt));
    takes = λ n. refl;
  },
  (
    record {
      arrives = (posts-IsCalm tag_one, inl (omega arith));
      requests = (tag_one-IsRequest, tt);
      events = omega arith;
      room = omega arith;
      slots = omega arith;
      waited_room = omega arith;
      arrived_room = omega arith;
      waited_memory = change-IsSized;
      later_memory = (change-IsSized, tt);
      takes = λ n. refl;
    },
    tt,
  ),
)

run_loop-Rounds_example :
    (final : Serving (List ℕ)) × (run_loop memory two_passes waiting_for_work ≡ some (on final))
    × Rounds memory 2 2 two_passes waiting_for_work final
    × IsIdle memory 2 2 final
run_loop-Rounds_example =
    run_loop-Rounds memory 2 2 two_passes waiting_for_work waiting-IsIdle two_passes-AllFeed
