-- ===== src/Serve/Tags/Count.antt =====
-- How often a tag stands in a list.
use ublk_go.Prelude.{
  ℕ, zero, suc, ◌+◌, ◌<◌, ◌≡◌, refl, ap, List, [], ◌∷◌, ◌++◌, arith, ◌==◌, ltb, if◌then◌else◌,
  length,
}
use ublk_go.Prelude.Int.{ℤ}
use ublk_go.Uring.Entry.{Sqe, Cqe}
use ublk_go.Worker.{Worker}
use ublk_go.Serve.{io_sqe}
use ublk_go.Serve.Command.{fetch_sqes}
use ublk_go.Serve.Tags.{sqe_tags, cqe_tags}

abbrev pub one_of : ℕ → ℕ → ℕ
one_of t u = if t == u then 1 else 0

abbrev pub count : ℕ → List ℕ → ℕ
count t [] = 0
count t (u ∷ us) = one_of t u + count t us

pub count-append : (t : ℕ) (us vs : List ℕ) → count t (us ++ vs) ≡ count t us + count t vs
count-append t [] vs = omega arith
count-append t (u ∷ us) vs = omega (arith, count-append t us vs)

pub sqe_tags-append : (es fs : List Sqe) → sqe_tags (es ++ fs) ≡ sqe_tags es ++ sqe_tags fs
sqe_tags-append [] fs = refl
sqe_tags-append (e ∷ es) fs = ap (λ (t : List ℕ). e.user_data ∷ t) (sqe_tags-append es fs)

pub cqe_tags-append : (cs ds : List Cqe) → cqe_tags (cs ++ ds) ≡ cqe_tags cs ++ cqe_tags ds
cqe_tags-append [] ds = refl
cqe_tags-append (c ∷ cs) ds = ap (λ (t : List ℕ). c.user_data ∷ t) (cqe_tags-append cs ds)

-- Once for a tag of the queue, and never for another number.
abbrev pub below : ℕ → ℕ → ℕ
below depth t = if ltb t depth then 1 else 0

-- Whether a tag is among `n` from `from` on.
abbrev pub within : ℕ → ℕ → ℕ → ℕ
within from n t = if ltb t from then 0 else below (from + n) t

count-fetch_sqes :
    (fd : ℤ) (w : Worker) (t from n : ℕ)
    → count t (sqe_tags (fetch_sqes fd w from n)) ≡ within from n t
unfolding io_sqe
count-fetch_sqes fd w t from zero = ground arith
count-fetch_sqes fd w t from (suc n) = ground (arith, count-fetch_sqes fd w t (from + 1) n)

pub count-fetch_all :
    (fd : ℤ) (w : Worker) (t n : ℕ) → count t (sqe_tags (fetch_sqes fd w 0 n)) ≡ below n t
count-fetch_all fd w t n = ground (arith, count-fetch_sqes fd w t 0 n)

pub length-fetch_sqes : (fd : ℤ) (w : Worker) (from n : ℕ) → length (fetch_sqes fd w from n) ≡ n
length-fetch_sqes fd w from zero = refl
length-fetch_sqes fd w from (suc n) = omega (arith, length-fetch_sqes fd w (from + 1) n)

pub lt_of_below : (depth t : ℕ) → 0 < below depth t → t < depth
lt_of_below depth t h = ground arith
