-- ===== src/Uring/Cq/Queue.antt =====
-- The completion queue is a first-in first-out queue: the kernel posts at its end, `PeekCQE` reads
-- its front and `SeenCQE` drops it.
use mathlib.Core.List.{append-nil, append_assoc}
use ublk_go.Prelude.{
  sym, length-append, ℕ, suc, ◌+◌, ◌-◌, ◌%◌, ◌^◌, ◌≤◌, ◌<◌, ◌≡◌, ◌≢◌, refl, ap, ◌∙◌, List, [], ◌∷◌,
  ◌++◌, Option, none, some, arith, length, get_or, length-set, ℕ_discrete, bit_and,
}
use ublk_go.Go.Words.{u32, sub_u32}
use ublk_go.Go.Bits.Laws.{pow-two-pos, pow-two-le}
use ublk_go.Go.Bits.Mask.{u32-mod-pow, bit_and-mask}
use ublk_go.Uring.Entry.{Cqe, zero_cqe}
use ublk_go.Uring.Window.{
  window, window_step, length-window, window-snoc_set, window_of_mod, window_empty,
}
use ublk_go.Uring.Cq.{Cq, front, peek_cqe, seen_cqe, post, post_all}

-- Completions that are posted and not yet seen.
abbrev pub waiting : Cq → ℕ
waiting r = sub_u32 r.tail r.head

pub record IsValid (k : ℕ) (r : Cq) : Type 0 where
  pub small : k ≤ 30
  pub mask_pow : r.mask ≡ 2 ^ k - 1
  pub cqes_all : length r.cqes ≡ 2 ^ k
  pub head_word : r.head < 2 ^ 32
  pub tail_word : r.tail < 2 ^ 32
  pub fits : waiting r ≤ 2 ^ k

-- The completions that wait, oldest first.
abbrev pub completions : ℕ → Cq → List Cqe
completions k r = window zero_cqe (2 ^ k) r.cqes r.head (waiting r)

pow_small : {k : ℕ} {r : Cq} → IsValid k r → (0 < 2 ^ k) × (2 ^ k ≤ 2 ^ 30)
pow_small {k} v = (pow-two-pos k, pow-two-le k 30 v.small)

abbrev pub head? : List Cqe → Option Cqe
head? [] = none
head? (c ∷ _) = some c

abbrev pub tail_of : List Cqe → List Cqe
tail_of [] = []
tail_of (_ ∷ cs) = cs

pub front_lem : {k : ℕ} {r : Cq} → IsValid k r → front r ≡ get_or r.cqes (r.head % 2 ^ k) zero_cqe
unfolding front
front_lem {k} {r} v =
    ap (λ (i : ℕ). get_or r.cqes i zero_cqe) (rw v.mask_pow (bit_and-mask k r.head))

-- `PeekCQE` returns the oldest completion that waits, or nil if none does.
pub peek_cqe-head : (k : ℕ) (r : Cq) → IsValid k r → peek_cqe r ≡ head? (completions k r)
unfolding peek_cqe
peek_cqe-head k r v = elim (ℕ_discrete (waiting r) 0) [
  | yes idle ↦ rw (window_empty zero_cqe (2 ^ k) r.cqes r.head (waiting r) idle) (ground arith)
  | no busy ↦
      rw (window_step zero_cqe (2 ^ k) r.cqes r.head (waiting r) busy, front_lem v) (ground arith)
]

seen_waiting : {k : ℕ} {r : Cq} → IsValid k r → waiting r ≢ 0 → waiting (seen_cqe r) ≡ waiting r - 1
unfolding seen_cqe
seen_waiting v busy = omega (arith, pow_small v)

-- `SeenCQE` drops the oldest completion and keeps the invariant.
pub seen_cqe-tail :
    (k : ℕ) (r : Cq)
    → IsValid k r
    → waiting r ≢ 0
    → IsValid k (seen_cqe r) × (completions k (seen_cqe r) ≡ tail_of (completions k r))
unfolding seen_cqe
seen_cqe-tail k r v busy = (
  record {
    small = v.small;
    mask_pow = v.mask_pow;
    cqes_all = v.cqes_all;
    head_word = omega arith;
    tail_word = v.tail_word;
    fits = omega (arith, v.fits, seen_waiting v busy);
  },
  rw (window_step zero_cqe (2 ^ k) r.cqes r.head (waiting r) busy) (
      ap (window zero_cqe (2 ^ k) r.cqes (u32 (r.head + 1))) (seen_waiting v busy)
      ∙ window_of_mod zero_cqe (2 ^ k) r.cqes (waiting r - 1) (u32 (r.head + 1)) (r.head + 1)
          (u32-mod-pow k (r.head + 1) (omega (arith, v.small)))),
)

-- A completion that the kernel posts to a ring that is not full goes to the end of the queue.
pub post-append :
    (k : ℕ) (r : Cq) (c : Cqe)
    → IsValid k r
    → waiting r < 2 ^ k
    → IsValid k (post c r) × (completions k (post c r) ≡ completions k r ++ c ∷ [])
unfolding post
post-append k r c v room = (
  record {
    small = v.small;
    mask_pow = v.mask_pow;
    cqes_all = length-set r.cqes _ c ∙ v.cqes_all;
    head_word = v.head_word;
    tail_word = omega arith;
    fits = rw grown room;
  },
  rw (end_index, grown)
      (window-snoc_set zero_cqe (2 ^ k) r.cqes r.head (waiting r) c room v.cqes_all),
)
  where
    wraps : r.tail ≡ u32 (r.head + waiting r)
    wraps = omega (arith, v.head_word, v.tail_word)

    grown : sub_u32 (u32 (r.tail + 1)) r.head ≡ suc (waiting r)
    grown = omega (arith, pow_small v, room, v.head_word, v.tail_word)

    end_index : bit_and r.tail r.mask ≡ (r.head + waiting r) % 2 ^ k
    end_index =
        ap (λ (m : ℕ). bit_and r.tail m) v.mask_pow
        ∙ bit_and-mask k r.tail
        ∙ ap (λ (t : ℕ). t % 2 ^ k) wraps
        ∙ u32-mod-pow k (r.head + waiting r) (omega (arith, v.small))

pub waiting-length : (k : ℕ) (r : Cq) → length (completions k r) ≡ waiting r
waiting-length k r = length-window zero_cqe (2 ^ k) r.cqes r.head (waiting r)

pub post_all-append :
    (k : ℕ) (r : Cq) (cs : List Cqe)
    → IsValid k r
    → waiting r + length cs ≤ 2 ^ k
    → IsValid k (post_all cs r) × (completions k (post_all cs r) ≡ completions k r ++ cs)
unfolding post_all
post_all-append k r [] v room = (v, sym (append-nil (completions k r)))
post_all-append k r (c ∷ cs) v room =
    let (v1, one) = post-append k r c v (omega arith) in
    let (v2, rest) = post_all-append k (post c r) cs v1 (omega (arith, grown one)) in
    (v2, rest ∙ ap (λ (t : List Cqe). t ++ cs) one ∙ append_assoc (completions k r) (c ∷ []) cs)
  where
    grown :
        completions k (post c r) ≡ completions k r ++ c ∷ [] → waiting (post c r) ≡ waiting r + 1
    grown e =
        sym (waiting-length k (post c r))
        ∙ ap length e
        ∙ length-append (completions k r) (c ∷ [])
        ∙ ap (λ (n : ℕ). n + 1) (waiting-length k r)

cons_of_head? : (cs : List Cqe) {c : Cqe} → head? cs ≡ some c → cs ≡ c ∷ tail_of cs
cons_of_head? [] e = cc
cons_of_head? (d ∷ cs) e = cc

-- What `PeekCQE` returned is the front of the queue.
module _ (k : ℕ) (r : Cq) {c : Cqe} (v : IsValid k r) (peeked : peek_cqe r ≡ some c) where
  in_front : completions k r ≡ c ∷ tail_of (completions k r)
  in_front = cons_of_head? (completions k r) (sym (peek_cqe-head k r v) ∙ peeked)

  pub peeked_waiting : waiting r ≢ 0
  peeked_waiting idle = absurd (omega (arith, ap length in_front, waiting-length k r))

  pub peeked_front : completions k r ≡ c ∷ completions k (seen_cqe r)
  peeked_front =
      in_front ∙ ap (λ (t : List Cqe). c ∷ t) (sym (seen_cqe-tail k r v peeked_waiting).1)

none_of_head? : (cs : List Cqe) → head? cs ≡ none → cs ≡ []
none_of_head? [] e = refl
none_of_head? (d ∷ cs) e = cc

pub peeked_none : (k : ℕ) (r : Cq) → IsValid k r → peek_cqe r ≡ none → completions k r ≡ []
peeked_none k r v e = none_of_head? (completions k r) (sym (peek_cqe-head k r v) ∙ e)
