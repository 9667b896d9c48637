-- ===== src/Uring/Sq/Flush.antt =====
-- `flushSQ` hands the pending entries to the kernel, in order.
use mathlib.Core.List.{append-nil}
use native.Mathlib.Nat.{mod-lt, add-zero, add_assoc}
use native.Mathlib.Numerals.{one-add}
use ublk_go.Prelude.{
  ℕ, zero, suc, ◌+◌, ◌-◌, ◌%◌, ◌^◌, ◌≤◌, ◌<◌, ◌≡◌, refl, ap, ap₂, ◌∙◌, sym, subst, List, [], ◌∷◌,
  ◌++◌, map, arith, length, get_or, set, length-set, get_or-set_self, get_or-set_ne, ◌≢◌,
  ℕ_discrete, bit_and, dec_lt,
}
use ublk_go.Go.Words.{u32}
use ublk_go.Go.Bits.Laws.{pow-two-pos}
use ublk_go.Go.Bits.Mask.{u32-mod-pow}
use ublk_go.Uring.Entry.{Sqe, zero_sqe}
use ublk_go.Uring.Window.{window, length-window, window-add, window_of_mod, window_empty}
use ublk_go.Uring.Sq.{Sq, flush_loop, flush_sq}
use ublk_go.Uring.Sq.Valid.{IsValid, pending, unread, pending_sqes, queued_sqes, slot_index}
use ublk_go.Uring.Sq.Refine.{pow_small}

-- An array whose cells name themselves reads as the slots themselves.
map-window :
    (m : ℕ) (array : List ℕ) (slots : List Sqe) (h n : ℕ)
    → ((j : ℕ) → j < n → get_or array ((h + j) % m) 0 ≡ (h + j) % m)
    → map (λ i. get_or slots i (zero_sqe 0)) (window 0 m array h n)
      ≡ window (zero_sqe 0) m slots h n
unfolding window
map-window m array slots h zero named = refl
map-window m array slots h (suc n) named =
    ap₂ ◌∷◌ (ap (λ (i : ℕ). get_or slots i (zero_sqe 0)) first) (
      map-window m array slots (h + 1) n
        (λ j lt. rw (add_assoc, one-add) (named (suc j) (omega arith))))
  where
    first : get_or array (h % m) 0 ≡ h % m
    first = subst (λ (s : ℕ). get_or array (s % m) 0 ≡ s % m) (add-zero h) (named 0 (omega arith))

module _ (k mask head : ℕ) (small : k ≤ 30) (masked : mask ≡ 2 ^ k - 1) where
  abbrev cell : ℕ → ℕ
  cell i = bit_and (u32 (head + i)) mask

  cell_lem : (i : ℕ) → cell i ≡ (head + i) % 2 ^ k
  cell_lem i = slot_index k mask (head + i) small masked

  cell_in : (i : ℕ) → cell i < 2 ^ k
  cell_in i = rw (cell_lem i) (mod-lt (head + i) (pow-two-pos k))

  length-flush_loop :
      (n i : ℕ) (array : List ℕ) → length (flush_loop n i head mask array) ≡ length array
  unfolding flush_loop
  length-flush_loop zero i array = refl
  length-flush_loop (suc n) i array =
      length-flush_loop n (i + 1) (set array (cell i) (cell i)) ∙ length-set array (cell i) (cell i)

  set_names :
      (array : List ℕ) (c p : ℕ)
      → c < length array
      → get_or array p 0 ≡ p
      → get_or (set array c c) p 0 ≡ p
  set_names array c p lt e = elim (ℕ_discrete c p) [
    | yes same ↦
        subst (λ (q : ℕ). get_or (set array c c) q 0 ≡ q) same (get_or-set_self array c c 0 lt)
    | no other ↦ get_or-set_ne array c p c 0 other ∙ e
  ]

  -- The loop only makes cells name themselves.
  flush_loop_keeps :
      (n i : ℕ) (array : List ℕ) (p : ℕ)
      → length array ≡ 2 ^ k
      → get_or array p 0 ≡ p
      → get_or (flush_loop n i head mask array) p 0 ≡ p
  unfolding flush_loop
  flush_loop_keeps zero i array p all e = e
  flush_loop_keeps (suc n) i array p all e =
      flush_loop_keeps n (i + 1) (set array (cell i) (cell i)) p
        (length-set array (cell i) (cell i) ∙ all)
        (set_names array (cell i) p (rw all (cell_in i)) e)

  flush_loop_names :
      (n i : ℕ) (array : List ℕ) (j : ℕ)
      → length array ≡ 2 ^ k
      → j < n
      → get_or (flush_loop n i head mask array) ((head + (i + j)) % 2 ^ k) 0
        ≡ (head + (i + j)) % 2 ^ k
  unfolding flush_loop
  flush_loop_names zero i array j all lt = absurd (omega arith)
  flush_loop_names (suc n) i array zero all lt =
      subst (λ (q : ℕ). get_or (flush_loop (suc n) i head mask array) q 0 ≡ q)
        (cell_lem i ∙ ap (λ (o : ℕ). (head + o) % 2 ^ k) (sym (add-zero i)))
        (flush_loop_keeps n (i + 1) (set array (cell i) (cell i)) (cell i)
          (length-set array (cell i) (cell i) ∙ all)
          (get_or-set_self array (cell i) (cell i) 0 (rw all (cell_in i))))
  flush_loop_names (suc n) i array (suc j) all lt =
      subst
        (λ (o : ℕ).
          get_or (flush_loop (suc n) i head mask array) ((head + o) % 2 ^ k) 0 ≡ (head + o) % 2 ^ k)
        (omega arith)
        (flush_loop_names n (i + 1) (set array (cell i) (cell i)) j
          (length-set array (cell i) (cell i) ∙ all) (omega arith))

-- `flushSQ` at a number of pending entries other than 0.
abbrev flushed_ring : Sq → Sq
flushed_ring r = record r {
  array = flush_loop (pending r) 0 r.local_head r.mask r.array;
  tail = r.local_tail;
  local_head = r.local_tail;
}

unread-flushed :
    {k : ℕ} {r : Sq}
    → IsValid k r
    → unread r + pending r ≤ 2 ^ k
    → unread (flushed_ring r) ≡ unread r + pending r
unread-flushed v room = omega (arith, pow_small v)

-- The unread entries end where the pending ones begin.
pending_start :
    {k : ℕ} {r : Sq} (o : ℕ)
    → IsValid k r
    → (r.head + (unread r + o)) % 2 ^ k ≡ (r.local_head + o) % 2 ^ k
pending_start {k} {r} o v =
    sym (u32-mod-pow k (r.head + (unread r + o)) (omega (arith, v.small)))
    ∙ ap (λ (a : ℕ). a % 2 ^ k) (same_word v)
    ∙ u32-mod-pow k (r.local_head + o) (omega (arith, v.small))
  where
    same_word : {i : ℕ} → IsValid i r → u32 (r.head + (unread r + o)) ≡ u32 (r.local_head + o)
    same_word w = omega (arith, w.flushed, w.tail_word, w.head_word)

flushed_names :
    {k : ℕ} {r : Sq}
    → IsValid k r
    → (j : ℕ) → j < unread r + pending r
    → get_or (flushed_ring r).array ((r.head + j) % 2 ^ k) 0 ≡ (r.head + j) % 2 ^ k
flushed_names {k} {r} v j lt = elim (dec_lt j (unread r)) [
  | yes old ↦
      flush_loop_keeps k r.mask r.local_head v.small v.mask_pow (pending r) 0 r.array
        ((r.head + j) % 2 ^ k) v.array_all (v.named j old)
  | no new ↦
      subst (λ (q : ℕ). get_or (flushed_ring r).array q 0 ≡ q)
        (sym (pending_start (0 + (j - unread r)) v)
          ∙ ap (λ (o : ℕ). (r.head + o) % 2 ^ k) (omega arith))
        (flush_loop_names k r.mask r.local_head v.small v.mask_pow (pending r) 0 r.array
          (j - unread r) v.array_all (omega arith))
]

flushed-IsValid :
    {k : ℕ} {r : Sq} → IsValid k r → unread r + pending r ≤ 2 ^ k → IsValid k (flushed_ring r)
flushed-IsValid {k} {r} v room = record {
  small = v.small;
  entries_pow = v.entries_pow;
  mask_pow = v.mask_pow;
  slots_all = v.slots_all;
  array_all =
      length-flush_loop k r.mask r.local_head v.small v.mask_pow (pending r) 0 r.array
      ∙ v.array_all;
  flushed = refl;
  head_word = v.head_word;
  tail_word = v.local_word;
  local_word = v.local_word;
  pending_fits = omega arith;
  unread_fits = rw (unread-flushed v room) room;
  named = λ j lt. flushed_names v j (omega (arith, unread-flushed v room));
}

pub queued-eq-window :
    {k : ℕ} {r : Sq}
    → IsValid k r
    → queued_sqes k r ≡ window (zero_sqe 0) (2 ^ k) r.slots r.head (unread r)
queued-eq-window {k} {r} v = map-window (2 ^ k) r.array r.slots r.head (unread r) v.named

queued-flushed :
    {k : ℕ} {r : Sq}
    → IsValid k r
    → unread r + pending r ≤ 2 ^ k
    → queued_sqes k (flushed_ring r) ≡ queued_sqes k r ++ pending_sqes k r
queued-flushed {k} {r} v room =
    queued-eq-window (flushed-IsValid v room)
    ∙ ap (window (zero_sqe 0) (2 ^ k) r.slots r.head) (unread-flushed v room)
    ∙ window-add (zero_sqe 0) (2 ^ k) r.slots r.head (unread r) (pending r)
    ∙ ap₂ ◌++◌ (sym (queued-eq-window v)) (
        window_of_mod (zero_sqe 0) (2 ^ k) r.slots (pending r) (r.head + unread r) r.local_head
          start)
  where
    start : (r.head + unread r) % 2 ^ k ≡ r.local_head % 2 ^ k
    start =
        ap (λ (o : ℕ). o % 2 ^ k) (omega arith)
        ∙ pending_start 0 v
        ∙ ap (λ (o : ℕ). o % 2 ^ k) (add-zero r.local_head)

flush_sq_lem : (r : Sq) → pending r ≢ 0 → flush_sq r ≡ (pending r, flushed_ring r)
unfolding flush_sq
flush_sq_lem r h = ground arith

flush_sq_idle : (r : Sq) → pending r ≡ 0 → flush_sq r ≡ (0, r)
unfolding flush_sq
flush_sq_idle r h = ground arith

-- What a flush has done to a ring, by the count that it returns.
pub record Published (k : ℕ) (r : Sq) (out : ℕ × Sq) : Type 0 where
  pub valid : IsValid k out.1
  pub count : out.0 ≡ length (pending_sqes k r)
  pub queue : queued_sqes k out.1 ≡ queued_sqes k r ++ pending_sqes k r
  pub none_left : pending_sqes k out.1 ≡ []

-- With room for the pending entries behind the unread ones, `flushSQ` returns how many entries
-- were pending, appends exactly those, in order, to what the kernel will read, leaves none pending
-- and keeps the invariant.
pub flush_sq-Published :
    (k : ℕ) (r : Sq) → IsValid k r → unread r + pending r ≤ 2 ^ k → Published k r (flush_sq r)
flush_sq-Published k r v room = elim (ℕ_discrete (pending r) 0) [
  | yes idle ↦ rw (flush_sq_idle r idle) (record {
    valid = v;
    count = sym (length-window (zero_sqe 0) (2 ^ k) r.slots r.local_head (pending r) ∙ idle);
    queue = sym (rw (empty idle) (append-nil (queued_sqes k r)));
    none_left = empty idle;
  })
  | no busy ↦ rw (flush_sq_lem r busy) (record {
    valid = flushed-IsValid v room;
    count = sym (length-window (zero_sqe 0) (2 ^ k) r.slots r.local_head (pending r));
    queue = queued-flushed v room;
    none_left =
        window_empty (zero_sqe 0) (2 ^ k) r.slots r.local_tail (pending (flushed_ring r))
          (omega arith);
  })
]
  where
    empty : pending r ≡ 0 → pending_sqes k r ≡ []
    empty idle = window_empty (zero_sqe 0) (2 ^ k) r.slots r.local_head (pending r) idle
