-- ===== src/Serve/Tags/Taking.antt =====
-- Any number of entries that the kernel takes one by one.
use ublk_go.Prelude.{ℕ, zero, suc, ◌≡◌, ◌≢◌, sym, subst, ap, List, ◌∷◌, arith, length}
use ublk_go.Storage.{Backend}
use ublk_go.Uring.Sq.{Sq, take_sqe, consume, front_sqe}
use ublk_go.Uring.Sq.Valid.{IsValid, unread, queued-length}
use ublk_go.Uring.Sq.Reading.{take_sqe-front}
use ublk_go.Serve.Tags.{Queue, takes, Reach, later, with_sq}

consume_none : (k : ℕ) (r : Sq) → IsValid k r → consume 0 r ≡ r
consume_none k r v = ap (λ (n : ℕ). record r { head = n }) (omega (arith, v.head_word))

consume-take_sqe : (n : ℕ) (r : Sq) → consume n (take_sqe r) ≡ consume (suc n) r
unfolding take_sqe
consume-take_sqe n r = ap (λ (h : ℕ). record r { head = h }) (omega arith)

module _ {S : Type 0} (b : Backend S) (k : ℕ) (q₀ : Queue S) where
  -- Where a queue comes to when the kernel has taken `n` entries.
  abbrev pub Taken : ℕ → Queue S → Type 0
  Taken n q =
      (held : List ℕ) × Reach b q₀
        (record { serving = with_sq (consume n q.serving.sq) q.serving; held = held })

  pub takes_all :
      (n : ℕ) (q : Queue S)
      → IsValid k q.serving.sq
      → unread q.serving.sq ≡ n
      → Reach b q₀ q
      → Taken n q
  takes_all zero q v none r = (
    q.held,
    subst (λ (sq : Sq). Reach b q₀ (record { serving = with_sq sq q.serving; held = q.held }))
        (sym (consume_none k q.serving.sq v)) r,
  )
  takes_all (suc n) q v some r =
      let sq = q.serving.sq in
      let busy : unread sq ≢ 0 = λ e. absurd (omega (arith, some, e)) in
      let (valid, queue) = take_sqe-front k sq v busy in
      let left : unread (take_sqe sq) ≡ n =
        omega (arith, some, ap length queue, queued-length k sq, queued-length k (take_sqe sq)) in
      let (held, there) =
        takes_all n
          (record {
            serving = with_sq (take_sqe sq) q.serving;
            held = (front_sqe sq).user_data ∷ q.held;
          })
          valid left (later r (takes busy)) in
      (
        held,
        subst (λ (x : Sq). Reach b q₀ (record { serving = with_sq x q.serving; held = held }))
            (consume-take_sqe n sq) there,
      )
