-- ===== src/Examples/Runs/Writing.antt =====
-- The writer goroutines of example/stress/main.go begin a write only to a device that is held.
use ublk_go.Prelude.{
  if◌then◌else◌, ℕ, zero, suc, ◌+◌, ◌-◌, ◌<◌, ◌≡◌, refl, subst, ◌≢◌, List, [], ◌∷◌, ◌++◌, Option,
  none, some, ltb, arith, if_both, get_elem?,
}
use ublk_go.Examples.Runs.{Outside}
use ublk_go.Examples.Runs.Counts.{one_if, one_if_self, nothing, plus}
use ublk_go.Examples.Runs.Kept.{Tidy, seq-Tidy, bind-Tidy, give-Tidy, reads-Tidy, transfer-Tidy}
use ublk_go.Examples.Runs.Moves.{Moves, bind-Moves, seq-Moves, Tidy-Moves, close-Moves}
use ublk_go.Examples.Runs.Writers.{
  Writer, idle, writing, exited, write_of, turn_from, turn_of, turns, some_turns, close_among,
  write_and_close,
}

-- A list of devices that are each held once for each time that they stand in it.
abbrev pub all_of : List ℕ → ℕ → ℕ
all_of [] = nothing
all_of (d ∷ ds) = plus (all_of ds) d

pub all_of-append : (ds : List ℕ) (d e : ℕ) → all_of (ds ++ d ∷ []) e ≡ plus (all_of ds) d e
all_of-append [] d e = refl
all_of-append (x ∷ ds) d e = omega (arith, all_of-append ds d e)

none-ne-some : (d : ℕ) → none ≢ some d
none-ne-some d e = cc

some_same : (a b : ℕ) → some a ≡ some b → a ≡ b
some_same a b e = cc

get_elem?-held : (ds : List ℕ) (i d : ℕ) → get_elem? ds i ≡ some d → 0 < all_of ds d
get_elem?-held [] i d e = absurd (none-ne-some d e)
get_elem?-held (x ∷ ds) zero d e =
    subst (λ (y : ℕ). 0 < all_of ds y + one_if y x) (some_same x d e) (omega (arith, one_if_self x))
get_elem?-held (x ∷ ds) (suc i) d e = omega (arith, get_elem?-held ds i d e)

node-held :
    (k : ℕ) (devs : List ℕ) (i d : ℕ)
    → (if ltb i k then none else get_elem? devs (i - k)) ≡ some d
    → 0 < all_of devs d
node-held k devs i d =
    if_both (λ (o : Option ℕ). o ≡ some d → 0 < all_of devs d) (ltb i k) _ _
      (λ e. absurd (none-ne-some d e)) (get_elem?-held devs (i - k) d)

module _ (W : Outside → Type 0) where
  write-Tidy :
      (devs : List ℕ) (ws : List Writer) (i : ℕ) (o : Option ℕ)
      → ((d : ℕ) → o ≡ some d → 0 < all_of devs d)
      → Tidy W (all_of devs) (write_of ws i o)
  unfolding write_of
  write-Tidy devs ws i none held = give-Tidy W _
  write-Tidy devs ws i (some d) held =
      bind-Tidy W (reads-Tidy W _)
        (λ off. seq-Tidy W (transfer-Tidy W _ d _ _ (held d refl)) (give-Tidy W _))

  turn_from-Tidy :
      (k : ℕ) (devs : List ℕ) (ws : List Writer) (i : ℕ) (now : Writer)
      → Tidy W (all_of devs) (turn_from k devs ws i now)
  unfolding turn_from
  turn_from-Tidy k devs ws i idle = write-Tidy devs ws i _ (node-held k devs i)
  turn_from-Tidy k devs ws i (writing d off) = bind-Tidy W (reads-Tidy W _) (λ r. give-Tidy W _)
  turn_from-Tidy k devs ws i exited = give-Tidy W ws

  turn-Tidy :
      (k : ℕ) (devs : List ℕ) (ws : List Writer) (i : ℕ)
      → Tidy W (all_of devs) (turn_of k devs ws i)
  unfolding turn_of
  turn-Tidy k devs ws i = turn_from-Tidy k devs ws i _

  turns-Tidy :
      (n k : ℕ) (devs : List ℕ) (ws : List Writer) → Tidy W (all_of devs) (turns n k devs ws)
  unfolding turns
  turns-Tidy zero k devs ws = give-Tidy W _
  turns-Tidy (suc n) k devs ws =
      bind-Tidy W (reads-Tidy W _)
        (λ i. bind-Tidy W (turn-Tidy k devs ws i) (λ now. turns-Tidy n k devs now))

  some_turns-Tidy :
      (k : ℕ) (devs : List ℕ) (ws : List Writer) → Tidy W (all_of devs) (some_turns k devs ws)
  unfolding some_turns
  some_turns-Tidy k devs ws = bind-Tidy W (reads-Tidy W _) (λ n. turns-Tidy n k devs ws)

  close_among-Moves :
      (m : ℕ → ℕ) (k : ℕ) (devs : List ℕ) (ws : List Writer)
      → Moves W (all_of devs) m (close_among k devs ws) (λ _. nothing) (λ _. m)
  unfolding close_among
  close_among-Moves m k [] ws = Tidy-Moves W nothing m (some_turns-Tidy k [] ws)
  close_among-Moves m k (d ∷ devs) ws =
      bind-Moves W (Tidy-Moves W _ m (some_turns-Tidy k (d ∷ devs) ws)) (λ now.
        seq-Moves W (close-Moves W (all_of devs) m d) (close_among-Moves m (k + 1) devs now))

  pub write_and_close-Moves :
      (m : ℕ → ℕ) (devs : List ℕ)
      → Moves W (all_of devs) m (write_and_close devs) (λ _. nothing) (λ _. m)
  unfolding write_and_close
  write_and_close-Moves m devs = close_among-Moves m 0 devs _
