-- ===== src/Tools/Transfer/Progress.antt =====
-- Which steps are left to workers that have not returned (`transferSlot.acquire`, `work`).
use polka.Base.{ℕ, ◌+◌, ◌≤◌, List, [], ◌∷◌, ◌++◌, ◌≡◌, refl, ap, arith}
use polka.Base.{ltb, ltb→lt, Bool-cases, inl, inr}
use polka.Tools.Transfer.{Phase, idle, holding, finished, busy, backing, Worker, Transfer, held}
use polka.Tools.Transfer.{
  slots_held, Moves, Step, acquire, claim, run_out, write, resume, CanAcquire,
}
use polka.Tools.Transfer.Claims.{runs, total}

-- a worker of the list
Member : List Worker → Worker → Type 0
Member ws w = (before : List Worker) × (after : List Worker) × (ws ≡ before ++ w ∷ after)

-- if the sum of a measure is not zero, then that of one of the workers is not
find :
    (f : Worker → ℕ) (sum : List Worker → ℕ)
    → sum [] ≡ 0
    → ((w : Worker) (ws : List Worker) → sum (w ∷ ws) ≡ f w + sum ws)
    → (ws : List Worker) → 1 ≤ sum ws
    → (w : Worker) × Member ws w × (1 ≤ f w)
unfolding Member
find f sum e c [] h = absurd (omega arith)
find f sum e c (w ∷ ws) h = elim (Bool-cases (ltb 0 (f w))) [
  | inl p ↦ (w, ([], ws, refl), ltb→lt 0 (f w) p)
  | inr p ↦
      let (v, (before, after, q), k) = find f sum e c ws (ground (arith, c w ws)) in
      (v, (w ∷ before, after, ap (λ vs. w ∷ vs) q), k)
]

module _ (chunks capacity : ℕ) (t : Transfer) where
  abbrev CanStep : Type 0
  CanStep = (u : Transfer) × Step chunks capacity t u

  moves : (w : Worker) (p : Phase) → Member t.workers w → (ws : List Worker) × Moves t w p ws
  unfolding Member
  moves w p (before, after, e) = (_, (before, after, e, refl))

  -- a worker that holds a chunk can write it
  busy_steps : (w : Worker) (i a : ℕ) → Member t.workers w → w.phase ≡ busy i a → CanStep
  busy_steps w i a m p = let (ws, v) = moves w idle m in (_, write w ws i a p v refl)

  -- a worker that is to have the next chunk gets it, or learns that there is none
  holding_steps : (w : Worker) → Member t.workers w → w.phase ≡ holding → CanStep
  holding_steps w m p = elim (Bool-cases (ltb t.next_chunk chunks)) [
    | inl l ↦
        let (ws, v) = moves w (busy t.next_chunk 1) m in
        (_, claim w ws p (ltb→lt t.next_chunk chunks l) v refl)
    | inr l ↦ let (ws, v) = moves w finished m in (_, run_out w ws p (ground arith) v refl)
  ]

  -- a worker that holds a slot can move
  held_steps : (w : Worker) → Member t.workers w → 1 ≤ held w → CanStep
  held_steps w m h = by_phase w.phase refl
    where
      by_phase : (p : Phase) → w.phase ≡ p → CanStep
      by_phase idle q = absurd (ground arith)
      by_phase holding q = holding_steps w m q
      by_phase finished q = absurd (ground arith)
      by_phase (busy i a) q = busy_steps w i a m q
      by_phase (backing i a) q = absurd (ground arith)

  -- a worker that has not returned can move if a slot is free
  runs_steps :
      (w : Worker) → Member t.workers w → 1 ≤ runs w.phase → CanAcquire capacity t w → CanStep
  runs_steps w m h c = by_phase w.phase refl
    where
      by_phase : (p : Phase) → w.phase ≡ p → CanStep
      by_phase idle q = let (ws, v) = moves w holding m in (_, acquire w ws q c v refl)
      by_phase holding q = holding_steps w m q
      by_phase finished q = absurd (ground arith)
      by_phase (busy i a) q = busy_steps w i a m q
      by_phase (backing i a) q =
          let (ws, v) = moves w (busy i (a + 1)) m in (_, resume w ws i a q c v refl)

  -- If there is at least one slot, then in any state some worker can take a step as long as one of them
  -- has not returned: the workers cannot wait for each other's slots for ever.
  pub some_worker-Step :
      1 ≤ capacity → 1 ≤ total runs t.workers → (u : Transfer) × Step chunks capacity t u
  some_worker-Step h r = elim (Bool-cases (ltb (slots_held t.workers) capacity)) [
    | inl free ↦
        let (w, m, k) = find (λ w. runs w.phase) (total runs) refl (λ w ws. refl) t.workers r in
        runs_steps w m k (ground arith)
    | inr full ↦
        let (w, m, k) = find held slots_held refl (λ w ws. refl) t.workers (ground arith) in
        held_steps w m k
  ]
