-- ===== src/Tools/Transfer/Claims.antt =====
-- Which worker has which chunk: what `claimChunk`'s counter gives out, and what becomes of it.
use polka.Base.{ℕ, zero, suc, ◌+◌, ◌≤◌, ◌<◌, ◌&&◌, List, [], ◌∷◌, ◌++◌}
use polka.Base.{◌≡◌, refl, arith, ltb, eqb, if◌then◌else◌, ap, inl, inr}
use polka.Tools.Transfer.{Phase, idle, holding, finished, busy, backing, Worker, Transfer, helpers}
use polka.Tools.Transfer.{Moves, Step, acquire, quit, cancel, claim, run_out, write, retry}
use polka.Tools.Transfer.{resume, give_up, fall_out}

-- how often an index stands in a list
abbrev pub times : ℕ → List ℕ → ℕ
times i [] = 0
times i (j ∷ js) = (if eqb i j then 1 else 0) + times i js

-- whether a worker has this chunk in hand
abbrev pub carries : ℕ → Phase → ℕ
carries i idle = 0
carries i holding = 0
carries i finished = 0
carries i (busy j a) = if eqb i j then 1 else 0
carries i (backing j a) = if eqb i j then 1 else 0

-- whether a worker has not returned
abbrev pub runs : Phase → ℕ
runs idle = 1
runs holding = 1
runs finished = 0
runs (busy i a) = 1
runs (backing i a) = 1

-- a measure of the phases, summed over the workers
abbrev pub total : (Phase → ℕ) → List Worker → ℕ
total f [] = 0
total f (w ∷ ws) = f w.phase + total f ws

total-append :
    (f : Phase → ℕ) (before after : List Worker) (w : Worker)
    → total f (before ++ w ∷ after) ≡ f w.phase + total f (before ++ after)
total-append f [] after w = refl
total-append f (v ∷ vs) after w = grind (arith, total-append f vs after w)

pub total-Moves :
    (f : Phase → ℕ) (t : Transfer) (w : Worker) (p : Phase) (ws : List Worker)
    → Moves t w p ws
    → {old : Phase} → w.phase ≡ old
    → total f ws + f old ≡ total f t.workers + f p
total-Moves f t w p ws (before, after, e, e') old = grind (
  arith,
  ap f old,
  total-append f before after w,
  total-append f before after (record w { phase = p }),
)

pub total-carries-helpers : (i n : ℕ) → total (carries i) (helpers n) ≡ 0
total-carries-helpers i zero = refl
total-carries-helpers i (suc n) = grind (arith, total-carries-helpers i n)

pub total-carries-le-runs : (i : ℕ) (ws : List Worker) → total (carries i) ws ≤ total runs ws
total-carries-le-runs i [] = omega arith
total-carries-le-runs i (w ∷ ws) =
    grind (arith, total-carries-le-runs i ws, carries-le-runs w.phase)
  where
    carries-le-runs : (p : Phase) → carries i p ≤ runs p
    carries-le-runs idle = omega arith
    carries-le-runs holding = omega arith
    carries-le-runs finished = omega arith
    carries-le-runs (busy j a) = ground arith
    carries-le-runs (backing j a) = ground arith

-- how often a chunk is in hand, on disk or given up
abbrev pub claimed : ℕ → Transfer → ℕ
claimed i t = total (carries i) t.workers + (times i t.written + times i t.lost)

module _ (chunks capacity : ℕ) where
  -- whether the counter has given out a chunk
  abbrev pub issued : ℕ → ℕ → ℕ
  issued i n = if ltb i n && ltb i chunks then 1 else 0

  issued-claim : (i n : ℕ) → n < chunks → issued i (n + 1) ≡ issued i n + (if eqb i n then 1 else 0)
  issued-claim i n h = ground arith

  issued-beyond : (i n : ℕ) → chunks ≤ n → issued i (n + 1) ≡ issued i n
  issued-beyond i n h = ground arith

  pub claimed-Step :
      (i : ℕ) (t u : Transfer)
      → Step chunks capacity t u
      → claimed i t ≡ issued i t.next_chunk
      → claimed i u ≡ issued i u.next_chunk
  claimed-Step i t u (acquire w ws p c m e) h =
      rw e (grind (arith, total-Moves (carries i) t w holding ws m p))
  claimed-Step i t u (quit w ws p x c m e) h =
      rw e (grind (arith, total-Moves (carries i) t w finished ws m p))
  claimed-Step i t u (cancel w ws p c m e) h =
      rw e (grind (arith, total-Moves (carries i) t w finished ws m p))
  claimed-Step i t u (claim w ws p c m e) h = rw e (
      grind (
        arith,
        total-Moves (carries i) t w (busy t.next_chunk 1) ws m p,
        issued-claim i t.next_chunk c,
      ))
  claimed-Step i t u (run_out w ws p c m e) h =
      rw e
        (grind (arith, total-Moves (carries i) t w finished ws m p, issued-beyond i t.next_chunk c))
  claimed-Step i t u (write w ws j a p m e) h =
      rw e (grind (arith, total-Moves (carries i) t w idle ws m p))
  claimed-Step i t u (retry w ws j a x p n g m e) h =
      rw e (grind (arith, total-Moves (carries i) t w (backing j a) ws m p))
  claimed-Step i t u (resume w ws j a p c m e) h =
      rw e (grind (arith, total-Moves (carries i) t w (busy j (a + 1)) ws m p))
  claimed-Step i t u (give_up w ws j a x p g m e) h =
      rw e (grind (arith, total-Moves (carries i) t w finished ws m p))
  claimed-Step i t u (fall_out w ws j a (inl p) g m e) h =
      rw e (grind (arith, total-Moves (carries i) t w finished ws m p))
  claimed-Step i t u (fall_out w ws j a (inr p) g m e) h =
      rw e (grind (arith, total-Moves (carries i) t w finished ws m p))
