-- ===== src/Tools/Transfer/Slots.antt =====
-- The slots that the workers hold (`transferSlot`, `rangedDownloadSlots`). The capacity is what the
-- budget of the process has for this transfer.
use polka.Base.{ℕ, zero, suc, ◌+◌, ◌≤◌, Bool, true, false, List, [], ◌∷◌, ◌++◌, ◌≡◌, arith}
use polka.Base.{Bool-cases, ltb→lt, ◌-◌, inl, inr, refl}
use polka.Tools.Transfer.{Phase, idle, holding, finished, busy, backing, Worker, Transfer, held}
use polka.Tools.Transfer.{slots_held, helpers, start, Moves, Step, acquire, quit, cancel, claim}
use polka.Tools.Transfer.{run_out, write, retry, resume, give_up, fall_out, Reach, here, next}
use polka.Tools.Transfer.{CanAcquire}

slots_held-append :
    (before after : List Worker) (w : Worker)
    → slots_held (before ++ w ∷ after) ≡ held w + slots_held (before ++ after)
slots_held-append [] after w = refl
slots_held-append (v ∷ vs) after w = grind (arith, slots_held-append vs after w)

slots_held-helpers : (n : ℕ) → slots_held (helpers n) ≡ 0
slots_held-helpers zero = refl
slots_held-helpers (suc n) = grind (arith, slots_held-helpers n)

-- moving a worker changes the slots held by what its two phases cost
slots_held-Moves :
    (t : Transfer) (w : Worker) (p : Phase) (ws : List Worker)
    → Moves t w p ws
    → slots_held ws + held w ≡ slots_held t.workers + held (record w { phase = p })
slots_held-Moves t w p ws (before, after, e, e') = grind (
  arith,
  slots_held-append before after w,
  slots_held-append before after (record w { phase = p }),
)

-- a phase that holds no slot
data IsFree : Phase → Type 0 where
  free_idle : IsFree idle
  free_finished : IsFree finished
  free_backing : (i a : ℕ) → IsFree (backing i a)

held_none : (x : Bool) (p : Phase) → IsFree p → held (record { exempt = x; phase = p }) ≡ 0
held_none true p f = refl
held_none false p free_idle = refl
held_none false p free_finished = refl
held_none false p (free_backing i a) = refl

held_kept :
    (w : Worker) (i a : ℕ) → w.phase ≡ holding → held (record w { phase = busy i a }) ≡ held w
held_kept w i a h = ground arith

held_one : (w : Worker) → held w ≤ 1
held_one w = ground arith

held-exempt : (w : Worker) → w.exempt ≡ true → held w ≡ 0
held-exempt w h = ground arith

module _ (t : Transfer) (w : Worker) (p : Phase) (ws : List Worker) (m : Moves t w p ws) where
  -- a worker that comes to hold none
  slots_held_freed :
      (capacity : ℕ) → IsFree p → slots_held t.workers ≤ capacity → slots_held ws ≤ capacity
  slots_held_freed capacity f h = grind (arith, slots_held-Moves t w p ws m, held_none w.exempt p f)

  -- a worker that goes on holding what it holds
  slots_held_kept :
      (capacity : ℕ)
      → held (record w { phase = p }) ≡ held w
      → slots_held t.workers ≤ capacity
      → slots_held ws ≤ capacity
  slots_held_kept capacity z h = grind (arith, slots_held-Moves t w p ws m)

  -- a worker that takes one
  slots_held_taken :
      (capacity : ℕ)
      → CanAcquire capacity t w
      → slots_held t.workers ≤ capacity
      → slots_held ws ≤ capacity
  slots_held_taken capacity c h = elim (Bool-cases w.exempt) [
    | inl x ↦ grind (arith, slots_held-Moves t w p ws m, held-exempt (record w { phase = p }) x)
    | inr x ↦ grind (
      arith,
      slots_held-Moves t w p ws m,
      held_one (record w { phase = p }),
      ltb→lt (slots_held t.workers) capacity (ground arith),
    )
  ]

module _ (chunks capacity : ℕ) where
  slots_held-Step :
      (t u : Transfer)
      → Step chunks capacity t u
      → slots_held t.workers ≤ capacity
      → slots_held u.workers ≤ capacity
  slots_held-Step t u (acquire w ws p c m e) h =
      rw e (slots_held_taken t w holding ws m capacity c h)
  slots_held-Step t u (quit w ws p x c m e) h =
      rw e (slots_held_freed t w finished ws m capacity free_finished h)
  slots_held-Step t u (cancel w ws p c m e) h =
      rw e (slots_held_freed t w finished ws m capacity free_finished h)
  slots_held-Step t u (claim w ws p c m e) h =
      rw e
        (slots_held_kept t w (busy t.next_chunk 1) ws m capacity (held_kept w t.next_chunk 1 p) h)
  slots_held-Step t u (run_out w ws p c m e) h =
      rw e (slots_held_freed t w finished ws m capacity free_finished h)
  slots_held-Step t u (write w ws i a p m e) h =
      rw e (slots_held_freed t w idle ws m capacity free_idle h)
  slots_held-Step t u (retry w ws i a x p n g m e) h =
      rw e (slots_held_freed t w (backing i a) ws m capacity (free_backing i a) h)
  slots_held-Step t u (resume w ws i a p c m e) h =
      rw e (slots_held_taken t w (busy i (a + 1)) ws m capacity c h)
  slots_held-Step t u (give_up w ws i a x p g m e) h =
      rw e (slots_held_freed t w finished ws m capacity free_finished h)
  slots_held-Step t u (fall_out w ws i a p g m e) h =
      rw e (slots_held_freed t w finished ws m capacity free_finished h)

  -- In every state that the workers of a transfer reach, whatever the order of their steps, the
  -- slots held together are at most the capacity.
  pub slots_held-Reach :
      (workers : ℕ) (u : Transfer)
      → Reach chunks capacity (start workers) u
      → slots_held u.workers ≤ capacity
  slots_held-Reach workers u here = grind (arith, slots_held-helpers (workers - 1))
  slots_held-Reach workers u (next r s) = slots_held-Step _ u s (slots_held-Reach workers _ r)
