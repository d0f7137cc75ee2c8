-- ===== src/Tools/Transfer/Completion.antt =====
-- Which chunks a ranged transfer has written (tools/ranged_download.go).
use polka.Base.{ℕ, ◌+◌, ◌-◌, ◌≤◌, ◌<◌, true, false, List, []}
use polka.Base.{◌≡◌, refl, arith, ltb, if◌then◌else◌, Option, none, some, ap, ◌⊎◌, inl, inr}
use polka.Base.{Bool-cases}
use polka.Tools.Transfer.{Phase, idle, holding, busy, backing, Worker, Transfer}
use polka.Tools.Transfer.{start, Moves, Step, acquire, quit, cancel, claim, run_out, write, retry}
use polka.Tools.Transfer.{resume, give_up, fall_out, Reach, here, next, has_failed, first_failure}
use polka.Tools.Transfer.{ChunkError}
use polka.Tools.Transfer.Claims.{times, runs, total, total-Moves, claimed, issued}
use polka.Tools.Transfer.Claims.{claimed-Step, total-carries-helpers, total-carries-le-runs}

failed-first_failure :
    (o : Option ChunkError) (e : ChunkError) → has_failed (first_failure o e) ≡ true
failed-first_failure none e = refl
failed-first_failure (some f) e = refl

module _ (chunks capacity : ℕ) where
  -- what holds while no worker has failed: nothing is given up, the flag of the last chunk is set
  -- only after it, and a worker runs as long as there are chunks
  record IsGoing (t : Transfer) : Type 0 where
    nothing_lost : t.lost ≡ []
    flag : t.exhausted ≡ true → chunks ≤ t.next_chunk
    running : t.next_chunk < chunks → 1 ≤ total runs t.workers

  abbrev IsSound : Transfer → Type 0
  IsSound t = (has_failed t.failure ≡ true) ⊎ IsGoing t

  going :
      (t : Transfer) (w : Worker) (p : Phase) (ws : List Worker)
      → Moves t w p ws
      → {old : Phase} → w.phase ≡ old
      → runs old ≡ 1
      → runs p ≡ 1
      → IsGoing t
      → t.next_chunk < chunks
      → 1 ≤ total runs ws
  going t w p ws m q a b g h = grind (arith, total-Moves runs t w p ws m q, g.running h)

  failed-Step :
      (t u : Transfer)
      → Step chunks capacity t u
      → has_failed t.failure ≡ true
      → has_failed u.failure ≡ true
  failed-Step t u (acquire w ws p c m e) h = rw e h
  failed-Step t u (quit w ws p x c m e) h = rw e h
  failed-Step t u (cancel w ws p c m e) h = rw e h
  failed-Step t u (claim w ws p c m e) h = rw e h
  failed-Step t u (run_out w ws p c m e) h = rw e h
  failed-Step t u (write w ws i a p m e) h = rw e h
  failed-Step t u (retry w ws i a x p n q m e) h = rw e h
  failed-Step t u (resume w ws i a p c m e) h = rw e h
  failed-Step t u (fall_out w ws i a p q m e) h = rw e h
  failed-Step t u (give_up w ws i a x p q m e) h = rw e (failed-first_failure t.failure x)

  IsSound-Step : (t u : Transfer) → Step chunks capacity t u → IsSound t → IsSound u
  IsSound-Step t u s (inl h) = inl (failed-Step t u s h)
  IsSound-Step t u (acquire w ws p c m e) (inr g) = inr (
      rw e (record {
        nothing_lost = g.nothing_lost;
        flag = g.flag;
        running = going t w holding ws m p refl refl g;
      }))
  IsSound-Step t u (quit w ws p x c m e) (inr g) = elim (Bool-cases (has_failed t.failure)) [
    | inl f ↦ inl (rw e f)
    | inr f ↦ inr (
        rw e (record {
          nothing_lost = g.nothing_lost;
          flag = g.flag;
          running = λ h. absurd (ground (arith, g.flag (ground arith)));
        }))
  ]
  IsSound-Step t u (cancel w ws p c m e) (inr g) = inl (rw e c)
  IsSound-Step t u (claim w ws p c m e) (inr g) = inr (
      rw e (record {
        nothing_lost = g.nothing_lost;
        flag = λ h. ground (arith, g.flag);
        running = λ h. going t w (busy t.next_chunk 1) ws m p refl refl g (omega arith);
      }))
  IsSound-Step t u (run_out w ws p c m e) (inr g) = inr (
      rw e (record {
        nothing_lost = g.nothing_lost;
        flag = λ h. omega arith;
        running = λ h. absurd (omega arith);
      }))
  IsSound-Step t u (write w ws i a p m e) (inr g) = inr (
      rw e (record {
        nothing_lost = g.nothing_lost;
        flag = g.flag;
        running = going t w idle ws m p refl refl g;
      }))
  IsSound-Step t u (retry w ws i a x p n q m e) (inr g) = inr (
      rw e (record {
        nothing_lost = g.nothing_lost;
        flag = g.flag;
        running = going t w (backing i a) ws m p refl refl g;
      }))
  IsSound-Step t u (resume w ws i a p c m e) (inr g) = inr (
      rw e (record {
        nothing_lost = g.nothing_lost;
        flag = g.flag;
        running = going t w (busy i (a + 1)) ws m p refl refl g;
      }))
  IsSound-Step t u (give_up w ws i a x p q m e) (inr g) =
      inl (rw e (failed-first_failure t.failure x))
  IsSound-Step t u (fall_out w ws i a p q m e) (inr g) = inl (rw e q)

  module _ (some_chunk : 1 ≤ chunks) (workers : ℕ) where
    IsSound-Reach : (u : Transfer) → Reach chunks capacity (start workers) u → IsSound u
    IsSound-Reach u here = inr (record {
      nothing_lost = refl;
      flag = λ h. absurd (ground arith);
      running = λ h. omega arith;
    })
    IsSound-Reach u (next r s) = IsSound-Step _ u s (IsSound-Reach _ r)

    claimed-Reach :
        (i : ℕ) (u : Transfer)
        → Reach chunks capacity (start workers) u
        → claimed i u ≡ issued chunks capacity i u.next_chunk
    claimed-Reach i u here = grind (arith, total-carries-helpers i (workers - 1))
    claimed-Reach i u (next r s) = claimed-Step chunks capacity i _ u s (claimed-Reach i _ r)

    -- In every state that the workers of a transfer of at least one chunk reach, whatever the order of their steps, no
    -- chunk has been written twice and none that the file does not have.
    pub written_at_most_once :
        (i : ℕ) (u : Transfer)
        → Reach chunks capacity (start workers) u
        → times i u.written ≤ (if ltb i chunks then 1 else 0)
    written_at_most_once i u r = grind (arith, claimed-Reach i u r)

    -- In a transfer of at least one chunk, when every worker has returned and none has failed, each chunk of the file has been written
    -- exactly once, whatever the order in which the workers took their steps.
    pub written_exactly_once :
        (i : ℕ) (u : Transfer)
        → Reach chunks capacity (start workers) u
        → total runs u.workers ≡ 0
        → has_failed u.failure ≡ false
        → i < chunks
        → times i u.written ≡ 1
    written_exactly_once i u r done ok h = elim (IsSound-Reach u r) [
      | inl f ↦ absurd (ground arith)
      | inr g ↦ after g
    ]
      where
        counted : chunks ≤ u.next_chunk → issued chunks capacity i u.next_chunk ≡ 1
        counted k = ground arith

        after : IsGoing u → times i u.written ≡ 1
        after g = grind (
          arith,
          claimed-Reach i u r,
          g.running,
          ap (times i) g.nothing_lost,
          total-carries-le-runs i u.workers,
          counted,
        )
