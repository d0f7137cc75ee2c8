-- ===== src/Tests/Transfers.antt =====
-- A transfer of one chunk by one worker, and the chunks of a file of 1000 bytes.
use polka.Base.{◌/◌, ◌+◌, ◌≤◌, true, false, none, List, [], ◌∷◌, ◌≡◌, refl, arith}
use polka.Base.{◌↔◌, ◌⊎◌, if◌then◌else◌, ltb}
use polka.Tools.Chunks.{chunk_count, chunk_start, chunk_end}
use polka.Tools.Chunks.Laws.{byte_in_chunk, chunks_adjoin}
use polka.Base.Int.{pos, to_int64, is_below, at_most, at_least}
use polka.Base.{ℕ}
use polka.Tools.Transfer.{
  Transfer, Reach, here, next, start, idle, holding, finished, busy, slots_held,
}
use polka.Tools.Transfer.{write, acquire, run_out, Worker}
use polka.Tools.Transfer.{Step}
use polka.Tools.Transfer.Progress.{some_worker-Step}
use polka.Tools.Transfer.Slots.{slots_held-Reach}
use polka.Tools.Transfer.Claims.{times}
use polka.Tools.Transfer.Completion.{written_exactly_once, written_at_most_once}

-- the states after the write, with a slot again, and when the counter has run out
abbrev written : Transfer
written = record {
  workers = record { exempt = true; phase = idle } ∷ [];
  next_chunk = 1;
  exhausted = false;
  failure = none;
  written = 0 ∷ [];
  lost = [];
}

abbrev again : Transfer
again = record written { workers = record { exempt = true; phase = holding } ∷ [] }

abbrev done : Transfer
done = record written {
  workers = record { exempt = true; phase = finished } ∷ [];
  next_chunk = 2;
  exhausted = true;
}

abbrev the_worker : Worker → List Worker
the_worker w = w ∷ []

run : Reach 1 4 (start 1) done
run =
    next
      (next
        (next here (
          write (record { exempt = true; phase = busy 0 1 }) written.workers 0 1 refl
            ([], [], refl, refl) refl))
        (acquire (record { exempt = true; phase = idle }) again.workers refl refl
          ([], [], refl, refl) refl))
      (run_out (record { exempt = true; phase = holding }) done.workers refl (omega arith)
        ([], [], refl, refl) refl)

written_exactly_once_example : times 0 done.written ≡ 1
written_exactly_once_example =
    written_exactly_once 1 4 (omega arith) 1 0 done run refl refl (omega arith)

written_at_most_once_example : times 7 done.written ≤ (if ltb 7 1 then 1 else 0)
written_at_most_once_example = written_at_most_once 1 4 (omega arith) 1 7 done run

slots_held-Reach_example : slots_held done.workers ≤ 4
slots_held-Reach_example = slots_held-Reach 1 4 1 done run

byte_in_chunk_example :
    ((is_below 2 (chunk_count 1000 300) ≡ true)
      × (at_most (chunk_start 300 2) 650 ≡ true)
      × (at_least (chunk_end 1000 300 2) 650 ≡ true))
    ↔ (2 ≡ 650 / 300)
byte_in_chunk_example = byte_in_chunk 1000 300 (omega arith) (omega arith) 650 2 (omega arith)

last_in_range : is_below 3 (chunk_count 1000 300) ≡ true
unfolding chunk_count to_int64
last_in_range = refl

chunks_adjoin_example :
    (n : ℕ) × (chunk_end 1000 300 3 ≡ pos n)
    × (((is_below 4 (chunk_count 1000 300) ≡ true) × (chunk_start 300 4 ≡ pos (n + 1)))
        ⊎ ((chunk_count 1000 300 ≡ pos 4) × (n + 1 ≡ 1000)))
chunks_adjoin_example = chunks_adjoin 1000 300 (omega arith) (omega arith) 3 last_in_range

some_worker-Step_example : (u : Transfer) × Step 1 4 written u
some_worker-Step_example = some_worker-Step 1 4 written (omega arith) (omega arith)
