-- ===== src/Tools/Transfer.antt =====
-- The workers of a ranged transfer (tools/ranged_download.go): `rangedTransfer.run`, `work`,
-- `claimChunk`, `fail`, `transferChunk` and `transferSlot`, as a step relation over what several
-- goroutines do in any order. The network and the disk decide which step a busy worker takes.
pub mod Claims
pub mod Completion
pub mod Progress
pub mod Slots
use polka.Base.{ℕ, zero, suc, ◌+◌, ◌-◌, ◌≤◌, ◌<◌, Bool, true, false, ◌||◌, Option, none, some, List}
use polka.Base.{[], ◌∷◌, ◌++◌, if◌then◌else◌, ltb, leb, ◌≡◌, ◌⊎◌}

-- `downloadMaxAttempts`
abbrev pub max_attempts : ℕ
max_attempts = 3

-- a `downloadWriteError`, an `errRangedUnusable`, or any other error of an attempt
pub data ChunkError : Type 0 where
  write_failed unusable transient : ChunkError

-- what a worker is about: waiting for a slot, holding one with no chunk, transferring a chunk (the
-- index and the attempt), waiting to retry it, or returned
pub data Phase : Type 0 where
  idle holding finished : Phase
  busy backing : ℕ → ℕ → Phase

-- `exempt` is a nil `slots` channel
pub record Worker : Type 0 where
  pub exempt : Bool
  pub phase : Phase

pub record Transfer : Type 0 where
  pub workers : List Worker
  pub next_chunk : ℕ
  pub exhausted : Bool
  pub failure : Option ChunkError
  pub written : List ℕ
  pub lost : List ℕ

-- how many slots a worker holds
abbrev pub held : Worker → ℕ
held w =
    if w.exempt
    then 0
    else (elim w.phase [ idle ↦ 0 | holding ↦ 1 | finished ↦ 0 | busy i a ↦ 1 | backing i a ↦ 0 ])

abbrev pub slots_held : List Worker → ℕ
slots_held [] = 0
slots_held (w ∷ ws) = held w + slots_held ws

-- `fail`: only the first error is recorded
abbrev pub first_failure : Option ChunkError → ChunkError → Option ChunkError
first_failure none e = some e
first_failure (some f) e = some f

abbrev pub has_failed : Option ChunkError → Bool
has_failed none = false
has_failed (some e) = true

-- whether `transferChunk` gives up on an error of this attempt
abbrev pub gives_up : ChunkError → ℕ → Bool
gives_up write_failed attempt = true
gives_up unusable attempt = true
gives_up transient attempt = leb max_attempts attempt

-- `workers - 1` further workers
abbrev pub helpers : ℕ → List Worker
helpers zero = []
helpers (suc n) = record { exempt = false; phase = idle } ∷ helpers n

-- the state in which `run` starts its workers: the first one has chunk 0
abbrev pub start : ℕ → Transfer
start workers = record {
  workers = record { exempt = true; phase = busy 0 1 } ∷ helpers (workers - 1);
  next_chunk = 1;
  exhausted = false;
  failure = none;
  written = [];
  lost = [];
}

-- a worker of `t` moves from one phase to another
abbrev pub Moves : Transfer → Worker → Phase → List Worker → Type 0
Moves t w p ws =
    (before : List Worker) × (after : List Worker) × (t.workers ≡ before ++ w ∷ after)
    × (ws ≡ before ++ record w { phase = p } ∷ after)

-- a slot can be taken, or none is needed
abbrev pub CanAcquire : ℕ → Transfer → Worker → Type 0
CanAcquire capacity t w = ((if w.exempt then true else ltb (slots_held t.workers) capacity) ≡ true)

module _ (chunks capacity : ℕ) where
  pub data Step (t u : Transfer) : Type 0 where
    -- `slot.acquire` in `work`
    acquire :
        (w : Worker) (ws : List Worker)
        → w.phase ≡ idle
        → CanAcquire capacity t w
        → Moves t w holding ws
        → u ≡ record t { workers = ws }
        → Step t u
    -- the context ends, or the last chunk is claimed, while the worker waits for a slot
    quit :
        (w : Worker) (ws : List Worker)
        → w.phase ≡ idle
        → w.exempt ≡ false
        → ((has_failed t.failure || t.exhausted) ≡ true)
        → Moves t w finished ws
        → u ≡ record t { workers = ws }
        → Step t u
    -- the context has ended by the time the slot is there
    cancel :
        (w : Worker) (ws : List Worker)
        → w.phase ≡ holding
        → has_failed t.failure ≡ true
        → Moves t w finished ws
        → u ≡ record t { workers = ws }
        → Step t u
    -- `claimChunk` gives a chunk
    claim :
        (w : Worker) (ws : List Worker)
        → w.phase ≡ holding
        → t.next_chunk < chunks
        → Moves t w (busy t.next_chunk 1) ws
        → u ≡ record t {
          workers = ws;
          next_chunk = t.next_chunk + 1;
          exhausted = t.exhausted || leb (chunks - 1) t.next_chunk;
        }
        → Step t u
    -- `claimChunk` gives none
    run_out :
        (w : Worker) (ws : List Worker)
        → w.phase ≡ holding
        → chunks ≤ t.next_chunk
        → Moves t w finished ws
        → u ≡ record t { workers = ws; next_chunk = t.next_chunk + 1; exhausted = true }
        → Step t u
    -- the attempt succeeds, and the worker gives its slot back
    write :
        (w : Worker) (ws : List Worker) (i a : ℕ)
        → w.phase ≡ busy i a
        → Moves t w idle ws
        → u ≡ record t { workers = ws; written = i ∷ t.written }
        → Step t u
    -- the attempt fails with an error that may be retried
    retry :
        (w : Worker) (ws : List Worker) (i a : ℕ) (e : ChunkError)
        → w.phase ≡ busy i a
        → has_failed t.failure ≡ false
        → gives_up e a ≡ false
        → Moves t w (backing i a) ws
        → u ≡ record t { workers = ws }
        → Step t u
    -- the delay is over, and the slot is there again
    resume :
        (w : Worker) (ws : List Worker) (i a : ℕ)
        → w.phase ≡ backing i a
        → CanAcquire capacity t w
        → Moves t w (busy i (a + 1)) ws
        → u ≡ record t { workers = ws }
        → Step t u
    -- the attempt fails for good
    give_up :
        (w : Worker) (ws : List Worker) (i a : ℕ) (e : ChunkError)
        → w.phase ≡ busy i a
        → gives_up e a ≡ true
        → Moves t w finished ws
        → u ≡ record t { workers = ws; failure = first_failure t.failure e; lost = i ∷ t.lost }
        → Step t u
    -- another worker has failed
    fall_out :
        (w : Worker) (ws : List Worker) (i a : ℕ)
        → ((w.phase ≡ busy i a) ⊎ (w.phase ≡ backing i a))
        → has_failed t.failure ≡ true
        → Moves t w finished ws
        → u ≡ record t { workers = ws; lost = i ∷ t.lost }
        → Step t u

  -- what the workers can reach from a state
  pub data Reach (s : Transfer) : Transfer → Type 0 where
    here : Reach s s
    next : {t u : Transfer} → Reach s t → Step t u → Reach s u
