-- ===== src/Service/Processes.antt =====
-- The processes of background workers, and whether they match an environment (service/workers.go).
-- The processes of the operating system are a state that the hooks pass on; the state file is a value
-- that may be there.
use polka.Base.{ℕ, ◌+◌, Text, ◌==◌, trim, Bool, true, false, not, ◌&&◌}
use polka.Base.{Option, none, some, List, [], ◌∷◌, length, if◌then◌else◌, ltb, eqb}
use polka.Base.Dict.{Dict, lookup, insert, lookup_or}
use polka.Config.Types.{Environment, WorkerConfig}
use polka.Config.Workers.{effective_worker_replicas}

-- `WorkerProcessState`
pub record WorkerProcessState : Type 0 where
  pub name : Text
  pub replica : ℕ
  pub pid : ℕ
  pub command : Text
  pub log_path : Text
  pub started_at : ℕ

-- `WorkersRuntimeState`
pub record WorkersRuntimeState : Type 0 where
  pub environment_name : Text
  pub processes : List WorkerProcessState

-- `WorkerSpec`
pub record WorkerSpec : Type 0 where
  pub environment_name : Text
  pub name : Text
  pub command : Text
  pub target : Text
  pub args : List Text
  pub dir : Text
  pub replicas : ℕ
  pub log_dir : Text
  pub env : List Text

-- `WorkerStartResult`
pub record WorkerStartResult : Type 0 where
  pub pid : ℕ
  pub log_path : Text

-- what `ResolveTarget` gives
pub record Target : Type 0 where
  pub target : Text
  pub args : List Text
  pub env : List Text

-- `WorkersRuntimeHooks`, and what the operating system does on files and paths
pub record Hooks (O : Type 0) : Type 0 where
  pub start_worker : WorkerSpec → ℕ → O → Option WorkerStartResult × O
  pub stop_worker : WorkerProcessState → O → O
  pub pid_is_live : ℕ → O → Bool
  pub build_env : O → Option (List Text)
  pub resolve_target : List Text → List Text → Option Target
  pub now : O → ℕ
  pub can_read : O → Bool
  pub can_write : O → Bool
  pub can_remove : O → Bool
  pub is_abs : Text → Bool
  pub clean : Text → Text
  pub join_path : Text → Text → Text

-- `Context`, as far as it is read
pub record Context : Type 0 where
  pub environment : Environment
  pub project_dir : Text
  pub log_dir : Text

pub record World (O : Type 0) : Type 0 where
  pub os : O
  pub state_file : Option WorkersRuntimeState

pub data ServiceError : Type 0 where
  load_failed remove_failed write_failed no_environment : ServiceError

abbrev pub nothing_running : WorkersRuntimeState
nothing_running = record { environment_name = []; processes = [] }

-- the entries of the map of `WorkersStateMatchesEnvironment`
pub record LiveWorker : Type 0 where
  pub replicas : ℕ
  pub command : Text

abbrev pub no_worker : LiveWorker
no_worker = record { replicas = 0; command = [] }

-- the loop over the processes; none if two commands of a worker differ
unfoldable pub count_live : Dict LiveWorker → List WorkerProcessState → Option (Dict LiveWorker)
count_live live [] = some live
count_live live (p ∷ ps) =
    let entry = lookup_or no_worker p.name live in
    let rest =
      count_live
        (insert p.name (record { replicas = entry.replicas + 1; command = p.command }) live) ps in
    if ltb 0 entry.replicas && not (entry.command == p.command) then none else rest

abbrev pub is_covered : WorkerConfig → Option LiveWorker → Bool
is_covered worker none = false
is_covered worker (some entry) =
    eqb entry.replicas (effective_worker_replicas worker) && entry.command == trim worker.command

-- the loop over the workers
unfoldable pub covers : Dict LiveWorker → Dict WorkerConfig → Bool
covers live [] = true
covers live ((name, worker) ∷ workers) = is_covered worker (lookup name live) && covers live workers

abbrev pub matches_workers : Dict WorkerConfig → Option (Dict LiveWorker) → Bool
matches_workers workers none = false
matches_workers workers (some live) = eqb (length live) (length workers) && covers live workers

-- `WorkersStateMatchesEnvironment`
unfoldable pub workers_state_matches_environment : WorkersRuntimeState → Environment → Bool
workers_state_matches_environment state environment =
    matches_workers environment.workers (count_live [] state.processes)
