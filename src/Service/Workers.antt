-- ===== src/Service/Workers.antt =====
-- How the background workers of an environment are started and stopped (service/workers.go), over the
-- hooks of the source. Warnings are left out.
pub mod Covered
pub mod Jobs
pub mod Starts
pub mod Again
use polka.Base.{
  ℕ, zero, suc, ◌+◌, Text, codes, text_dec, ◌==◌, trim, null, Bool, true, false, not, ◌&&◌, ◌||◌,
}
use polka.Base.{Option, none, some, List, [], ◌∷◌, ◌++◌, length, if◌then◌else◌, ltb, leb, eqb}
use polka.Base.Dict.{Dict, lookup, insert, lookup_or}
use polka.Base.Result.{Result, ok, err, ◌>>=◌}
use polka.Config.Types.{Environment, WorkerConfig}
use polka.Config.Workers.{effective_worker_replicas}
use polka.Config.Workers.Names.{sort_texts, keys, sorted_worker_names}
use polka.Config.Workers.Command.{SplitError, split_worker_command}
use polka.Service.Processes.{
  WorkerProcessState, WorkersRuntimeState, WorkerSpec, WorkerStartResult, Target, Hooks, Context,
  World, ServiceError, nothing_running, LiveWorker, no_worker, count_live, is_covered, covers,
  matches_workers, workers_state_matches_environment, load_failed, remove_failed, write_failed,
  no_environment,
}

module _ {O : Type 0} (hooks : Hooks O) (ctx : Context) where
  -- `resolveWorkerDir`
  unfoldable pub resolve_worker_dir : Text → Text
  resolve_worker_dir dir =
      if null (trim dir)
      then ctx.project_dir
      else if hooks.is_abs (trim dir)
      then hooks.clean (trim dir)
      else hooks.join_path ctx.project_dir (trim dir)

  abbrev pub text_or_empty : Option Text → Text
  text_or_empty none = []
  text_or_empty (some v) = v

  -- the loop that appends the variables of a worker
  unfoldable pub append_env : List Text → Dict Text → List Text → List Text
  append_env env variables [] = env
  append_env env variables (key ∷ rest) =
      append_env (env ++ (key ++ b'=' ∷ text_or_empty (lookup key variables)) ∷ []) variables rest

  abbrev pub spec_for : Text → WorkerConfig → Target → WorkerSpec
  spec_for name worker resolved = record {
    environment_name = ctx.environment.name;
    name = name;
    command = trim worker.command;
    target = resolved.target;
    args = resolved.args;
    dir = resolve_worker_dir worker.dir;
    replicas = effective_worker_replicas worker;
    log_dir = ctx.log_dir;
    env = resolved.env;
  }

  abbrev pub spec_resolved : Text → WorkerConfig → Option Target → Option WorkerSpec
  spec_resolved name worker none = none
  spec_resolved name worker (some resolved) = some (spec_for name worker resolved)

  abbrev pub spec_split :
      List Text → Text → WorkerConfig → Result SplitError (List Text) → Option WorkerSpec
  spec_split base name worker (err reason) = none
  spec_split base name worker (ok argv) =
      spec_resolved name worker
        (hooks.resolve_target argv (append_env base worker.env (sort_texts (keys worker.env))))

  -- a round of the loop; a worker that cannot be split or resolved is skipped
  abbrev pub spec_of : List Text → Text → Option WorkerConfig → Option WorkerSpec
  spec_of base name none = none
  spec_of base name (some worker) =
      spec_split base name worker (split_worker_command worker.command)

  abbrev pub cons_some {ℓ} : {A : Type ℓ} → Option A → List A → List A
  cons_some none xs = xs
  cons_some (some x) xs = x ∷ xs

  unfoldable pub specs_of : List Text → List Text → List WorkerSpec
  specs_of base [] = []
  specs_of base (name ∷ names) =
      cons_some (spec_of base name (lookup name ctx.environment.workers)) (specs_of base names)

  abbrev pub specs_from : Option (List Text) → Result ServiceError (List WorkerSpec)
  specs_from none = err no_environment
  specs_from (some base) = ok (specs_of base (sorted_worker_names ctx.environment.workers))

  -- `BuildWorkerSpecs`
  unfoldable pub build_worker_specs : O → Result ServiceError (List WorkerSpec)
  build_worker_specs o = specs_from (hooks.build_env o)

  abbrev pub started_process : WorkerSpec → ℕ → O → WorkerStartResult → WorkerProcessState
  started_process spec replica o result = record {
    name = spec.name;
    replica = replica;
    pid = result.pid;
    command = spec.command;
    log_path = result.log_path;
    started_at = hooks.now o;
  }

  abbrev pub add_started :
      WorkerSpec
      → ℕ
      → List WorkerProcessState
      → Option WorkerStartResult × O
      → List WorkerProcessState × O
  add_started spec replica started (none, o) = (started, o)
  add_started spec replica started (some result, o) =
      (started ++ started_process spec replica o result ∷ [], o)

  -- the loop over the replicas from this one on, with the number that are left
  unfoldable pub start_replicas :
      WorkerSpec → ℕ → ℕ → List WorkerProcessState × O → List WorkerProcessState × O
  start_replicas spec zero replica (started, o) = (started, o)
  start_replicas spec (suc left) replica (started, o) =
      start_replicas spec left (replica + 1)
        (add_started spec replica started (hooks.start_worker spec replica o))

  -- the loop over the specs
  unfoldable pub start_specs :
      List WorkerSpec → List WorkerProcessState × O → List WorkerProcessState × O
  start_specs [] s = s
  start_specs (spec ∷ specs) s = start_specs specs (start_replicas spec spec.replicas 1 s)

  -- `stopWorkerProcesses`
  unfoldable pub stop_worker_processes : List WorkerProcessState → O → O
  stop_worker_processes [] o = o
  stop_worker_processes (p ∷ ps) o = stop_worker_processes ps (hooks.stop_worker p o)

  unfoldable pub live_processes : O → List WorkerProcessState → List WorkerProcessState
  live_processes o [] = []
  live_processes o (p ∷ ps) =
      let rest = live_processes o ps in if hooks.pid_is_live p.pid o then p ∷ rest else rest

  -- what is left of a state file with these live processes
  abbrev pub pruned :
      World O
      → WorkersRuntimeState
      → List WorkerProcessState
      → Result ServiceError (Option WorkersRuntimeState) × World O
  pruned w state [] =
      if hooks.can_remove w.os
      then (ok none, record w { state_file = none })
      else (err remove_failed, w)
  pruned w state (p ∷ ps) = (ok (some (record state { processes = p ∷ ps })), w)

  abbrev pub load_from :
      World O
      → Option WorkersRuntimeState
      → Result ServiceError (Option WorkersRuntimeState) × World O
  load_from w none = (ok none, w)
  load_from w (some state) =
      if hooks.can_read w.os
      then pruned w state (live_processes w.os state.processes)
      else (err load_failed, w)

  -- `LoadLiveWorkersState`
  unfoldable pub load_live_workers_state :
      World O → Result ServiceError (Option WorkersRuntimeState) × World O
  load_live_workers_state w = load_from w w.state_file

  abbrev pub Started : Type 0
  Started = Result ServiceError (WorkersRuntimeState × Bool) × World O

  abbrev pub state_of : List WorkerProcessState → WorkersRuntimeState
  state_of processes = record { environment_name = ctx.environment.name; processes = processes }

  -- the end of a start; a file that cannot be written is taken to be as it was
  abbrev pub write_state : World O → List WorkerProcessState × O → Started
  write_state w ([], o) = (ok (state_of [], false), record w { os = o })
  write_state w (p ∷ ps, o) =
      if hooks.can_write o
      then (ok (state_of (p ∷ ps), false), record { os = o; state_file = some (state_of (p ∷ ps)) })
      else (err write_failed, record w { os = stop_worker_processes (p ∷ ps) o })

  abbrev pub start_built : World O → Result ServiceError (List WorkerSpec) → Started
  start_built w (err reason) = (err reason, w)
  start_built w (ok specs) = write_state w (start_specs specs ([], w.os))

  -- the part behind the reconciliation
  abbrev pub start_fresh : World O → Started
  start_fresh w = start_built w (build_worker_specs w.os)

  -- what is still running is stopped, and its state file removed
  abbrev pub restart : WorkersRuntimeState → World O → Started
  restart state w =
      let stopped = record w { os = stop_worker_processes state.processes w.os } in
      if hooks.can_remove stopped.os
      then start_fresh (record stopped { state_file = none })
      else (err remove_failed, stopped)

  abbrev pub reconcile : Result ServiceError (Option WorkersRuntimeState) × World O → Started
  reconcile (err reason, w) = (err reason, w)
  reconcile (ok none, w) = start_fresh w
  reconcile (ok (some state), w) =
      if workers_state_matches_environment state ctx.environment
      then (ok (state, true), w)
      else restart state w

  abbrev pub start_if_any : Dict WorkerConfig → World O → Started
  start_if_any [] w = (ok (nothing_running, true), w)
  start_if_any (worker ∷ workers) w = reconcile (load_live_workers_state w)

  -- `EnsureManagedWorkersStarted`
  unfoldable pub ensure_managed_workers_started : World O → Started
  ensure_managed_workers_started w = start_if_any ctx.environment.workers w

  abbrev pub stop_loaded : Result ServiceError (Option WorkersRuntimeState) × World O → Started
  stop_loaded (err reason, w) = (err reason, w)
  stop_loaded (ok none, w) = (ok (nothing_running, true), w)
  stop_loaded (ok (some state), w) =
      let stopped = record w { os = stop_worker_processes state.processes w.os } in
      if hooks.can_remove stopped.os
      then (ok (state, false), record stopped { state_file = none })
      else (err remove_failed, stopped)

  -- `StopManagedWorkers`
  unfoldable pub stop_managed_workers : World O → Started
  stop_managed_workers w = stop_loaded (load_live_workers_state w)
