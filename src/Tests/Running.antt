-- ===== src/Tests/Running.antt =====
-- Workers that are started twice, on an operating system that counts its processes.
use polka.Service.Processes.{WorkerProcessState, WorkersRuntimeState, Hooks, Context, World}
use polka.Base.{
  ℕ, ◌+◌, Text, List, codes, text_dec, true, false, ltb, none, some, [], ◌∷◌, ◌++◌, ◌≡◌, refl,
  subst, arith,
}
use polka.Base.Strings.{trim, trim_left, trim_right, is_space}
use polka.Base.Dict.{lookup}
use polka.Base.Dict.Laws.{lookup-nil}
use polka.Base.Int.{pos}
use polka.Base.Result.{ok}
use polka.Config.Types.{WorkerConfig}
use polka.Config.Workers.{effective_worker_replicas}
use polka.Config.Workers.Names.{sorted_worker_names, sort_texts, insert_sorted}
use polka.Config.Workers.Command.{split_worker_command}
use polka.Service.Workers.{
  ensure_managed_workers_started, load_live_workers_state, build_worker_specs, specs_of, append_env,
  start_specs, start_replicas, resolve_worker_dir,
}
use polka.Service.Workers.Again.{ensure_managed_workers_started_idem}
use polka.Tests.Settings.{site}

abbrev head : List Text → Text
head [] = []
head (t ∷ ts) = t

abbrev tail : List Text → List Text
tail [] = []
tail (t ∷ ts) = ts

abbrev counting : Hooks ℕ
counting = record {
  start_worker = λ spec replica o. (some (record { pid = o; log_path = spec.log_dir }), o + 1);
  stop_worker = λ p o. o;
  pid_is_live = λ pid o. ltb pid o;
  build_env = λ o. some (codes "HOME=/" ∷ []);
  resolve_target = λ argv env. some (record { target = head argv; args = tail argv; env = env });
  now = λ o. o;
  can_read = λ o. true;
  can_write = λ o. true;
  can_remove = λ o. true;
  is_abs = λ path. false;
  clean = λ path. path;
  join_path = λ dir path. dir ++ b'/' ∷ path;
}

abbrev context : Context
context = record { environment = site; project_dir = codes "/site"; log_dir = codes "/log" }

abbrev queue : WorkerConfig
queue = record { command = codes "php artisan queue:work"; replicas = pos 2; dir = []; env = [] }

abbrev replica_of : ℕ → ℕ → WorkerProcessState
replica_of replica pid = record {
  name = codes "queue";
  replica = replica;
  pid = pid;
  command = codes "php artisan queue:work";
  log_path = codes "/log";
  started_at = pid + 1;
}

abbrev state : WorkersRuntimeState
state = record { environment_name = codes "site"; processes = replica_of 1 5 ∷ replica_of 2 6 ∷ [] }

abbrev stopped : World ℕ
stopped = record { os = 5; state_file = none }

abbrev started : World ℕ
started = record { os = 7; state_file = some state }

started_once :
    ensure_managed_workers_started counting context stopped ≡ (ok (state, false), started)
unfolding ensure_managed_workers_started load_live_workers_state build_worker_specs specs_of
    append_env start_specs start_replicas resolve_worker_dir effective_worker_replicas
    sorted_worker_names sort_texts insert_sorted split_worker_command lookup text_dec trim trim_left
    trim_right is_space
started_once = refl

queue_found :
    (name : Text) (worker : WorkerConfig)
    → lookup name ((codes "queue", queue) ∷ []) ≡ some worker
    → queue ≡ worker
unfolding lookup
queue_found name worker e = ground arith

queue_splits : (argv : List Text) × (split_worker_command queue.command ≡ ok argv)
unfolding split_worker_command text_dec trim trim_left trim_right is_space
queue_splits = (codes "php" ∷ codes "artisan" ∷ codes "queue:work" ∷ [], refl)

all_split :
    (name : Text) (worker : WorkerConfig)
    → lookup name site.workers ≡ some worker
    → (argv : List Text) × (split_worker_command worker.command ≡ ok argv)
all_split name worker e =
    subst (λ (w : WorkerConfig). (argv : List Text) × (split_worker_command w.command ≡ ok argv))
      (queue_found name worker e) queue_splits

ensure_managed_workers_started_idem_example :
    ensure_managed_workers_started counting context started ≡ (ok (state, true), started)
ensure_managed_workers_started_idem_example =
    ensure_managed_workers_started_idem counting context (λ spec n o e. cc) all_split
      (λ argv env e. cc) stopped state started (lookup-nil (codes "queue"), tt) started_once
      (refl, (refl, tt)) refl
