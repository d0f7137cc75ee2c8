-- ===== src/Config/Workers.antt =====
-- Background workers of an environment (config/workers.go).
pub mod Command
pub mod Names
use polka.Base.{ℕ, Text, ◌==◌, null, norm, trim, Bool, true, false, not, ◌&&◌, ◌||◌, length}
use polka.Base.{Option, none, some, List, [], ◌∷◌, if◌then◌else◌, leb, eqb, ◌≡◌, refl, arith}
use polka.Base.Int.{ℤ, pos, negsuc}
use polka.Base.Result.{Result, ok, err}
use polka.Base.Strings.{has}
use polka.Base.Strings.Laws.{norm-norm, trim-trim}
use polka.Base.Dict.{Dict, lookup}
use polka.Base.Dict.Rebuild.{rebuild, rebuild-rebuild}
use polka.Config.Types.{WorkerConfig}
use polka.Config.Workers.Command.{SplitError, split_worker_command}
use polka.Config.Workers.Names.{sorted_worker_names}

-- the entry that a round of `NormalizeEnvironmentVariables` writes
abbrev pub variable_entry : Text → Text → Option (Text × Text)
variable_entry key value = some (trim key, value)

-- `NormalizeEnvironmentVariables`
unfoldable pub normalize_environment_variables : Dict Text → Dict Text
normalize_environment_variables = rebuild variable_entry

abbrev clamp : ℤ → ℤ
clamp (pos n) = pos n
clamp (negsuc n) = pos 0

-- the entry that a round of `NormalizeWorkersConfig` writes
abbrev pub worker_entry : Text → WorkerConfig → Option (Text × WorkerConfig)
worker_entry name worker =
    let normalized_name = norm name in
    let command = trim worker.command in
    if null normalized_name || null command
    then none
    else some (
      normalized_name,
      record {
        command = command;
        replicas = clamp worker.replicas;
        dir = trim worker.dir;
        env = normalize_environment_variables worker.env;
      },
    )

-- `NormalizeWorkersConfig`
unfoldable pub normalize_workers_config : Dict WorkerConfig → Dict WorkerConfig
normalize_workers_config = rebuild worker_entry

-- `EffectiveWorkerReplicas`
unfoldable pub effective_worker_replicas : WorkerConfig → ℕ
effective_worker_replicas worker = elim worker.replicas [
  | pos n ↦ if eqb n 0 then 1 else n
  | negsuc n ↦ 1
]

-- the first character of `validWorkerName`, and one that may follow
abbrev is_alnum : ℕ → Bool
is_alnum c = (leb b'A' c && leb c b'Z') || (leb b'a' c && leb c b'z') || (leb b'0' c && leb c b'9')

abbrev is_name_char : ℕ → Bool
is_name_char c = is_alnum c || eqb c b'.' || eqb c b'_' || eqb c b'-'

unfoldable pub all_name_chars : Text → Bool
all_name_chars [] = true
all_name_chars (c ∷ s) = is_name_char c && all_name_chars s

-- `validWorkerName.MatchString`
unfoldable pub valid_worker_name : Text → Bool
unfolding all_name_chars
valid_worker_name [] = false
valid_worker_name (c ∷ s) = is_alnum c && all_name_chars s

pub data WorkerError : Type 0 where
  invalid_name : Text → WorkerError
  missing_command : Text → WorkerError
  bad_command : Text → SplitError → WorkerError
  invalid_variable : Text → Text → WorkerError

-- the first variable of a worker whose name is refused
unfoldable pub bad_variable : Dict Text → Option Text
bad_variable [] = none
bad_variable ((key, value) ∷ env) =
    let trimmed = trim key in
    if null trimmed || has b'=' trimmed then some key else bad_variable env

abbrev check_variables : Text → Option Text → Option WorkerError
check_variables name none = none
check_variables name (some key) = some (invalid_variable name key)

abbrev check_command :
    Text → Result SplitError (List Text) → Option WorkerError → Option WorkerError
check_command name (ok args) rest = rest
check_command name (err e) rest = some (bad_command name e)

-- the checks of a round of the loop of `ValidateWorkersConfig`
unfoldable pub check_worker : Text → WorkerConfig → Option WorkerError
unfolding valid_worker_name bad_variable
check_worker name worker =
    if not (valid_worker_name name)
    then some (invalid_name name)
    else if null (trim worker.command)
    then some (missing_command name)
    else check_command name (split_worker_command worker.command)
        (check_variables name (bad_variable worker.env))

abbrev check_entry : Text → Option WorkerConfig → Option WorkerError
check_entry name none = none
check_entry name (some worker) = check_worker name worker

unfoldable pub check_names : Dict WorkerConfig → List Text → Option WorkerError
unfolding check_worker
check_names workers [] = none
check_names workers (name ∷ names) = elim (check_entry name (lookup name workers)) [
  | some e ↦ some e
  | none ↦ check_names workers names
]

-- `ValidateWorkersConfig`: the first problem, if there is one
unfoldable pub validate_workers_config : Dict WorkerConfig → Option WorkerError
unfolding check_names
validate_workers_config workers = check_names workers (sorted_worker_names workers)

variable_entry_idem :
    (k v : Text) (e : Text × Text) → variable_entry k v ≡ some e → variable_entry e.0 e.1 ≡ some e
variable_entry_idem k v e h = ground (arith, trim-trim k)

-- Normalising environment variables twice is normalising them once.
pub normalize_environment_variables_idem :
    (m : Dict Text)
    → normalize_environment_variables (normalize_environment_variables m)
      ≡ normalize_environment_variables m
unfolding normalize_environment_variables
normalize_environment_variables_idem m = rebuild-rebuild variable_entry variable_entry_idem m

worker_entry_idem :
    (k : Text) (w : WorkerConfig) (e : Text × WorkerConfig)
    → worker_entry k w ≡ some e
    → worker_entry e.0 e.1 ≡ some e
worker_entry_idem k w e h = ground (
  arith,
  norm-norm k,
  trim-trim w.command,
  trim-trim w.dir,
  normalize_environment_variables_idem w.env,
)

-- Normalising the workers twice is normalising them once.
pub normalize_workers_config_idem :
    (m : Dict WorkerConfig)
    → normalize_workers_config (normalize_workers_config m) ≡ normalize_workers_config m
unfolding normalize_workers_config
normalize_workers_config_idem m = rebuild-rebuild worker_entry worker_entry_idem m
