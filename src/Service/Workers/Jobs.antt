-- ===== src/Service/Workers/Jobs.antt =====
-- The jobs of an environment, sorted by name as `BuildWorkerSpecs` sorts them, and how their
-- processes compare with it (service/workers.go).
use polka.Service.Processes.{WorkerProcessState, LiveWorker, count_live, covers, matches_workers}
use polka.Base.{suc, ◌+◌, ◌-◌, Text, ◌==◌, trim, true, false, ◌||◌, Option, none, some}
use polka.Base.{
  List, [], ◌∷◌, length, if◌then◌else◌, eqb, ◌≡◌, ◌≢◌, refl, ap, ap₂, sym, subst, ◌∙◌, arith, inl,
  inr, All, All-map, Bool-cases,
}
use polka.Base.Int.{ℤ, pos, negsuc}
use polka.Base.Dict.{Dict, lookup, NodupKeys}
use polka.Base.Dict.Laws.{lookup-nil}
use polka.Backend.State.{contains}
use polka.Config.Types.{WorkerConfig}
use polka.Config.Workers.{effective_worker_replicas}
use polka.Config.Workers.Names.{text_le, sort_texts, insert_sorted, keys, sorted_worker_names}
use polka.Tools.Dispatch.Laws.{IsUnique}
use polka.Service.Workers.Covered.{
  Job, running, IsRun, counted, job_names, job_of, count_live-run, length-counted, lookup-counted,
}

contains-insert_sorted :
    (k s : Text) (ts : List Text) → contains k (insert_sorted s ts) ≡ (s == k || contains k ts)
unfolding insert_sorted
contains-insert_sorted k s [] = refl
contains-insert_sorted k s (t ∷ ts) = ground (arith, contains-insert_sorted k s ts)

pub contains-sort_texts : (k : Text) (ts : List Text) → contains k (sort_texts ts) ≡ contains k ts
unfolding sort_texts
contains-sort_texts k [] = refl
contains-sort_texts k (t ∷ ts) =
    contains-insert_sorted k t (sort_texts ts) ∙ ap (λ b. t == k || b) (contains-sort_texts k ts)

length-insert_sorted : (s : Text) (ts : List Text) → length (insert_sorted s ts) ≡ length ts + 1
unfolding insert_sorted
length-insert_sorted s [] = refl
length-insert_sorted s (t ∷ ts) = ground (arith, length-insert_sorted s ts)

length-sort_texts : (ts : List Text) → length (sort_texts ts) ≡ length ts
unfolding sort_texts
length-sort_texts [] = refl
length-sort_texts (t ∷ ts) =
    ground (arith, length-insert_sorted t (sort_texts ts), length-sort_texts ts)

==-sym : (s t : Text) → (s == t) ≡ (t == s)
==-sym s t = ground arith

IsUnique-insert_sorted :
    (s : Text) (ts : List Text)
    → contains s ts ≡ false
    → IsUnique ts
    → IsUnique (insert_sorted s ts)
unfolding insert_sorted
IsUnique-insert_sorted s [] n u = (n, u)
IsUnique-insert_sorted s (t ∷ ts) n (x, u) = elim (Bool-cases (text_le s t)) [
  | inl e ↦ rw e (n, (x, u))
  | inr e ↦ rw e (
    ground (arith, contains-insert_sorted t s ts, ==-sym s t),
    IsUnique-insert_sorted s ts (ground arith) u,
  )
]

IsUnique-sort_texts : (ts : List Text) → IsUnique ts → IsUnique (sort_texts ts)
unfolding sort_texts
IsUnique-sort_texts [] u = u
IsUnique-sort_texts (t ∷ ts) (x, u) =
    IsUnique-insert_sorted t (sort_texts ts) (contains-sort_texts t ts ∙ x)
      (IsUnique-sort_texts ts u)

pub contains-keys {ℓ} :
    {V : Type ℓ} (k : Text) (m : Dict V) → lookup k m ≡ none → contains k (keys m) ≡ false
unfolding lookup
contains-keys k [] h = refl
contains-keys k ((j, v) ∷ m) h = ground (arith, contains-keys k m)

IsUnique-keys {ℓ} : {V : Type ℓ} (m : Dict V) → NodupKeys m → IsUnique (keys m)
IsUnique-keys [] u = tt
IsUnique-keys ((k, v) ∷ m) (n, u) = (contains-keys k m n, IsUnique-keys m u)

length-keys {ℓ} : {V : Type ℓ} (m : Dict V) → length (keys m) ≡ length m
length-keys [] = refl
length-keys (e ∷ m) = ap (λ n. suc n) (length-keys m)

-- each entry of a map is what a lookup of its key finds
lookup-entries {ℓ} :
    {V : Type ℓ} (m : Dict V)
    → NodupKeys m
    → All (λ (k, v). (lookup k m ≡ some v) × (contains k (keys m) ≡ true)) m
unfolding lookup
lookup-entries [] u = tt
lookup-entries ((k, v) ∷ m) (n, u) = (
  (ground arith, ground arith),
  All-map _ _ (λ (j, w) (a, b). (ground (arith, n), ground (arith, b))) m (lookup-entries m u),
)

-- the job of a worker
abbrev pub job_with : Text → Option WorkerConfig → Job
job_with name none = record { name = name; command = []; more = 0 }
job_with name (some worker) = record {
  name = name;
  command = trim worker.command;
  more = effective_worker_replicas worker - 1;
}

abbrev pub jobs_of : Dict WorkerConfig → List Text → List Job
jobs_of workers [] = []
jobs_of workers (name ∷ ns) = job_with name (lookup name workers) ∷ jobs_of workers ns

-- there is always a replica
pub effective_worker_replicas_lem :
    (worker : WorkerConfig)
    → effective_worker_replicas worker - 1 + 1 ≡ effective_worker_replicas worker
unfolding effective_worker_replicas
effective_worker_replicas_lem worker = go worker.replicas
  where
    go :
        (z : ℤ)
        → (elim z [ pos n ↦ if eqb n 0 then 1 else n | negsuc n ↦ 1 ]) - 1 + 1
          ≡ elim z [ pos n ↦ if eqb n 0 then 1 else n | negsuc n ↦ 1 ]
    go (pos n) = ground arith
    go (negsuc n) = refl

name-job_with : (name : Text) (o : Option WorkerConfig) → (job_with name o).name ≡ name
name-job_with name none = refl
name-job_with name (some worker) = refl

job_names-jobs_of :
    (workers : Dict WorkerConfig) (ns : List Text) → job_names (jobs_of workers ns) ≡ ns
job_names-jobs_of workers [] = refl
job_names-jobs_of workers (n ∷ ns) =
    ap₂ ◌∷◌ (name-job_with n (lookup n workers)) (job_names-jobs_of workers ns)

job_of-jobs_of :
    (workers : Dict WorkerConfig) (ns : List Text) (k : Text)
    → contains k ns ≡ true
    → job_of k (jobs_of workers ns) ≡ some (job_with k (lookup k workers))
job_of-jobs_of workers [] k c = cc
job_of-jobs_of workers (n ∷ ns) k c = elim (Bool-cases (n == k)) [
  | inl e ↦ ground (arith, name-job_with n (lookup n workers))
  | inr e ↦ ground (arith, name-job_with n (lookup n workers), job_of-jobs_of workers ns k)
]

length-jobs_of :
    (workers : Dict WorkerConfig) (ns : List Text) → length (jobs_of workers ns) ≡ length ns
length-jobs_of workers [] = refl
length-jobs_of workers (n ∷ ns) = ap (λ m. suc m) (length-jobs_of workers ns)

covers-All :
    (live : Dict LiveWorker) (workers : Dict WorkerConfig)
    → All
        (λ (k, w). lookup k live ≡ some (running (effective_worker_replicas w) (trim w.command)))
        workers
    → covers live workers ≡ true
unfolding covers
covers-All live [] h = refl
covers-All live ((k, w) ∷ workers) (x, h) = ground (arith, x, covers-All live workers h)

-- a full run of the jobs of an environment matches it
pub matches_workers-run :
    (workers : Dict WorkerConfig) (ps : List WorkerProcessState)
    → NodupKeys workers
    → IsRun (jobs_of workers (sorted_worker_names workers)) ps
    → matches_workers workers (count_live [] ps) ≡ true
unfolding sorted_worker_names
matches_workers-run workers ps u r =
    let js = jobs_of workers (sort_texts (keys workers)) in
    let unique : IsUnique (job_names js) =
      subst IsUnique (sym (job_names-jobs_of workers (sort_texts (keys workers))))
        (IsUnique-sort_texts (keys workers) (IsUnique-keys workers u)) in
    let sizes : length (counted js []) ≡ length workers =
      length-counted js [] unique (fresh js)
      ∙ omega (
        arith,
        length-jobs_of workers (sort_texts (keys workers)),
        length-sort_texts (keys workers),
        length-keys workers,
      ) in
    ap (matches_workers workers) (count_live-run js [] ps r unique (fresh js))
    ∙ ground (
      arith,
      sizes,
      covers-All (counted js []) workers
          (All-map _ _ (λ (k, w) (a, b). entry k w unique a b) workers (lookup-entries workers u)),
    )
  where
    fresh : (js : List Job) → All (λ j. lookup {V = LiveWorker} j.name [] ≡ none) js
    fresh [] = tt
    fresh (j ∷ js) = (lookup-nil j.name, fresh js)

    entry :
        (k : Text) (w : WorkerConfig)
        → IsUnique (job_names (jobs_of workers (sort_texts (keys workers))))
        → lookup k workers ≡ some w
        → contains k (keys workers) ≡ true
        → lookup k (counted (jobs_of workers (sort_texts (keys workers))) [])
          ≡ some (running (effective_worker_replicas w) (trim w.command))
    entry k w unique a b =
        lookup-counted (jobs_of workers (sort_texts (keys workers))) k (job_with k (some w)) []
          unique
          (job_of-jobs_of workers (sort_texts (keys workers)) k
              (contains-sort_texts k (keys workers) ∙ b)
            ∙ ap (λ o. some (job_with k o)) a)
        ∙ ap (λ n. some (running n (trim w.command))) (effective_worker_replicas_lem w)

-- what holds of every key holds of every sorted name
pub sorted_names-All {ℓ κ} :
    {V : Type ℓ} (P : Text → Type κ) (m : Dict V)
    → ((k : Text) → contains k (keys m) ≡ true → P k)
    → All P (sorted_worker_names m)
unfolding sorted_worker_names
sorted_names-All P m f =
    each (sort_texts (keys m)) (λ k c. f k (sym (contains-sort_texts k (keys m)) ∙ c))
  where
    each : (ts : List Text) → ((k : Text) → contains k ts ≡ true → P k) → All P ts
    each [] g = tt
    each (t ∷ ts) g = (g t (ground arith), each ts (λ k c. g k (ground arith)))

-- where there is a worker, there is a process
pub jobs-ne-nil :
    (workers : Dict WorkerConfig) (ps : List WorkerProcessState)
    → workers ≢ []
    → IsRun (jobs_of workers (sorted_worker_names workers)) ps
    → ps ≢ []
unfolding sorted_worker_names
jobs-ne-nil [] ps n r = absurd (n refl)
jobs-ne-nil (w ∷ workers) [] n r =
    absurd (none_run (sort_texts (keys (w ∷ workers))) (length-sort_texts (keys (w ∷ workers))) r)
  where
    none_run :
        (ts : List Text)
        → length ts ≡ length (keys (w ∷ workers))
        → IsRun (jobs_of (w ∷ workers) ts) []
        → ⊥
    none_run [] e r = omega (arith, e)
    none_run (t ∷ ts) e (rest, x, r) = x
jobs-ne-nil (w ∷ workers) (p ∷ ps) n r = λ e. cc
