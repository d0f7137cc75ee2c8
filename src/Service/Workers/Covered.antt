-- ===== src/Service/Workers/Covered.antt =====
-- How the processes of a full start compare with the environment (service/workers.go).
use polka.Service.Processes.{WorkerProcessState, LiveWorker, no_worker, count_live}
use polka.Base.{ℕ, zero, suc, ◌+◌, Text, ◌==◌, true, false, not, ◌&&◌, Option, none, some}
use polka.Base.{
  List, [], ◌∷◌, map, length, if◌then◌else◌, ltb, ◌≡◌, refl, ap, ap₂, sym, subst, ◌∙◌, arith, inl,
  inr, All, Bool-cases,
}
use polka.Base.Dict.{Dict, lookup, insert, lookup_or}
use polka.Base.Dict.Laws.{lookup-insert, lookup_or-insert}
use polka.Backend.State.{contains}
use polka.Tools.Dispatch.Laws.{IsUnique}

-- a worker that is to run: its name, its command and the number of its replicas, less one
pub record Job : Type 0 where
  pub name : Text
  pub command : Text
  pub more : ℕ

abbrev pub running : ℕ → Text → LiveWorker
running n command = record { replicas = n; command = command }

-- these processes are the replicas of one worker, in front of others
abbrev pub IsReplicas : ℕ → Text → Text → List WorkerProcessState → List WorkerProcessState → Type 0
IsReplicas zero name command ps rest = ps ≡ rest
IsReplicas (suc n) name command [] rest = ⊥
IsReplicas (suc n) name command (p ∷ ps) rest =
    (p.name ≡ name) × (p.command ≡ command) × IsReplicas n name command ps rest

-- these processes are the replicas of these workers, one worker after the other
abbrev pub IsRun : List Job → List WorkerProcessState → Type 0
IsRun [] ps = ps ≡ []
IsRun (j ∷ js) ps =
    (rest : List WorkerProcessState) × IsReplicas (suc j.more) j.name j.command ps rest
    × IsRun js rest

insert-insert {ℓ} :
    {V : Type ℓ} (k : Text) (v w : V) (m : Dict V) → insert k w (insert k v m) ≡ insert k w m
unfolding insert
insert-insert k v w [] = ground arith
insert-insert k v w ((j, u) ∷ m) = ground (arith, insert-insert k v w m)

length-insert {ℓ} :
    {V : Type ℓ} (k : Text) (v : V) (m : Dict V)
    → lookup k m ≡ none
    → length (insert k v m) ≡ length m + 1
unfolding insert lookup
length-insert k v [] h = refl
length-insert k v ((j, u) ∷ m) h = ground (arith, length-insert k v m)

-- a process whose worker is counted like this
count_live-step :
    (live : Dict LiveWorker) (p : WorkerProcessState) (ps : List WorkerProcessState)
    (entry : LiveWorker)
    → lookup_or no_worker p.name live ≡ entry
    → (ltb 0 entry.replicas && not (entry.command == p.command)) ≡ false
    → count_live live (p ∷ ps)
      ≡ count_live (insert p.name (running (entry.replicas + 1) p.command) live) ps
unfolding count_live
count_live-step live p ps entry e c =
    ap
      (λ (n : LiveWorker).
        if ltb 0 n.replicas && not (n.command == p.command)
        then none
        else count_live (insert p.name (running (n.replicas + 1) p.command) live) ps)
      e
    ∙ rw c refl

-- further replicas of a worker that is counted already
count_live-more :
    (n k : ℕ) (name command : Text) (live : Dict LiveWorker) (ps rest : List WorkerProcessState)
    → IsReplicas n name command ps rest
    → count_live (insert name (running (k + 1) command) live) ps
      ≡ count_live (insert name (running (k + 1 + n) command) live) rest
count_live-more zero k name command live ps rest h =
    ap₂ (λ m qs. count_live (insert name (running m command) live) qs) (omega arith) h
count_live-more (suc n) k name command live [] rest h = absurd h
count_live-more (suc n) k name command live (p ∷ ps) rest (a, b, h) =
    count_live-step (insert name (running (k + 1) command) live) p ps (running (k + 1) command)
      (ap (λ i. lookup_or no_worker i (insert name (running (k + 1) command) live)) a
        ∙ ground (arith, lookup_or-insert no_worker name name (running (k + 1) command) live))
      (ground (arith, b))
    ∙ ap₂
        (λ i c.
          count_live (insert i (running (k + 1 + 1) c) (insert name (running (k + 1) command) live))
            ps)
        a b
    ∙ ap (λ m. count_live m ps)
        (insert-insert name (running (k + 1) command) (running (k + 1 + 1) command) live)
    ∙ count_live-more n (k + 1) name command live ps rest h
    ∙ ap (λ m. count_live (insert name (running m command) live) rest) (omega arith)

-- all the replicas of a worker that is not counted yet
count_live-replicas :
    (n : ℕ) (name command : Text) (live : Dict LiveWorker) (ps rest : List WorkerProcessState)
    → lookup name live ≡ none
    → IsReplicas (suc n) name command ps rest
    → count_live live ps ≡ count_live (insert name (running (n + 1) command) live) rest
count_live-replicas n name command live [] rest e h = absurd h
count_live-replicas n name command live (p ∷ ps) rest e (a, b, h) =
    count_live-step live p ps no_worker (ap (λ i. lookup_or no_worker i live) a ∙ absent e) refl
    ∙ ap₂ (λ i c. count_live (insert i (running 1 c) live) ps) a b
    ∙ count_live-more n 0 name command live ps rest h
    ∙ ap (λ m. count_live (insert name (running m command) live) rest) (omega arith)
  where
    absent : lookup name live ≡ none → lookup_or no_worker name live ≡ no_worker
    absent q = unfold lookup_or in ground (arith, q)

-- the map that the loop over the processes of a run leaves
abbrev pub counted : List Job → Dict LiveWorker → Dict LiveWorker
counted [] live = live
counted (j ∷ js) live = counted js (insert j.name (running (j.more + 1) j.command) live)

abbrev pub job_names : List Job → List Text
job_names = map (λ j. j.name)

abbrev AreNew : List Job → Dict LiveWorker → Type 0
AreNew js live = All (λ j. lookup j.name live ≡ none) js

AreNew-insert :
    (js : List Job) (name : Text) (v : LiveWorker) (live : Dict LiveWorker)
    → contains name (job_names js) ≡ false
    → AreNew js live
    → AreNew js (insert name v live)
AreNew-insert [] name v live n h = tt
AreNew-insert (j ∷ js) name v live n (x, h) = (
  ground (arith, lookup-insert j.name name v live),
  AreNew-insert js name v live (ground arith) h,
)

pub count_live-run :
    (js : List Job) (live : Dict LiveWorker) (ps : List WorkerProcessState)
    → IsRun js ps
    → IsUnique (job_names js)
    → AreNew js live
    → count_live live ps ≡ some (counted js live)
count_live-run [] live ps r u a =
    subst (λ qs. count_live live qs ≡ some live) (sym r) (unfold count_live in refl)
count_live-run (j ∷ js) live ps (rest, x, r) (n, u) (y, a) =
    count_live-replicas j.more j.name j.command live ps rest y x
    ∙ count_live-run js (insert j.name (running (j.more + 1) j.command) live) rest r u
        (AreNew-insert js j.name (running (j.more + 1) j.command) live n a)

pub length-counted :
    (js : List Job) (live : Dict LiveWorker)
    → IsUnique (job_names js)
    → AreNew js live
    → length (counted js live) ≡ length live + length js
length-counted [] live u a = omega arith
length-counted (j ∷ js) live (n, u) (y, a) =
    let v = running (j.more + 1) j.command in
    ground (
      arith,
      length-counted js (insert j.name v live) u (AreNew-insert js j.name v live n a),
      length-insert j.name v live y,
    )

lookup-counted_other :
    (js : List Job) (k : Text) (live : Dict LiveWorker)
    → contains k (job_names js) ≡ false
    → lookup k (counted js live) ≡ lookup k live
lookup-counted_other [] k live n = refl
lookup-counted_other (j ∷ js) k live n =
    let v = running (j.more + 1) j.command in
    lookup-counted_other js k (insert j.name v live) (ground arith)
    ∙ ground (arith, lookup-insert k j.name v live)

-- a job that is in the list is counted with its replicas
abbrev pub job_of : Text → List Job → Option Job
job_of k [] = none
job_of k (j ∷ js) = if j.name == k then some j else job_of k js

pub lookup-counted :
    (js : List Job) (k : Text) (j : Job) (live : Dict LiveWorker)
    → IsUnique (job_names js)
    → job_of k js ≡ some j
    → lookup k (counted js live) ≡ some (running (j.more + 1) j.command)
lookup-counted [] k j live u h = cc
lookup-counted (i ∷ js) k j live (n, u) h = elim (Bool-cases (i.name == k)) [
  | inl e ↦
      ap (λ t. lookup t (counted js (insert i.name (running (i.more + 1) i.command) live)))
        (sym (name_of e))
      ∙ lookup-counted_other js i.name (insert i.name (running (i.more + 1) i.command) live) n
      ∙ ground (arith, lookup-insert i.name i.name (running (i.more + 1) i.command) live)
  | inr e ↦
      lookup-counted js k j (insert i.name (running (i.more + 1) i.command) live) u (ground arith)
]
  where
    name_of : (i.name == k) ≡ true → i.name ≡ k
    name_of e = ground arith
