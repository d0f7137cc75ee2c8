-- ===== src/Service/Workers/Starts.antt =====
-- The processes that the loops of `EnsureManagedWorkersStarted` add (service/workers.go).
use polka.Service.Processes.{WorkerProcessState, WorkerSpec, WorkerStartResult, Hooks, Context}
use polka.Base.{ℕ, zero, suc, ◌+◌, ◌-◌, Option, none, some}
use polka.Base.{List, [], ◌∷◌, ◌++◌, ◌≡◌, ◌≢◌, refl, ap, sym, subst, ◌∙◌, arith, All}
use mathlib.Core.List.{append-nil, append_assoc}
use polka.Service.Workers.{start_replicas, start_specs, add_started, started_process}
use polka.Service.Workers.Covered.{Job, IsReplicas, IsRun}
use polka.Service.Workers.Jobs.{}

abbrev pub job : WorkerSpec → Job
job spec = record { name = spec.name; command = spec.command; more = spec.replicas - 1 }

abbrev pub jobs : List WorkerSpec → List Job
jobs [] = []
jobs (spec ∷ specs) = job spec ∷ jobs specs

-- each spec has a replica
abbrev pub HaveReplicas : List WorkerSpec → Type 0
HaveReplicas = All (λ spec. spec.replicas - 1 + 1 ≡ spec.replicas)

module _ {O : Type 0} (hooks : Hooks O) (ctx : Context)
    (starts : (spec : WorkerSpec) (n : ℕ) (o : O) → (hooks.start_worker spec n o).0 ≢ none) where
  -- the replicas that a loop adds to those started before
  start_replicas-IsReplicas :
      (spec : WorkerSpec) (left replica : ℕ) (started : List WorkerProcessState) (o : O)
      → (ps : List WorkerProcessState) × ((start_replicas hooks ctx spec left replica
            (started, o)).0
          ≡ started ++ ps)
        × ((rest : List WorkerProcessState)
            → IsReplicas left spec.name spec.command (ps ++ rest) rest)
  unfolding start_replicas
  start_replicas-IsReplicas spec zero replica started o =
      ([], sym (append-nil started), (λ rest. refl))
  start_replicas-IsReplicas spec (suc left) replica started o =
      go (start_replicas-IsReplicas spec left (replica + 1)) (hooks.start_worker spec replica o)
        (starts spec replica o)
    where
      go :
          ((started : List WorkerProcessState) (o : O)
            → (ps : List WorkerProcessState) × ((start_replicas hooks ctx spec left
                  (replica + 1)
                  (started, o)).0
                ≡ started ++ ps)
              × ((rest : List WorkerProcessState)
                  → IsReplicas left spec.name spec.command (ps ++ rest) rest))
          → (s : Option WorkerStartResult × O) → s.0 ≢ none
          → (ps : List WorkerProcessState) × ((start_replicas hooks ctx spec left
                (replica + 1)
                (add_started hooks ctx spec replica started s)).0
              ≡ started ++ ps)
            × ((rest : List WorkerProcessState)
                → IsReplicas (suc left) spec.name spec.command (ps ++ rest) rest)
      go again (none, o') n = absurd (n refl)
      go again (some result, o') n =
          let p = started_process hooks ctx spec replica o' result in
          let (ps, a, b) = again (started ++ p ∷ []) o' in
          (p ∷ ps, a ∙ append_assoc started (p ∷ []) ps, (λ rest. (refl, refl, b rest)))

  enough : (n : ℕ) → n - 1 + 1 ≡ n → n ≡ suc (n - 1)
  enough n h = omega (arith, h)

  pub start_specs-IsRun :
      (specs : List WorkerSpec) (s : List WorkerProcessState × O)
      → HaveReplicas specs
      → (ps : List WorkerProcessState) × ((start_specs hooks ctx specs s).0 ≡ s.0 ++ ps)
        × IsRun (jobs specs) ps
  unfolding start_specs
  start_specs-IsRun [] s h = ([], sym (append-nil s.0), refl)
  start_specs-IsRun (spec ∷ specs) s (x, h) =
      let (ps, a, b) = start_replicas-IsReplicas spec spec.replicas 1 s.0 s.1 in
      let (qs, c, d) =
        start_specs-IsRun specs (start_replicas hooks ctx spec spec.replicas 1 s) h in
      (
        ps ++ qs,
        c ∙ ap (λ ts. ts ++ qs) a ∙ append_assoc s.0 ps qs,
        (
          qs,
          subst (λ n. IsReplicas n spec.name spec.command (ps ++ qs) qs) (enough spec.replicas x)
              (b qs),
          d,
        ),
      )
