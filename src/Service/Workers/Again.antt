-- ===== src/Service/Workers/Again.antt =====
-- Starting workers that all run already (service/workers.go).
use polka.Service.Processes.{
  WorkerProcessState, WorkersRuntimeState, WorkerSpec, Hooks, Context, World, no_environment,
  ServiceError, remove_failed, nothing_running, workers_state_matches_environment, write_failed,
  Target,
}
use polka.Base.{ℕ, ◌+◌, ◌-◌, Text, Bool, true, false, Option, none, some}
use polka.Base.{List, [], ◌∷◌, if◌then◌else◌, ◌≡◌, ◌≢◌, refl, ap, ap₂, sym, subst, ◌∙◌, All}
use mathlib.Core.List.{cons-ne-nil}
use polka.Base.Dict.{Dict, lookup, NodupKeys}
use polka.Base.Result.{Result, ok, err, ok_injective, ok_not_err}
use polka.Config.Types.{WorkerConfig}
use polka.Config.Workers.Names.{sorted_worker_names}
use polka.Config.Workers.Command.{SplitError, split_worker_command}
use polka.Service.Workers.{
  start_specs, spec_of, specs_of, start_fresh, start_built, specs_from, live_processes, load_from,
  pruned, Started, state_of, restart, reconcile, start_if_any, load_live_workers_state,
  ensure_managed_workers_started, write_state, stop_worker_processes, spec_for, spec_split,
  spec_resolved, cons_some, build_worker_specs,
}
use polka.Service.Workers.Covered.{IsRun}
use polka.Backend.State.{contains}
use polka.Config.Workers.Names.{keys, sort_texts}
use polka.Service.Workers.Jobs.{
  sorted_names-All, jobs-ne-nil, contains-keys, jobs_of, job_with, matches_workers-run,
  effective_worker_replicas_lem,
}
use polka.Service.Workers.Starts.{job, jobs, HaveReplicas, start_specs-IsRun}

clash : ◌≡◌ {A = Bool} false true → ⊥
clash h = cc

module _ {O : Type 0} (hooks : Hooks O) (ctx : Context)
    (starts : (spec : WorkerSpec) (n : ℕ) (o : O) → (hooks.start_worker spec n o).0 ≢ none)
    (splits : (name : Text) (worker : WorkerConfig)
      → lookup name ctx.environment.workers ≡ some worker
      → (argv : List Text) × (split_worker_command worker.command ≡ ok argv))
    (resolves : (argv env : List Text) → hooks.resolve_target argv env ≢ none) where
  -- a worker that is there has its spec
  spec_of-job :
      (base : List Text) (name : Text)
      → lookup name ctx.environment.workers ≢ none
      → (spec : WorkerSpec) × (spec_of hooks ctx base name (lookup name ctx.environment.workers)
          ≡ some spec)
        × (job spec ≡ job_with name (lookup name ctx.environment.workers))
        × (spec.replicas - 1 + 1 ≡ spec.replicas)
  spec_of-job base name n = go (lookup name ctx.environment.workers) refl n
    where
      resolved :
          (worker : WorkerConfig) (o : Option Target)
          → o ≢ none
          → (spec : WorkerSpec) × (spec_resolved hooks ctx name worker o ≡ some spec)
            × (job spec ≡ job_with name (some worker))
            × (spec.replicas - 1 + 1 ≡ spec.replicas)
      resolved worker none n = absurd (n refl)
      resolved worker (some t) n =
          (spec_for hooks ctx name worker t, refl, refl, effective_worker_replicas_lem worker)

      split :
          (worker : WorkerConfig) (o : Result SplitError (List Text))
          → (argv : List Text) × (o ≡ ok argv)
          → (spec : WorkerSpec) × (spec_split hooks ctx base name worker o ≡ some spec)
            × (job spec ≡ job_with name (some worker))
            × (spec.replicas - 1 + 1 ≡ spec.replicas)
      split worker (err reason) (argv, e) = cc
      split worker (ok words) (argv, e) =
          resolved worker (hooks.resolve_target words _) (resolves words _)

      go :
          (o : Option WorkerConfig)
          → lookup name ctx.environment.workers ≡ o
          → o ≢ none
          → (spec : WorkerSpec) × (spec_of hooks ctx base name o ≡ some spec)
            × (job spec ≡ job_with name o)
            × (spec.replicas - 1 + 1 ≡ spec.replicas)
      go none e n = absurd (n refl)
      go (some worker) e n =
          split worker (split_worker_command worker.command) (splits name worker e)

  specs_of-jobs :
      (base ns : List Text)
      → All (λ n. lookup n ctx.environment.workers ≢ none) ns
      → (jobs (specs_of hooks ctx base ns) ≡ jobs_of ctx.environment.workers ns)
        × HaveReplicas (specs_of hooks ctx base ns)
  unfolding specs_of
  specs_of-jobs base [] h = (refl, tt)
  specs_of-jobs base (name ∷ ns) (x, h) =
      let (spec, a, b, c) = spec_of-job base name x in
      let (d, g) = specs_of-jobs base ns h in
      subst
        (λ o.
          (jobs (cons_some hooks ctx o (specs_of hooks ctx base ns))
            ≡ jobs_of ctx.environment.workers (name ∷ ns))
          × HaveReplicas (cons_some hooks ctx o (specs_of hooks ctx base ns)))
        (sym a) (ap₂ ◌∷◌ b d, (c, g))

  abbrev configured : Dict WorkerConfig
  configured = ctx.environment.workers

  -- what a start that writes a state leaves
  abbrev Fresh : WorkersRuntimeState → World O → Type 0
  Fresh s w =
      (p : WorkerProcessState) × (ps : List WorkerProcessState) × (s ≡ state_of hooks ctx (p ∷ ps))
      × (w.state_file ≡ some s)
      × IsRun (jobs_of configured (sorted_worker_names configured)) (p ∷ ps)

  write_state-Fresh :
      (w : World O) (started : List WorkerProcessState × O) (s : WorkersRuntimeState) (u : World O)
      → started.0 ≢ []
      → IsRun (jobs_of configured (sorted_worker_names configured)) started.0
      → write_state hooks ctx w started ≡ (ok (s, false), u)
      → Fresh s u
  write_state-Fresh w ([], o) s u n r h = absurd (n refl)
  write_state-Fresh w (p ∷ ps, o) s u n r h = go (hooks.can_write o) h
    where
      written : Bool → Started hooks ctx
      written b =
          if b
          then (
            ok (state_of hooks ctx (p ∷ ps), false),
            record { os = o; state_file = some (state_of hooks ctx (p ∷ ps)) },
          )
          else (err write_failed, record w { os = stop_worker_processes hooks ctx (p ∷ ps) o })

      go : (b : Bool) → written b ≡ (ok (s, false), u) → Fresh s u
      go true h =
          let same = sym (
            ap (λ (x : WorkersRuntimeState × Bool). x.0)
              (ok_injective (ap (λ (x : Started hooks ctx). x.0) h))) in
          (
            p,
            ps,
            same,
            ap (λ (x : Started hooks ctx). x.1.state_file) (sym h) ∙ ap some (sym same),
            r,
          )
      go false h =
          absurd (ok_not_err (s, false) write_failed (sym (ap (λ (x : Started hooks ctx). x.0) h)))

  start_fresh-Fresh :
      (w : World O) (s : WorkersRuntimeState) (u : World O)
      → configured ≢ []
      → start_fresh hooks ctx w ≡ (ok (s, false), u)
      → Fresh s u
  unfolding build_worker_specs
  start_fresh-Fresh w s u n h = go (hooks.build_env w.os) h
    where
      present : (k : Text) → contains k (keys configured) ≡ true → lookup k configured ≢ none
      present k c e = clash (sym (contains-keys k configured e) ∙ c)

      go :
          (o : Option (List Text))
          → start_built hooks ctx w (specs_from hooks ctx o) ≡ (ok (s, false), u)
          → Fresh s u
      go none h =
          absurd
            (ok_not_err (s, false) no_environment (sym (ap (λ (x : Started hooks ctx). x.0) h)))
      go (some base) h =
          let specs = specs_of hooks ctx base (sorted_worker_names configured) in
          let (same, have) =
            specs_of-jobs base (sorted_worker_names configured)
              (sorted_names-All (λ k. lookup k configured ≢ none) configured present) in
          let (ps, a, b) = start_specs-IsRun hooks ctx starts specs ([], w.os) have in
          let run = subst (λ js. IsRun js ps) same b in
          write_state-Fresh w (start_specs hooks ctx specs ([], w.os)) s u
            (subst (λ qs. qs ≢ []) (sym a) (jobs-ne-nil configured ps n run))
            (subst (IsRun (jobs_of configured (sorted_worker_names configured))) (sym a) run) h

  -- a start that is not reported as one that was there already has started afresh
  ensure-Fresh :
      (w : World O) (s : WorkersRuntimeState) (u : World O)
      → ensure_managed_workers_started hooks ctx w ≡ (ok (s, false), u)
      → Fresh s u
  unfolding ensure_managed_workers_started
  ensure-Fresh w s u h = begun configured refl h
    where
      not_already :
          (t : WorkersRuntimeState) (v : World O)
          → Path (Started hooks ctx) (ok (t, true), v) (ok (s, false), u)
          → ⊥
      not_already t v g = clash (
          sym (
            ap (λ (x : WorkersRuntimeState × Bool). x.1)
              (ok_injective (ap (λ (x : Started hooks ctx). x.0) g))))

      restarted :
          (v : World O) (n : configured ≢ []) (b : Bool)
          → Path
              (Started hooks ctx)
              (if b
                then start_fresh hooks ctx (record v { state_file = none })
                else (err remove_failed, v))
              (ok (s, false), u)
          → Fresh s u
      restarted v n true g = start_fresh-Fresh (record v { state_file = none }) s u n g
      restarted v n false g =
          absurd (ok_not_err (s, false) remove_failed (sym (ap (λ (x : Started hooks ctx). x.0) g)))

      matched :
          (t : WorkersRuntimeState) (v : World O) (n : configured ≢ []) (b : Bool)
          → Path
              (Started hooks ctx)
              (if b then (ok (t, true), v) else restart hooks ctx t v)
              (ok (s, false), u)
          → Fresh s u
      matched t v n true g = absurd (not_already t v g)
      matched t v n false g =
          let stopped = record v { os = stop_worker_processes hooks ctx t.processes v.os } in
          restarted stopped n (hooks.can_remove stopped.os) g

      reconciled :
          (n : configured ≢ []) (l : Result ServiceError (Option WorkersRuntimeState) × World O)
          → reconcile hooks ctx l ≡ (ok (s, false), u)
          → Fresh s u
      reconciled n (err reason, v) g =
          absurd (ok_not_err (s, false) reason (sym (ap (λ (x : Started hooks ctx). x.0) g)))
      reconciled n (ok none, v) g = start_fresh-Fresh v s u n g
      reconciled n (ok (some t), v) g =
          matched t v n (workers_state_matches_environment t ctx.environment) g

      begun :
          (workers : Dict WorkerConfig)
          → configured ≡ workers
          → start_if_any hooks ctx workers w ≡ (ok (s, false), u)
          → Fresh s u
      begun [] e g = absurd (not_already nothing_running w g)
      begun (worker ∷ workers) e g =
          reconciled (λ q. cons-ne-nil worker workers (sym e ∙ q))
            (load_live_workers_state hooks ctx w) g

  live_processes-all :
      (o : O) (ps : List WorkerProcessState)
      → All (λ p. hooks.pid_is_live p.pid o ≡ true) ps
      → live_processes hooks ctx o ps ≡ ps
  unfolding live_processes
  live_processes-all o [] h = refl
  live_processes-all o (p ∷ ps) (x, h) = rw x (ap (λ qs. p ∷ qs) (live_processes-all o ps h))

  -- the state file of processes that all run is loaded as it is
  load_live_workers_state-all :
      (u : World O) (p : WorkerProcessState) (ps : List WorkerProcessState)
      → u.state_file ≡ some (state_of hooks ctx (p ∷ ps))
      → hooks.can_read u.os ≡ true
      → All (λ p. hooks.pid_is_live p.pid u.os ≡ true) (p ∷ ps)
      → load_live_workers_state hooks ctx u ≡ (ok (some (state_of hooks ctx (p ∷ ps))), u)
  unfolding load_live_workers_state
  load_live_workers_state-all u p ps f c a =
      ap (load_from hooks ctx u) f
      ∙ rw c (
          ap (pruned hooks ctx u (state_of hooks ctx (p ∷ ps)))
            (live_processes-all u.os (p ∷ ps) a))

  again :
      (u : World O) (p : WorkerProcessState) (ps : List WorkerProcessState)
      → NodupKeys configured
      → IsRun (jobs_of configured (sorted_worker_names configured)) (p ∷ ps)
      → load_live_workers_state hooks ctx u ≡ (ok (some (state_of hooks ctx (p ∷ ps))), u)
      → ensure_managed_workers_started hooks ctx u ≡ (ok (state_of hooks ctx (p ∷ ps), true), u)
  unfolding ensure_managed_workers_started workers_state_matches_environment
  again u p ps d r l = begun configured refl
    where
      no_run : IsRun (jobs_of [] (sorted_worker_names {V = WorkerConfig} [])) (p ∷ ps) → ⊥
      no_run q = unfold sorted_worker_names sort_texts in cons-ne-nil p ps q

      matching :
          workers_state_matches_environment (state_of hooks ctx (p ∷ ps)) ctx.environment ≡ true
      matching = matches_workers-run configured (p ∷ ps) d r

      begun :
          (workers : Dict WorkerConfig)
          → configured ≡ workers
          → start_if_any hooks ctx workers u ≡ (ok (state_of hooks ctx (p ∷ ps), true), u)
      begun [] e =
          absurd (no_run (subst (λ ws. IsRun (jobs_of ws (sorted_worker_names ws)) (p ∷ ps)) e r))
      begun (worker ∷ workers) e = ap (reconcile hooks ctx) l ∙ rw matching refl

  -- Where every worker has a command that can be split and resolved and no start of a process fails:
  -- after a start that is not reported as one of workers that run already, if all its processes still
  -- run and the state file can be read, the next start reports that they run already, and changes
  -- nothing.
  pub ensure_managed_workers_started_idem :
      (w : World O) (s : WorkersRuntimeState) (u : World O)
      → NodupKeys ctx.environment.workers
      → ensure_managed_workers_started hooks ctx w ≡ (ok (s, false), u)
      → All (λ p. hooks.pid_is_live p.pid u.os ≡ true) s.processes
      → hooks.can_read u.os ≡ true
      → ensure_managed_workers_started hooks ctx u ≡ (ok (s, true), u)
  ensure_managed_workers_started_idem w s u d h a c =
      let (p, ps, same, file, run) = ensure-Fresh w s u h in
      let live =
        subst
          (λ (t : WorkersRuntimeState). All (λ q. hooks.pid_is_live q.pid u.os ≡ true) t.processes)
          same a in
      subst (λ t. ensure_managed_workers_started hooks ctx u ≡ (ok (t, true), u)) (sym same)
        (again u p ps d run (load_live_workers_state-all u p ps (file ∙ ap some same) c live))
