-- ===== src/Tools/Planning/Acyclic.antt =====
-- How the requests that are collected are layered (tools/registry.go).
use polka.Base.{ℕ, Text, Bool, true, false, ◌||◌, List, [], ◌∷◌}
use polka.Base.{◌≡◌, refl, sym, ◌∙◌, arith, inl, inr, All}
use polka.Base.Dict.{Dict, lookup, lookup_or}
use polka.Base.Result.{ok}
use polka.Backend.State.{contains}
use polka.Config.Types.{Environment}
use polka.Tools.Registry.{InstallRequest, Registry}
use polka.Tools.Layers.{is_remaining, any_remaining, layer_requests}
use polka.Tools.Layers.Order.{HasCycle, AllBlocked, layer_requests_cycle}
use polka.Tools.Layers.Progress.{layer_requests_total}
use polka.Tools.Planning.{Collected, nothing_collected, visit_roots, values}
use polka.Tools.Planning.Order.{seen, current, all_in, IsTopological, IsOrdered}
use polka.Tools.Planning.Leaves.{visit_roots-IsOrdered}

-- of ids in topological order, none is stuck
module _ (m : Dict (List Text)) (stuck : List InstallRequest)
    (blocked : (id : Text)
      → is_remaining id stuck ≡ true
      → any_remaining (lookup_or [] id m) stuck ≡ true) where
  none_remaining :
      (ds ks : List Text)
      → all_in ds ks ≡ true
      → ((k : Text) → contains k ks ≡ true → is_remaining k stuck ≡ false)
      → any_remaining ds stuck ≡ false
  none_remaining [] ks a h = refl
  none_remaining (d ∷ ds) ks a h = ground (arith, h d, none_remaining ds ks)

  none_stuck :
      (ks : List Text)
      → IsTopological ks m
      → (k : Text) → contains k ks ≡ true
      → is_remaining k stuck ≡ false
  none_stuck [] t k c = cc
  none_stuck (j ∷ ks) (a, t) k c = ground (
    arith,
    none_stuck ks t k,
    blocked j,
    none_remaining (lookup_or [] j m) ks a (none_stuck ks t),
  )

AllBlocked-remaining :
    (m : Dict (List Text)) (stuck rs : List InstallRequest) (id : Text)
    → AllBlocked m stuck rs
    → is_remaining id rs ≡ true
    → any_remaining (lookup_or [] id m) stuck ≡ true
AllBlocked-remaining m stuck [] id b h = cc
AllBlocked-remaining m stuck (q ∷ rs) id (x, b) h =
    ground (arith, AllBlocked-remaining m stuck rs id b)

module _ (s : Collected) (o : IsOrdered s) (idle : (k : Text) → current k s ≡ false) where
  -- what is requested has been visited
  pub requested-seen :
      (m : Dict InstallRequest) (id : Text)
      → All (λ (k, q). (q.tool ≡ k) × ((seen k s || current k s) ≡ true)) m
      → is_remaining id (values m) ≡ true
      → seen id s ≡ true
  unfolding values
  requested-seen [] id a h = cc
  requested-seen ((k, q) ∷ m) id ((x, y), a) h = ground (arith, requested-seen m id a, idle k)

  collected_acyclic : HasCycle s.dependencies (values s.requests) → ⊥
  collected_acyclic ([], n, sub, b) = n refl
  collected_acyclic (q ∷ qs, n, sub, b) =
      let remains : is_remaining q.tool (q ∷ qs) ≡ true = ground arith in
      let visited = requested-seen s.requests q.tool o.known (sub q.tool remains) in
      let free =
        none_stuck s.dependencies (q ∷ qs)
          (λ id h. AllBlocked-remaining s.dependencies (q ∷ qs) (q ∷ qs) id b h) o.done
          o.topological q.tool (o.done_iff q.tool ∙ visited) in
      true-ne-false (sym remains ∙ free)
    where
      true-ne-false : ◌≡◌ {A = Bool} true false → ⊥
      true-ne-false h = cc

pub nothing-IsOrdered : IsOrdered nothing_collected
unfolding lookup_or lookup
nothing-IsOrdered = record {
  done = [];
  done_iff = λ k. refl;
  topological = tt;
  untouched = λ k a b. refl;
  known = tt;
  present = λ k h. cc;
}

pub nothing-idle : (k : Text) → current k nothing_collected ≡ false
unfolding lookup_or lookup
nothing-idle k = refl

-- whatever has been collected, the layering finds no cycle
pub collected_layered :
    (r : Registry) (e : Environment) (f : ℕ) (roots : List InstallRequest) (s : Collected)
    → visit_roots r e f roots nothing_collected ≡ ok s
    → (layers : List (List InstallRequest)) × (layer_requests s.order s.dependencies
          (values s.requests)
        ≡ ok layers)
collected_layered r e f roots s h =
    let (o, x) = visit_roots-IsOrdered r e f roots nothing_collected s h nothing-IsOrdered in
    elim (layer_requests_total s.order s.dependencies (values s.requests)) [
      | inl done ↦ done
      | inr c ↦ absurd (
          collected_acyclic s o (λ k. x.same k ∙ nothing-idle k)
            (layer_requests_cycle s.dependencies s.order (values s.requests) c))
    ]
