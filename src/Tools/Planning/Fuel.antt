-- ===== src/Tools/Planning/Fuel.antt =====
-- How deep `visit` calls itself (tools/registry.go).
use polka.Base.{ℕ, zero, suc, ◌+◌, ◌≤◌, ◌<◌, Text, norm, trim, null, true, false, ◌||◌}
use polka.Base.{
  Option, none, some, List, [], ◌∷◌, length, if◌then◌else◌, ◌≡◌, ◌≢◌, refl, ap, sym, ◌∙◌, subst,
}
use polka.Base.{arith, ◌⊎◌, inl, inr, Bool-cases}
use polka.Base.Strings.Laws.{norm-norm}
use polka.Base.Dict.{Dict, lookup}
use polka.Base.Result.{Result, ok, err, ◌>>=◌}
use polka.Config.Types.{Environment}
use polka.Tools.Registry.{InstallRequest, ToolPlugin, Registry, plugin}
use polka.Tools.Planning.{Collected, CollectError, out_of_fuel, note_request, add_dependency, begin}
use polka.Tools.Planning.{
  visit_each, visit_dependencies, visit_plugin, visit, visit_roots, conflicts,
}
use polka.Tools.Planning.{conflicting_versions}
use polka.Tools.Planning.{nothing_collected, not_collected}
use polka.Tools.Planning.{install_request_layers, layers_of, roots_or}
use polka.Tools.Planning.Acyclic.{collected_layered, nothing-IsOrdered}
use polka.Tools.Planning.Order.{
  seen, current, deps, all_seen, IsOrdered, IsOrdered-add_dependency, current-begin,
  IsOrdered-begin,
}
use polka.Tools.Planning.Visit.{taken, not_taken}
use polka.Tools.Planning.Leaves.{Leaves, all_seen-step, visit-Leaves}

-- how many registered plugins are not being visited
abbrev pub idle : Dict ToolPlugin → Collected → ℕ
idle [] s = 0
idle ((k, p) ∷ m) s = (if current k s then 0 else 1) + idle m s

idle-same :
    (m : Dict ToolPlugin) (s u : Collected)
    → ((k : Text) → current k u ≡ current k s)
    → idle m u ≡ idle m s
idle-same [] s u h = refl
idle-same ((k, p) ∷ m) s u h = ground (arith, h k, idle-same m s u h)

idle-begin-le :
    (m : Dict ToolPlugin) (id : Text) (q : InstallRequest) (s : Collected)
    → idle m (begin id (note_request id q s)) ≤ idle m s
idle-begin-le [] id q s = omega arith
idle-begin-le ((k, p) ∷ m) id q s = ground (arith, idle-begin-le m id q s, current-begin id q s k)

-- beginning with a registered plugin leaves one fewer
idle-begin-lt :
    (m : Dict ToolPlugin) (id : Text) (q : InstallRequest) (s : Collected) (p : ToolPlugin)
    → lookup id m ≡ some p
    → current id s ≡ false
    → idle m (begin id (note_request id q s)) < idle m s
unfolding lookup
idle-begin-lt [] id q s p h c = cc
idle-begin-lt ((k, v) ∷ m) id q s p h c =
    ground (arith, idle-begin-lt m id q s p, idle-begin-le m id q s, current-begin id q s k)

length-idle : (m : Dict ToolPlugin) (s : Collected) → idle m s ≤ length m
length-idle [] s = omega arith
length-idle ((k, p) ∷ m) s = ground (arith, length-idle m s)

-- where a bind fails
bind_fails {ℓ κ μ} :
    {E : Type ℓ} {A : Type κ} {B : Type μ} (m : Result E A) (f : A → Result E B) (x : E)
    → (m >>= f) ≡ err x
    → (m ≡ err x) ⊎ ((a : A) × (m ≡ ok a) × (f a ≡ err x))
bind_fails (err y) f x h = inl (ground arith)
bind_fails (ok a) f x h = inr (a, refl, h)

-- with fuel for every registered plugin that is not being visited, it does not run out
module _ (r : Registry) (e : Environment) (n : ℕ)
    (visit_one : InstallRequest → Collected → Result CollectError Collected)
    (spec : (q : InstallRequest) (s u : Collected)
      → visit_one q s ≡ ok u
      → IsOrdered s
      → Leaves q s u)
    (enough : (q : InstallRequest) (s : Collected)
      → IsOrdered s
      → idle r.by_id s ≤ n
      → visit_one q s ≢ err out_of_fuel) where
  visit_each_enough :
      (id : Text) (ds : List InstallRequest) (s : Collected)
      → current id s ≡ true
      → seen id s ≡ false
      → all_seen (deps id s) s ≡ true
      → IsOrdered s
      → idle r.by_id s ≤ n
      → visit_each visit_one id ds s ≢ err out_of_fuel
  unfolding visit_each
  visit_each_enough id [] s c m a o b h = cc
  visit_each_enough id (d ∷ ds) s c m a o b h =
      let s1 = add_dependency id (norm d.tool) s in
      let o1 = IsOrdered-add_dependency s id (norm d.tool) c m o in
      elim (bind_fails (visit_one d s1) (visit_each visit_one id ds) out_of_fuel h) [
        | inl x ↦ enough d s1 o1 (subst (λ k. k ≤ n) (sym (idle-same r.by_id s s1 (λ k. refl))) b) x
        | inr (t, p, q) ↦
            let (ot, x, y) = spec d s1 t p o1 in
            visit_each_enough id ds t (x.same id ∙ c) (x.waits id c ∙ m)
              (all_seen-step visit_one spec id (norm d.tool) s t c a x y) ot
              (subst (λ k. k ≤ n) (sym (idle-same r.by_id s t x.same)) b) q
      ]

-- the fuel can only run out in the loop over a plugin's dependencies
abbrev RunsOut : Registry → Environment → ℕ → InstallRequest → Collected → Type 0
RunsOut r e f q s =
    let id = norm q.tool in
    (current id s ≡ false)
    × (seen id s ≡ false)
    × ((p : ToolPlugin) × (ds : List InstallRequest) × (plugin r id ≡ some p)
        × (visit_each (visit r e f) id ds (begin id (note_request id q s)) ≡ err out_of_fuel))

module _ (r : Registry) (e : Environment) (f : ℕ) (q : InstallRequest) (s : Collected) where
  abbrev id : Text
  id = norm q.tool

  abbrev next : Collected
  next = note_request id q s

  dependencies_RunsOut :
      (o : Result Text (List InstallRequest))
      → visit_dependencies r e (visit r e f) id o next ≡ err out_of_fuel
      → (ds : List InstallRequest) × (visit_each (visit r e f) id ds (begin id next)
          ≡ err out_of_fuel)
  dependencies_RunsOut (err x) h = cc
  dependencies_RunsOut (ok ds) h =
      elim (bind_fails (visit_each (visit r e f) id ds (begin id next)) _ out_of_fuel h) [
        | inl x ↦ (ds, x)
        | inr (t, a, b) ↦ cc
      ]

  plugin_RunsOut :
      (p : Option ToolPlugin)
      → visit_plugin r e (visit r e f) id p next ≡ err out_of_fuel
      → (v : ToolPlugin) × (ds : List InstallRequest) × (p ≡ some v)
        × (visit_each (visit r e f) id ds (begin id next) ≡ err out_of_fuel)
  plugin_RunsOut none h = cc
  plugin_RunsOut (some v) h =
      let (ds, x) = dependencies_RunsOut (v.dependencies e) h in (v, ds, refl, x)

  visit-RunsOut : visit r e (suc f) q s ≡ err out_of_fuel → RunsOut r e f q s
  unfolding visit
  visit-RunsOut h = elim (Bool-cases (null id || null (trim q.version))) [
    | inl b ↦ let x = taken (null id || null (trim q.version)) _ _ _ b h in cc
    | inr b ↦
        let x = not_taken (null id || null (trim q.version)) _ _ _ b h in
        elim (Bool-cases (current id s)) [
          | inl c ↦ let y = taken (current id s) _ _ _ c x in cc
          | inr c ↦
              no_conflict c (conflicts q (lookup id s.requests))
                (not_taken (current id s) _ _ _ c x)
        ]
  ]
    where
      no_conflict :
          current id s ≡ false
          → (o : Option Text)
          → elim o [
            | some version ↦ err (conflicting_versions id version q.version)
            | none ↦
                if seen id s then ok next else visit_plugin r e (visit r e f) id (plugin r id) next
          ]
            ≡ err out_of_fuel
          → RunsOut r e f q s
      no_conflict c (some v) h = cc
      no_conflict c none h = elim (Bool-cases (seen id s)) [
        | inl b ↦ let x = taken (seen id s) _ _ _ b h in cc
        | inr b ↦ (c, b, plugin_RunsOut (plugin r id) (not_taken (seen id s) _ _ _ b h))
      ]

module _ (r : Registry) (e : Environment) where
  visit_enough :
      (f : ℕ) (q : InstallRequest) (s : Collected)
      → IsOrdered s
      → idle r.by_id s < f
      → visit r e f q s ≢ err out_of_fuel
  unfolding plugin
  visit_enough zero q s o b h = absurd (omega arith)
  visit_enough (suc f) q s o b h =
      let id = norm q.tool in
      let next = begin id (note_request id q s) in
      let (c, m, (p, ds, found, x)) = visit-RunsOut r e f q s h in
      let found' : lookup id r.by_id ≡ some p =
        subst (λ t. lookup t r.by_id ≡ some p) (norm-norm q.tool) found in
      let fewer = idle-begin-lt r.by_id id q s p found' c in
      visit_each_enough r e (idle r.by_id next) (visit r e f) (visit-Leaves r e f)
        (λ q' s' o' b'. visit_enough f q' s' o' (omega arith)) id ds next
        (ground (arith, current-begin id q s id)) m
        (ap (λ ds. all_seen ds next) (o.untouched id m c)) (IsOrdered-begin id q s o) (omega arith)
        x

  visit_roots_enough :
      (f : ℕ) (roots : List InstallRequest) (s : Collected)
      → IsOrdered s
      → length r.by_id < f
      → visit_roots r e f roots s ≢ err out_of_fuel
  unfolding visit_roots
  visit_roots_enough f [] s o b h = cc
  visit_roots_enough f (q ∷ qs) s o b h =
      elim (bind_fails (visit r e f q s) (visit_roots r e f qs) out_of_fuel h) [
        | inl x ↦ visit_enough f q s o (omega (arith, length-idle r.by_id s)) x
        | inr (t, p, x) ↦ visit_roots_enough f qs t (visit-Leaves r e f q s t p o).0 b x
      ]

-- For any roots, or those of the environment, the plan is either a list of layers or an error of the
-- search that collects the dependencies, which ends: the layering finds no cycle.
pub install_request_layers_total :
    (r : Registry) (e : Environment) (roots : Option (List InstallRequest))
    → ((layers : List (List InstallRequest)) × (install_request_layers r e roots ≡ ok layers))
      ⊎ ((reason : CollectError) × (reason ≢ out_of_fuel)
          × (install_request_layers r e roots ≡ err (not_collected reason)))
unfolding install_request_layers
install_request_layers_total r e roots =
    go (visit_roots r e (length r.by_id + 2) (roots_or r e roots) nothing_collected) refl
  where
    go :
        (o : Result CollectError Collected)
        → visit_roots r e (length r.by_id + 2) (roots_or r e roots) nothing_collected ≡ o
        → ((layers : List (List InstallRequest)) × (layers_of o ≡ ok layers))
          ⊎ ((reason : CollectError) × (reason ≢ out_of_fuel)
              × (layers_of o ≡ err (not_collected reason)))
    go (err reason) h = inr (
      reason,
      (λ x.
          visit_roots_enough r e (length r.by_id + 2) (roots_or r e roots) nothing_collected
            nothing-IsOrdered (omega arith) (h ∙ ap err x)),
      refl,
    )
    go (ok s) h =
        let (layers, p) = collected_layered r e (length r.by_id + 2) (roots_or r e roots) s h in
        inl (layers, rw (layers_of, p) refl)
