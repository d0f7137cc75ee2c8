-- ===== src/Tools/Planning.antt =====
-- The install plan of an environment (tools/registry.go): `InstallRequests`, and
-- `InstallRequestLayers` with the depth-first search `visit` that collects what the requested tools
-- depend on.
pub mod Order
pub mod Visit
pub mod Leaves
pub mod Acyclic
pub mod Declared
pub mod Fuel
pub mod Pinned
pub mod Members
pub mod Sound
use polka.Base.{ℕ, zero, suc, ◌+◌, Text, ◌==◌, norm, trim, null, Bool, true, false, not, ◌&&◌, ◌||◌}
use polka.Base.{Option, none, some, List, [], ◌∷◌, ◌++◌, length, if◌then◌else◌}
use polka.Base.Dict.{Dict, lookup, insert, lookup_or}
use polka.Base.Result.{Result, ok, err, ◌>>=◌}
use polka.Config.Types.{Environment}
use polka.Tools.Registry.{InstallRequest, ToolPlugin, Registry, plugin}
use polka.Tools.Layers.{LayerError, layer_requests}

-- the variables of `InstallRequestLayers` that `visit` writes
pub record Collected : Type 0 where
  pub requests : Dict InstallRequest
  pub order : Dict ℕ
  pub next_order : ℕ
  pub dependencies : Dict (List Text)
  pub visiting : Dict Bool
  pub visited : Dict Bool

pub data CollectError : Type 0 where
  incomplete_request out_of_fuel : CollectError
  cycle_includes unsupported_dependency : Text → CollectError
  conflicting_versions : Text → Text → Text → CollectError
  dependencies_failed : Text → CollectError

-- `previous.Version != request.Version`
abbrev pub conflicts : InstallRequest → Option InstallRequest → Option Text
conflicts request none = none
conflicts request (some previous) =
    if previous.version == request.version then none else some previous.version

-- `order` and `nextOrder` once an id has its place
abbrev pub order_after : Text → Option ℕ → Collected → Dict ℕ
order_after id none s = insert id s.next_order s.order
order_after id (some n) s = s.order

abbrev pub next_order_after : Option ℕ → Collected → ℕ
next_order_after none s = s.next_order + 1
next_order_after (some n) s = s.next_order

-- a request under its id
abbrev pub named : Text → InstallRequest → InstallRequest
named id request = record { tool = id; version = trim request.version }

-- the request and its place in the order are recorded
abbrev pub note_request : Text → InstallRequest → Collected → Collected
note_request id request s = record s {
  requests = insert id (named id request) s.requests;
  order = order_after id (lookup id s.order) s;
  next_order = next_order_after (lookup id s.order) s;
}

abbrev pub add_dependency : Text → Text → Collected → Collected
add_dependency id d s = record s {
  dependencies = insert id (lookup_or [] id s.dependencies ++ d ∷ []) s.dependencies;
}

abbrev pub begin : Text → Collected → Collected
begin id s = record s { visiting = insert id true s.visiting }

abbrev pub finish : Text → Collected → Collected
finish id s = record s { visiting = insert id false s.visiting; visited = insert id true s.visited }

-- the loop over the dependencies of a plugin
unfoldable pub visit_each :
    (InstallRequest → Collected → Result CollectError Collected)
    → Text
    → List InstallRequest
    → Collected
    → Result CollectError Collected
visit_each visit id [] s = ok s
visit_each visit id (d ∷ ds) s = do
  t ← visit d (add_dependency id (norm d.tool) s)
  visit_each visit id ds t

module _ (r : Registry) (e : Environment) where
  -- what follows the tests for a plugin and its dependencies
  abbrev pub visit_dependencies :
      (InstallRequest → Collected → Result CollectError Collected)
      → Text
      → Result Text (List InstallRequest)
      → Collected
      → Result CollectError Collected
  visit_dependencies visit id (err reason) s = err (dependencies_failed reason)
  visit_dependencies visit id (ok ds) s = do
    t ← visit_each visit id ds (begin id s)
    ok (finish id t)

  abbrev pub visit_plugin :
      (InstallRequest → Collected → Result CollectError Collected)
      → Text
      → Option ToolPlugin
      → Collected
      → Result CollectError Collected
  visit_plugin visit id none s = err (unsupported_dependency id)
  visit_plugin visit id (some p) s = visit_dependencies visit id (p.dependencies e) s

  -- `visit`; the fuel bounds how deep it calls itself
  unfoldable pub visit : ℕ → InstallRequest → Collected → Result CollectError Collected
  visit zero request s = err out_of_fuel
  visit (suc f) request s =
      let id = norm request.tool in
      let next = note_request id request s in
      if null id || null (trim request.version)
      then err incomplete_request
      else if lookup_or false id s.visiting
      then err (cycle_includes id)
      else elim (conflicts request (lookup id s.requests)) [
        | some version ↦ err (conflicting_versions id version request.version)
        | none ↦
            if lookup_or false id next.visited
            then ok next
            else visit_plugin (visit f) id (plugin r id) next
      ]

  -- the loop over the roots
  unfoldable pub visit_roots : ℕ → List InstallRequest → Collected → Result CollectError Collected
  visit_roots f [] s = ok s
  visit_roots f (root ∷ roots) s = do t ← visit f root s; visit_roots f roots t

  -- a request for each plugin that is configured
  unfoldable pub requests_of : List ToolPlugin → List InstallRequest
  requests_of [] = []
  requests_of (p ∷ ps) =
      let rest = requests_of ps in
      let version = trim (p.version e) in
      if null version then rest else record { tool = p.id; version = version } ∷ rest

  -- `InstallRequests`
  unfoldable pub install_requests : List InstallRequest
  install_requests = requests_of r.plugins

abbrev pub nothing_collected : Collected
nothing_collected = record {
  requests = [];
  order = [];
  next_order = 0;
  dependencies = [];
  visiting = [];
  visited = [];
}

pub data PlanError : Type 0 where
  not_collected : CollectError → PlanError
  not_layered : LayerError → PlanError

-- the values of a map, in the order of iteration
unfoldable pub values {ℓ} : {V : Type ℓ} → Dict V → List V
values [] = []
values ((k, v) ∷ m) = v ∷ values m

-- `roots`, or the requests of the environment where `roots` is nil
abbrev pub roots_or : Registry → Environment → Option (List InstallRequest) → List InstallRequest
roots_or r e none = install_requests r e
roots_or r e (some roots) = roots

abbrev pub layers_of : Result CollectError Collected → Result PlanError (List (List InstallRequest))
layers_of (err reason) = err (not_collected reason)
layers_of (ok s) = elim (layer_requests s.order s.dependencies (values s.requests)) [
  | err reason ↦ err (not_layered reason)
  | ok layers ↦ ok layers
]

-- `InstallRequestLayers`. No call is deeper than the number of registered plugins and one more.
unfoldable pub install_request_layers :
    Registry
    → Environment
    → Option (List InstallRequest)
    → Result PlanError (List (List InstallRequest))
install_request_layers r e roots =
    layers_of (visit_roots r e (length r.by_id + 2) (roots_or r e roots) nothing_collected)
