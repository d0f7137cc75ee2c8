-- ===== src/Tools/Registry.antt =====
-- The registry of tool plugins (tools/registry.go): `Register`, `Plugin` and `ExclusivePeers`. A
-- plugin is what the registry reads of it. An interface that a plugin may lack is read as one that
-- gives nothing: no exclusions, no dependencies.
pub mod Laws
pub mod Symmetry
use polka.Base.{
  Text, ◌==◌, norm, trim, null, Bool, true, false, not, ◌&&◌, ◌||◌, Option, none, some, List,
}
use polka.Base.{[], ◌∷◌, ◌++◌, if◌then◌else◌}
use polka.Base.Strings.{equal_fold}
use polka.Base.Dict.{Dict, lookup, insert}
use polka.Base.Result.{Result, ok, err, ◌>>=◌}
use polka.Backend.State.{contains}
use polka.Config.Types.{Environment}
use polka.Config.Workers.{valid_worker_name}

pub record InstallRequest : Type 0 where
  pub tool : Text
  pub version : Text

pub record ToolPlugin : Type 0 where
  pub id : Text
  pub exclusive_with : List Text
  pub version : Environment → Text
  pub dependencies : Environment → Result Text (List InstallRequest)
  pub dispatch_commands : List Text
  pub cleanup_commands : List Text
  pub active_commands : Environment → List Text
  pub validate : Environment → Option Text
  pub php_extensions : Dict Bool

pub record Registry : Type 0 where
  pub plugins : List ToolPlugin
  pub by_id : Dict ToolPlugin

pub data RegisterError : Type 0 where
  empty_id invalid_id duplicate : RegisterError

-- the registry with one more plugin under this id
abbrev pub add_plugin : Registry → Text → ToolPlugin → Registry
add_plugin r id p = record { plugins = r.plugins ++ p ∷ []; by_id = insert id p r.by_id }

abbrev pub is_some {ℓ} : {A : Type ℓ} → Option A → Bool
is_some none = false
is_some (some a) = true

-- `Register`
unfoldable pub register : Registry → ToolPlugin → Result RegisterError Registry
register r p =
    let id = norm p.id in
    if null id
    then err empty_id
    else if not (valid_worker_name id)
    then err invalid_id
    else if is_some (lookup id r.by_id)
    then err duplicate
    else ok (add_plugin r id p)

-- the loop of `NewRegistry`
unfoldable pub register_all : Registry → List ToolPlugin → Result RegisterError Registry
register_all r [] = ok r
register_all r (p ∷ ps) = do registered ← register r p; register_all registered ps

-- `NewRegistry`
unfoldable pub new_registry : List ToolPlugin → Result RegisterError Registry
new_registry ps = register_all (record { plugins = []; by_id = [] }) ps

-- `Plugin`
unfoldable pub plugin : Registry → Text → Option ToolPlugin
plugin r id = lookup (norm id) r.by_id

-- `addPeer`; a peer has been seen if it is in the list
abbrev pub add_peer : Text → List Text → Text → List Text
add_peer target peers peer =
    let normalized = norm peer in
    if null normalized || normalized == target || contains normalized peers
    then peers
    else peers ++ normalized ∷ []

-- the loop over what the plugin itself excludes
unfoldable pub add_declared : Text → List Text → List Text → List Text
add_declared target [] peers = peers
add_declared target (p ∷ ps) peers = add_declared target ps (add_peer target peers p)

-- the inner loop of the second pass: the plugin is a peer if it excludes the target
unfoldable pub add_if_excludes : Text → Text → List Text → List Text → List Text
add_if_excludes target id [] peers = peers
add_if_excludes target id (p ∷ ps) peers =
    add_if_excludes target id ps
      (if equal_fold (trim p) target then add_peer target peers id else peers)

-- the loop over all plugins
unfoldable pub add_excluding : Text → List ToolPlugin → List Text → List Text
add_excluding target [] peers = peers
add_excluding target (p ∷ ps) peers =
    add_excluding target ps (add_if_excludes target (norm p.id) p.exclusive_with peers)

-- what the plugin of the target excludes
abbrev pub own_exclusions : Option ToolPlugin → List Text
own_exclusions none = []
own_exclusions (some p) = p.exclusive_with

-- `ExclusivePeers`
unfoldable pub exclusive_peers : Registry → Text → List Text
exclusive_peers r id =
    let target = norm id in
    if null target
    then []
    else add_excluding target r.plugins (add_declared target (own_exclusions (plugin r target)) [])
