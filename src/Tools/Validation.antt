-- ===== src/Tools/Validation.antt =====
-- Whether an environment can be used with the registered plugins, and which PHP extensions they need
-- (tools/registry.go, tools/database.go, tools/ids.go). An error is `some` reason.
pub mod Peers
use polka.Base.{
  ℕ, Text, codes, text_dec, ◌==◌, norm, trim, null, Bool, true, false, not, ◌&&◌, ◌||◌,
}
use polka.Base.{Option, none, some, List, [], ◌∷◌, if◌then◌else◌, leb}
use polka.Base.Dict.{Dict, insert}
use polka.Base.Int.{ℤ, pos, negsuc}
use polka.Config.Types.{Environment, DatabaseConfig}
use polka.Config.Workers.{valid_worker_name}
use polka.Tools.Registry.{ToolPlugin, Registry, plugin, exclusive_peers}
use polka.Tools.Dispatch.{is_configured, or_else}

pub data VersionError : Type 0 where
  empty_version invalid_version : VersionError

-- `validateVersion`; its pattern is that of the names of workers and plugins
unfoldable pub validate_version : Text → Option VersionError
validate_version version =
    if null (trim version)
    then some empty_version
    else if valid_worker_name (trim version)
    then none
    else some invalid_version

-- `validPort`
abbrev pub valid_port : ℤ → Bool
valid_port (pos n) = leb 1 n && leb n 65535
valid_port (negsuc n) = false

abbrev pub is_zero : ℤ → Bool
is_zero (pos n) = leb n 0
is_zero (negsuc n) = false

pub data DatabaseError : Type 0 where
  unsupported_engine : Text → DatabaseError
  missing_engine_or_version : DatabaseError
  bad_version : VersionError → DatabaseError
  bad_port : DatabaseError

-- `normalizeDatabaseEngine`, as whether the engine is accepted; its value is the normal form
abbrev pub is_engine : Text → Bool
is_engine engine =
    null engine
    || engine == codes "mysql"
    || engine == codes "mariadb"
    || engine == codes "postgresql"

abbrev pub version_then_port : DatabaseConfig → Option VersionError → Option DatabaseError
version_then_port database (some reason) = some (bad_version reason)
version_then_port database none =
    if not (is_zero database.port) && not (valid_port database.port) then some bad_port else none

-- `validateDatabaseConfig`
unfoldable pub validate_database_config : DatabaseConfig → Option DatabaseError
validate_database_config database =
    let engine = norm database.engine in
    if not (is_engine engine)
    then some (unsupported_engine database.engine)
    else if null engine || null database.version
    then some missing_engine_or_version
    else version_then_port database (validate_version database.version)

pub data EnvironmentError : Type 0 where
  mutually_exclusive : Text → Text → EnvironmentError
  refused : Text → EnvironmentError
  engine_without_plugin : Text → EnvironmentError
  bad_database : DatabaseError → EnvironmentError

abbrev pub refusal : Option Text → Option EnvironmentError
refusal none = none
refusal (some reason) = some (refused reason)

abbrev pub database_refusal : Option DatabaseError → Option EnvironmentError
database_refusal none = none
database_refusal (some reason) = some (bad_database reason)

module _ (r : Registry) (environment : Environment) where
  -- the plugin with the id of a peer, when it is configured
  abbrev pub when_configured : Option ToolPlugin → Option ToolPlugin
  when_configured none = none
  when_configured (some p) = if is_configured environment p then some p else none

  -- the inner loop, up to the first peer that is configured
  unfoldable pub first_configured : List Text → Option ToolPlugin
  first_configured [] = none
  first_configured (id ∷ ids) = or_else (when_configured (plugin r id)) (first_configured ids)

  abbrev pub exclusion : ToolPlugin → Option ToolPlugin → Option EnvironmentError
  exclusion p none = none
  exclusion p (some peer) = some (mutually_exclusive p.id peer.id)

  -- a round of the loop over the plugins
  abbrev pub check_plugin : ToolPlugin → Option EnvironmentError
  check_plugin p =
      or_else
        (if is_configured environment p
          then exclusion p (first_configured (exclusive_peers r p.id))
          else none)
        (refusal (p.validate environment))

  unfoldable pub check_plugins : List ToolPlugin → Option EnvironmentError
  check_plugins [] = none
  check_plugins (p ∷ ps) = or_else (check_plugin p) (check_plugins ps)

  abbrev pub engine_of : Text → Text → Option ToolPlugin → Option EnvironmentError
  engine_of engine shown none = if null engine then none else some (engine_without_plugin shown)
  engine_of engine shown (some p) = none

  abbrev pub check_database : Option DatabaseConfig → Option EnvironmentError
  check_database none = none
  check_database (some database) =
      or_else (engine_of (norm database.engine) database.engine (plugin r (norm database.engine)))
        (database_refusal (validate_database_config database))

  -- `ValidateEnvironment`
  unfoldable pub validate_environment : Option EnvironmentError
  validate_environment = or_else (check_plugins r.plugins) (check_database environment.database)

  -- the inner loop of `PHPExtensions`
  unfoldable pub add_enabled : Dict Bool → Dict Bool → Dict Bool
  add_enabled extensions [] = extensions
  add_enabled extensions ((name, enabled) ∷ rest) =
      add_enabled (if enabled then insert name true extensions else extensions) rest

  -- the loop of `PHPExtensions`
  unfoldable pub add_extensions : Dict Bool → List ToolPlugin → Dict Bool
  add_extensions extensions [] = extensions
  add_extensions extensions (p ∷ ps) =
      add_extensions
        (if null (p.version environment)
          then extensions
          else add_enabled extensions p.php_extensions)
        ps

  -- `PHPExtensions`
  unfoldable pub php_extensions : Dict Bool
  php_extensions = add_extensions [] r.plugins
