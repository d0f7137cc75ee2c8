-- ===== src/Config/Database.antt =====
-- The database section of an environment: normalisation, merging, and how its version is kept in
-- the tool versions (config/types.go).
pub mod Laws
use polka.Base.{
  Text, ◌==◌, codes, null, norm, trim, Bool, not, ◌&&◌, ◌||◌, Option, none, some, [], ◌∷◌,
}
use polka.Base.{if◌then◌else◌, text_dec}
use polka.Base.Int.{is_zero, pos}
use polka.Base.Dict.{lookup_or}
use polka.Base.Strings.{equal_fold}
use polka.Config.Types.{Environment, DatabaseConfig, ToolsConfig}
use polka.Config.Tools.{tool_version, set_tool_version, normalize_tools_config}

-- `NormalizeDatabaseConfig` of a section that is there
abbrev pub normalize_database : DatabaseConfig → Option DatabaseConfig
normalize_database d =
    let engine = norm d.engine in
    let version = trim d.version in
    if null engine && null version && is_zero d.port
    then none
    else some (record { engine = engine; version = version; port = d.port })

-- `NormalizeDatabaseConfig`
unfoldable pub normalize_database_config : Option DatabaseConfig → Option DatabaseConfig
normalize_database_config none = none
normalize_database_config (some d) = normalize_database d

abbrev pub empty_database : DatabaseConfig
empty_database = record { engine = []; version = []; port = pos 0 }

-- the assignments of `MergeDatabaseConfig`
abbrev pub override_database : DatabaseConfig → DatabaseConfig → DatabaseConfig
override_database merged o = record {
  engine = if null o.engine then merged.engine else o.engine;
  version = if null o.version then merged.version else o.version;
  port = if is_zero o.port then merged.port else o.port;
}

-- `MergeDatabaseConfig`
unfoldable pub merge_database_config :
    Option DatabaseConfig → Option DatabaseConfig → Option DatabaseConfig
merge_database_config none none = none
merge_database_config (some d) none = normalize_database d
merge_database_config none (some o) = normalize_database (override_database empty_database o)
merge_database_config (some d) (some o) = normalize_database (override_database d o)

-- the engines whose version is a tool version
unfoldable pub is_managed_engine : Text → Bool
is_managed_engine engine =
    engine == codes "mysql" || engine == codes "mariadb" || engine == codes "postgresql"

abbrev pub populate : Environment → DatabaseConfig → Environment
populate e d =
    let engine = norm d.engine in
    if null (trim d.version)
    then e
    else if is_managed_engine engine && null (tool_version e engine)
    then set_tool_version e engine d.version
    else e

-- `populateDatabaseToolVersion`
unfoldable pub populate_database_tool_version : Environment → Environment
populate_database_tool_version e = elim e.database [ none ↦ e | some d ↦ populate e d ]

abbrev pub section_version : Text → Option DatabaseConfig → Text
section_version engine none = []
section_version engine (some d) = if equal_fold (trim d.engine) engine then trim d.version else []

-- `DatabaseToolVersion`
unfoldable pub database_tool_version : Environment → Text → Text
database_tool_version e engine =
    let normalized = norm engine in
    let version = tool_version e normalized in
    if not (is_managed_engine normalized)
    then []
    else if null version
    then section_version normalized e.database
    else version

-- `DatabaseRuntimeConfigFromEnvironment`
unfoldable pub database_runtime_config : Environment → Option DatabaseConfig
database_runtime_config e = elim e.database [
  | none ↦ none
  | some d ↦
      if null d.engine && is_zero d.port
      then none
      else some (record { engine = d.engine; version = []; port = d.port })
]

-- the engine that the versions single out: the only one of the three that is configured
abbrev pub only_engine : Text → Text → Text → Text
only_engine mysql mariadb postgresql =
    if not (null mysql) && null mariadb && null postgresql
    then codes "mysql"
    else if not (null mariadb) && null mysql && null postgresql
    then codes "mariadb"
    else if not (null postgresql) && null mysql && null mariadb
    then codes "postgresql"
    else []

-- the version that belongs to an engine
abbrev pub version_of : Text → Text → Text → Text → Text
version_of engine mysql mariadb postgresql =
    if engine == codes "mysql"
    then mysql
    else if engine == codes "mariadb"
    then mariadb
    else if engine == codes "postgresql"
    then postgresql
    else []

abbrev pub section_or_empty : Option DatabaseConfig → DatabaseConfig
section_or_empty none = empty_database
section_or_empty (some d) = d

abbrev pub complete_database : Text → Text → Text → DatabaseConfig → Option DatabaseConfig
complete_database mysql mariadb postgresql d =
    let engine = if null d.engine then only_engine mysql mariadb postgresql else d.engine in
    let version =
      if null d.version then version_of (norm engine) mysql mariadb postgresql else d.version in
    normalize_database (record { engine = engine; version = version; port = d.port })

-- `PrimaryDatabaseConfigFromTools`
unfoldable pub primary_database_config_from_tools :
    ToolsConfig → Option DatabaseConfig → Option DatabaseConfig
primary_database_config_from_tools tools database =
    let normalized = normalize_tools_config tools in
    let version = λ (tool : Text). lookup_or [] tool normalized in
    let completed =
      complete_database (version (codes "mysql")) (version (codes "mariadb"))
        (version (codes "postgresql")) (section_or_empty database) in
    elim normalized [ [] ↦ database | entry ∷ rest ↦ completed ]
