-- ===== src/Config/Tools.antt =====
-- Tool versions of an environment: `ToolVersion`, `SetToolVersion`, `NormalizeToolsConfig`, and the
-- choice of the PHP runtime.
pub mod Laws
use polka.Base.{
  Text, codes, null, norm, trim, Bool, not, Option, none, some, [], ◌∷◌, if◌then◌else◌,
}
use polka.Base.{◌||◌}
use polka.Base.Dict.Rebuild.{rebuild}
use polka.Config.Keys.{lookup_fold, delete_fold, set_fold}
use polka.Config.Types.{Environment, ToolsConfig}

-- `ToolVersion`
unfoldable pub tool_version : Environment → Text → Text
tool_version e tool =
    let key = norm tool in
    if null key then [] else elim (lookup_fold key e.tools) [ none ↦ [] | some v ↦ trim v ]

-- the map that `SetToolVersion` leaves, for a key that is not empty
abbrev pub tools_after : Text → Text → ToolsConfig → ToolsConfig
tools_after key trimmed tools =
    if null trimmed then delete_fold key tools else set_fold key trimmed tools

-- `SetToolVersion`
unfoldable pub set_tool_version : Environment → Text → Text → Environment
set_tool_version e tool version =
    let key = norm tool in
    if null key then e else record e { tools = tools_after key (trim version) e.tools }

-- the entry that a round of `NormalizeToolsConfig` writes
abbrev pub tools_entry : Text → Text → Option (Text × Text)
tools_entry raw_key raw_version =
    let key = norm raw_key in
    let version = trim raw_version in if null key || null version then none else some (key, version)

-- `NormalizeToolsConfig`
unfoldable pub normalize_tools_config : ToolsConfig → ToolsConfig
normalize_tools_config = rebuild tools_entry

-- `ToolsConfig.IsZero`
unfoldable pub is_zero : ToolsConfig → Bool
is_zero tools = elim (normalize_tools_config tools) [ [] ↦ Bool.true | e ∷ rest ↦ Bool.false ]

-- `PrimaryPHPTool`
unfoldable pub primary_php_tool : Environment → Text × Text
primary_php_tool e =
    let zts = tool_version e (codes "php-zts") in
    let php = tool_version e (codes "php") in
    if not (null zts)
    then (codes "php-zts", zts)
    else if not (null php)
    then (codes "php", php)
    else ([], [])

-- `PrimaryPHPVersion`
unfoldable pub primary_php_version : Environment → Text
primary_php_version e = (primary_php_tool e).1

-- `PHPCLIProvider`
unfoldable pub php_cli_provider : Environment → Text × Text
php_cli_provider e =
    let (tool, version) = primary_php_tool e in
    let franken = tool_version e (codes "frankenphp") in
    if not (null tool)
    then (tool, version)
    else if not (null franken)
    then (codes "frankenphp", franken)
    else ([], [])

-- `HasPHPCLI`
unfoldable pub has_php_cli : Environment → Bool
has_php_cli e = not (null (php_cli_provider e).0)
