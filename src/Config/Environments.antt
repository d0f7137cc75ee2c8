-- ===== src/Config/Environments.antt =====
-- Whole environments and their files: `NormalizeEnvironment`, and the conversions between an
-- environment and the YAML shapes of polka.yaml and polka.<name>.yaml (config/types.go).
pub mod Normal
pub mod Files
use polka.Base.{Text, norm, trim, Bool, Option, none, some, List, [], ◌∷◌}
use polka.Base.Dict.{Dict}
use polka.Config.Values.{Value}
use polka.Config.Types.{Environment, ToolsConfig, SettingsConfig, DatabaseConfig, ServerConfig}
use polka.Config.Types.{WorkerConfig}
use polka.Config.Tools.{normalize_tools_config}
use polka.Config.Settings.{normalize_settings_config}
use polka.Config.Database.{normalize_database_config, populate_database_tool_version}
use polka.Config.Database.{database_runtime_config, primary_database_config_from_tools}
use polka.Config.Server.{normalize_server_config, inherit_environment_https}
use polka.Config.Server.{server_config_from_environment}
use polka.Config.Memory.{normalize_memory_limit, memory_limit_value_string, memory_limit_file_value}
use polka.Config.Opcache.{normalize_opcache_preset, normalize_opcache_config}
use polka.Config.Opcache.{normalize_opcache_config_from_yaml, opcache_file_config}
use polka.Config.Extensions.{normalize_php_extensions, normalize_pie_extensions}
use polka.Config.Extensions.{split_php_extensions_from_yaml, php_extensions_file_value}
use polka.Config.Extensions.Pecl.{PeclValue, normalize_pecl_extensions, pecl_extensions_from_yaml}
use polka.Config.Extensions.Pecl.{pecl_extensions_file_value}
use polka.Config.Workers.{normalize_environment_variables, normalize_workers_config}

-- the fields that `NormalizeEnvironment` normalises one by one
abbrev pub normalize_fields : Text → Environment → Environment
normalize_fields name e = record {
  name = name;
  framework = norm e.framework;
  tools = normalize_tools_config e.tools;
  settings = normalize_settings_config e.settings;
  docroot = trim e.docroot;
  https = e.https;
  env_file = trim e.env_file;
  env_vars = normalize_environment_variables e.env_vars;
  database = normalize_database_config e.database;
  memory_limit = normalize_memory_limit e.memory_limit;
  php_extensions = normalize_php_extensions e.php_extensions;
  pie_extensions = normalize_pie_extensions e.pie_extensions;
  pecl_extensions = normalize_pecl_extensions e.pecl_extensions;
  zend_extensions = normalize_php_extensions e.zend_extensions;
  opcache_preset = normalize_opcache_preset e.opcache_preset;
  opcache_config = normalize_opcache_config e.opcache_config;
  server = normalize_server_config e.server;
  workers = normalize_workers_config e.workers;
}

-- `NormalizeEnvironment`
unfoldable pub normalize_environment : Text → Environment → Environment
normalize_environment name e =
    populate_database_tool_version (inherit_environment_https (normalize_fields name e))

-- `EnvironmentFile`; `ProjectFile` has the same fields after its version and its root
pub record EnvironmentFile : Type 0 where
  pub framework : Text
  pub tools : ToolsConfig
  pub settings : SettingsConfig
  pub docroot : Text
  pub https : Bool
  pub env_file : Text
  pub env_vars : Dict Text
  pub database : Option DatabaseConfig
  pub memory_limit : Value
  pub php_extensions : Dict Value
  pub pecl_extensions : Dict PeclValue
  pub opcache_preset : Text
  pub opcache_config : Dict Value
  pub server : Option ServerConfig
  pub workers : Dict WorkerConfig

pub record ProjectFile : Type 0 where
  pub version : Text
  pub root : Text
  pub parts : EnvironmentFile

abbrev pub database_from_parts : ToolsConfig → Option DatabaseConfig → Option DatabaseConfig
database_from_parts [] database = database
database_from_parts (t ∷ tools) database = primary_database_config_from_tools (t ∷ tools) database

-- the environment before its database version and its HTTPS flag are carried over
abbrev pub read_fields : Text → EnvironmentFile → Environment
read_fields name file =
    let (bundled, pie) = split_php_extensions_from_yaml file.php_extensions in
    let tools = normalize_tools_config file.tools in
    record {
      name = name;
      framework = norm file.framework;
      tools = tools;
      settings = normalize_settings_config file.settings;
      docroot = file.docroot;
      https = file.https;
      env_file = file.env_file;
      env_vars = file.env_vars;
      database = database_from_parts tools file.database;
      memory_limit = normalize_memory_limit (memory_limit_value_string file.memory_limit);
      php_extensions = bundled;
      pie_extensions = pie;
      pecl_extensions = pecl_extensions_from_yaml file.pecl_extensions;
      zend_extensions = [];
      opcache_preset = file.opcache_preset;
      opcache_config = normalize_opcache_config_from_yaml file.opcache_config;
      server = file.server;
      workers = normalize_workers_config file.workers;
    }

-- `environmentFromFileParts`
unfoldable pub environment_from_file_parts : Text → EnvironmentFile → Environment
environment_from_file_parts name file =
    inherit_environment_https (populate_database_tool_version (read_fields name file))

-- `EnvironmentFileToEnvironment`
unfoldable pub environment_file_to_environment : Text → EnvironmentFile → Environment
environment_file_to_environment name file = environment_from_file_parts name file

-- `ProjectFileToEnvironment`
unfoldable pub project_file_to_environment : Text → ProjectFile → Environment
project_file_to_environment name file = environment_from_file_parts name file.parts

-- `ToolsConfigFromEnvironment`
unfoldable pub tools_config_from_environment : Environment → ToolsConfig
tools_config_from_environment e = normalize_tools_config (populate_database_tool_version e).tools

-- `EnvironmentFileFromEnvironment`
unfoldable pub environment_file_from_environment : Environment → EnvironmentFile
environment_file_from_environment e = record {
  framework = norm e.framework;
  tools = tools_config_from_environment e;
  settings = normalize_settings_config e.settings;
  docroot = e.docroot;
  https = e.https;
  env_file = e.env_file;
  env_vars = e.env_vars;
  database = database_runtime_config e;
  memory_limit = memory_limit_file_value e.memory_limit;
  php_extensions = php_extensions_file_value e.php_extensions e.pie_extensions;
  pecl_extensions = pecl_extensions_file_value e.pecl_extensions;
  opcache_preset = normalize_opcache_preset e.opcache_preset;
  opcache_config = opcache_file_config e;
  server = server_config_from_environment e;
  workers = normalize_workers_config e.workers;
}

-- `ProjectFileFromEnvironment`
unfoldable pub project_file_from_environment : Text → Text → Environment → ProjectFile
project_file_from_environment version root e = record {
  version = version;
  root = root;
  parts = environment_file_from_environment e;
}
