-- ===== src/Config/Environments/Files.antt =====
-- Saving an environment to its YAML shape and loading it again (config/types.go).
use polka.Base.{Text, norm, ◌≡◌, All}
use polka.Config.Types.{Environment}
use polka.Config.Settings.{normalize_settings_config}
use polka.Config.Memory.{normalize_memory_limit}
use polka.Config.Opcache.{normalize_opcache_config, normalize_opcache_preset}
use polka.Config.Extensions.{normalize_php_extensions, normalize_pie_extensions}
use polka.Config.Extensions.Laws.{IsBundledKey, IsPieKey}
use polka.Config.Extensions.Pecl.{normalize_pecl_extensions}
use polka.Config.Extensions.Pecl.Laws.{YamlDecoder, KeepsTexts, through_file}
use polka.Base.Dict.Rebuild.{map_values}
use polka.Base.{[]}
use polka.Config.Workers.{normalize_workers_config}
use polka.Config.Environments.{EnvironmentFile}
use polka.Config.Environments.{environment_file_from_environment}

-- the fields that survive a save and a load
pub record IsCopy (e l : Environment) : Type 0 where
  pub framework : l.framework ≡ norm e.framework
  pub settings : l.settings ≡ normalize_settings_config e.settings
  pub docroot : l.docroot ≡ e.docroot
  pub https : l.https ≡ e.https
  pub env_file : l.env_file ≡ e.env_file
  pub env_vars : l.env_vars ≡ e.env_vars
  pub memory_limit : l.memory_limit ≡ normalize_memory_limit e.memory_limit
  pub php_extensions : l.php_extensions ≡ normalize_php_extensions e.php_extensions
  pub pie_extensions : l.pie_extensions ≡ normalize_pie_extensions e.pie_extensions
  pub pecl_extensions :
      l.pecl_extensions ≡ normalize_pecl_extensions (normalize_pecl_extensions e.pecl_extensions)
  pub zend_extensions : l.zend_extensions ≡ []
  pub opcache_preset : l.opcache_preset ≡ normalize_opcache_preset e.opcache_preset
  pub opcache_config : l.opcache_config ≡ normalize_opcache_config e.opcache_config
  pub workers : l.workers ≡ normalize_workers_config e.workers

-- a file, written by the YAML library and decoded; what comes back differently is the PECL section
abbrev pub through_yaml : YamlDecoder → EnvironmentFile → EnvironmentFile
through_yaml d file = record file {
  pecl_extensions = map_values (through_file d) file.pecl_extensions;
}

module _ (d : YamlDecoder) (keeps : KeepsTexts d) (name : Text) (e : Environment)
    (plain : All (λ (k, _). IsBundledKey k) (normalize_php_extensions e.php_extensions))
    (slashes : All (λ (k, _). IsPieKey k) (normalize_pie_extensions e.pie_extensions)) where
  abbrev file : EnvironmentFile
  file = through_yaml d (environment_file_from_environment e)
