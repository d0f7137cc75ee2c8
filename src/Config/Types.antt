-- ===== src/Config/Types.antt =====
-- The structs of config/types.go and config/workers.go. A pointer is an `Option`, a map a `Dict`.
use polka.Base.{Text, Bool, Option}
use polka.Base.Dict.{Dict}
use polka.Base.Int.{ℤ}
use polka.Config.Values.{Value}

abbrev pub ToolsConfig : Type 0
ToolsConfig = Dict Text

abbrev pub SettingsConfig : Type 0
SettingsConfig = Dict (Dict Value)

pub record DatabaseConfig : Type 0 where
  pub engine : Text
  pub version : Text
  pub port : ℤ

pub record ServerConfig : Type 0 where
  pub type : Text
  pub hostname : Text
  pub port : ℤ
  pub https : Bool

pub record WorkerConfig : Type 0 where
  pub command : Text
  pub replicas : ℤ
  pub dir : Text
  pub env : Dict Text

pub record PeclExtensionConfig : Type 0 where
  pub version : Text
  pub configure_options : Dict Text

pub record Environment : Type 0 where
  pub name : Text
  pub framework : Text
  pub tools : ToolsConfig
  pub settings : SettingsConfig
  pub docroot : Text
  pub https : Bool
  pub env_file : Text
  pub env_vars : Dict Text
  pub database : Option DatabaseConfig
  pub memory_limit : Text
  pub php_extensions : Dict Bool
  pub pie_extensions : Dict Text
  pub pecl_extensions : Dict PeclExtensionConfig
  pub zend_extensions : Dict Bool
  pub opcache_preset : Text
  pub opcache_config : Dict Text
  pub server : Option ServerConfig
  pub workers : Dict WorkerConfig
