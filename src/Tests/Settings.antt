-- ===== src/Tests/Settings.antt =====
-- Tool versions and settings of one environment.
use polka.Base.{codes, norm, trim, text_dec, ◌==◌, ◌&&◌, true, false, some, Option, [], ◌∷◌}
use polka.Base.{◌≡◌, ◌≢◌, refl, if◌then◌else◌}
use polka.Base.Strings.{lower, lower_char, trim_left, trim_right, is_space, equal_fold}
use polka.Base.Int.{pos}
use polka.Base.Dict.{lookup, find_where}
use polka.Config.Types.{Environment}
use polka.Config.Keys.{lookup_fold, matches_key}
use polka.Config.Values.{bool, int, normalize_setting_value}
use polka.Config.Tools.{tool_version, set_tool_version}
use polka.Config.Tools.Laws.{tool_version-set_tool_version}
use polka.Config.Settings.{setting, set_setting}
use polka.Config.Settings.Laws.{setting-set_setting, HasNormalNamespaces}
use polka.Config.Database.{normalize_database_config, database_tool_version}
use polka.Config.Database.{populate_database_tool_version}
use polka.Config.Database.Laws.{database_tool_version-populate_database_tool_version}
use polka.Config.Types.{DatabaseConfig}

abbrev pub site : Environment
site = record {
  name = codes "site";
  framework = codes "Laravel ";
  tools = (codes "PHP-ZTS", codes " 8.3.1") ∷ (codes "composer", codes "2.8") ∷ [];
  settings = (codes "php", (codes "extension-sdk", bool true) ∷ []) ∷ [];
  docroot = codes "public";
  https = true;
  env_file = codes ".env";
  env_vars = (codes "APP_ENV", codes "dev") ∷ [];
  database = some (record { engine = codes "MySQL"; version = codes "8.0"; port = pos 3306 });
  memory_limit = codes " 512m";
  php_extensions = (codes "Intl", true) ∷ (codes "soap", false) ∷ [];
  pie_extensions = (codes "xdebug/xdebug", codes "^3.4") ∷ [];
  pecl_extensions =
      (
        codes "Redis",
        record {
          version = codes " 6.1.0";
          configure_options = (codes "--enable-redis-lzf", codes "yes") ∷ [];
        },
      )
      ∷ [];
  zend_extensions = [];
  opcache_preset = codes "Dev";
  opcache_config = (codes "opcache.enable", codes "1") ∷ [];
  server =
      some (record {
        type = codes "Nginx";
        hostname = codes "site.test";
        port = pos 0;
        https = false;
      });
  workers =
      (
        codes "queue",
        record { command = codes "php artisan queue:work"; replicas = pos 2; dir = []; env = [] },
      )
      ∷ [];
}

redis_named : norm (codes "Redis") ≢ []
unfolding norm lower lower_char trim trim_left trim_right is_space
redis_named = λ e. cc

port_named : norm (codes "port") ≢ []
unfolding norm lower lower_char trim trim_left trim_right is_space
port_named = λ e. cc

tool_version-set_tool_version_example :
    tool_version (set_tool_version site (codes "Redis") (codes " 7.2 ")) (codes "redis") ≡ (
      if norm (codes "redis") == norm (codes "Redis")
      then trim (codes " 7.2 ")
      else tool_version site (codes "redis"))
tool_version-set_tool_version_example =
    tool_version-set_tool_version site (codes "Redis") (codes " 7.2 ") (codes "redis") redis_named

-- a tool is found in another spelling
found : tool_version site (codes " php-ZTS") ≡ codes "8.3.1"
unfolding tool_version lookup_fold lookup find_where matches_key equal_fold norm lower lower_char
    trim trim_left trim_right is_space text_dec
found = refl

namespaces : HasNormalNamespaces site.settings
unfolding norm lower lower_char trim trim_left trim_right is_space
namespaces = (refl, tt)

setting-set_setting_example :
    setting
      (set_setting site (codes "Redis") (codes "port") (int (pos 6380)))
      (codes "redis")
      (codes "Port")
    ≡ (if norm (codes "redis") == norm (codes "Redis") && norm (codes "Port") == norm (codes "port")
        then normalize_setting_value (int (pos 6380))
        else setting site (codes "redis") (codes "Port"))
setting-set_setting_example =
    setting-set_setting site (codes "Redis") (codes "port") (int (pos 6380)) (codes "redis")
      (codes "Port") namespaces redis_named port_named

abbrev mysql : Option DatabaseConfig
mysql = some (record { engine = codes "mysql"; version = codes "8.0"; port = pos 3306 })

abbrev newer : Option DatabaseConfig
newer = some (record { engine = []; version = codes "8.4"; port = pos 0 })

mysql_normal : normalize_database_config mysql ≡ mysql
unfolding normalize_database_config norm lower lower_char trim trim_left trim_right is_space
mysql_normal = refl

newer_normal : normalize_database_config newer ≡ newer
unfolding normalize_database_config norm lower lower_char trim trim_left trim_right is_space
newer_normal = refl

database_tool_version-populate_database_tool_version_example :
    database_tool_version (populate_database_tool_version site) (codes "mysql")
    ≡ database_tool_version site (codes "mysql")
database_tool_version-populate_database_tool_version_example =
    database_tool_version-populate_database_tool_version site (codes "mysql")

blank_not : trim (codes " 7.2 ") ≢ []
unfolding trim trim_left trim_right is_space
blank_not = λ e. cc
