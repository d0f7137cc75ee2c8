-- ===== src/Config/Services.antt =====
-- The typed views of an environment's service tools (config/types.go): `Mailpit`, `PHPMyAdmin`,
-- `Meilisearch`, `Redis`, `RabbitMQ` and `Traefik`. A view is nil if nothing configures the tool.
pub mod Laws
use polka.Base.{Text, codes, null, Bool, ◌&&◌, Option, none, some, if◌then◌else◌}
use polka.Base.Int.{ℤ, is_zero}
use polka.Config.Types.{Environment}
use polka.Config.Tools.{tool_version}
use polka.Config.Settings.{setting_int, setting_string}

pub record MailpitConfig : Type 0 where
  pub version : Text
  pub smtp_port : ℤ
  pub ui_port : ℤ
  pub https : Bool

pub record PhpMyAdminConfig : Type 0 where
  pub version : Text
  pub port : ℤ
  pub https : Bool

pub record MeilisearchConfig : Type 0 where
  pub version : Text
  pub port : ℤ
  pub master_key : Text

pub record RedisConfig : Type 0 where
  pub version : Text
  pub port : ℤ
  pub password : Text

pub record RabbitMqConfig : Type 0 where
  pub version : Text
  pub port : ℤ
  pub management_port : ℤ
  pub username : Text
  pub password : Text

pub record TraefikConfig : Type 0 where
  pub version : Text
  pub port : ℤ

-- `Mailpit`
unfoldable pub mailpit : Environment → Option MailpitConfig
mailpit e =
    let version = tool_version e (codes "mailpit") in
    let smtp_port = setting_int e (codes "mailpit") (codes "smtp-port") in
    let ui_port = setting_int e (codes "mailpit") (codes "ui-port") in
    if null version && is_zero smtp_port && is_zero ui_port
    then none
    else some
        (record { version = version; smtp_port = smtp_port; ui_port = ui_port; https = e.https })

-- `PHPMyAdmin`
unfoldable pub php_my_admin : Environment → Option PhpMyAdminConfig
php_my_admin e =
    let version = tool_version e (codes "phpmyadmin") in
    let port = setting_int e (codes "phpmyadmin") (codes "port") in
    if null version && is_zero port
    then none
    else some (record { version = version; port = port; https = e.https })

-- `Meilisearch`
unfoldable pub meilisearch : Environment → Option MeilisearchConfig
meilisearch e =
    let version = tool_version e (codes "meilisearch") in
    let port = setting_int e (codes "meilisearch") (codes "port") in
    let master_key = setting_string e (codes "meilisearch") (codes "master-key") in
    if null version && is_zero port && null master_key
    then none
    else some (record { version = version; port = port; master_key = master_key })

-- `Redis`
unfoldable pub redis : Environment → Option RedisConfig
redis e =
    let version = tool_version e (codes "redis") in
    let port = setting_int e (codes "redis") (codes "port") in
    let password = setting_string e (codes "redis") (codes "password") in
    if null version && is_zero port && null password
    then none
    else some (record { version = version; port = port; password = password })

-- `RabbitMQ`
unfoldable pub rabbit_mq : Environment → Option RabbitMqConfig
rabbit_mq e =
    let version = tool_version e (codes "rabbitmq") in
    let port = setting_int e (codes "rabbitmq") (codes "port") in
    let management_port = setting_int e (codes "rabbitmq") (codes "management-port") in
    let username = setting_string e (codes "rabbitmq") (codes "username") in
    let password = setting_string e (codes "rabbitmq") (codes "password") in
    if null version && is_zero port && is_zero management_port && null username && null password
    then none
    else some (record {
      version = version;
      port = port;
      management_port = management_port;
      username = username;
      password = password;
    })

-- `Traefik`
unfoldable pub traefik : Environment → Option TraefikConfig
traefik e =
    let version = tool_version e (codes "traefik") in
    let port = setting_int e (codes "traefik") (codes "port") in
    if null version && is_zero port then none else some (record { version = version; port = port })
