-- ===== src/Config/Server.antt =====
-- The web server section of an environment (config/types.go).
use polka.Base.{Bool, null, norm, trim, true, not, ◌&&◌, Option, none, some, [], if◌then◌else◌}
use polka.Base.{◌≡◌, refl, arith}
use polka.Base.Int.{is_zero, pos}
use polka.Base.Strings.Laws.{norm-norm, trim-trim, norm-nil, trim-nil}
use polka.Config.Types.{Environment, ServerConfig}

-- `NormalizeServerConfig`
unfoldable pub normalize_server_config : Option ServerConfig → Option ServerConfig
normalize_server_config none = none
normalize_server_config (some s) =
    let type = norm s.type in
    let hostname = trim s.hostname in
    if null type && null hostname && is_zero s.port && not s.https
    then none
    else some (record { type = type; hostname = hostname; port = s.port; https = s.https })

-- `ServerConfigFromEnvironment`
unfoldable pub server_config_from_environment : Environment → Option ServerConfig
server_config_from_environment e = elim e.server [
  | none ↦ none
  | some s ↦
      let type = norm s.type in
      let hostname = trim s.hostname in
      if null type && null hostname && is_zero s.port
      then none
      else some (record { type = type; hostname = hostname; port = s.port; https = Bool.false })
]

abbrev pub empty_server : ServerConfig
empty_server = record { type = []; hostname = []; port = pos 0; https = Bool.false }

abbrev pub serve_https : Option ServerConfig → ServerConfig
serve_https none = record empty_server { https = true }
serve_https (some s) = record s { https = true }

-- `inheritEnvironmentHTTPS`
unfoldable pub inherit_environment_https : Environment → Environment
inherit_environment_https e =
    if not e.https then e else record e { server = some (serve_https e.server) }

-- Normalising a server section twice is normalising it once.
pub normalize_server_config_idem :
    (s : Option ServerConfig)
    → normalize_server_config (normalize_server_config s) ≡ normalize_server_config s
unfolding normalize_server_config
normalize_server_config_idem none = refl
normalize_server_config_idem (some s) = ground (arith, norm-norm s.type, trim-trim s.hostname)

-- A normal section stays normal when HTTPS is switched on.
pub normalize_server_config-serve_https :
    (s : Option ServerConfig)
    → normalize_server_config (some (serve_https (normalize_server_config s)))
      ≡ some (serve_https (normalize_server_config s))
unfolding normalize_server_config
normalize_server_config-serve_https none = ground (arith, norm-nil, trim-nil)
normalize_server_config-serve_https (some s) =
    ground (arith, norm-norm s.type, trim-trim s.hostname, norm-nil, trim-nil)
