-- ===== src/Tests/Registries.antt =====
-- A registry with two PHP runtimes, one of which excludes the other.
use polka.Base.{none, Text, List, codes, text_dec, norm, ◌&&◌, ◌||◌, [], ◌∷◌, ◌≡◌, ◌≢◌, refl}
use polka.Base.{null, true, false, not, ◌⊎◌, All, some}
use polka.Base.Strings.{equal_fold, lower, lower_char, trim, trim_left, trim_right, is_space}
use polka.Base.Dict.{lookup, insert}
use polka.Base.Result.{ok, err}
use polka.Backend.State.{contains}
use polka.Config.Workers.{valid_worker_name, all_name_chars}
use polka.Tools.Registry.{
  ToolPlugin, Registry, register, register_all, new_registry, exclusive_peers,
}
use polka.Tools.Registry.{own_exclusions, plugin}
use polka.Config.Types.{Environment}
use polka.Tools.Dispatch.{
  DispatchRequest, unsupported_tool, is_configured, search_commands, search_plugins,
  resolve_dispatch_request_for_environment, unique_tool_commands,
}
use polka.Tools.Dispatch.Laws.{
  IsAnswer, offers, IsUnique, some_names, resolve_dispatch_request_for_environment_lem,
  unique_tool_commands_lem,
}
use polka.Tools.Validation.{validate_environment, check_plugins, first_configured}
use polka.Tools.Validation.Peers.{exclusive-validate_environment}
use polka.Tests.Settings.{site}
use polka.Tools.Registry.{add_excluding, add_declared, add_if_excludes}
use polka.Tools.Registry.Laws.{contains-exclusive_peers, can_be_peer, excludes, excluded_by}
use polka.Tools.Registry.Symmetry.{exclusive_peers_sym}

abbrev runtime : Text → Text → List Text → ToolPlugin
runtime id version exclusive = record {
  id = id;
  exclusive_with = exclusive;
  version = λ e. version;
  dependencies = λ e. ok [];
  dispatch_commands = codes "php" ∷ [];
  cleanup_commands = codes "php" ∷ [];
  active_commands = λ e. [];
  validate = λ e. none;
  php_extensions = [];
}

abbrev php : ToolPlugin
php = runtime (codes "php") (codes "8.4") (codes "PHP-ZTS" ∷ [])

abbrev zts : ToolPlugin
zts = runtime (codes "php-zts") [] []

abbrev registry : Registry
registry = record {
  plugins = php ∷ zts ∷ [];
  by_id = (codes "php", php) ∷ (codes "php-zts", zts) ∷ [];
}

built : new_registry (php ∷ zts ∷ []) ≡ ok registry
unfolding new_registry register_all register valid_worker_name all_name_chars lookup insert text_dec
    norm lower lower_char trim trim_left trim_right is_space
built = refl

php_named : norm (codes "php") ≢ []
unfolding norm lower lower_char trim trim_left trim_right is_space
php_named = λ e. cc

zts_named : norm (codes "php-zts") ≢ []
unfolding norm lower lower_char trim trim_left trim_right is_space
zts_named = λ e. cc

contains-exclusive_peers_example :
    contains (norm (codes "php-zts")) (exclusive_peers registry (codes "php")) ≡ (
      can_be_peer (norm (codes "php-zts")) (norm (codes "php"))
      && (excludes (own_exclusions (plugin registry (codes "php"))) (norm (codes "php-zts"))
          || excluded_by registry.plugins (norm (codes "php-zts")) (norm (codes "php"))))
contains-exclusive_peers_example =
    contains-exclusive_peers registry (codes "php") (codes "php-zts") php_named

exclusive_peers_sym_example :
    contains (norm (codes "php-zts")) (exclusive_peers registry (codes "php"))
    ≡ contains (norm (codes "php")) (exclusive_peers registry (codes "php-zts"))
exclusive_peers_sym_example =
    exclusive_peers_sym (php ∷ zts ∷ []) registry (codes "php") (codes "php-zts") built php_named
      zts_named

resolve_dispatch_request_for_environment_lem_example :
    ((q : DispatchRequest) × (resolve_dispatch_request_for_environment site registry (codes " PHP")
        ≡ ok q)
      × IsAnswer site (norm (codes " PHP")) (php ∷ zts ∷ []) q
      × ((is_configured site q.provider ≡ true)
          ⊎ All
              (λ p. (offers (norm (codes " PHP")) p && is_configured site p) ≡ false)
              (php ∷ zts ∷ [])))
    ⊎ ((resolve_dispatch_request_for_environment site registry (codes " PHP")
          ≡ err (unsupported_tool (codes " PHP")))
        × All (λ p. offers (norm (codes " PHP")) p ≡ false) (php ∷ zts ∷ []))
resolve_dispatch_request_for_environment_lem_example =
    resolve_dispatch_request_for_environment_lem registry site (codes " PHP")

-- the configured plugin answers
dispatched :
    resolve_dispatch_request_for_environment site registry (codes " PHP")
    ≡ ok (record { config_tool = codes "php"; executable = codes "php"; provider = php })
unfolding resolve_dispatch_request_for_environment search_plugins search_commands equal_fold
    text_dec norm lower lower_char trim trim_left trim_right is_space
dispatched = refl

unique_tool_commands_lem_example :
    IsUnique (unique_tool_commands (php ∷ zts ∷ []) (λ p. p.cleanup_commands))
    × ((k : Text)
        → contains k (unique_tool_commands (php ∷ zts ∷ []) (λ p. p.cleanup_commands))
          ≡ (not (null k) && some_names k (λ p. p.cleanup_commands) (php ∷ zts ∷ [])))
unique_tool_commands_lem_example =
    unique_tool_commands_lem (php ∷ zts ∷ []) (λ p. p.cleanup_commands)

-- an environment with nothing but tools
abbrev plain : Environment
plain = record site { database = none }

accepted : validate_environment registry plain ≡ none
unfolding validate_environment check_plugins first_configured exclusive_peers add_excluding
    add_declared add_if_excludes plugin lookup equal_fold text_dec norm lower lower_char trim
    trim_left trim_right is_space
accepted = refl

php_found : plugin registry (codes "php") ≡ some php
unfolding plugin lookup text_dec norm lower lower_char trim trim_left trim_right is_space
php_found = refl

zts_found : plugin registry (codes "php-zts") ≡ some zts
unfolding plugin lookup text_dec norm lower lower_char trim trim_left trim_right is_space
zts_found = refl

php_not_zts : norm (codes "php") ≢ norm (codes "php-zts")
unfolding norm lower lower_char trim trim_left trim_right is_space
php_not_zts = λ e. cc

php_excludes_zts : excludes php.exclusive_with (norm (codes "php-zts")) ≡ true
unfolding text_dec norm lower lower_char trim trim_left trim_right is_space
php_excludes_zts = refl

php_configured : is_configured plain php ≡ true
unfolding trim trim_left trim_right is_space
php_configured = refl

exclusive-validate_environment_example : is_configured plain zts ≡ false
exclusive-validate_environment_example =
    exclusive-validate_environment (php ∷ zts ∷ []) registry plain (codes "php") (codes "php-zts")
      php zts built accepted php_found zts_found php_named zts_named php_not_zts php_excludes_zts
      php_configured
