-- ===== src/Tests/Plans.antt =====
-- A plan for a registry in which composer needs PHP.
use polka.Base.{none, Text, List, codes, text_dec, norm, ◌≡◌, [], ◌∷◌, some}
use polka.Base.Strings.{lower, lower_char, trim, trim_left, trim_right, is_space}
use polka.Base.Dict.{lookup, insert, lookup_or}
use polka.Base.Result.{ok, err}
use polka.Base.{All, refl, true, ◌⊎◌, ◌≢◌}
use polka.Tools.Layers.Order.{concat}
use polka.Tools.Registry.{ToolPlugin, Registry, InstallRequest, plugin}
use polka.Tools.Layers.{ready, blocked, insert_by_order}
use polka.Tools.Layers.{sort_by_order, layer_rounds, layer_requests}
use polka.Tools.Planning.{
  CollectError, out_of_fuel, not_collected, visit, visit_each, visit_roots, values,
  install_request_layers,
}
use polka.Tools.Planning.Members.{is_planned, is_distinct}
use polka.Tools.Planning.Fuel.{install_request_layers_total}
use polka.Tools.Planning.Sound.{IsPlanned, install_request_layers_sound}
use polka.Tests.Settings.{site}

abbrev php_request : InstallRequest
php_request = record { tool = codes "php"; version = codes "8.4" }

abbrev composer_request : InstallRequest
composer_request = record { tool = codes "Composer "; version = codes "2.8" }

abbrev tool : Text → List InstallRequest → ToolPlugin
tool id needs = record {
  id = id;
  exclusive_with = [];
  version = λ e. [];
  dependencies = λ e. ok needs;
  dispatch_commands = id ∷ [];
  cleanup_commands = [];
  active_commands = λ e. [];
  validate = λ e. none;
  php_extensions = [];
}

abbrev registry : Registry
registry = record {
  plugins = [];
  by_id =
      (codes "php", tool (codes "php") [])
      ∷ (codes "composer", tool (codes "composer") (php_request ∷ []))
      ∷ [];
}

abbrev planned : List (List InstallRequest)
planned = (php_request ∷ []) ∷ (record { tool = codes "composer"; version = codes "2.8" } ∷ []) ∷ []

plan : install_request_layers registry site (some (composer_request ∷ [])) ≡ ok planned
unfolding install_request_layers visit_roots visit visit_each values layer_requests layer_rounds
    ready blocked sort_by_order insert_by_order lookup insert lookup_or text_dec norm lower
    lower_char trim trim_left trim_right is_space plugin
plan = refl

install_request_layers_total_example :
    ((layers : List (List InstallRequest)) × (install_request_layers registry site
          (some (composer_request ∷ []))
        ≡ ok layers))
    ⊎ ((reason : CollectError) × (reason ≢ out_of_fuel)
        × (install_request_layers registry site (some (composer_request ∷ []))
            ≡ err (not_collected reason)))
install_request_layers_total_example =
    install_request_layers_total registry site (some (composer_request ∷ []))

install_request_layers_sound_example :
    All (λ q. is_planned q (concat planned) ≡ true) (composer_request ∷ [])
    × (is_distinct (concat planned) ≡ true)
    × IsPlanned registry site [] planned
install_request_layers_sound_example =
    install_request_layers_sound registry site (some (composer_request ∷ [])) planned plan
