-- ===== src/Config/Extensions.antt =====
-- PHP extensions of an environment: bundled toggles and PIE packages, which share one YAML map
-- (config/types.go).
pub mod Laws
pub mod Pecl
use polka.Base.{ℕ, Text, ◌==◌, codes, null, norm, trim, Bool, true, false, not, ◌&&◌, ◌||◌}
use polka.Base.{Option, none, some, [], ◌∷◌, if◌then◌else◌, leb, eqb}
use polka.Base.Strings.{equal_fold, has, has_any}
use polka.Base.Dict.{Dict, insert}
use polka.Base.Dict.Rebuild.{rebuild, rebuild_from}
use polka.Config.Values.{Value, nil, bool, str, sprint}

-- the entry that a round of `NormalizePHPExtensions` writes
abbrev pub toggle_entry : Text → Bool → Option (Text × Bool)
toggle_entry name enabled = some (norm name, enabled)

-- `NormalizePHPExtensions`
unfoldable pub normalize_php_extensions : Dict Bool → Dict Bool
normalize_php_extensions = rebuild toggle_entry

-- the entry that a round of `NormalizePIEExtensions` writes
abbrev pub package_entry : Text → Text → Option (Text × Text)
package_entry name version =
    let trimmed_name = norm name in
    let trimmed_version = trim version in
    if null trimmed_name || null trimmed_version then none else some (trimmed_name, trimmed_version)

-- `NormalizePIEExtensions`
unfoldable pub normalize_pie_extensions : Dict Text → Dict Text
normalize_pie_extensions = rebuild package_entry

-- `pieExtensionVersionString`
unfoldable pub pie_extension_version_string : Value → Text
pie_extension_version_string nil = codes "*"
pie_extension_version_string v = trim (sprint v)

-- whether a bundled extension's value reads as enabled
unfoldable pub is_enabled : Value → Bool
is_enabled (bool b) = b
is_enabled v = not (equal_fold (trim (sprint v)) (codes "false"))

-- a round of the loop of `SplitPHPExtensionsFromYAML` over its two maps
abbrev pub split_entry : Text → Value → Dict Bool × Dict Text → Dict Bool × Dict Text
split_entry key value (bundled, pie) =
    let name = norm key in
    if null name
    then (bundled, pie)
    else if has b'/' name
    then (bundled, insert name (pie_extension_version_string value) pie)
    else (insert name (is_enabled value) bundled, pie)

unfoldable pub split_loop : Dict Value → Dict Bool × Dict Text → Dict Bool × Dict Text
split_loop [] maps = maps
split_loop ((key, value) ∷ values) maps = split_loop values (split_entry key value maps)

-- `SplitPHPExtensionsFromYAML`
unfoldable pub split_php_extensions_from_yaml : Dict Value → Dict Bool × Dict Text
unfolding split_loop
split_php_extensions_from_yaml values = split_loop values ([], [])

-- `PHPExtensionsFileValue`
unfoldable pub php_extensions_file_value : Dict Bool → Dict Text → Dict Value
php_extensions_file_value bundled pie =
    rebuild_from (λ name version. some (name, str version))
      (rebuild (λ name enabled. some (name, bool enabled)) (normalize_php_extensions bundled))
      (normalize_pie_extensions pie)

-- `ValidatePIEExtensionVersion`: whether the constraint is accepted
unfoldable pub validate_pie_extension_version : Text → Bool
validate_pie_extension_version version =
    let trimmed = trim version in
    not (null trimmed)
    && not (equal_fold trimmed (codes "true") || equal_fold trimmed (codes "false"))
    && not (has_any (codes " \t\r\n\"'") trimmed)
