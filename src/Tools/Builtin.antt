-- ===== src/Tools/Builtin.antt =====
-- The rules of the manifest of a built-in plugin (tools/registry.go).
pub mod Laws
use polka.Base.{
  Text, trim, null, Bool, true, false, not, ◌&&◌, ◌||◌, Option, none, some, List, [], ◌∷◌,
  if◌then◌else◌,
}
use polka.Base.Dict.{Dict, lookup}
use polka.Base.Int.{ℤ}
use polka.Config.Types.{Environment}
use polka.Config.Tools.{tool_version}
use polka.Config.Settings.{setting_int, setting_string, setting_bool}
use polka.Config.Workers.Names.{sorted_worker_names}
use polka.Tools.Constraint.{
  ManifestVersionConstraint, ConstraintError, allows_label, constraint_error,
}
use polka.Tools.Dispatch.{or_else}
use polka.Tools.Validation.{VersionError, validate_version, valid_port, is_zero}

-- `SettingType`
pub data SettingType : Type 0 where
  string bool port : SettingType

-- `builtinPlugin`, as far as its rules read it
pub record BuiltinPlugin : Type 0 where
  pub id : Text
  pub version : Environment → Text
  pub version_constraint : ManifestVersionConstraint
  pub settings : Dict SettingType
  pub settings_namespace : Text
  pub exclusive_with : List Text

pub data ManifestError : Type 0 where
  requires_version port_out_of_range : Text → ManifestError
  refused_version : VersionError → ManifestError
  unsupported_version : Option ConstraintError → ManifestError

module _ (environment : Environment) where
  -- whether a setting has a value that is not zero
  abbrev pub is_set : Text → Text → SettingType → Bool
  is_set namespace key port = not (is_zero (setting_int environment namespace key))
  is_set namespace key string = not (null (setting_string environment namespace key))
  is_set namespace key bool = setting_bool environment namespace key

  -- the loop of `settingsConfigured`
  unfoldable pub some_set : Text → Dict SettingType → Bool
  some_set namespace [] = false
  some_set namespace ((key, type) ∷ schema) = is_set namespace key type || some_set namespace schema

  -- `settingsConfigured`; an empty schema has no setting
  unfoldable pub settings_configured : Text → Dict SettingType → Bool
  settings_configured namespace schema = if null namespace then false else some_set namespace schema

  -- the loop of `hasExclusivePeerVersion`
  unfoldable pub some_version : List Text → Bool
  some_version [] = false
  some_version (peer ∷ peers) =
      not (null (trim (tool_version environment peer))) || some_version peers

  module _ (p : BuiltinPlugin) where
    -- a round of the loop over the settings
    abbrev pub check_setting : Text → Option SettingType → Option ManifestError
    check_setting key none = none
    check_setting key (some string) = none
    check_setting key (some bool) = none
    check_setting key (some port) =
        if not (is_zero (setting_int environment p.settings_namespace key))
          && not (valid_port (setting_int environment p.settings_namespace key))
        then some (port_out_of_range key)
        else none

    unfoldable pub check_settings : List Text → Option ManifestError
    check_settings [] = none
    check_settings (key ∷ keys) =
        or_else (check_setting key (lookup key p.settings)) (check_settings keys)

    abbrev pub check_ports : Option ManifestError
    check_ports =
        if null p.settings_namespace then none else check_settings (sorted_worker_names p.settings)

    abbrev pub check_label : Text → Option VersionError → Option ManifestError
    check_label version (some reason) = some (refused_version reason)
    check_label version none =
        if allows_label p.version_constraint version
        then none
        else some (unsupported_version (constraint_error p.version_constraint))

    abbrev pub check_version : Text → Option ManifestError
    check_version version =
        if null version then none else check_label version (validate_version version)

    -- `validateManifestRules`
    unfoldable pub validate_manifest_rules : Option ManifestError
    validate_manifest_rules =
        let version = trim (p.version environment) in
        let has_settings = settings_configured p.settings_namespace p.settings in
        if null version && not has_settings
        then none
        else if null version && not (some_version p.exclusive_with)
        then some (requires_version p.id)
        else or_else (check_version version) check_ports
