-- ===== src/Config/Settings.antt =====
-- Versionless tool settings of an environment: `Setting`, `SettingString`, `SettingInt`,
-- `SettingBool`, `SetSetting`, `NormalizeSettingsConfig`.
pub mod Laws
use polka.Base.{Text, codes, null, norm, trim, Bool, true, false, Option, none, some, List, [], ◌∷◌}
use polka.Base.{◌||◌, if◌then◌else◌}
use polka.Base.Int.{ℤ, pos}
use polka.Base.Dict.{Dict, lookup, insert, delete}
use polka.Base.Dict.Rebuild.{rebuild}
use polka.Config.Keys.{matches_key, lookup_fold, delete_fold, set_fold}
use polka.Config.Values.{Value, nil, bool, str, normalize_setting_value, setting_int_value, sprint}
use polka.Config.Types.{Environment, SettingsConfig}

-- the loop over the namespaces that match, when none is spelled as asked for
unfoldable pub scan_namespaces : Text → Text → SettingsConfig → Option Value
scan_namespaces ns key [] = none
scan_namespaces ns key ((raw, values) ∷ settings) =
    let rest = scan_namespaces ns key settings in
    if matches_key ns raw
    then elim (lookup_fold key values) [ some v ↦ some v | none ↦ rest ]
    else rest

-- `Setting`
unfoldable pub setting : Environment → Text → Text → Option Value
unfolding scan_namespaces
setting e namespace key =
    let ns = norm namespace in
    let k = norm key in
    if null ns || null k then none else elim (lookup ns e.settings) [
      | some values ↦ lookup_fold k values
      | none ↦ scan_namespaces ns k e.settings
    ]

abbrev pub string_value : Value → Text
string_value nil = []
string_value (str s) = trim s
string_value v = trim (sprint v)

-- `SettingString`
unfoldable pub setting_string : Environment → Text → Text → Text
setting_string e namespace key = elim (setting e namespace key) [
  | none ↦ []
  | some v ↦ string_value v
]

abbrev pub int_value : Option ℤ → ℤ
int_value none = pos 0
int_value (some z) = z

-- `SettingInt`
unfoldable pub setting_int : Environment → Text → Text → ℤ
setting_int e namespace key = elim (setting e namespace key) [
  | none ↦ pos 0
  | some v ↦ int_value (setting_int_value v)
]

abbrev pub bool_value : Value → Bool
bool_value (bool b) = b
bool_value v = false

-- `SettingBool`
unfoldable pub setting_bool : Environment → Text → Text → Bool
setting_bool e namespace key = elim (setting e namespace key) [
  | none ↦ false
  | some v ↦ bool_value v
]

-- removes a namespace that has become empty, and keeps it with its new values otherwise
abbrev pub prune_namespace : Text → Dict Value → SettingsConfig → SettingsConfig
prune_namespace ns [] settings = delete ns settings
prune_namespace ns (v ∷ values) settings = insert ns (v ∷ values) settings

-- the settings that `SetSetting` leaves, for a namespace and a key that are not empty
abbrev pub settings_after : Text → Text → Option Value → SettingsConfig → SettingsConfig
settings_after ns k none settings = elim (lookup ns settings) [
  | none ↦ settings
  | some values ↦ prune_namespace ns (delete_fold k values) settings
]
settings_after ns k (some v) settings = elim (lookup ns settings) [
  | none ↦ insert ns (set_fold k v []) settings
  | some values ↦ insert ns (set_fold k v values) settings
]

-- `SetSetting`
unfoldable pub set_setting : Environment → Text → Text → Value → Environment
set_setting e namespace key value =
    let ns = norm namespace in
    let k = norm key in
    if null ns || null k
    then e
    else record e { settings = settings_after ns k (normalize_setting_value value) e.settings }

-- the entry that a round of the inner loop of `NormalizeSettingsConfig` writes
abbrev pub values_entry : Text → Value → Option (Text × Value)
values_entry raw_key raw_value =
    let key = norm raw_key in
    if null key
    then none
    else elim (normalize_setting_value raw_value) [ none ↦ none | some v ↦ some (key, v) ]

abbrev pub namespace_entry : Text → Dict Value → Option (Text × Dict Value)
namespace_entry namespace [] = none
namespace_entry namespace (v ∷ values) = some (namespace, v ∷ values)

-- the entry that a round of the outer loop writes
abbrev pub settings_entry : Text → Dict Value → Option (Text × Dict Value)
settings_entry raw_namespace raw_values =
    let namespace = norm raw_namespace in
    if null namespace then none else namespace_entry namespace (rebuild values_entry raw_values)

-- `NormalizeSettingsConfig`
unfoldable pub normalize_settings_config : SettingsConfig → SettingsConfig
normalize_settings_config = rebuild settings_entry

-- `PHPBuildTools`
unfoldable pub php_build_tools : Environment → Bool
php_build_tools e = setting_bool e (codes "php") (codes "extension-sdk")
