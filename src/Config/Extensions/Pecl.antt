-- ===== src/Config/Extensions/Pecl.antt =====
-- Legacy PECL packages of an environment (config/types.go).
pub mod Laws
use polka.Base.{ℕ, Text, ◌==◌, codes, null, norm, trim, Bool, true, false, not, ◌&&◌, ◌||◌}
use polka.Base.{Option, none, some, [], ◌∷◌, if◌then◌else◌, leb, eqb}
use polka.Base.Strings.{has_any}
use polka.Base.Dict.{Dict}
use polka.Base.Dict.Rebuild.{rebuild}
use polka.Config.Types.{PeclExtensionConfig}
use polka.Config.Values.{Value, nil, str, sprint}

-- `strings.TrimLeft(s, "-")`
unfoldable pub trim_dashes : Text → Text
trim_dashes [] = []
trim_dashes (c ∷ s) = if eqb c b'-' then trim_dashes s else c ∷ s

-- the entry that a round over the configure options writes
abbrev pub option_entry : Text → Text → Option (Text × Text)
option_entry option value =
    let name = trim_dashes (norm option) in if null name then none else some (name, trim value)

unfoldable pub normalize_options : Dict Text → Dict Text
normalize_options = rebuild option_entry

-- the entry that a round of `NormalizePECLExtensions` writes
abbrev pub pecl_entry : Text → PeclExtensionConfig → Option (Text × PeclExtensionConfig)
pecl_entry name extension =
    let package_name = norm name in
    let version = trim extension.version in
    if null package_name || null version
    then none
    else some (
      package_name,
      record {
        version = version;
        configure_options = normalize_options extension.configure_options;
      },
    )

-- `NormalizePECLExtensions`
unfoldable pub normalize_pecl_extensions : Dict PeclExtensionConfig → Dict PeclExtensionConfig
normalize_pecl_extensions = rebuild pecl_entry

-- the value of a package's `configure-options`: a map of any values, a map of strings, or neither
pub data PeclOptions : Type 0 where
  absent : PeclOptions
  values : Dict Value → PeclOptions
  texts : Dict Text → PeclOptions

-- the YAML value of a package: a map with `version` and `configure-options`, or anything else
pub data PeclValue : Type 0 where
  package_map : Value → PeclOptions → PeclValue
  scalar : Value → PeclValue

-- `peclExtensionVersionString`
unfoldable pub pecl_extension_version_string : Value → Text
pecl_extension_version_string nil = codes "*"
pecl_extension_version_string v = trim (sprint v)

abbrev pub read_options : PeclOptions → Dict Text
read_options absent = []
read_options (values m) = rebuild (λ option value. some (option, trim (sprint value))) m
read_options (texts m) = rebuild (λ option value. some (option, trim value)) m

abbrev pub read_package : PeclValue → PeclExtensionConfig
read_package (package_map version options) = record {
  version = pecl_extension_version_string version;
  configure_options = read_options options;
}
read_package (scalar value) = record {
  version = pecl_extension_version_string value;
  configure_options = [];
}

-- `PECLExtensionsFromYAML`
unfoldable pub pecl_extensions_from_yaml : Dict PeclValue → Dict PeclExtensionConfig
pecl_extensions_from_yaml yaml =
    normalize_pecl_extensions (rebuild (λ name value. some (name, read_package value)) yaml)

abbrev pub write_package : Text → Dict Text → PeclValue
write_package version [] = scalar (str version)
write_package version (o ∷ options) = package_map (str version) (texts (o ∷ options))

-- `PECLExtensionsFileValue`
unfoldable pub pecl_extensions_file_value : Dict PeclExtensionConfig → Dict PeclValue
pecl_extensions_file_value extensions =
    rebuild (λ name e. some (name, write_package e.version e.configure_options))
      (normalize_pecl_extensions extensions)

abbrev is_alnum : ℕ → Bool
is_alnum c = (leb b'a' c && leb c b'z') || (leb b'0' c && leb c b'9')

unfoldable pub all_package_chars : Text → Bool
all_package_chars [] = true
all_package_chars (c ∷ s) =
    (is_alnum c || eqb c b'.' || eqb c b'_' || eqb c b'-') && all_package_chars s

-- `ValidatePECLExtensionPackage`: whether the name is accepted
unfoldable pub validate_pecl_extension_package : Text → Bool
unfolding all_package_chars
validate_pecl_extension_package name = elim (norm name) [
  | [] ↦ false
  | c ∷ s ↦ is_alnum c && all_package_chars s
]

-- `ValidatePECLExtensionVersion`: whether the version is accepted
unfoldable pub validate_pecl_extension_version : Text → Bool
validate_pecl_extension_version version =
    let trimmed = trim version in
    if null trimmed
    then false
    else if trimmed == codes "*"
    then true
    else not (has_any (codes " \t\r\n\"'") trimmed || has_any (codes "^~<>,") trimmed)
