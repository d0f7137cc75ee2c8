-- ===== src/Tools/Constraint.antt =====
-- The version rules of tool manifests (tools/manifest_rules.go).
pub mod Parts
pub mod Labels
use polka.Base.{
  ℕ, zero, suc, ◌+◌, Text, codes, null, trim, Bool, true, false, not, ◌&&◌, ◌||◌, Option, none,
  some,
}
use polka.Base.{List, [], ◌∷◌, ◌++◌, length, if◌then◌else◌, leb}
use polka.Base.Strings.{join, trim_prefix}
use polka.Tools.Version.{is_negative, compare_versions, parts, count, version_major_minor}

-- `manifestVersionConstraint`
pub record ManifestVersionConstraint : Type 0 where
  pub min : Text
  pub below : Text

-- `isZero`
abbrev pub is_zero : ManifestVersionConstraint → Bool
is_zero c = null (trim c.min) && null (trim c.below)

-- a version without space and a leading "v"
abbrev pub stripped : Text → Text
stripped version = trim (trim_prefix (codes "v") (trim version))

-- `versionPartCount`
unfoldable pub version_part_count : Text → ℕ
version_part_count version = if null (trim version) then 0 else count b'.' (trim version) + 1

-- the first elements of a list
unfoldable pub take {ℓ} : {A : Type ℓ} → ℕ → List A → List A
take zero xs = []
take (suc n) [] = []
take (suc n) (x ∷ xs) = x ∷ take n xs

-- `truncateVersionParts`
unfoldable pub truncate_version_parts : Text → ℕ → Text
truncate_version_parts version n =
    let trimmed = trim version in
    if leb n 0
    then trimmed
    else if null trimmed
    then trimmed
    else if leb (length (parts version)) n
    then trimmed
    else join b'.' (take n (parts version))

-- `allowsLabel`
unfoldable pub allows_label : ManifestVersionConstraint → Text → Bool
allows_label c label =
    let normalized = stripped label in
    let least = trim c.min in
    let below = trim c.below in
    if null normalized
    then true
    else if is_zero c
    then true
    else if not (null least)
        && is_negative (
            compare_versions normalized
              (truncate_version_parts least (version_part_count normalized)))
    then false
    else null below || is_negative (compare_versions normalized below)

-- `allowsResolved`
unfoldable pub allows_resolved : ManifestVersionConstraint → Text → Bool
allows_resolved c version =
    let normalized = stripped version in
    let least = trim c.min in
    let below = trim c.below in
    if null normalized
    then true
    else if is_zero c
    then true
    else if not (null least) && is_negative (compare_versions normalized least)
    then false
    else null below || is_negative (compare_versions normalized below)

-- the bounds that a message of `error` names
pub data ConstraintError : Type 0 where
  requires_between : Text → Text → ConstraintError
  requires_least requires_below : Text → ConstraintError

-- `error`
unfoldable pub constraint_error : ManifestVersionConstraint → Option ConstraintError
constraint_error c =
    let least = trim c.min in
    let below = trim c.below in
    if not (null least) && not (null below)
    then some (requires_between least below)
    else if not (null least)
    then some (requires_least least)
    else if not (null below)
    then some (requires_below below)
    else none

-- what `derivedTemplateValues` gives the three variables of a template
pub record TemplateValues : Type 0 where
  pub major : Text
  pub minor : Text
  pub major_minor : Text

abbrev pub values_of_parts : Text → List Text → TemplateValues
values_of_parts both [] = record { major = []; minor = []; major_minor = both }
values_of_parts both (p ∷ []) = record { major = p; minor = []; major_minor = both }
values_of_parts both (p ∷ q ∷ ps) = record { major = p; minor = q; major_minor = both }

-- `derivedTemplateValues`
unfoldable pub derived_template_values : Text → TemplateValues
derived_template_values version =
    let trimmed = stripped version in
    if null trimmed
    then record { major = []; minor = []; major_minor = version_major_minor trimmed }
    else values_of_parts (version_major_minor trimmed) (parts trimmed)
