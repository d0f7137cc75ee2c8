-- ===== src/Tests/Versions.antt =====
-- Versions, their order, and the choice among releases.
use polka.Base.{none, some, norm}
use polka.Base.Strings.{join, lower, lower_char, equal_fold}
use polka.Base.Dict.{lookup, find_where}
use polka.Config.Keys.{matches_key}
use polka.Config.Settings.{setting, setting_int}
use polka.Config.Workers.{valid_worker_name, all_name_chars}
use polka.Config.Workers.Names.{sorted_worker_names, sort_texts, insert_sorted}
use polka.Tools.Validation.{validate_version}
use polka.Tools.Constraint.{version_part_count, truncate_version_parts, take}
use polka.Tools.Version.{count}
use polka.Tools.Builtin.{
  BuiltinPlugin, port, validate_manifest_rules, check_settings, settings_configured, some_set,
}
use polka.Tools.Builtin.Laws.{IsAcceptable, IsPort, validate_manifest_rules_sound}
use polka.Tests.Settings.{site}
use polka.Base.{
  Text, List, codes, text_dec, trim, null, true, false, [], ◌∷◌, ◌≡◌, ◌⊎◌, inl, inr, refl, All,
}
use polka.Base.Strings.{split, is_space, trim_left, trim_right, trim_prefix, cut_prefix, has}
use polka.Base.Result.{ok, err}
use polka.Tools.Probe.{parse_int, parse_digits}
use polka.Tools.Version.{
  compare_versions, compare_parts, compare_text, is_positive, version_matches_request, bare,
  best_by, matching,
}
use polka.Tools.Version.{
  no_matching_release, resolve_matching_version, GithubRelease, resolve_github_release_version,
  tagged_version, version_from_github_tag, is_eligible, untagged,
}
use polka.Tools.Version.Order.{
  IsRelease, opposite, compare_versions_antisym, compare_versions_trans,
}
use polka.Tools.Version.Best.{
  AreReleases, IsBest, resolve_matching_version-IsBest, resolve_github_release_version-IsBest,
}
use polka.Tools.Constraint.{ManifestVersionConstraint, allows_label, allows_resolved, stripped}
use polka.Tools.Constraint.Labels.{IsBound, allows_label-allows_resolved}

compare_versions_antisym_example :
    opposite (compare_versions (codes "1.10") (codes "1.9-rc"))
    ≡ compare_versions (codes "1.9-rc") (codes "1.10")
compare_versions_antisym_example = compare_versions_antisym (codes "1.10") (codes "1.9-rc")

one_two : IsRelease (codes "1.2")
unfolding split parse_int parse_digits trim trim_left trim_right is_space
one_two = (1 ∷ 2 ∷ [], (refl, (refl, tt)))

one_ten : IsRelease (codes "1.10")
unfolding split parse_int parse_digits trim trim_left trim_right is_space
one_ten = (1 ∷ 10 ∷ [], (refl, (refl, tt)))

two : IsRelease (codes "2")
unfolding split parse_int parse_digits trim trim_left trim_right is_space
two = (2 ∷ [], (refl, tt))

first_second : is_positive (compare_versions (codes "1.2") (codes "1.10")) ≡ false
unfolding compare_versions compare_parts compare_text split parse_int parse_digits trim trim_left
    trim_right is_space
first_second = refl

second_third : is_positive (compare_versions (codes "1.10") (codes "2")) ≡ false
unfolding compare_versions compare_parts compare_text split parse_int parse_digits trim trim_left
    trim_right is_space
second_third = refl

compare_versions_trans_example : is_positive (compare_versions (codes "1.2") (codes "2")) ≡ false
compare_versions_trans_example =
    compare_versions_trans (codes "1.2") (codes "1.10") (codes "2") one_two one_ten two first_second
      second_third

abbrev versions : List Text
versions = codes "v1.2" ∷ codes "1.10" ∷ codes "2-rc" ∷ []

requested : null (bare (codes "v1")) ≡ false
unfolding trim_prefix cut_prefix trim trim_left trim_right is_space
requested = refl

releases_numbered :
    AreReleases bare (λ v. version_matches_request (bare v) (bare (codes "v1"))) versions
unfolding version_matches_request text_dec trim_prefix cut_prefix split parse_int parse_digits trim
    trim_left trim_right is_space
releases_numbered = (
  (λ h. (1 ∷ 2 ∷ [], (refl, (refl, tt)))),
  ((λ h. (1 ∷ 10 ∷ [], (refl, (refl, tt)))), ((λ h. cc), tt)),
)

chosen : resolve_matching_version versions (codes "v1") ≡ ok (codes "1.10")
unfolding resolve_matching_version matching best_by version_matches_request compare_versions
    compare_parts compare_text text_dec trim_prefix cut_prefix split parse_int parse_digits trim
    trim_left trim_right is_space
chosen = refl

resolve_matching_version-IsBest_example :
    ((v : Text) × (resolve_matching_version versions (codes "v1") ≡ ok (bare v))
      × IsBest bare (λ v. version_matches_request (bare v) (bare (codes "v1"))) versions v)
    ⊎ ((resolve_matching_version versions (codes "v1") ≡ err no_matching_release)
        × All (λ v. version_matches_request (bare v) (bare (codes "v1")) ≡ false) versions)
resolve_matching_version-IsBest_example =
    resolve_matching_version-IsBest versions (codes "v1") requested releases_numbered

abbrev published : List GithubRelease
published =
    record { tag_name = codes "v1.2"; draft = false; prerelease = false }
    ∷ record { tag_name = codes "v1.10"; draft = false; prerelease = false }
    ∷ record { tag_name = codes "v1.11-rc"; draft = false; prerelease = true }
    ∷ []

published_numbered :
    AreReleases
      (tagged_version (codes "v"))
      (is_eligible (codes "v") (untagged (codes "v") (codes "1")))
      published
unfolding version_matches_request version_from_github_tag has text_dec trim_prefix cut_prefix split
    parse_int parse_digits trim trim_left trim_right is_space
published_numbered = (
  (λ h. (1 ∷ 2 ∷ [], (refl, (refl, tt)))),
  ((λ h. (1 ∷ 10 ∷ [], (refl, (refl, tt)))), ((λ h. cc), tt)),
)

resolve_github_release_version-IsBest_example :
    ((b : GithubRelease) × (resolve_github_release_version (codes "v") published (codes "1") ≡ ok b)
      × IsBest
          (tagged_version (codes "v"))
          (is_eligible (codes "v") (untagged (codes "v") (codes "1")))
          published
          b)
    ⊎ ((resolve_github_release_version (codes "v") published (codes "1") ≡ err no_matching_release)
        × All (λ r. is_eligible (codes "v") (untagged (codes "v") (codes "1")) r ≡ false) published)
resolve_github_release_version-IsBest_example =
    resolve_github_release_version-IsBest (codes "v") published (codes "1") published_numbered

abbrev supported : ManifestVersionConstraint
supported = record { min = codes "1.4"; below = [] }

supported_least : IsBound (trim (codes "1.4"))
unfolding split parse_int parse_digits trim trim_left trim_right is_space
supported_least = inr (1 ∷ 4 ∷ [], (refl, (refl, tt)))

unbounded : IsBound (trim [])
unfolding trim trim_left trim_right
unbounded = inl refl

full_numbered : IsRelease (stripped (codes "v1.10"))
unfolding trim_prefix cut_prefix split parse_int parse_digits trim trim_left trim_right is_space
full_numbered = (1 ∷ 10 ∷ [], (refl, (refl, tt)))

full_matches : version_matches_request (stripped (codes "v1.10")) (stripped (codes "1")) ≡ true
unfolding version_matches_request text_dec trim_prefix cut_prefix trim trim_left trim_right is_space
full_matches = refl

full_allowed : allows_resolved supported (codes "v1.10") ≡ true
unfolding allows_resolved compare_versions compare_parts compare_text trim_prefix cut_prefix split
    parse_int parse_digits trim trim_left trim_right is_space
full_allowed = refl

allows_label-allows_resolved_example : allows_label supported (codes "1") ≡ true
allows_label-allows_resolved_example =
    allows_label-allows_resolved supported (codes "1") (codes "v1.10") supported_least unbounded
      full_numbered full_matches full_allowed

-- a plugin with a port among its settings
abbrev mail : BuiltinPlugin
mail = record {
  id = codes "mail";
  version = λ e. codes "1.10";
  version_constraint = supported;
  settings = (codes "port", port) ∷ [];
  settings_namespace = codes "mail";
  exclusive_with = [];
}

mail_accepted : validate_manifest_rules site mail ≡ none
unfolding matches_key validate_manifest_rules check_settings settings_configured some_set
    setting_int setting find_where sorted_worker_names sort_texts insert_sorted lookup
    validate_version valid_worker_name all_name_chars allows_label version_part_count
    truncate_version_parts take count join compare_versions compare_parts compare_text trim_prefix
    cut_prefix split parse_int parse_digits equal_fold text_dec norm lower lower_char trim trim_left
    trim_right is_space
mail_accepted = refl

validate_manifest_rules_sound_example :
    IsAcceptable site mail (trim (codes "1.10"))
    × ((key : Text) → lookup key ((codes "port", port) ∷ []) ≡ some port → IsPort site mail key)
validate_manifest_rules_sound_example = validate_manifest_rules_sound site mail mail_accepted
