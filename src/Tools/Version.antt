-- ===== src/Tools/Version.antt =====
-- Versions and how one is chosen for a request (tools/downloader.go): compareVersions,
-- resolveMatchingVersion, selectReleaseIndexVersion and resolveGitHubReleaseVersion. What the
-- network and the regular expression deliver is an argument.
pub mod Order
pub mod Best
use polka.Base.{ℕ, Text, codes, text_dec, ◌==◌, null, trim, Bool, true, false, not, ◌&&◌, ◌||◌}
use polka.Base.{Option, none, some, List, [], ◌∷◌, ◌++◌, if◌then◌else◌, ltb, leb, eqb, ◌+◌, length}
use polka.Base.Strings.{split, join, has, trim_prefix, cut_prefix, equal_fold}
use polka.Base.Int.{ℤ, pos, negsuc}
use polka.Base.Result.{Result, ok, err}
use polka.Backend.State.{contains}
use polka.Tools.Probe.{parse_int}

-- the result of a comparison: -1, 0 or 1
pub data Sign : Type 0 where
  less equal greater : Sign

abbrev pub is_positive : Sign → Bool
is_positive less = false
is_positive equal = false
is_positive greater = true

abbrev pub is_negative : Sign → Bool
is_negative less = true
is_negative equal = false
is_negative greater = false

-- the first comparison that is not 0
abbrev pub and_then : Sign → Sign → Sign
and_then less rest = less
and_then equal rest = rest
and_then greater rest = greater

abbrev pub compare_ℕ : ℕ → ℕ → Sign
compare_ℕ m n = if ltb n m then greater else if ltb m n then less else equal

abbrev pub compare_ℤ : ℤ → ℤ → Sign
compare_ℤ (pos m) (pos n) = compare_ℕ m n
compare_ℤ (pos m) (negsuc n) = greater
compare_ℤ (negsuc m) (pos n) = less
compare_ℤ (negsuc m) (negsuc n) = compare_ℕ n m

-- `strings.Compare`
unfoldable pub compare_text : Text → Text → Sign
compare_text [] [] = equal
compare_text [] (d ∷ t) = less
compare_text (c ∷ s) [] = greater
compare_text (c ∷ s) (d ∷ t) = and_then (compare_ℕ c d) (compare_text s t)

-- the switch over what `strconv.Atoi` gives for two parts
abbrev pub compare_values : Option ℤ → Option ℤ → Text → Text → Sign
compare_values (some m) (some n) l r = compare_ℤ m n
compare_values (some m) none l r = compare_text l r
compare_values none n l r = compare_text l r

abbrev pub compare_part : Text → Text → Sign
compare_part l r = compare_values (parse_int l) (parse_int r) l r

-- the loop of `compareVersions`: a part that is missing is "0"
unfoldable pub compare_parts : List Text → List Text → Sign
compare_parts [] [] = equal
compare_parts [] (r ∷ rs) = and_then (compare_part (codes "0") r) (compare_parts [] rs)
compare_parts (l ∷ ls) [] = and_then (compare_part l (codes "0")) (compare_parts ls [])
compare_parts (l ∷ ls) (r ∷ rs) = and_then (compare_part l r) (compare_parts ls rs)

-- `strings.Split` of a trimmed version at its dots
abbrev pub parts : Text → List Text
parts version = split b'.' (trim version)

-- `compareVersions`
unfoldable pub compare_versions : Text → Text → Sign
compare_versions left right = compare_parts (parts left) (parts right)

-- `strings.HasPrefix`
abbrev pub has_prefix : Text → Text → Bool
has_prefix s prefix = elim (cut_prefix prefix s) [ none ↦ false | some rest ↦ true ]

-- `versionMatchesRequest`
unfoldable pub version_matches_request : Text → Text → Bool
version_matches_request version requested =
    version == requested || has_prefix version (requested ++ b'.' ∷ [])

-- `strings.Count` of a character
unfoldable pub count : ℕ → Text → ℕ
count c [] = 0
count c (d ∷ s) = let rest = count c s in if eqb c d then rest + 1 else rest

-- `versionNeedsResolution`
unfoldable pub version_needs_resolution : Text → Bool
version_needs_resolution version =
    let trimmed = trim version in
    not (null trimmed) && (not (has b'-' trimmed) && ltb (count b'.' trimmed) 2)

abbrev pub major_minor : List Text → Text → Text
major_minor [] trimmed = trimmed
major_minor (major ∷ []) trimmed = trimmed
major_minor (major ∷ minor ∷ rest) trimmed = major ++ b'.' ∷ minor

-- `versionMajorMinor`
unfoldable pub version_major_minor : Text → Text
version_major_minor version = major_minor (parts version) (trim version)

-- a candidate is taken when there is none yet or when its version is higher
abbrev pub is_better {ℓ} : {A : Type ℓ} → (A → Text) → A → Option A → Bool
is_better version a none = true
is_better version a (some b) = is_positive (compare_versions (version a) (version b))

-- the loop that keeps the best of the candidates
unfoldable pub best_by {ℓ} : {A : Type ℓ} → (A → Text) → (A → Bool) → Option A → List A → Option A
best_by version keeps best [] = best
best_by version keeps best (a ∷ rest) =
    best_by version keeps (if keeps a && is_better version a best then some a else best) rest

pub data ResolveError : Type 0 where
  empty_request no_matching_release : ResolveError

-- a version without a leading "v"
abbrev pub bare : Text → Text
bare version = trim (trim_prefix (codes "v") version)

-- the candidates of `resolveMatchingVersion`
unfoldable pub matching : List Text → Text → List Text
matching [] requested = []
matching (v ∷ vs) requested =
    let rest = matching vs requested in
    if version_matches_request (bare v) requested then bare v ∷ rest else rest

abbrev pub found {ℓ} : {A : Type ℓ} → Option A → Result ResolveError A
found none = err no_matching_release
found (some best) = ok best

-- `resolveMatchingVersion`
unfoldable pub resolve_matching_version : List Text → Text → Result ResolveError Text
resolve_matching_version versions request =
    let requested = bare request in
    if null requested
    then err empty_request
    else found (best_by (λ v. v) (λ v. true) none (matching versions requested))

-- the submatches of a page, trimmed, without those that are empty or were seen before
unfoldable pub fresh_versions : List Text → List Text → List Text
fresh_versions seen [] = []
fresh_versions seen (m ∷ ms) =
    let version = trim m in
    let skipped = fresh_versions seen ms in
    let taken = fresh_versions (version ∷ seen) ms in
    if null version || contains version seen then skipped else version ∷ taken

abbrev pub is_indexed_candidate : Text → Text → Bool
is_indexed_candidate requested version =
    version_matches_request version requested && (has b'-' requested || not (has b'-' version))

-- `selectReleaseIndexVersion`, of what the pattern's first group matches in the page
unfoldable pub select_release_index_version : List Text → Text → Result ResolveError Text
select_release_index_version matches request =
    let requested = trim request in
    if null requested
    then err empty_request
    else found (best_by (λ v. v) (is_indexed_candidate requested) none (fresh_versions [] matches))

-- `githubRelease`, without its assets
pub record GithubRelease : Type 0 where
  pub tag_name : Text
  pub draft : Bool
  pub prerelease : Bool

-- `versionFromGitHubTag`
unfoldable pub version_from_github_tag : Text → Text → Text
version_from_github_tag tag tag_prefix = trim (trim_prefix (trim tag_prefix) (trim tag))

abbrev pub tagged_version : Text → GithubRelease → Text
tagged_version tag_prefix release = version_from_github_tag release.tag_name tag_prefix

-- the request without the prefix of the tags
abbrev pub untagged : Text → Text → Text
untagged tag_prefix request = trim_prefix (trim tag_prefix) (trim request)

-- whether the loop of `resolveGitHubReleaseVersion` considers a release
abbrev pub is_eligible : Text → Text → GithubRelease → Bool
is_eligible tag_prefix requested release =
    not release.draft
    && (not (release.prerelease && not (has b'-' (trim requested)))
        && version_matches_request (tagged_version tag_prefix release) requested)

-- `resolveGitHubReleaseVersion`, of the releases that were fetched
unfoldable pub resolve_github_release_version :
    Text → List GithubRelease → Text → Result ResolveError GithubRelease
resolve_github_release_version tag_prefix releases request = found (
    best_by (tagged_version tag_prefix) (is_eligible tag_prefix (untagged tag_prefix request)) none
      releases)
