-- ===== src/Tools/Checksum.antt =====
-- The checksums of downloads (tools/downloader.go). `filepath.Base` and the hash functions are
-- arguments. Length is that of the text in characters: a text with others than ASCII is no checksum
-- either way.
pub mod Laws
use polka.Base.{
  ℕ, zero, suc, ◌+◌, ◌*◌, ◌-◌, Text, codes, text_dec, ◌==◌, norm, trim, null, Bool, true, false,
  not, ◌&&◌, ◌||◌,
}
use polka.Base.{Option, none, some, List, [], ◌∷◌, ◌++◌, map, length, if◌then◌else◌, leb, eqb}
use polka.Base.Strings.{split, cut, is_space, trim_prefix, equal_fold}
use polka.Base.Result.{Result, ok, err}

-- `checksumAlgorithm`
pub data ChecksumAlgorithm : Type 0 where
  unset md5 sha256 sha3_256 embedded_commit_id : ChecksumAlgorithm
  other : Text → ChecksumAlgorithm

pub data ChecksumError : Type 0 where
  unsupported_algorithm : ChecksumAlgorithm → ChecksumError
  invalid_length : ℕ → ChecksumError
  invalid_encoding : Text → ChecksumError
  missing_value : ChecksumAlgorithm → ChecksumError
  none_found : Text → ChecksumError
  empty_response not_opened not_read : ChecksumError
  mismatch : Text → Text → ChecksumError

-- the size that `checksumHasher` gives
abbrev pub checksum_size : ChecksumAlgorithm → Option ℕ
checksum_size md5 = some 16
checksum_size sha256 = some 32
checksum_size sha3_256 = some 32
checksum_size unset = none
checksum_size embedded_commit_id = none
checksum_size (other name) = none

abbrev pub is_hex : ℕ → Bool
is_hex c = (leb b'0' c && leb c b'9') || ((leb b'a' c && leb c b'f') || (leb b'A' c && leb c b'F'))

-- whether `hex.DecodeString` accepts the digits, of which there is an even number
unfoldable pub all_hex : Text → Bool
all_hex [] = true
all_hex (c ∷ s) = is_hex c && all_hex s

abbrev pub check_digits : ℕ → Text → Result ChecksumError Text
check_digits size checksum =
    if not (eqb (length checksum) (size * 2))
    then err (invalid_length (length checksum))
    else if all_hex checksum
    then ok checksum
    else err (invalid_encoding checksum)

abbrev pub check_sized : ChecksumAlgorithm → Option ℕ → Text → Result ChecksumError Text
check_sized algorithm none checksum = err (unsupported_algorithm algorithm)
check_sized algorithm (some size) checksum = check_digits size (trim checksum)

-- `validateChecksumValue`, without the size
unfoldable pub validate_checksum_value : ChecksumAlgorithm → Text → Result ChecksumError Text
validate_checksum_value algorithm checksum =
    check_sized algorithm (checksum_size algorithm) checksum

-- `strings.Fields`, with the field that has been begun
unfoldable pub fields_from : Text → Text → List Text
fields_from field [] = if null field then [] else field ∷ []
fields_from field (c ∷ s) =
    let ended = fields_from [] s in
    let longer = fields_from (field ++ c ∷ []) s in
    if is_space c then if null field then ended else field ∷ ended else longer

abbrev pub fields : Text → List Text
fields = fields_from []

unfoldable pub upper_char : ℕ → ℕ
upper_char c = if leb b'a' c && leb c b'z' then c - 32 else c

-- `strings.ToUpper`
abbrev pub upper : Text → Text
upper = map upper_char

-- `strings.TrimSuffix` of a single character
unfoldable pub trim_suffix : ℕ → Text → Text
trim_suffix c [] = []
trim_suffix c (d ∷ s) = let rest = trim_suffix c s in if null s && eqb c d then [] else d ∷ rest

abbrev pub slash : ℕ → ℕ
slash c = if eqb c 92 then b'/' else c

-- `checksumLabelForAlgorithm`
abbrev pub checksum_label_for_algorithm : ChecksumAlgorithm → Option Text
checksum_label_for_algorithm md5 = some (codes "MD5")
checksum_label_for_algorithm sha256 = some (codes "SHA256")
checksum_label_for_algorithm sha3_256 = some (codes "SHA3-256")
checksum_label_for_algorithm unset = none
checksum_label_for_algorithm embedded_commit_id = none
checksum_label_for_algorithm (other name) = none

-- the lines of an answer
abbrev pub lines_of : Text → List Text
lines_of value = split 10 (trim value)

module _ (base_name : Text → Text) where
  -- `normalizeChecksumFileName`
  unfoldable pub normalize_checksum_file_name : Text → Text
  normalize_checksum_file_name file_name =
      let normalized = trim_prefix (codes "./") (trim_prefix (codes "*") (trim file_name)) in
      if null (trim file_name)
      then []
      else trim (base_name (trim_suffix b':' (map slash normalized)))

  -- `checksumLineMatchesSource`
  unfoldable pub checksum_line_matches_source : List Text → Text → Bool
  checksum_line_matches_source [] source = false
  checksum_line_matches_source (f ∷ fs) source =
      normalize_checksum_file_name f == source || checksum_line_matches_source fs source

  module _ (algorithm : ChecksumAlgorithm) (source : Text) where
    -- the inner loop: the value is on the first line behind that has a field
    abbrev pub value_or : List Text → Result ChecksumError Text → Result ChecksumError Text
    value_or [] rest = rest
    value_or (f ∷ fs) rest = validate_checksum_value algorithm f

    unfoldable pub labeled_value : List Text → Result ChecksumError Text
    labeled_value [] = err (missing_value algorithm)
    labeled_value (l ∷ ls) = value_or (fields (trim l)) (labeled_value ls)

    abbrev pub is_label : Text → List Text → Bool
    is_label label [] = false
    is_label label (f ∷ fs) =
        trim_suffix b':' (upper f) == label ++ codes "-CHECKSUM"
        && (null source || checksum_line_matches_source fs source)

    -- the loop over the lines; none if there is no line with the label
    unfoldable pub labeled_lines : Text → List Text → Option (Result ChecksumError Text)
    labeled_lines label [] = none
    labeled_lines label (l ∷ ls) =
        let rest = labeled_lines label ls in
        if is_label label (fields (trim (trim_prefix (0xfeff ∷ []) l)))
        then some (labeled_value ls)
        else rest

    abbrev pub labeled_with : Option Text → List Text → Option (Result ChecksumError Text)
    labeled_with none ls = none
    labeled_with (some label) ls = labeled_lines label ls

    -- `parseLabeledChecksumValueForAlgorithm`
    abbrev pub parse_labeled_checksum_value : Text → Option (Result ChecksumError Text)
    parse_labeled_checksum_value value =
        labeled_with (checksum_label_for_algorithm algorithm) (lines_of value)

    -- behind the loop: no line was for the source
    abbrev pub first_or_error : Text → Text → Result ChecksumError Text
    first_or_error shown first =
        if not (null source)
        then err (none_found shown)
        else if null first
        then err empty_response
        else validate_checksum_value algorithm first

    abbrev pub first_of : Text → Text → Text
    first_of first checksum = if null first then checksum else first

    -- a round of the loop; what follows it depends on the first checksum that was seen
    abbrev pub plain_line :
        List Text → Text → (Text → Result ChecksumError Text) → Result ChecksumError Text
    plain_line [] first rest = rest first
    plain_line (f ∷ fs) first rest =
        if null source || checksum_line_matches_source fs source
        then validate_checksum_value algorithm f
        else rest (first_of first f)

    unfoldable pub plain_lines : Text → List Text → Text → Result ChecksumError Text
    plain_lines shown [] first = first_or_error shown first
    plain_lines shown (l ∷ ls) first = plain_line (fields (trim l)) first (plain_lines shown ls)

  abbrev pub or_plain :
      Option (Result ChecksumError Text) → Result ChecksumError Text → Result ChecksumError Text
  or_plain none plain = plain
  or_plain (some labeled) plain = labeled

  -- `parseChecksumValueForAlgorithm`
  unfoldable pub parse_checksum_value_for_algorithm :
      ChecksumAlgorithm → Text → Text → Result ChecksumError Text
  parse_checksum_value_for_algorithm algorithm value source_file_name =
      let source = normalize_checksum_file_name source_file_name in
      or_plain (parse_labeled_checksum_value algorithm source value)
        (plain_lines algorithm source source_file_name (lines_of value) [])

  -- `parseChecksumValue`
  abbrev pub parse_checksum_value : Text → Result ChecksumError Text
  parse_checksum_value value = parse_checksum_value_for_algorithm sha256 value []

-- the algorithms that `parseGitHubAssetDigest` takes
abbrev pub digest_algorithm : Text → Option ChecksumAlgorithm
digest_algorithm name =
    if name == codes "md5"
    then some md5
    else if name == codes "sha256"
    then some sha256
    else if name == codes "sha3-256"
    then some sha3_256
    else none

abbrev pub digest_value :
    ChecksumAlgorithm → Text → Result ChecksumError Text → Option (ChecksumAlgorithm × Text)
digest_value algorithm checksum (err reason) = none
digest_value algorithm checksum (ok valid) = some (algorithm, trim checksum)

abbrev pub digest_with : Option ChecksumAlgorithm → Text → Option (ChecksumAlgorithm × Text)
digest_with none checksum = none
digest_with (some algorithm) checksum =
    digest_value algorithm checksum (validate_checksum_value algorithm checksum)

abbrev pub digest_parts : Option (Text × Text) → Option (ChecksumAlgorithm × Text)
digest_parts none = none
digest_parts (some (name, checksum)) = digest_with (digest_algorithm (norm name)) checksum

-- `parseGitHubAssetDigest`
unfoldable pub parse_github_asset_digest : Text → Option (ChecksumAlgorithm × Text)
parse_github_asset_digest digest = digest_parts (cut b':' (trim digest))

-- what `os.Open` and `io.Copy` make of a path: it is not opened, it is opened and not read to its
-- end, or it is read
pub data File : Type 0 where
  unopened unreadable : File
  readable : Text → File

module _ (sum : ChecksumAlgorithm → Text → Text) where
  abbrev pub compare_sum : ChecksumAlgorithm → Text → File → Option ChecksumError
  compare_sum algorithm expected unopened = some not_opened
  compare_sum algorithm expected unreadable = some not_read
  compare_sum algorithm expected (readable content) =
      if equal_fold expected (sum algorithm content)
      then none
      else some (mismatch expected (sum algorithm content))

  abbrev pub compare_valid :
      ChecksumAlgorithm → File → Result ChecksumError Text → Option ChecksumError
  compare_valid algorithm file (err reason) = some reason
  compare_valid algorithm file (ok expected) = compare_sum algorithm expected file

  -- `verifyFileChecksum`; the tests of the form are those of `validateChecksumValue`
  unfoldable pub verify_file_checksum : ChecksumAlgorithm → Text → File → Option ChecksumError
  verify_file_checksum unset expected file = none
  verify_file_checksum md5 expected file =
      compare_valid md5 file (validate_checksum_value md5 expected)
  verify_file_checksum sha256 expected file =
      compare_valid sha256 file (validate_checksum_value sha256 expected)
  verify_file_checksum sha3_256 expected file =
      compare_valid sha3_256 file (validate_checksum_value sha3_256 expected)
  verify_file_checksum embedded_commit_id expected file =
      some (unsupported_algorithm embedded_commit_id)
  verify_file_checksum (other name) expected file = some (unsupported_algorithm (other name))
