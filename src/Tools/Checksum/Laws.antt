-- ===== src/Tools/Checksum/Laws.antt =====
-- Reading a checksum and verifying a file with it (tools/downloader.go).
use polka.Base.{
  ℕ, Text, trim, null, Bool, true, false, not, ◌||◌, Option, none, some, List, [], ◌∷◌,
  if◌then◌else◌,
}
use polka.Base.{◌≡◌, ap, sym, ◌∙◌, arith}
use polka.Base.Strings.{equal_fold, trim_prefix}
use polka.Base.Strings.Laws.{trim-trim}
use polka.Base.Result.{Result, ok, err}
use polka.Tools.Checksum.{
  ChecksumAlgorithm, ChecksumError, unset, mismatch, checksum_size, check_digits, check_sized,
  validate_checksum_value,
}
use polka.Tools.Checksum.{
  labeled_value, value_or, labeled_lines, labeled_with, plain_line, plain_lines, first_or_error,
  fields, is_label,
}
use polka.Tools.Checksum.{
  or_plain, parse_labeled_checksum_value, parse_checksum_value_for_algorithm,
  normalize_checksum_file_name, verify_file_checksum, compare_valid, first_of,
  checksum_line_matches_source, lines_of, checksum_label_for_algorithm, none_found, empty_response,
  md5, sha256, sha3_256, embedded_commit_id, other, readable,
}

check_digits-twice :
    (size : ℕ) (s c : Text) → check_digits size (trim s) ≡ ok c → check_digits size (trim c) ≡ ok c
check_digits-twice size s c h =
    let same : trim s ≡ c = ground (arith, h) in
    let trimmed : trim c ≡ trim s = ap trim (sym same) ∙ trim-trim s in
    ap (check_digits size) trimmed ∙ h

-- a value that is accepted is accepted again, and stays as it is
validate_checksum_value_idem :
    (algorithm : ChecksumAlgorithm) (s c : Text)
    → validate_checksum_value algorithm s ≡ ok c
    → validate_checksum_value algorithm c ≡ ok c
unfolding validate_checksum_value
validate_checksum_value_idem algorithm s c h = go (checksum_size algorithm) h
  where
    go : (o : Option ℕ) → check_sized algorithm o s ≡ ok c → check_sized algorithm o c ≡ ok c
    go none g = cc
    go (some size) g = check_digits-twice size s c g

module _ (base_name : Text → Text) (algorithm : ChecksumAlgorithm) (source : Text) (c : Text) where
  -- the value has been accepted for the algorithm
  abbrev IsValid : Type 0
  IsValid = validate_checksum_value algorithm c ≡ ok c

  value_or-IsValid :
      (fs : List Text) (rest : Result ChecksumError Text)
      → (rest ≡ ok c → IsValid)
      → value_or base_name algorithm source fs rest ≡ ok c
      → IsValid
  value_or-IsValid [] rest f h = f h
  value_or-IsValid (x ∷ fs) rest f h = validate_checksum_value_idem algorithm x c h

  labeled_value-IsValid :
      (ls : List Text) → labeled_value base_name algorithm source ls ≡ ok c → IsValid
  unfolding labeled_value
  labeled_value-IsValid [] h = cc
  labeled_value-IsValid (l ∷ ls) h =
      value_or-IsValid (fields (trim l)) (labeled_value base_name algorithm source ls)
        (labeled_value-IsValid ls) h

  labeled_lines-IsValid :
      (label : Text) (ls : List Text)
      → labeled_lines base_name algorithm source label ls ≡ some (ok c)
      → IsValid
  unfolding labeled_lines
  labeled_lines-IsValid label [] h = cc
  labeled_lines-IsValid label (l ∷ ls) h =
      found
        (is_label base_name algorithm source label (fields (trim (trim_prefix (0xfeff ∷ []) l))))
        (labeled_value base_name algorithm source ls)
        (labeled_lines base_name algorithm source label ls) (labeled_value-IsValid ls)
        (labeled_lines-IsValid label ls) h
    where
      found :
          (b : Bool) (v : Result ChecksumError Text) (rest : Option (Result ChecksumError Text))
          → (v ≡ ok c → IsValid)
          → (rest ≡ some (ok c) → IsValid)
          → (if b then some v else rest) ≡ some (ok c)
          → IsValid
      found true v rest f g e = f (ground (arith, e))
      found false v rest f g e = g e

  labeled-IsValid :
      (value : Text)
      → parse_labeled_checksum_value base_name algorithm source value ≡ some (ok c)
      → IsValid
  labeled-IsValid value h = go (checksum_label_for_algorithm algorithm) h
    where
      go :
          (o : Option Text)
          → labeled_with base_name algorithm source o (lines_of value) ≡ some (ok c)
          → IsValid
      go none e = cc
      go (some label) e = labeled_lines-IsValid label (lines_of value) e

  first_or_error-IsValid :
      (shown first : Text) → first_or_error base_name algorithm source shown first ≡ ok c → IsValid
  first_or_error-IsValid shown first h = go (null source) (null first) h
    where
      go :
          (p q : Bool)
          → (if not p
              then err (none_found shown)
              else if q
              then err empty_response
              else validate_checksum_value algorithm first)
            ≡ ok c
          → IsValid
      go false q e = cc
      go true true e = cc
      go true false e = validate_checksum_value_idem algorithm first c e

  plain_line-IsValid :
      (fs : List Text) (first : Text) (rest : Text → Result ChecksumError Text)
      → ((t : Text) → rest t ≡ ok c → IsValid)
      → plain_line base_name algorithm source fs first rest ≡ ok c
      → IsValid
  plain_line-IsValid [] first rest f h = f first h
  plain_line-IsValid (x ∷ fs) first rest f h =
      go (null source || checksum_line_matches_source base_name fs source) h
    where
      go :
          (b : Bool)
          → (if b
              then validate_checksum_value algorithm x
              else rest (first_of base_name algorithm source first x))
            ≡ ok c
          → IsValid
      go true e = validate_checksum_value_idem algorithm x c e
      go false e = f (first_of base_name algorithm source first x) e

  plain_lines-IsValid :
      (shown : Text) (ls : List Text) (first : Text)
      → plain_lines base_name algorithm source shown ls first ≡ ok c
      → IsValid
  unfolding plain_lines
  plain_lines-IsValid shown [] first h = first_or_error-IsValid shown first h
  plain_lines-IsValid shown (l ∷ ls) first h =
      plain_line-IsValid (fields (trim l)) first (plain_lines base_name algorithm source shown ls)
        (plain_lines-IsValid shown ls) h

pub parse_checksum_value_for_algorithm-IsValid :
    (base_name : Text → Text) (algorithm : ChecksumAlgorithm) (value source c : Text)
    → parse_checksum_value_for_algorithm base_name algorithm value source ≡ ok c
    → validate_checksum_value algorithm c ≡ ok c
unfolding parse_checksum_value_for_algorithm
parse_checksum_value_for_algorithm-IsValid base_name algorithm value source c h =
    go
      (parse_labeled_checksum_value base_name algorithm
        (normalize_checksum_file_name base_name source) value)
      (λ e. e) h
  where
    name : Text
    name = normalize_checksum_file_name base_name source

    go :
        (o : Option (Result ChecksumError Text))
        → (o ≡ some (ok c)
            → parse_labeled_checksum_value base_name algorithm name value ≡ some (ok c))
        → or_plain base_name o (plain_lines base_name algorithm name source (lines_of value) [])
          ≡ ok c
        → validate_checksum_value algorithm c ≡ ok c
    go none f e = plain_lines-IsValid base_name algorithm name c source (lines_of value) [] e
    go (some v) f e = labeled-IsValid base_name algorithm name c value (f (ap some e))

-- A checksum that is read from an answer for an algorithm, in whichever form, is one that a file can
-- be verified with: the verification of a file that can be opened and read to its end then succeeds
-- if the sum of its content equals the checksum but for case, and otherwise fails with a mismatch,
-- never because of the form of the checksum or the algorithm.
pub verify_file_checksum-parse_checksum_value_for_algorithm :
    (base_name : Text → Text) (sum : ChecksumAlgorithm → Text → Text)
    (algorithm : ChecksumAlgorithm) (value source c content : Text)
    → parse_checksum_value_for_algorithm base_name algorithm value source ≡ ok c
    → verify_file_checksum sum algorithm c (readable content) ≡ (
        if equal_fold c (sum algorithm content)
        then none
        else some (mismatch c (sum algorithm content)))
verify_file_checksum-parse_checksum_value_for_algorithm base_name sum algorithm value source c
      content h =
    verified algorithm
      (parse_checksum_value_for_algorithm-IsValid base_name algorithm value source c h)
  where
    verified :
        (a : ChecksumAlgorithm)
        → validate_checksum_value a c ≡ ok c
        → verify_file_checksum sum a c (readable content)
          ≡ (if equal_fold c (sum a content) then none else some (mismatch c (sum a content)))
    verified md5 v = unfold verify_file_checksum in ap (compare_valid sum md5 (readable content)) v
    verified sha256 v =
        unfold verify_file_checksum in ap (compare_valid sum sha256 (readable content)) v
    verified sha3_256 v =
        unfold verify_file_checksum in ap (compare_valid sum sha3_256 (readable content)) v
    verified unset v = unfold validate_checksum_value in cc
    verified embedded_commit_id v = unfold validate_checksum_value in cc
    verified (other name) v = unfold validate_checksum_value in cc
