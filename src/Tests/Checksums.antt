-- ===== src/Tests/Checksums.antt =====
-- A checksum of a file among several, and the verification of the file.
use polka.Base.{Text, codes, text_dec, none, some, ◌∷◌, ◌++◌, ◌≡◌, refl, if◌then◌else◌}
use polka.Base.Strings.{
  split, cut_prefix, trim_prefix, is_space, trim, trim_left, trim_right, equal_fold,
}
use polka.Base.Result.{ok}
use polka.Tools.Checksum.{
  md5, mismatch, readable, parse_checksum_value_for_algorithm, verify_file_checksum,
}
use polka.Tools.Checksum.{
  validate_checksum_value, all_hex, fields_from, upper_char, trim_suffix,
  normalize_checksum_file_name, checksum_line_matches_source, labeled_value, labeled_lines,
  plain_lines,
}
use polka.Tools.Checksum.Laws.{verify_file_checksum-parse_checksum_value_for_algorithm}

abbrev sums : Text
sums =
    codes "00112233445566778899aabbccddeeff  a.tgz"
    ++ 10 ∷ codes "ffeeddccbbaa99887766554433221100 *b.tgz"

abbrev checksum : Text
checksum = codes "ffeeddccbbaa99887766554433221100"

read : parse_checksum_value_for_algorithm (λ path. path) md5 sums (codes "b.tgz") ≡ ok checksum
unfolding parse_checksum_value_for_algorithm normalize_checksum_file_name
    checksum_line_matches_source labeled_value labeled_lines plain_lines validate_checksum_value
    all_hex fields_from upper_char trim_suffix split trim_prefix cut_prefix text_dec trim trim_left
    trim_right is_space
read = refl

verify_file_checksum-parse_checksum_value_for_algorithm_example :
    verify_file_checksum (λ algorithm content. content) md5 checksum (readable (codes "00"))
    ≡ (if equal_fold checksum (codes "00") then none else some (mismatch checksum (codes "00")))
verify_file_checksum-parse_checksum_value_for_algorithm_example =
    verify_file_checksum-parse_checksum_value_for_algorithm (λ path. path)
      (λ algorithm content. content) md5 sums (codes "b.tgz") checksum (codes "00") read
