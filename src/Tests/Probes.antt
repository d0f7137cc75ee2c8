-- ===== src/Tests/Probes.antt =====
-- Answers of a server to the requests of a download, with chunks of 300 bytes.
use polka.Base.{codes, trim, ◌≤◌, ◌<◌, ◌^◌, ◌≡◌, ◌↔◌, refl, some, none, []}
use polka.Base.Strings.{cut_prefix, cut, trim_left, trim_right, is_space}
use polka.Tools.Probe.{Response, RangeValidator, etag, ContentRange, parse_content_range, parse_int}
use polka.Tools.Probe.{parse_digits, validate_chunk_response, after_probe, run_transfer}
use polka.Tools.Probe.Laws.{parse_content_range_sound, validate_chunk_response_iff, IsChunk}
use polka.Tools.Probe.Laws.{after_probe_run_transfer, IsFirstChunk}

abbrev answer : Response
answer = record {
  status = 206;
  content_encoding = [];
  content_range = codes "bytes 0-299/1000";
  etag = codes "\"v1\"";
  last_modified = [];
}

abbrev first_range : ContentRange
first_range = record { start = 0; end = 299; total = 1000 }

abbrev version : RangeValidator
version = record { header = etag; value = codes "\"v1\"" }

parsed : parse_content_range (codes "bytes 0-299/1000") ≡ some first_range
unfolding parse_content_range parse_int parse_digits cut_prefix cut trim trim_left trim_right
    is_space
parsed = refl

parse_content_range_sound_example :
    (first_range.start ≤ first_range.end)
    × (first_range.end < first_range.total)
    × (first_range.total < 2 ^ 63)
parse_content_range_sound_example =
    parse_content_range_sound (codes "bytes 0-299/1000") first_range parsed

validate_chunk_response_iff_example :
    (validate_chunk_response 1000 version answer 0 299 ≡ none) ↔ IsChunk 1000 version answer 0 299
validate_chunk_response_iff_example = validate_chunk_response_iff 1000 version answer 0 299

after_probe_run_transfer_example :
    (after_probe 300 answer ≡ run_transfer 1000 version) ↔ IsFirstChunk 300 answer 1000 version
after_probe_run_transfer_example = after_probe_run_transfer 300 answer 1000 version
