-- ===== src/Tools/Probe.antt =====
-- What a download makes of a server's answers (tools/ranged_download.go): the first request, which
-- asks for a range, and the requests for the chunks.
pub mod Laws
use polka.Base.{
  ℕ, zero, suc, ◌+◌, ◌*◌, ◌-◌, ◌^◌, min, Text, codes, text_dec, ◌==◌, null, trim, Bool, true,
}
use polka.Base.{false, not, ◌&&◌, ◌||◌, Option, none, some, [], ◌∷◌, if◌then◌else◌, ltb, leb, eqb}
use polka.Base.Strings.{equal_fold, cut_prefix, cut}
use polka.Base.Int.{ℤ, pos, negsuc}
use polka.Tools.Transfer.{ChunkError, unusable, transient}

-- a response: its status code and what `Header.Get` gives for the headers that are read
pub record Response : Type 0 where
  pub status : ℕ
  pub content_encoding : Text
  pub content_range : Text
  pub etag : Text
  pub last_modified : Text

-- `responseIsEncoded`
unfoldable pub response_is_encoded : Response → Bool
response_is_encoded r =
    let encoding = trim r.content_encoding in
    not (null encoding) && not (equal_fold encoding (codes "identity"))

pub data HeaderName : Type 0 where
  etag last_modified : HeaderName

-- `rangeValidator`
pub record RangeValidator : Type 0 where
  pub header : HeaderName
  pub value : Text

-- `response.Header.Get`
abbrev pub get_header : HeaderName → Response → Text
get_header etag r = r.etag
get_header last_modified r = r.last_modified

-- `rangeValidator.matches`
unfoldable pub matches : RangeValidator → Response → Bool
matches v r = get_header v.header r == v.value

-- `strings.HasPrefix(etag, "W/")`
abbrev pub is_weak : Text → Bool
is_weak tag = elim (cut_prefix (codes "W/") tag) [ none ↦ false | some rest ↦ true ]

-- `responseRangeValidator`
unfoldable pub response_range_validator : Response → Option RangeValidator
response_range_validator r =
    let tag = trim r.etag in
    let modified = trim r.last_modified in
    if not (null tag) && not (is_weak tag)
    then some (record { header = etag; value = tag })
    else if not (null modified)
    then some (record { header = last_modified; value = modified })
    else none

-- the number that decimal digits stand for, read after those of `n`
unfoldable pub parse_digits : ℕ → Text → Option ℕ
parse_digits n [] = some n
parse_digits n (c ∷ s) =
    let rest = parse_digits (n * 10 + (c - b'0')) s in
    if leb b'0' c && leb c b'9' then rest else none

abbrev pub unsigned : Text → Option ℕ
unsigned [] = none
unsigned (c ∷ s) = parse_digits 0 (c ∷ s)

-- within the range of an int64
abbrev pub positive : Option ℕ → Option ℤ
positive none = none
positive (some n) = if ltb n (2 ^ 63) then some (pos n) else none

abbrev pub negative : Option ℕ → Option ℤ
negative none = none
negative (some zero) = some (pos 0)
negative (some (suc n)) = if ltb n (2 ^ 63) then some (negsuc n) else none

-- `strconv.ParseInt(s, 10, 64)`
unfoldable pub parse_int : Text → Option ℤ
parse_int [] = none
parse_int (c ∷ s) =
    if eqb c b'-'
    then negative (unsigned s)
    else if eqb c b'+'
    then positive (unsigned s)
    else positive (unsigned (c ∷ s))

-- a byte range: its first byte, its last byte, and the size of the file
pub record ContentRange : Type 0 where
  pub start : ℕ
  pub end : ℕ
  pub total : ℕ

-- the last test of `parseContentRange`
abbrev pub in_order : ℤ → ℤ → ℤ → Option ContentRange
in_order (pos s) (pos e) (pos t) =
    if ltb e s || leb t e then none else some (record { start = s; end = e; total = t })
in_order (pos s) (pos e) (negsuc t) = none
in_order (pos s) (negsuc e) t = none
in_order (negsuc s) e t = none

abbrev pub and_then {ℓ κ} : {A : Type ℓ} {B : Type κ} → Option A → (A → Option B) → Option B
and_then none f = none
and_then (some a) f = f a

-- the steps of `parseContentRange`, from the last one to the first
abbrev pub from_total : Text → ℤ → ℤ → Option ContentRange
from_total total_text start end = and_then (parse_int total_text) (in_order start end)

abbrev pub from_end : Text → Text → ℤ → Option ContentRange
from_end end_text total_text start = and_then (parse_int end_text) (from_total total_text start)

abbrev pub from_span : Text → Text × Text → Option ContentRange
from_span total_text (start_text, end_text) =
    and_then (parse_int start_text) (from_end end_text total_text)

abbrev pub from_parts : Text × Text → Option ContentRange
from_parts (span, total_text) = and_then (cut b'-' span) (from_span total_text)

abbrev pub from_spec : Text → Option ContentRange
from_spec spec = and_then (cut b'/' (trim spec)) from_parts

-- `parseContentRange`
unfoldable pub parse_content_range : Text → Option ContentRange
parse_content_range value = and_then (cut_prefix (codes "bytes ") (trim value)) from_spec

-- `validateRangeProbe`
unfoldable pub validate_range_probe : Response → ℕ → Option (ℕ × RangeValidator)
validate_range_probe r chunk_size =
    if response_is_encoded r
    then none
    else and_then (parse_content_range r.content_range) (λ range.
      if not (eqb range.start 0) || not (eqb range.end (min chunk_size range.total - 1))
      then none
      else and_then (response_range_validator r) (λ validator. some (range.total, validator)))

-- `retryableDownloadStatus`
abbrev pub retryable_download_status : ℕ → Bool
retryable_download_status code =
    eqb code 408
    || eqb code 425
    || eqb code 429
    || eqb code 500
    || eqb code 502
    || eqb code 503
    || eqb code 504

-- whether a chunk's answer has the right range
abbrev pub is_range : ℕ → ℕ → ℕ → Option ContentRange → Bool
is_range start end total none = false
is_range start end total (some r) = eqb r.start start && eqb r.end end && eqb r.total total

-- `validateChunkResponse` of a transfer with this size and this validator: why the answer is refused
unfoldable pub validate_chunk_response : ℕ → RangeValidator → Response → ℕ → ℕ → Option ChunkError
validate_chunk_response total validator r start end =
    if not (eqb r.status 206)
    then (if retryable_download_status r.status && not (eqb r.status 429) && not (eqb r.status 503)
        then some transient
        else some unusable)
    else if response_is_encoded r
    then some unusable
    else if not (is_range start end total (parse_content_range r.content_range))
    then some unusable
    else if not (matches validator r)
    then some unusable
    else none

-- what `downloadFileWithProgress` does next, given the answer to its first request
pub data NextAction : Type 0 where
  write_body : NextAction
  run_transfer : ℕ → RangeValidator → NextAction
  fail_with_status : ℕ → NextAction
  single_stream : NextAction

abbrev pub transfer_or_stream : Option (ℕ × RangeValidator) → NextAction
transfer_or_stream none = single_stream
transfer_or_stream (some (total, validator)) = run_transfer total validator

-- the switch over the answer
unfoldable pub after_probe : ℕ → Response → NextAction
after_probe chunk_size r =
    if eqb r.status 200 && not (response_is_encoded r)
    then write_body
    else if eqb r.status 206
    then transfer_or_stream (validate_range_probe r chunk_size)
    else if eqb r.status 404 || eqb r.status 410 || retryable_download_status r.status
    then fail_with_status r.status
    else single_stream
