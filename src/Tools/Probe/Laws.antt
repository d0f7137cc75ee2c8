-- ===== src/Tools/Probe/Laws.antt =====
-- The answers that a download accepts (tools/ranged_download.go).
use polka.Base.{ℕ, zero, suc, ◌^◌, ◌≤◌, ◌<◌, Text, codes, trim, true}
use polka.Base.{false, Option, none, some, [], ◌∷◌, ◌≡◌, arith}
use polka.Base.{inl, inr, Option-cases, ltb→lt, ◌↔◌, ap, sym, ◌∙◌}
use polka.Base.Int.{ℤ, pos, negsuc}
use polka.Base.Strings.{cut_prefix, cut}
use polka.Tools.Chunks.Exact.{exact_end, exact_start}
use polka.Tools.Probe.{
  Response, response_is_encoded, RangeValidator, matches, response_range_validator,
}
use polka.Tools.Probe.{
  parse_int, unsigned, positive, negative, ContentRange, in_order, and_then, parse_content_range,
  from_total, from_end, from_span, from_parts, from_spec,
}
use polka.Tools.Probe.{validate_range_probe, validate_chunk_response, after_probe}
use polka.Tools.Probe.{run_transfer, get_header, is_range}

positive-lt : (o : Option ℕ) (n : ℕ) → positive o ≡ some (pos n) → n < 2 ^ 63
positive-lt none n h = cc
positive-lt (some m) n h = ground (arith, ltb→lt m (2 ^ 63))

negative-lt : (o : Option ℕ) (n : ℕ) → negative o ≡ some (pos n) → n < 2 ^ 63
negative-lt none n h = cc
negative-lt (some zero) n h = ground arith
negative-lt (some (suc m)) n h = ground arith

-- what `ParseInt` gives, if it is not negative, fits an int64
parse_int-lt : (s : Text) (n : ℕ) → parse_int s ≡ some (pos n) → n < 2 ^ 63
unfolding parse_int
parse_int-lt [] n h = cc
parse_int-lt (c ∷ s) n h = ground (
  arith,
  negative-lt (unsigned s) n,
  positive-lt (unsigned s) n,
  positive-lt (unsigned (c ∷ s)) n,
)

in_order_sound :
    (s e t : ℤ) (r : ContentRange)
    → in_order s e t ≡ some r
    → (r.start ≤ r.end) × (r.end < r.total) × (t ≡ pos r.total)
in_order_sound (pos s) (pos e) (pos t) r h = ground arith
in_order_sound (pos s) (pos e) (negsuc t) r h = cc
in_order_sound (pos s) (negsuc e) t r h = cc
in_order_sound (negsuc s) e t r h = cc

abbrev IsRange : ContentRange → Type 0
IsRange r = (r.start ≤ r.end) × (r.end < r.total) × (r.total < 2 ^ 63)

-- what holds of whatever a step gives holds of what it gives after another one
IsRange-and_then {ℓ} :
    {A : Type ℓ} (o : Option A) (f : A → Option ContentRange) (r : ContentRange)
    → ((a : A) → f a ≡ some r → IsRange r)
    → and_then o f ≡ some r
    → IsRange r
IsRange-and_then none f r step h = cc
IsRange-and_then (some a) f r step h = step a h

IsRange-from_total :
    (t : Text) (start end : ℤ) (r : ContentRange) → from_total t start end ≡ some r → IsRange r
IsRange-from_total t start end r h = elim (Option-cases (parse_int t)) [
  | inl p ↦ absurd (ground arith)
  | inr (total, p) ↦
      let (a, b, c) =
        in_order_sound start end total r (sym (ap (λ o. and_then o (in_order start end)) p) ∙ h) in
      (a, b, parse_int-lt t r.total (p ∙ ap some c))
]

IsRange-from_span :
    (t : Text) (parts : Text × Text) (r : ContentRange) → from_span t parts ≡ some r → IsRange r
IsRange-from_span t (s, e) r = IsRange-and_then (parse_int s) (from_end e t) r (λ start.
    IsRange-and_then (parse_int e) (from_total t start) r (λ end. IsRange-from_total t start end r))

IsRange-from_parts :
    (parts : Text × Text) (r : ContentRange) → from_parts parts ≡ some r → IsRange r
IsRange-from_parts (span, t) r =
    IsRange-and_then (cut b'-' span) (from_span t) r (λ p. IsRange-from_span t p r)

-- A parsed Content-Range is a range of bytes in a file: it does not end before it starts, it ends
-- inside the file, and the size of the file fits an int64.
pub parse_content_range_sound :
    (value : Text) (r : ContentRange)
    → parse_content_range value ≡ some r
    → (r.start ≤ r.end) × (r.end < r.total) × (r.total < 2 ^ 63)
unfolding parse_content_range
parse_content_range_sound value r =
    IsRange-and_then (cut_prefix (codes "bytes ") (trim value)) from_spec r
      (λ spec. IsRange-and_then (cut b'/' (trim spec)) from_parts r (λ p. IsRange-from_parts p r))

-- the answer to a chunk's request holds the bytes that were asked for, of the same file
abbrev pub IsChunk : ℕ → RangeValidator → Response → ℕ → ℕ → Type 0
IsChunk total v r start end =
    (r.status ≡ 206)
    × (response_is_encoded r ≡ false)
    × (parse_content_range r.content_range
        ≡ some (record { start = start; end = end; total = total }))
    × (get_header v.header r ≡ v.value)

is_range_iff :
    (start end total : ℕ) (o : Option ContentRange)
    → (is_range start end total o ≡ true)
      ↔ (o ≡ some (record { start = start; end = end; total = total }))
is_range_iff start end total none = ((λ h. cc), (λ h. cc))
is_range_iff start end total (some r) = ((λ h. ground arith), (λ h. ground arith))

-- The answer to a chunk's request is accepted exactly when its status is 206, it is not encoded, its
-- Content-Range is the one that was asked for of a file of this size, and the header of the validator
-- has its value.
pub validate_chunk_response_iff :
    (total : ℕ) (v : RangeValidator) (r : Response) (start end : ℕ)
    → (validate_chunk_response total v r start end ≡ none) ↔ IsChunk total v r start end
unfolding validate_chunk_response matches
validate_chunk_response_iff total v r start end = (
  (λ h. ground (arith, is_range_iff start end total (parse_content_range r.content_range))),
  (λ h. ground (arith, is_range_iff start end total (parse_content_range r.content_range))),
)

-- the answer to the first request is chunk 0 of a file of this size, with a validator; the end is
-- that of `transferChunk`, by `chunk_end-first` of Tools/Chunks/Laws
abbrev pub IsFirstChunk : ℕ → Response → ℕ → RangeValidator → Type 0
IsFirstChunk size r total v =
    (r.status ≡ 206)
    × (response_is_encoded r ≡ false)
    × (parse_content_range r.content_range
        ≡ some (record { start = 0; end = exact_end total size 0; total = total }))
    × (response_range_validator r ≡ some v)

-- A ranged transfer is run, for a size and a validator, exactly if the answer to the first request is
-- a 206 that is not encoded, its Content-Range is chunk 0 of a file of that size, and that validator
-- is taken from its headers.
pub after_probe_run_transfer :
    (size : ℕ) (r : Response) (total : ℕ) (v : RangeValidator)
    → (after_probe size r ≡ run_transfer total v) ↔ IsFirstChunk size r total v
unfolding after_probe validate_range_probe exact_end exact_start
after_probe_run_transfer size r total v = ((λ h. ground arith), (λ h. ground arith))
