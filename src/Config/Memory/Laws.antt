-- ===== src/Config/Memory/Laws.antt =====
-- Memory limits: normalising them, their value in a file, and validation (config/types.go).
use polka.Base.{ℕ, suc, ◌≤◌, Text, ◌==◌, codes, null, trim, true, false, not, ◌&&◌, ◌||◌}
use polka.Base.{[], ◌∷◌, ◌++◌, length, if◌then◌else◌, All, ◌≡◌, ◌≢◌, ◌⊎◌, inl, inr}
use polka.Base.{refl, ap, arith, ◌↔◌, Bool-cases}
use mathlib.Core.List.{cons-ne-nil}
use polka.Config.Values.{sprint}
use polka.Base.Strings.{is_space, trim_left, trim_right}
use polka.Base.Strings.Laws.{trim-trim, trim-nil, trim_left-trim, trim_right-trim, length-trim_left}
use polka.Config.Memory.{upper_unit, raise_unit, normalize_memory_limit, is_unit, drop_unit}
use polka.Config.Memory.{all_digits, validate_memory_limit, memory_limit_value_string}
use polka.Config.Memory.{memory_limit_file_value}

length-raise_unit : (s : Text) → length (raise_unit s) ≡ length s
unfolding raise_unit
length-raise_unit [] = refl
length-raise_unit (c ∷ []) = refl
length-raise_unit (c ∷ d ∷ s) = ap suc (length-raise_unit (d ∷ s))

raise_unit-raise_unit : (s : Text) → raise_unit (raise_unit s) ≡ raise_unit s
unfolding raise_unit
raise_unit-raise_unit [] = refl
raise_unit-raise_unit (c ∷ []) = ground arith
raise_unit-raise_unit (c ∷ d ∷ []) = ground arith
raise_unit-raise_unit (c ∷ d ∷ e ∷ s) = ap (λ t. c ∷ t) (raise_unit-raise_unit (d ∷ e ∷ s))

is_space-upper_unit : (c : ℕ) → is_space c ≡ false → is_space (upper_unit c) ≡ false
unfolding is_space
is_space-upper_unit c h = ground arith

trim_right-raise_unit : (s : Text) → trim_right s ≡ s → trim_right (raise_unit s) ≡ raise_unit s
unfolding raise_unit trim_right
trim_right-raise_unit [] h = refl
trim_right-raise_unit (c ∷ []) h = ground (arith, is_space-upper_unit c)
trim_right-raise_unit (c ∷ d ∷ s) h = ground (arith, trim_right-raise_unit (d ∷ s))

trim_left-cons : (c : ℕ) (s : Text) → trim_left (c ∷ s) ≡ c ∷ s → is_space c ≡ false
unfolding trim_left
trim_left-cons c s h = ground (arith, length-trim_left s, ap length h)

trim_left-raise_unit : (s : Text) → trim_left s ≡ s → trim_left (raise_unit s) ≡ raise_unit s
unfolding raise_unit
trim_left-raise_unit [] h = h
trim_left-raise_unit (c ∷ []) h =
    unfold trim_left in ground (arith, is_space-upper_unit c (trim_left-cons c [] h))
trim_left-raise_unit (c ∷ d ∷ s) h = unfold trim_left in ground (arith, trim_left-cons c (d ∷ s) h)

trim-raise_unit : (s : Text) → trim (raise_unit (trim s)) ≡ raise_unit (trim s)
unfolding trim
trim-raise_unit s =
    rw (trim_left-raise_unit (trim s) (trim_left-trim s))
      (trim_right-raise_unit (trim s) (trim_right-trim s))

trim-normalize_memory_limit :
    (v : Text) → trim (normalize_memory_limit v) ≡ normalize_memory_limit v
unfolding normalize_memory_limit
trim-normalize_memory_limit v = ground (arith, trim-trim v, trim-raise_unit v)

-- Normalising a memory limit twice is normalising it once.
pub normalize_memory_limit_idem :
    (v : Text) → normalize_memory_limit (normalize_memory_limit v) ≡ normalize_memory_limit v
unfolding normalize_memory_limit
normalize_memory_limit_idem v = ground (
  arith,
  trim-trim v,
  trim-raise_unit v,
  length-raise_unit (trim v),
  raise_unit-raise_unit (trim v),
)

normalize-nil : normalize_memory_limit [] ≡ []
unfolding normalize_memory_limit
normalize-nil = rw trim-nil

-- A memory limit that is written to a file and read back is the normalised one.
pub memory_limit_value_string-memory_limit_file_value :
    (v : Text)
    → normalize_memory_limit (memory_limit_value_string (memory_limit_file_value v))
      ≡ normalize_memory_limit v
unfolding memory_limit_value_string memory_limit_file_value sprint
memory_limit_value_string-memory_limit_file_value v =
    ground (arith, trim-normalize_memory_limit v, normalize_memory_limit_idem v, normalize-nil)

abbrev IsDigit : ℕ → Type 0
IsDigit c = (b'0' ≤ c) × (c ≤ b'9')

-- no unit, or one of `K`, `M` and `G`
abbrev IsUnitSuffix : Text → Type 0
IsUnitSuffix u = (u ≡ []) ⊎ (u ≡ codes "K") ⊎ (u ≡ codes "M") ⊎ (u ≡ codes "G")

-- digits, at least one, and a unit suffix
abbrev pub IsSize : Text → Type 0
IsSize t = (ds : Text) × (u : Text) × (t ≡ ds ++ u) × (ds ≢ []) × All IsDigit ds × IsUnitSuffix u

all_digits-All : (s : Text) → all_digits s ≡ true → All IsDigit s
unfolding all_digits
all_digits-All [] h = tt
all_digits-All (c ∷ s) h = ground (arith, all_digits-All s)

All-all_digits : (s : Text) → All IsDigit s → all_digits s ≡ true
unfolding all_digits
All-all_digits [] h = refl
All-all_digits (c ∷ s) h = ground (arith, All-all_digits s)

drop_unit-split : (s : Text) → (u : Text) × (s ≡ drop_unit s ++ u) × IsUnitSuffix u
unfolding drop_unit
drop_unit-split [] = ([], refl, inl refl)
drop_unit-split (c ∷ []) = elim (Bool-cases (is_unit c)) [
  | inl h ↦ (c ∷ [], ground arith, ground arith)
  | inr h ↦ ([], ground arith, ground arith)
]
drop_unit-split (c ∷ d ∷ s) = let (u, e, k) = drop_unit-split (d ∷ s) in (u, ap (λ t. c ∷ t) e, k)

drop_unit-append :
    (ds u : Text) → ds ≢ [] → All IsDigit ds → IsUnitSuffix u → drop_unit (ds ++ u) ≡ ds
unfolding drop_unit
drop_unit-append [] u n h k = absurd (n refl)
drop_unit-append (c ∷ []) u n h k = elim k [
  | inl e ↦ rw e (ground arith)
  | inr (inl e) ↦ rw e
  | inr (inr (inl e)) ↦ rw e
  | inr (inr (inr e)) ↦ rw e
]
drop_unit-append (c ∷ d ∷ ds) u n h k =
    ap (λ t. c ∷ t) (drop_unit-append (d ∷ ds) u (cons-ne-nil d ds) h.1 k)

IsSize-of_digits :
    (t : Text) → (not (null (drop_unit t)) && all_digits (drop_unit t)) ≡ true → IsSize t
IsSize-of_digits t h =
    let (u, e, k) = drop_unit-split t in
    (drop_unit t, u, e, ground arith, all_digits-All (drop_unit t) (ground arith), k)

digits_of_size :
    (t : Text) → IsSize t → (not (null (drop_unit t)) && all_digits (drop_unit t)) ≡ true
digits_of_size t (ds, u, e, n, h, k) =
    rw (e, drop_unit-append ds u n h k, All-all_digits ds h) (ground arith)

abbrev pub IsMemoryLimit : Text → Type 0
IsMemoryLimit t = (t ≡ []) ⊎ (t ≡ codes "-1") ⊎ IsSize t

limit_sound :
    (t : Text)
    → (if null t || t == codes "-1"
        then true
        else not (null (drop_unit t)) && all_digits (drop_unit t))
      ≡ true
    → IsMemoryLimit t
limit_sound t h = elim (Bool-cases (null t || t == codes "-1")) [
  | inl e ↦ ground arith
  | inr e ↦ inr (inr (IsSize-of_digits t (rw e at h)))
]

limit_complete :
    (t : Text)
    → IsMemoryLimit t
    → (if null t || t == codes "-1"
        then true
        else not (null (drop_unit t)) && all_digits (drop_unit t))
      ≡ true
limit_complete t (inl e) = rw e
limit_complete t (inr (inl e)) = ground arith
limit_complete t (inr (inr size)) = ground (arith, digits_of_size t size)

-- Validation accepts a value exactly when its normal form is empty, -1, or one or more digits with
-- at most one of the units K, M and G.
pub validate_memory_limit_iff :
    (v : Text) → (validate_memory_limit v ≡ true) ↔ IsMemoryLimit (normalize_memory_limit v)
unfolding validate_memory_limit
validate_memory_limit_iff v =
    (limit_sound (normalize_memory_limit v), limit_complete (normalize_memory_limit v))
