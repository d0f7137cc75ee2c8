-- ===== src/Config/Memory.antt =====
-- The PHP `memory_limit` value: `NormalizePHPMemoryLimit` and `ValidatePHPMemoryLimit`.
pub mod Laws
use polka.Base.{ℕ, ◌-◌, Text, ◌==◌, codes, null, trim, Bool, true, false, not, ◌&&◌, ◌||◌, [], ◌∷◌}
use polka.Base.{length, ltb, leb, eqb, if◌then◌else◌, Option, none, some}
use polka.Config.Values.{Value, nil, str, sprint}

abbrev upper_unit : ℕ → ℕ
upper_unit c = if eqb c b'k' || eqb c b'm' || eqb c b'g' then c - 32 else c

-- replaces the last character, if it is a lower-case unit
unfoldable pub raise_unit : Text → Text
raise_unit [] = []
raise_unit (c ∷ []) = upper_unit c ∷ []
raise_unit (c ∷ d ∷ s) = c ∷ raise_unit (d ∷ s)

-- `NormalizePHPMemoryLimit`
unfoldable pub normalize_memory_limit : Text → Text
unfolding raise_unit
normalize_memory_limit value =
    let normalized = trim value in
    if ltb (length normalized) 2 then normalized else raise_unit normalized

abbrev pub is_unit : ℕ → Bool
is_unit c = eqb c b'K' || eqb c b'M' || eqb c b'G'

-- the text without its last character, if that is a unit
unfoldable pub drop_unit : Text → Text
drop_unit [] = []
drop_unit (c ∷ []) = if is_unit c then [] else c ∷ []
drop_unit (c ∷ d ∷ s) = c ∷ drop_unit (d ∷ s)

abbrev pub is_digit : ℕ → Bool
is_digit c = leb b'0' c && leb c b'9'

unfoldable pub all_digits : Text → Bool
all_digits [] = true
all_digits (c ∷ s) = is_digit c && all_digits s

-- `ValidatePHPMemoryLimit`: whether the value is accepted
unfoldable pub validate_memory_limit : Text → Bool
unfolding drop_unit all_digits
validate_memory_limit value =
    let normalized = normalize_memory_limit value in
    let digits = drop_unit normalized in
    if null normalized || normalized == codes "-1"
    then true
    else not (null digits) && all_digits digits

-- `phpMemoryLimitValueString`
unfoldable pub memory_limit_value_string : Value → Text
memory_limit_value_string nil = []
memory_limit_value_string v = trim (sprint v)

-- `phpMemoryLimitFileValue`
unfoldable pub memory_limit_file_value : Text → Value
memory_limit_file_value value =
    let normalized = normalize_memory_limit value in if null normalized then nil else str normalized
