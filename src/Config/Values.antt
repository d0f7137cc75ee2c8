-- ===== src/Config/Values.antt =====
-- The `any` values that a YAML file holds, and the conversions of config/types.go on them.
pub mod Laws
use polka.Base.{ℕ, Text, codes, null, trim, Bool, true, false, Option, none, some, if◌then◌else◌}
use polka.Base.Int.{ℤ, is_zero, to_int64, print_ℕ, print_ℤ}

-- `int` is a value of one of the signed types, `uint` of one of the unsigned types, and `other`
-- any other value (a float, a list, a map), as the text that `fmt.Sprint` prints for it.
pub data Value : Type 0 where
  nil : Value
  bool : Bool → Value
  str : Text → Value
  int : ℤ → Value
  uint : ℕ → Value
  other : Text → Value

-- `settingIntValue`
unfoldable pub setting_int_value : Value → Option ℤ
setting_int_value (int z) = some z
setting_int_value (uint n) = some (to_int64 n)
setting_int_value v = none

-- the `default` case of `normalizeSettingValue`
abbrev pub normalize_number : Value → Option ℤ → Option Value
normalize_number v none = some v
normalize_number v (some z) = if is_zero z then none else some (int z)

-- `normalizeSettingValue`; `none` stands for `nil, false`
unfoldable pub normalize_setting_value : Value → Option Value
unfolding setting_int_value
normalize_setting_value nil = none
normalize_setting_value (bool b) = if b then some (bool true) else none
normalize_setting_value (str s) = let t = trim s in if null t then none else some (str t)
normalize_setting_value (int z) = normalize_number (int z) (setting_int_value (int z))
normalize_setting_value (uint n) = normalize_number (uint n) (setting_int_value (uint n))
normalize_setting_value (other t) = normalize_number (other t) (setting_int_value (other t))

-- `fmt.Sprint`
unfoldable pub sprint : Value → Text
sprint nil = codes "<nil>"
sprint (bool b) = if b then codes "true" else codes "false"
sprint (str s) = s
sprint (int z) = print_ℤ z
sprint (uint n) = print_ℕ n
sprint (other t) = t
