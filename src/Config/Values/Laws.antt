-- ===== src/Config/Values/Laws.antt =====
-- Setting values that have been normalised (config/types.go).
use polka.Base.{some, ◌≡◌, arith}
use polka.Base.Strings.Laws.{trim-trim}
use polka.Config.Values.{Value, nil, bool, str, int, uint, other, normalize_setting_value}

pub normalize_setting_value_idem :
    (v w : Value) → normalize_setting_value v ≡ some w → normalize_setting_value w ≡ some w
unfolding normalize_setting_value
normalize_setting_value_idem nil w h = ground arith
normalize_setting_value_idem (bool b) w h = ground arith
normalize_setting_value_idem (str s) w h = ground (arith, trim-trim s)
normalize_setting_value_idem (int z) w h = ground arith
normalize_setting_value_idem (uint n) w h = ground arith
normalize_setting_value_idem (other t) w h = ground arith
