-- ===== src/Config/Keys.antt =====
-- Reading and writing a map of config/types.go whose keys stand for identifiers: the key as asked
-- for comes first, then any key that is equal to it up to case and surrounding space.
pub mod Laws
use polka.Base.{Text, ◌==◌, text_dec, trim, Bool, ◌&&◌, not, Option, none, some}
use polka.Base.Strings.{equal_fold}
use polka.Base.Dict.{Dict, lookup, insert, delete, delete_where, find_where}

-- `strings.EqualFold(strings.TrimSpace(rawKey), key)`
unfoldable pub matches_key : Text → Text → Bool
matches_key key raw = equal_fold (trim raw) key

module _ {ℓ} {V : Type ℓ} where
  -- the value under the key itself, or else under the first key that matches it
  unfoldable pub lookup_fold : Text → Dict V → Option V
  lookup_fold key m = elim (lookup key m) [
    | some v ↦ some v
    | none ↦ find_where (matches_key key) m
  ]

  -- deletes the key and every key that matches it
  unfoldable pub delete_fold : Text → Dict V → Dict V
  delete_fold key m = delete_where (matches_key key) (delete key m)

  -- deletes every other key that matches, then assigns
  unfoldable pub set_fold : Text → V → Dict V → Dict V
  set_fold key v m = insert key v (delete_where (λ raw. not (raw == key) && matches_key key raw) m)
