-- ===== src/Base/Dict.antt =====
-- Go maps: association lists with one entry for a key. The order of the entries is the order in
-- which a `range` over the map meets them; a nil map and an empty map are both `[]`.
pub mod Laws
pub mod Rebuild
use mathlib.Core.Path.{◌≡◌}
use mathlib.Core.Logic.{ite}
use mathlib.Core.Bool.{Bool, true, false}
use mathlib.Core.Option.{Option, none, some}
use mathlib.Core.List.{List, [], ◌∷◌}
use polka.Base.Bools.{if◌then◌else◌}
use polka.Base.Strings.{Text, text_dec, ◌==◌}

abbrev pub Dict {ℓ} : Type ℓ → Type ℓ
Dict V = List (Text × V)

module _ {ℓ} {V : Type ℓ} where
  -- `v, ok := m[k]`
  unfoldable pub lookup : Text → Dict V → Option V
  unfolding text_dec
  lookup k [] = none
  lookup k ((j, v) ∷ m) = if k == j then some v else lookup k m

  -- `m[k] = v`
  unfoldable pub insert : Text → V → Dict V → Dict V
  unfolding text_dec
  insert k v [] = (k, v) ∷ []
  insert k v ((j, w) ∷ m) = if k == j then (k, v) ∷ m else (j, w) ∷ insert k v m

  -- `delete(m, k)`
  unfoldable pub delete : Text → Dict V → Dict V
  unfolding text_dec
  delete k [] = []
  delete k ((j, w) ∷ m) = let rest = delete k m in if k == j then rest else (j, w) ∷ rest

  -- `for j := range m { if test(j) { delete(m, j) } }`
  unfoldable pub delete_where : (Text → Bool) → Dict V → Dict V
  delete_where test [] = []
  delete_where test ((j, w) ∷ m) =
      let rest = delete_where test m in if test j then rest else (j, w) ∷ rest

  -- `for j, v := range m { if test(j) { return v } }`
  unfoldable pub find_where : (Text → Bool) → Dict V → Option V
  find_where test [] = none
  find_where test ((j, w) ∷ m) = if test j then some w else find_where test m

  -- `m[k]` where a missing key reads as the zero value
  unfoldable pub lookup_or : V → Text → Dict V → V
  unfolding lookup
  lookup_or d k m = elim (lookup k m) [ none ↦ d | some v ↦ v ]

  -- no key is listed twice
  abbrev pub NodupKeys : Dict V → Type ℓ
  NodupKeys [] = Unit
  NodupKeys ((k, _) ∷ m) = (lookup k m ≡ none) × NodupKeys m
