-- ===== src/Tools/Layers.antt =====
-- The layering of install requests: the second half of `Registry.InstallRequestLayers`
-- (tools/registry.go), which orders the collected requests by their dependencies.
pub mod Order
pub mod Progress
use polka.Base.{
  ℕ, zero, suc, Text, ◌==◌, Bool, true, false, not, ◌||◌, List, [], ◌∷◌, ◌++◌, length, leb,
}
use polka.Base.{if◌then◌else◌}
use polka.Base.Dict.{Dict, lookup_or}
use polka.Tools.Registry.{InstallRequest}
use polka.Base.Result.{Result, ok, err, ◌>>=◌}

pub data LayerError : Type 0 where
  cycle_detected out_of_fuel : LayerError

-- `remaining[id]`
abbrev pub is_remaining : Text → List InstallRequest → Bool
is_remaining id [] = false
is_remaining id (r ∷ rs) = r.tool == id || is_remaining id rs

abbrev pub any_remaining : List Text → List InstallRequest → Bool
any_remaining [] rs = false
any_remaining (d ∷ ds) rs = is_remaining d rs || any_remaining ds rs

module _ (dependencies : Dict (List Text)) where
  -- no dependency of the request remains
  abbrev pub is_ready : List InstallRequest → InstallRequest → Bool
  is_ready remaining r = not (any_remaining (lookup_or [] r.tool dependencies) remaining)

  -- the requests of `rs` that are ready, and those that are not, while `remaining` remain
  unfoldable pub ready : List InstallRequest → List InstallRequest → List InstallRequest
  ready remaining [] = []
  ready remaining (r ∷ rs) =
      let rest = ready remaining rs in if is_ready remaining r then r ∷ rest else rest

  unfoldable pub blocked : List InstallRequest → List InstallRequest → List InstallRequest
  blocked remaining [] = []
  blocked remaining (r ∷ rs) =
      let rest = blocked remaining rs in if is_ready remaining r then rest else r ∷ rest

module _ (order : Dict ℕ) where
  -- `sort.Slice` by the order in which the requests were first met
  unfoldable pub insert_by_order : InstallRequest → List InstallRequest → List InstallRequest
  insert_by_order r [] = r ∷ []
  insert_by_order r (s ∷ ss) =
      if leb (lookup_or 0 r.tool order) (lookup_or 0 s.tool order)
      then r ∷ s ∷ ss
      else s ∷ insert_by_order r ss

  unfoldable pub sort_by_order : List InstallRequest → List InstallRequest
  unfolding insert_by_order
  sort_by_order [] = []
  sort_by_order (r ∷ rs) = insert_by_order r (sort_by_order rs)

module _ (order : Dict ℕ) (dependencies : Dict (List Text)) where
  -- the loop `for len(remaining) > 0`, a round for each unit of fuel
  unfoldable pub layer_rounds :
      ℕ → List InstallRequest → Result LayerError (List (List InstallRequest))
  unfolding ready blocked sort_by_order
  layer_rounds f [] = ok []
  layer_rounds zero (r ∷ rs) = err out_of_fuel
  layer_rounds (suc f) (r ∷ rs) = elim (ready dependencies (r ∷ rs) (r ∷ rs)) [
    | [] ↦ err cycle_detected
    | l ∷ ls ↦ do
      layers ← layer_rounds f (blocked dependencies (r ∷ rs) (r ∷ rs))
      ok (sort_by_order order (l ∷ ls) ∷ layers)
  ]

  -- each round takes at least one request, so as many rounds as there are requests are enough
  unfoldable pub layer_requests :
      List InstallRequest → Result LayerError (List (List InstallRequest))
  unfolding layer_rounds
  layer_requests requests = layer_rounds (length requests) requests
