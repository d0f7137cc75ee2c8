-- ===== src/Tools/Layers/Progress.antt =====
-- The rounds of the layering loop of `InstallRequestLayers` (tools/registry.go).
use polka.Base.{ℕ, zero, suc, ◌+◌, ◌≤◌, Text, List, [], ◌∷◌, length}
use polka.Base.{◌≡◌, ◌≢◌, refl, ap, arith, ◌⊎◌, inl, inr}
use polka.Base.Dict.{Dict}
use polka.Base.Result.{Result, ok, err, ◌>>=◌}
use polka.Tools.Registry.{InstallRequest}
use polka.Tools.Layers.{LayerError, cycle_detected, out_of_fuel, ready}
use polka.Tools.Layers.{blocked, layer_rounds, layer_requests, sort_by_order}

length-ready-blocked :
    (deps : Dict (List Text)) (remaining rs : List InstallRequest)
    → length (ready deps remaining rs) + length (blocked deps remaining rs) ≡ length rs
unfolding ready blocked
length-ready-blocked deps remaining [] = omega arith
length-ready-blocked deps remaining (r ∷ rs) =
    ground (arith, length-ready-blocked deps remaining rs)

pub ready-cases :
    (deps : Dict (List Text)) (remaining rs : List InstallRequest)
    → (ready deps remaining rs ≡ [])
      ⊎ ((l : InstallRequest) × (ls : List InstallRequest) × (ready deps remaining rs ≡ l ∷ ls))
ready-cases deps remaining rs = go (ready deps remaining rs)
  where
    go :
        (xs : List InstallRequest)
        → (xs ≡ []) ⊎ ((l : InstallRequest) × (ls : List InstallRequest) × (xs ≡ l ∷ ls))
    go [] = inl refl
    go (l ∷ ls) = inr (l, ls, refl)

module _ (order : Dict ℕ) (deps : Dict (List Text)) (f : ℕ) (r : InstallRequest)
    (rs : List InstallRequest) where
  abbrev pub all : List InstallRequest
  all = r ∷ rs

  -- a round with no request that is ready
  pub layer_rounds_stuck :
      ready deps all all ≡ [] → layer_rounds order deps (suc f) all ≡ err cycle_detected
  unfolding layer_rounds
  layer_rounds_stuck e = rw (e, layer_rounds)

  -- a round that takes a layer
  pub layer_rounds_taken :
      {l : InstallRequest} {ls : List InstallRequest}
      → ready deps all all ≡ l ∷ ls
      → layer_rounds order deps (suc f) all ≡ (
          layer_rounds order deps f (blocked deps all all) >>= λ layers.
          ok (sort_by_order order (ready deps all all) ∷ layers))
  unfolding layer_rounds
  layer_rounds_taken e = rw (e, layer_rounds)

bind_fuel :
    (m : Result LayerError (List (List InstallRequest))) (layer : List InstallRequest)
    → m ≢ err out_of_fuel
    → (m >>= λ layers. ok (layer ∷ layers)) ≢ err out_of_fuel
bind_fuel (ok layers) layer h = ground arith
bind_fuel (err e) layer h = λ p. h (ground arith)

layer_rounds_enough :
    (order : Dict ℕ) (deps : Dict (List Text)) (f : ℕ) (rs : List InstallRequest)
    → length rs ≤ f
    → layer_rounds order deps f rs ≢ err out_of_fuel
layer_rounds_enough order deps zero [] h = unfold layer_rounds in ground arith
layer_rounds_enough order deps zero (r ∷ rs) h = absurd (omega arith)
layer_rounds_enough order deps (suc f) [] h = unfold layer_rounds in ground arith
layer_rounds_enough order deps (suc f) (r ∷ rs) h = elim (ready-cases deps (r ∷ rs) (r ∷ rs)) [
  | inl e ↦ rw (layer_rounds_stuck order deps f r rs e) (ground arith)
  | inr (l, ls, e) ↦ rw (layer_rounds_taken order deps f r rs e) (
      bind_fuel _ _ (
        layer_rounds_enough order deps f (blocked deps (r ∷ rs) (r ∷ rs))
          (omega (arith, length-ready-blocked deps (r ∷ rs) (r ∷ rs), ap length e))))
]

-- The layering never stops for want of rounds: it gives layers or reports a cycle.
pub layer_requests_total :
    (order : Dict ℕ) (deps : Dict (List Text)) (rs : List InstallRequest)
    → ((layers : List (List InstallRequest)) × (layer_requests order deps rs ≡ ok layers))
      ⊎ (layer_requests order deps rs ≡ err cycle_detected)
unfolding layer_requests
layer_requests_total order deps rs =
    go (layer_rounds order deps (length rs) rs)
      (layer_rounds_enough order deps (length rs) rs (omega arith))
  where
    go :
        (m : Result LayerError (List (List InstallRequest)))
        → m ≢ err out_of_fuel
        → ((layers : List (List InstallRequest)) × (m ≡ ok layers)) ⊎ (m ≡ err cycle_detected)
    go (ok layers) h = inl (layers, refl)
    go (err cycle_detected) h = inr refl
    go (err out_of_fuel) h = absurd (h refl)
