-- ===== src/Tools/Planning/Visit.antt =====
-- How a call of `visit` that succeeds has gone (tools/registry.go).
use polka.Base.{ℕ, suc, Text, norm, trim, null, Bool, true, false, ◌||◌}
use polka.Base.{Option, none, some, List, if◌then◌else◌, ◌≡◌, refl, sym}
use polka.Base.{◌⊎◌, inl, inr, Bool-cases}
use polka.Base.Dict.{lookup}
use polka.Base.Result.{Result, ok, err, >>=-eq-ok, ok_injective}
use polka.Config.Types.{Environment}
use polka.Tools.Registry.{InstallRequest, ToolPlugin, Registry, plugin}
use polka.Tools.Planning.{Collected, note_request, begin, finish}
use polka.Tools.Planning.{
  visit_each, visit_dependencies, visit_plugin, visit, conflicts, conflicting_versions,
}
use polka.Tools.Planning.Order.{seen, current, Declares}

-- how a call that succeeds has gone
abbrev pub Went : Registry → Environment → ℕ → InstallRequest → Collected → Collected → Type 0
Went r e f request s u =
    let id = norm request.tool in
    let next = note_request id request s in
    (current id s ≡ false)
    × (((seen id s ≡ true) × (u ≡ next))
        ⊎ ((ds : List InstallRequest) × (t : Collected) × (seen id s ≡ false)
            × (visit_each (visit r e f) id ds (begin id next) ≡ ok t)
            × (u ≡ finish id t)
            × Declares r e (plugin r id) ds))

-- a guard that was passed
pub passed {ℓ κ} :
    {E : Type ℓ} {A : Type κ} (b : Bool) (x : E) (m : Result E A) (u : A)
    → (if b then err x else m) ≡ ok u
    → (b ≡ false) × (m ≡ ok u)
passed true x m u h = cc
passed false x m u h = (refl, h)

-- which branch was taken
pub taken {ℓ} : {A : Type ℓ} (b : Bool) (m n z : A) → b ≡ true → (if b then m else n) ≡ z → m ≡ z
taken true m n z e h = h
taken false m n z e h = cc

pub not_taken {ℓ} :
    {A : Type ℓ} (b : Bool) (m n z : A) → b ≡ false → (if b then m else n) ≡ z → n ≡ z
not_taken true m n z e h = cc
not_taken false m n z e h = h

module _ (r : Registry) (e : Environment) (f : ℕ) where
  visit_dependencies-eq-ok :
      (id : Text) (o : Result Text (List InstallRequest)) (s u : Collected)
      → visit_dependencies r e (visit r e f) id o s ≡ ok u
      → (ds : List InstallRequest) × (t : Collected) × (visit_each (visit r e f) id ds (begin id s)
          ≡ ok t)
        × (u ≡ finish id t)
        × (o ≡ ok ds)
  visit_dependencies-eq-ok id (err x) s u h = cc
  visit_dependencies-eq-ok id (ok ds) s u h =
      let (t, a, b) =
        >>=-eq-ok (visit_each (visit r e f) id ds (begin id s)) (λ t. ok (finish id t)) h in
      (ds, t, a, sym (ok_injective b), refl)

  visit_plugin-eq-ok :
      (id : Text) (o : Option ToolPlugin) (s u : Collected)
      → visit_plugin r e (visit r e f) id o s ≡ ok u
      → (ds : List InstallRequest) × (t : Collected) × (visit_each (visit r e f) id ds (begin id s)
          ≡ ok t)
        × (u ≡ finish id t)
        × Declares r e o ds
  visit_plugin-eq-ok id none s u h = cc
  visit_plugin-eq-ok id (some p) s u h =
      let (ds, t, a, b, c) = visit_dependencies-eq-ok id (p.dependencies e) s u h in
      (ds, t, a, b, (p, refl, c))

  pub visit-Went :
      (request : InstallRequest) (s u : Collected)
      → visit r e (suc f) request s ≡ ok u
      → Went r e f request s u
  unfolding visit
  visit-Went request s u h =
      let (blank, h1) = passed (null id || null (trim request.version)) _ _ u h in
      let (free, h2) = passed (current id s) _ _ u h1 in
      (free, no_conflict (conflicts request (lookup id s.requests)) h2)
    where
      id : Text
      id = norm request.tool

      next : Collected
      next = note_request id request s

      Rest : Type 0
      Rest =
          ((seen id s ≡ true) × (u ≡ next))
          ⊎ ((ds : List InstallRequest) × (t : Collected) × (seen id s ≡ false)
              × (visit_each (visit r e f) id ds (begin id next) ≡ ok t)
              × (u ≡ finish id t)
              × Declares r e (plugin r id) ds)

      visit_or_skip :
          (if seen id s then ok next else visit_plugin r e (visit r e f) id (plugin r id) next)
            ≡ ok u
          → Rest
      visit_or_skip g = elim (Bool-cases (seen id s)) [
        | inl b ↦ inl (b, sym (ok_injective (taken (seen id s) _ _ _ b g)))
        | inr b ↦
            let (ds, t, a, q, w) =
              visit_plugin-eq-ok id (plugin r id) next u (not_taken (seen id s) _ _ _ b g) in
            inr (ds, t, b, a, q, w)
      ]

      no_conflict :
          (o : Option Text)
          → elim o [
            | some version ↦ err (conflicting_versions id version request.version)
            | none ↦
                if seen id s then ok next else visit_plugin r e (visit r e f) id (plugin r id) next
          ]
            ≡ ok u
          → Rest
      no_conflict none g = visit_or_skip g
      no_conflict (some v) g = cc
