-- ===== src/Tools/Planning/Declared.antt =====
-- How what is collected compares with what the plugins declare (tools/registry.go).
use polka.Base.{ℕ, zero, suc, Text, norm, true, false, List, [], ◌∷◌, ◌++◌}
use polka.Base.{◌≡◌, refl, ap, sym, ◌∙◌, arith, inl, inr, subst, map, text_dec}
use mathlib.Core.List.{append-nil, append_assoc}
use polka.Base.Dict.Laws.{lookup_or-insert}
use polka.Base.Result.{Result, ok, >>=-eq-ok, ok_injective}
use polka.Config.Types.{Environment}
use polka.Tools.Registry.{InstallRequest, Registry, plugin}
use polka.Tools.Planning.{Collected, CollectError, note_request, add_dependency, begin, finish}
use polka.Tools.Planning.{visit_each, visit, visit_roots}
use polka.Tools.Planning.Order.{
  seen, current, deps, all_seen, IsOrdered, Declares, IsOrdered-add_dependency, current-begin,
  IsOrdered-begin, seen-finish,
}
use polka.Tools.Planning.Visit.{Went, visit-Went}
use polka.Tools.Planning.Leaves.{
  Leaves, deps-step, all_seen-step, visit-Leaves, visit_roots-IsOrdered,
}

abbrev pub names : List InstallRequest → List Text
names = map (λ q. norm q.tool)

module _ (r : Registry) (e : Environment) where
  -- the dependencies of a visited id are those that its plugin declares
  abbrev pub IsDeclared : Collected → Type 0
  IsDeclared s =
      (k : Text)
      → seen k s ≡ true
      → (ds : List InstallRequest) × Declares r e (plugin r k) ds × (deps k s ≡ names ds)

  IsDeclared-add_dependency :
      (id d : Text) (s : Collected)
      → seen id s ≡ false
      → IsDeclared s
      → IsDeclared (add_dependency id d s)
  IsDeclared-add_dependency id d s n w k b =
      let (es, v, y) = w k b in
      (es, v, ground (arith, lookup_or-insert [] k id (deps id s ++ d ∷ []) s.dependencies) ∙ y)

  module _ (visit_one : InstallRequest → Collected → Result CollectError Collected)
      (spec : (q : InstallRequest) (s u : Collected)
        → visit_one q s ≡ ok u
        → IsOrdered s
        → Leaves q s u)
      (declared : (q : InstallRequest) (s u : Collected)
        → visit_one q s ≡ ok u
        → IsOrdered s
        → IsDeclared s
        → IsDeclared u) where
    visit_each-IsDeclared :
        (id : Text) (ds : List InstallRequest) (s u : Collected)
        → visit_each visit_one id ds s ≡ ok u
        → current id s ≡ true
        → seen id s ≡ false
        → all_seen (deps id s) s ≡ true
        → IsOrdered s
        → IsDeclared s
        → IsDeclared u × (deps id u ≡ deps id s ++ names ds)
    unfolding visit_each
    visit_each-IsDeclared id [] s u h c n a o w =
        subst (λ v. IsDeclared v × (deps id v ≡ deps id s ++ [])) (ok_injective h)
          (w, rw append-nil)
    visit_each-IsDeclared id (d ∷ ds) s u h c n a o w =
        let s1 = add_dependency id (norm d.tool) s in
        let o1 = IsOrdered-add_dependency s id (norm d.tool) c n o in
        let (t, p, q) = >>=-eq-ok (visit_one d s1) (visit_each visit_one id ds) h in
        let (ot, x, m) = spec d s1 t p o1 in
        let (wu, g) =
          visit_each-IsDeclared id ds t u q (x.same id ∙ c) (x.waits id c ∙ n)
            (all_seen-step visit_one spec id (norm d.tool) s t c a x m) ot
            (declared d s1 t p o1 (IsDeclared-add_dependency id (norm d.tool) s n w)) in
        (
          wu,
          g
              ∙ ap (λ es. es ++ names ds) (deps-step visit_one spec id (norm d.tool) s t c x)
              ∙ append_assoc (deps id s) (norm d.tool ∷ []) (names ds),
        )

  IsDeclared-finish :
      (id : Text) (ds : List InstallRequest) (q : InstallRequest) (t : Collected)
      → Declares r e (plugin r id) ds
      → deps id t ≡ names ds
      → IsDeclared t
      → IsDeclared (finish id t)
  IsDeclared-finish id ds q t v y w k b = elim (text_dec k id) [
    | yes p ↦ (
      ds,
      subst (λ j. Declares r e (plugin r j) ds) (sym p) v,
      subst (λ j. deps j t ≡ names ds) (sym p) y,
    )
    | no n ↦ w k (ground (arith, seen-finish id q t k))
  ]

  Went-IsDeclared :
      (f : ℕ) (q : InstallRequest) (s u : Collected)
      → ((q : InstallRequest) (s u : Collected)
          → visit r e f q s ≡ ok u
          → IsOrdered s
          → IsDeclared s
          → IsDeclared u)
      → IsOrdered s
      → IsDeclared s
      → Went r e f q s u
      → IsDeclared u
  Went-IsDeclared f q s u ih o w (free, inl (b, p)) = subst IsDeclared (sym p) w
  Went-IsDeclared f q s u ih o w (free, inr (ds, t, b, p, z, v)) =
      let id = norm q.tool in
      let next = begin id (note_request id q s) in
      let none_yet = o.untouched id b free in
      let (wt, y) =
        visit_each-IsDeclared (visit r e f) (visit-Leaves r e f) ih id ds next t p
          (ground (arith, current-begin id q s id)) b (ap (λ ds. all_seen ds next) none_yet)
          (IsOrdered-begin id q s o) w in
      subst IsDeclared (sym z)
        (IsDeclared-finish id ds q t v (y ∙ ap (λ es. es ++ names ds) none_yet) wt)

  visit-IsDeclared :
      (f : ℕ) (q : InstallRequest) (s u : Collected)
      → visit r e f q s ≡ ok u
      → IsOrdered s
      → IsDeclared s
      → IsDeclared u
  visit-IsDeclared zero q s u h o w = unfold visit in cc
  visit-IsDeclared (suc f) q s u h o w =
      Went-IsDeclared f q s u (visit-IsDeclared f) o w (visit-Went r e f q s u h)

  pub visit_roots-IsDeclared :
      (f : ℕ) (roots : List InstallRequest) (s u : Collected)
      → visit_roots r e f roots s ≡ ok u
      → IsOrdered s
      → IsDeclared s
      → IsDeclared u × (all_seen (names roots) u ≡ true)
  unfolding visit_roots
  visit_roots-IsDeclared f [] s u h o w = (subst IsDeclared (ok_injective h) w, refl)
  visit_roots-IsDeclared f (q ∷ qs) s u h o w =
      let (t, a, b) = >>=-eq-ok (visit r e f q s) (visit_roots r e f qs) h in
      let (ot, x, m) = visit-Leaves r e f q s t a o in
      let (wu, y) = visit_roots-IsDeclared f qs t u b ot (visit-IsDeclared f q s t a o w) in
      let (ou, z) = visit_roots-IsOrdered r e f qs t u b ot in
      (wu, ground (arith, z.stays (norm q.tool)))
