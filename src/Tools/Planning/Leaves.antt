-- ===== src/Tools/Planning/Leaves.antt =====
-- What a call of `visit` leaves behind (tools/registry.go).
use polka.Base.{ℕ, zero, suc, Text, ◌==◌, norm, Bool, true, false}
use polka.Base.{List, [], ◌∷◌, ◌++◌, ◌≡◌, refl, ap, sym, ◌∙◌, subst}
use polka.Base.{arith, inl, inr}
use polka.Base.Dict.Laws.{lookup_or-insert}
use polka.Base.Result.{Result, ok, >>=-eq-ok, ok_injective}
use polka.Config.Types.{Environment}
use polka.Tools.Registry.{InstallRequest, Registry}
use polka.Tools.Planning.{Collected, CollectError, note_request, add_dependency, begin, finish}
use polka.Tools.Planning.{visit_each, visit, visit_roots}
use polka.Tools.Planning.Order.{
  seen, current, deps, all_seen, IsOrdered, Extends, all_seen-append, all_seen-stays,
  IsOrdered-add_dependency, IsOrdered-note_request, current-begin, IsOrdered-begin, seen-finish,
  current-finish, IsOrdered-finish,
}
use polka.Tools.Planning.Visit.{Went, visit-Went}

-- what holds after a call that succeeds
abbrev pub Leaves : InstallRequest → Collected → Collected → Type 0
Leaves request s u = IsOrdered u × Extends (λ k. false) s u × (seen (norm request.tool) u ≡ true)

abbrev pub LeavesEach : Text → Collected → Collected → Type 0
LeavesEach id s u = IsOrdered u × Extends (λ k. k == id) s u × (all_seen (deps id u) u ≡ true)

Extends-refl : (own : Text → Bool) (s : Collected) → Extends own s s
Extends-refl own s = record {
  same = λ k. refl;
  stays = λ k h. h;
  waits = λ k h. refl;
  keeps = λ k n h. refl;
}

module _ (visit_one : InstallRequest → Collected → Result CollectError Collected)
    (spec : (q : InstallRequest) (s u : Collected)
      → visit_one q s ≡ ok u
      → IsOrdered s
      → Leaves q s u) where
  Extends-step :
      (id d : Text) (s t u : Collected)
      → current id s ≡ true
      → Extends (λ k. false) (add_dependency id d s) t
      → Extends (λ k. k == id) t u
      → Extends (λ k. k == id) s u
  Extends-step id d s t u c a b = record {
    same = λ k. b.same k ∙ a.same k;
    stays = λ k h. b.stays k (a.stays k h);
    waits = λ k h. b.waits k (a.same k ∙ h) ∙ a.waits k h;
    keeps = λ k n h.
        b.keeps k n (ground (arith, a.stays k, a.same k))
        ∙ a.keeps k refl h
        ∙ ground (arith, lookup_or-insert [] k id (deps id s ++ d ∷ []) s.dependencies);
  }

  pub deps-step :
      (id d : Text) (s t : Collected)
      → current id s ≡ true
      → Extends (λ k. false) (add_dependency id d s) t
      → deps id t ≡ deps id s ++ d ∷ []
  deps-step id d s t c x =
      x.keeps id refl (ground arith)
      ∙ ground (arith, lookup_or-insert [] id id (deps id s ++ d ∷ []) s.dependencies)

  pub all_seen-step :
      (id d : Text) (s t : Collected)
      → current id s ≡ true
      → all_seen (deps id s) s ≡ true
      → Extends (λ k. false) (add_dependency id d s) t
      → seen d t ≡ true
      → all_seen (deps id t) t ≡ true
  all_seen-step id d s t c a x m =
      subst (λ ds. all_seen ds t ≡ true) (sym (deps-step id d s t c x))
        (all_seen-append (deps id s) (d ∷ []) t
          ∙ ground (arith, all_seen-stays (deps id s) s t x.stays))

  pub visit_each-LeavesEach :
      (id : Text) (ds : List InstallRequest) (s u : Collected)
      → visit_each visit_one id ds s ≡ ok u
      → current id s ≡ true
      → seen id s ≡ false
      → all_seen (deps id s) s ≡ true
      → IsOrdered s
      → LeavesEach id s u
  unfolding visit_each
  visit_each-LeavesEach id [] s u h c n a o =
      subst (LeavesEach id s) (ok_injective h) (o, Extends-refl (λ k. k == id) s, a)
  visit_each-LeavesEach id (d ∷ ds) s u h c n a o =
      let s1 = add_dependency id (norm d.tool) s in
      let (t, p, q) = >>=-eq-ok (visit_one d s1) (visit_each visit_one id ds) h in
      let (ot, x, m) = spec d s1 t p (IsOrdered-add_dependency s id (norm d.tool) c n o) in
      let (ou, y, g) =
        visit_each-LeavesEach id ds t u q (x.same id ∙ c) (x.waits id c ∙ n)
          (all_seen-step id (norm d.tool) s t c a x m) ot in
      (ou, Extends-step id (norm d.tool) s t u c x y, g)

-- the end of a visit that has gone through the dependencies
module _ (id : Text) (q : InstallRequest) (s t : Collected) (free : current id s ≡ false)
    (fresh : seen id s ≡ false)
    (x : Extends (λ k. k == id) (begin id (note_request id q s)) t) where
  Extends-finish : Extends (λ k. false) s (finish id t)
  Extends-finish = record {
    same = λ k. ground (arith, current-finish id q t k, x.same k, current-begin id q s k);
    stays = λ k h. ground (arith, seen-finish id q t k, x.stays k h);
    waits = λ k h. ground (arith, seen-finish id q t k, x.waits k, current-begin id q s k);
    keeps = λ k n h. x.keeps k (ground arith) (ground (arith, current-begin id q s k));
  }

module _ (r : Registry) (e : Environment) where
  Went-Leaves :
      (f : ℕ) (q : InstallRequest) (s u : Collected)
      → ((q : InstallRequest) (s u : Collected)
          → visit r e f q s ≡ ok u
          → IsOrdered s
          → Leaves q s u)
      → IsOrdered s
      → Went r e f q s u
      → Leaves q s u
  Went-Leaves f q s u ih o (free, inl (b, p)) = subst (Leaves q s) (sym p) (
    IsOrdered-note_request (norm q.tool) q s b o,
    record { same = λ k. refl; stays = λ k h. h; waits = λ k h. refl; keeps = λ k n h. refl },
    b,
  )
  Went-Leaves f q s u ih o (free, inr (ds, t, b, p, z, w)) =
      let id = norm q.tool in
      let next = begin id (note_request id q s) in
      let (ot, x, g) =
        visit_each-LeavesEach (visit r e f) ih id ds next t p
          (ground (arith, current-begin id q s id)) b
          (ap (λ ds. all_seen ds next) (o.untouched id b free)) (IsOrdered-begin id q s o) in
      subst (Leaves q s) (sym z) (
        IsOrdered-finish id q t g (x.same id ∙ ground (arith, current-begin id q s id)) ot,
        Extends-finish id q s t free b x,
        ground (arith, seen-finish id q t id),
      )

  pub visit-Leaves :
      (f : ℕ) (q : InstallRequest) (s u : Collected)
      → visit r e f q s ≡ ok u
      → IsOrdered s
      → Leaves q s u
  visit-Leaves zero q s u h o = unfold visit in cc
  visit-Leaves (suc f) q s u h o = Went-Leaves f q s u (visit-Leaves f) o (visit-Went r e f q s u h)

  -- after all the roots, nothing is being visited
  pub visit_roots-IsOrdered :
      (f : ℕ) (roots : List InstallRequest) (s u : Collected)
      → visit_roots r e f roots s ≡ ok u
      → IsOrdered s
      → IsOrdered u × Extends (λ k. false) s u
  unfolding visit_roots
  visit_roots-IsOrdered f [] s u h o =
      subst (λ v. IsOrdered v × Extends (λ k. false) s v) (ok_injective h)
        (o, Extends-refl (λ k. false) s)
  visit_roots-IsOrdered f (q ∷ qs) s u h o =
      let (t, a, b) = >>=-eq-ok (visit r e f q s) (visit_roots r e f qs) h in
      let (ot, x, m) = visit-Leaves f q s t a o in
      let (ou, y) = visit_roots-IsOrdered f qs t u b ot in
      (
        ou,
        record {
          same = λ k. y.same k ∙ x.same k;
          stays = λ k h. y.stays k (x.stays k h);
          waits = λ k h. y.waits k (x.same k ∙ h) ∙ x.waits k h;
          keeps = λ k n h. y.keeps k n (ground (arith, x.stays k, x.same k)) ∙ x.keeps k n h;
        },
      )
