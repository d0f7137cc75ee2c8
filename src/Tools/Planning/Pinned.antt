-- ===== src/Tools/Planning/Pinned.antt =====
-- The versions of the requests that `visit` collects (tools/registry.go).
use polka.Base.{ℕ, zero, suc, Text, text_dec, norm, trim, null, true, false, ◌||◌}
use polka.Base.{Option, none, some, List, [], ◌∷◌}
use polka.Base.{◌≡◌, refl, sym, ◌∙◌, arith, All, All-map, inl, inr, subst}
use polka.Base.Strings.Laws.{trim-trim}
use polka.Base.Dict.{lookup, lookup_or, NodupKeys}
use polka.Base.Dict.Laws.{lookup-insert, insert-NodupKeys}
use polka.Base.Result.{Result, ok, err, >>=-eq-ok, ok_injective}
use polka.Config.Types.{Environment}
use polka.Tools.Registry.{InstallRequest, Registry, plugin}
use polka.Tools.Planning.{Collected, CollectError, note_request, named, add_dependency, begin}
use polka.Tools.Planning.{finish, visit_each, visit, visit_roots, conflicts, conflicting_versions}
use polka.Tools.Planning.Order.{seen, Declares, seen-finish}
use polka.Tools.Planning.Visit.{Went, visit-Went, passed}

-- the request has its entry, with its own version
abbrev pub Has : Collected → InstallRequest → Type 0
Has s q = lookup (norm q.tool) s.requests ≡ some (named (norm q.tool) q)

-- each entry is under its own id, and its version is trimmed
abbrev pub IsNamed : Collected → Type 0
IsNamed s =
    (k : Text) (p : InstallRequest)
    → lookup k s.requests ≡ some p
    → (p.tool ≡ k) × (trim p.version ≡ p.version)

-- no entry is replaced by a different one
abbrev pub Keeps : Collected → Collected → Type 0
Keeps s u =
    (k : Text) (p : InstallRequest) → lookup k s.requests ≡ some p → lookup k u.requests ≡ some p

Has-Keeps :
    (s u : Collected) (ds : List InstallRequest) → Keeps s u → All (Has s) ds → All (Has u) ds
Has-Keeps s u ds x = All-map (Has s) (Has u) (λ q. x (norm q.tool) (named (norm q.tool) q)) ds

module _ (q : InstallRequest) (s : Collected) where
  Has-note_request : Has (note_request (norm q.tool) q s) q
  Has-note_request =
      let id = norm q.tool in lookup-insert id id (named id q) s.requests ∙ ground arith

  -- a request that agrees with an entry makes the same entry again
  named_same :
      (id : Text) (p : InstallRequest)
      → p.tool ≡ id
      → trim p.version ≡ p.version
      → conflicts q (some p) ≡ none
      → named id q ≡ p
  named_same id p a b h = ground arith

  IsNamed-note_request : (id : Text) → IsNamed s → IsNamed (note_request id q s)
  IsNamed-note_request id x k p h =
      ground (arith, lookup-insert k id (named id q) s.requests, x k p, trim-trim q.version)

  Keeps-note_request :
      IsNamed s
      → conflicts q (lookup (norm q.tool) s.requests) ≡ none
      → Keeps s (note_request (norm q.tool) q s)
  Keeps-note_request x h k p a = elim (text_dec k (norm q.tool)) [
    | yes e ↦
        let found : lookup (norm q.tool) s.requests ≡ some p =
          subst (λ j. lookup j s.requests ≡ some p) e a in
        let (b, c) = x (norm q.tool) p found in
        ground (
          arith,
          lookup-insert k (norm q.tool) (named (norm q.tool) q) s.requests,
          named_same (norm q.tool) p b c (subst (λ o. conflicts q o ≡ none) found h),
        )
    | no n ↦ ground (arith, lookup-insert k (norm q.tool) (named (norm q.tool) q) s.requests)
  ]

module _ (r : Registry) (e : Environment) where
  -- what the plugin of a visited id declares has its entries, and there is one entry for an id
  abbrev pub IsPinned : Collected → Type 0
  IsPinned s =
      IsNamed s
      × ((k : Text)
          → seen k s ≡ true
          → (ds : List InstallRequest) × Declares r e (plugin r k) ds × All (Has s) ds)
      × NodupKeys s.requests

  abbrev pub Pins : InstallRequest → Collected → Collected → Type 0
  Pins q s u = IsPinned u × Keeps s u × Has u q

  -- a call that succeeds found no other version
  visit-agrees :
      (f : ℕ) (q : InstallRequest) (s u : Collected)
      → visit r e (suc f) q s ≡ ok u
      → conflicts q (lookup (norm q.tool) s.requests) ≡ none
  unfolding visit
  visit-agrees f q s u h =
      let id = norm q.tool in
      let (blank, h1) = passed (null id || null (trim q.version)) _ _ u h in
      let (free, h2) = passed (lookup_or false id s.visiting) _ _ u h1 in
      no_conflict (conflicts q (lookup id s.requests)) _ h2
    where
      no_conflict :
          (o : Option Text) (m : Result CollectError Collected)
          → elim o [ some v ↦ err (conflicting_versions (norm q.tool) v q.version) | none ↦ m ]
            ≡ ok u
          → o ≡ none
      no_conflict none m g = refl
      no_conflict (some v) m g = cc

  IsPinned-note_request :
      (q : InstallRequest) (s : Collected)
      → conflicts q (lookup (norm q.tool) s.requests) ≡ none
      → IsPinned s
      → IsPinned (note_request (norm q.tool) q s)
  IsPinned-note_request q s h (x, y, z) =
      let n = note_request (norm q.tool) q s in
      (
        IsNamed-note_request q s (norm q.tool) x,
        λ k b. let (ds, v, a) = y k b in (ds, v, Has-Keeps s n ds (Keeps-note_request q s x h) a),
        insert-NodupKeys (norm q.tool) (named (norm q.tool) q) s.requests z,
      )

  module _ (visit_one : InstallRequest → Collected → Result CollectError Collected)
      (pins : (q : InstallRequest) (s u : Collected)
        → visit_one q s ≡ ok u
        → IsPinned s
        → Pins q s u) where
    visit_each-IsPinned :
        (id : Text) (ds : List InstallRequest) (s u : Collected)
        → visit_each visit_one id ds s ≡ ok u
        → IsPinned s
        → IsPinned u × Keeps s u × All (Has u) ds
    unfolding visit_each
    visit_each-IsPinned id [] s u h w =
        subst (λ v. IsPinned v × Keeps s v × Unit) (ok_injective h) (w, (λ k p x. x), tt)
    visit_each-IsPinned id (d ∷ ds) s u h w =
        let s1 = add_dependency id (norm d.tool) s in
        let (t, a, b) = >>=-eq-ok (visit_one d s1) (visit_each visit_one id ds) h in
        let (wt, x, m) = pins d s1 t a w in
        let (wu, y, ms) = visit_each-IsPinned id ds t u b wt in
        (wu, λ k p g. y k p (x k p g), (y (norm d.tool) (named (norm d.tool) d) m, ms))

  IsPinned-finish :
      (id : Text) (q : InstallRequest) (ds : List InstallRequest) (t : Collected)
      → Declares r e (plugin r id) ds
      → All (Has t) ds
      → IsPinned t
      → IsPinned (finish id t)
  IsPinned-finish id q ds t v a (x, y, z) = (
    x,
    (λ k b. elim (text_dec k id) [
      | yes p ↦ (ds, subst (λ j. Declares r e (plugin r j) ds) (sym p) v, a)
      | no n ↦ y k (ground (arith, seen-finish id q t k))
    ]),
    z,
  )

  Went-Pins :
      (f : ℕ) (q : InstallRequest) (s u : Collected)
      → ((q : InstallRequest) (s u : Collected) → visit r e f q s ≡ ok u → IsPinned s → Pins q s u)
      → conflicts q (lookup (norm q.tool) s.requests) ≡ none
      → IsPinned s
      → Went r e f q s u
      → Pins q s u
  Went-Pins f q s u ih h w (free, inl (b, p)) =
      subst (Pins q s) (sym p)
        (IsPinned-note_request q s h w, Keeps-note_request q s w.0 h, Has-note_request q s)
  Went-Pins f q s u ih h w (free, inr (ds, t, b, p, z, v)) =
      let id = norm q.tool in
      let (wt, x, a) =
        visit_each-IsPinned (visit r e f) ih id ds (begin id (note_request id q s)) t p
          (IsPinned-note_request q s h w) in
      subst (Pins q s) (sym z) (
        IsPinned-finish id q ds t v a wt,
        λ k p g. x k p (Keeps-note_request q s w.0 h k p g),
        x id (named id q) (Has-note_request q s),
      )

  visit-Pins :
      (f : ℕ) (q : InstallRequest) (s u : Collected)
      → visit r e f q s ≡ ok u
      → IsPinned s
      → Pins q s u
  visit-Pins zero q s u h w = unfold visit in cc
  visit-Pins (suc f) q s u h w =
      Went-Pins f q s u (visit-Pins f) (visit-agrees f q s u h) w (visit-Went r e f q s u h)

  -- after all the roots, each of them has its entry
  pub visit_roots-IsPinned :
      (f : ℕ) (roots : List InstallRequest) (s u : Collected)
      → visit_roots r e f roots s ≡ ok u
      → IsPinned s
      → IsPinned u × Keeps s u × All (Has u) roots
  unfolding visit_roots
  visit_roots-IsPinned f [] s u h w =
      subst (λ v. IsPinned v × Keeps s v × Unit) (ok_injective h) (w, (λ k p x. x), tt)
  visit_roots-IsPinned f (q ∷ qs) s u h w =
      let (t, a, b) = >>=-eq-ok (visit r e f q s) (visit_roots r e f qs) h in
      let (wt, x, m) = visit-Pins f q s t a w in
      let (wu, y, ms) = visit_roots-IsPinned f qs t u b wt in
      (wu, (λ k p g. y k p (x k p g)), (y (norm q.tool) (named (norm q.tool) q) m, ms))
