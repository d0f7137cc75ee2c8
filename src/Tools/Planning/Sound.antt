-- ===== src/Tools/Planning/Sound.antt =====
-- What a plan holds and in which order (tools/registry.go).
use polka.Base.{Text, true, false, ◌||◌, Option, List, [], ◌∷◌, ◌++◌}
use polka.Base.{◌≡◌, refl, ap, sym, ◌∙◌, arith, All, length, ◌+◌, subst}
use mathlib.Core.List.{Perm, append_assoc}
use polka.Base.Dict.{lookup, lookup_or}
use polka.Base.Result.{Result, ok, err}
use polka.Config.Types.{Environment}
use polka.Tools.Registry.{InstallRequest, Registry, plugin}
use polka.Tools.Layers.{LayerError, is_remaining, any_remaining, layer_requests}
use polka.Tools.Layers.Order.{is_remaining-perm, concat, IsFree, IsLayered, layer_requests_sound}
use polka.Tools.Planning.{Collected, CollectError, nothing_collected, visit_roots, values}
use polka.Tools.Planning.{install_request_layers, layers_of, roots_or, not_layered}
use polka.Tools.Planning.Order.{seen, current, IsOrdered, Declares}
use polka.Tools.Planning.Leaves.{visit_roots-IsOrdered}
use polka.Tools.Planning.Declared.{IsDeclared, names, visit_roots-IsDeclared}
use polka.Tools.Planning.Pinned.{Has, IsPinned, visit_roots-IsPinned}
use polka.Tools.Planning.Members.{
  is_distinct, is_distinct-perm, is_distinct-values, is_planned, is_planned-append,
  is_planned-remaining, is_planned-lookup, is_planned-perm,
}
use polka.Base.{All-map}
use polka.Tools.Registry.{ToolPlugin}
use polka.Base.{some, none}
use polka.Tools.Planning.Acyclic.{nothing-IsOrdered, nothing-idle, requested-seen}

-- the search had collected this when the layers were made
layers_of-eq-ok :
    (o : Result CollectError Collected) (layers : List (List InstallRequest))
    → layers_of o ≡ ok layers
    → (s : Collected) × (o ≡ ok s)
      × (layer_requests s.order s.dependencies (values s.requests) ≡ ok layers)
layers_of-eq-ok (err x) layers h = cc
layers_of-eq-ok (ok s) layers h =
    (s, refl, go (layer_requests s.order s.dependencies (values s.requests)) h)
  where
    go :
        (o : Result LayerError (List (List InstallRequest)))
        → elim o [ err reason ↦ err (not_layered reason) | ok found ↦ ok found ] ≡ ok layers
        → o ≡ ok layers
    go (err x) g = cc
    go (ok found) g = ground arith

is_remaining-append :
    (k : Text) (xs ys : List InstallRequest)
    → is_remaining k (xs ++ ys) ≡ (is_remaining k xs || is_remaining k ys)
is_remaining-append k [] ys = refl
is_remaining-append k (x ∷ xs) ys = ground (arith, is_remaining-append k xs ys)

Declares-unique :
    (r : Registry) (e : Environment) (o : Option ToolPlugin) (ds es : List InstallRequest)
    → Declares r e o ds
    → Declares r e o es
    → ds ≡ es
Declares-unique r e none ds es (p, a, b) v = cc
Declares-unique r e (some x) ds es (p, a, b) (q, c, d) = ground arith

module _ (r : Registry) (e : Environment) where
  -- each request's plugin declares only dependencies that are installed before
  abbrev pub IsPlanned : List InstallRequest → List (List InstallRequest) → Type 0
  IsPlanned before [] = Unit
  IsPlanned before (l ∷ ls) =
      All
        (λ q.
          (ds : List InstallRequest) × Declares r e (plugin r q.tool) ds
          × All (λ d. is_planned d before ≡ true) ds)
        l
      × IsPlanned (before ++ l) ls

  -- dependencies that are somewhere, but neither here nor later, are before
  before-All :
      (before rest : List InstallRequest) (ds : List InstallRequest)
      → any_remaining (names ds) rest ≡ false
      → All (λ d. is_planned d (before ++ rest) ≡ true) ds
      → All (λ d. is_planned d before ≡ true) ds
  before-All before rest [] f a = tt
  before-All before rest (d ∷ ds) f (x, a) = (
    ground (arith, is_planned-append d before rest, is_planned-remaining d rest),
    before-All before rest ds (ground arith) a,
  )

  All-remaining {κ} :
      (P : Text → Type κ) (xs : List InstallRequest)
      → ((k : Text) → is_remaining k xs ≡ true → P k)
      → All (λ q. P q.tool) xs
  All-remaining P [] f = tt
  All-remaining P (x ∷ xs) f =
      (f x.tool (ground arith), All-remaining P xs (λ k h. f k (ground arith)))

  module _ (s : Collected) (everything : List InstallRequest)
      (p : Perm everything (values s.requests)) (o : IsOrdered s) (w : IsDeclared r e s)
      (pinned : IsPinned r e s) (idle : (k : Text) → current k s ≡ false) where
    remaining-seen : (k : Text) → is_remaining k everything ≡ true → seen k s ≡ true
    remaining-seen k h =
        requested-seen s o idle s.requests k o.known (sym (is_remaining-perm k p) ∙ h)

    Has-planned :
        (ds : List InstallRequest) → All (Has s) ds → All (λ d. is_planned d everything ≡ true) ds
    Has-planned =
        All-map (Has s) (λ d. is_planned d everything ≡ true)
          (λ d h. is_planned-perm d p ∙ is_planned-lookup d s.requests h)

    declared-planned :
        (k : Text) (ds : List InstallRequest)
        → seen k s ≡ true
        → Declares r e (plugin r k) ds
        → All (λ d. is_planned d everything ≡ true) ds
    declared-planned k ds b v =
        let (es, u, a) = pinned.1 k b in
        Has-planned ds (subst (All (Has s)) (Declares-unique r e (plugin r k) es ds u v) a)

    layer-IsPlanned :
        (before rest l : List InstallRequest)
        → before ++ rest ≡ everything
        → All (IsFree s.dependencies rest) l
        → All (λ q. seen q.tool s ≡ true) l
        → All
            (λ q.
              (ds : List InstallRequest) × Declares r e (plugin r q.tool) ds
              × All (λ d. is_planned d before ≡ true) ds)
            l
    layer-IsPlanned before rest [] h f g = tt
    layer-IsPlanned before rest (q ∷ l) h (x, f) (b, g) =
        let (ds, v, y) = w q.tool b in
        (
          (
            ds,
            v,
            before-All before rest ds (subst (λ ns. any_remaining ns rest ≡ false) y x) (
                subst (λ xs. All (λ d. is_planned d xs ≡ true) ds) (sym h)
                  (declared-planned q.tool ds b v)),
          ),
          layer-IsPlanned before rest l h f g,
        )

    layers-IsPlanned :
        (before : List InstallRequest) (ls : List (List InstallRequest))
        → before ++ concat ls ≡ everything
        → IsLayered s.dependencies ls
        → ((k : Text) → is_remaining k (concat ls) ≡ true → seen k s ≡ true)
        → IsPlanned before ls
    layers-IsPlanned before [] h f g = tt
    layers-IsPlanned before (l ∷ ls) h (x, f) g =
        let parts = λ (k : Text). is_remaining-append k l (concat ls) in
        (
          layer-IsPlanned before (l ++ concat ls) l h x (
              All-remaining (λ k. seen k s ≡ true) l
                (λ k c. g k (parts k ∙ ap (λ b. b || is_remaining k (concat ls)) c))),
          layers-IsPlanned (before ++ l) ls (append_assoc before l (concat ls) ∙ h) f
              (λ k c. g k (ground (arith, parts k))),
        )

  nothing-IsDeclared : IsDeclared r e nothing_collected
  unfolding lookup_or lookup
  nothing-IsDeclared k h = cc

  nothing-IsPinned : IsPinned r e nothing_collected
  unfolding lookup_or lookup
  nothing-IsPinned = ((λ k p h. cc), (λ k h. cc), tt)

  -- Layers of an installation hold every request that was asked for, with its tool in normal form
  -- and the version that was asked for, trimmed, and no tool twice. Each request in a layer is for a
  -- registered plugin, and each dependency that this plugin declares is in an earlier layer, with
  -- the version that is declared.
  pub install_request_layers_sound :
      (roots : Option (List InstallRequest)) (layers : List (List InstallRequest))
      → install_request_layers r e roots ≡ ok layers
      → All (λ q. is_planned q (concat layers) ≡ true) (roots_or r e roots)
        × (is_distinct (concat layers) ≡ true)
        × IsPlanned [] layers
  unfolding install_request_layers
  install_request_layers_sound roots layers h =
      let wanted = roots_or r e roots in
      let f = length r.by_id + 2 in
      let (s, a, b) = layers_of-eq-ok (visit_roots r e f wanted nothing_collected) layers h in
      let (o, x) = visit_roots-IsOrdered r e f wanted nothing_collected s a nothing-IsOrdered in
      let (w, y) =
        visit_roots-IsDeclared r e f wanted nothing_collected s a nothing-IsOrdered
          nothing-IsDeclared in
      let (z, x2, m) = visit_roots-IsPinned r e f wanted nothing_collected s a nothing-IsPinned in
      let (p, g) = layer_requests_sound s.dependencies s.order (values s.requests) layers b in
      let idle = λ (k : Text). x.same k ∙ nothing-idle k in
      (
        Has-planned s (concat layers) p o w z idle wanted m,
        is_distinct-perm p ∙ is_distinct-values _ (λ k q (t, c). t) s.requests o.known z.2,
        layers-IsPlanned s (concat layers) p o w z idle [] layers refl g
            (remaining-seen s (concat layers) p o w z idle),
      )
