-- ===== src/Tools/Validation/Peers.antt =====
-- What an environment that is accepted has (tools/registry.go).
use polka.Base.{Text, norm, text_dec, Bool, true, false, Option, none, some}
use polka.Base.{
  List, [], ◌∷◌, ◌++◌, if◌then◌else◌, ◌≡◌, ◌≢◌, refl, ap, sym, subst, ◌∙◌, arith, inl, inr, All,
  Bool-cases,
}
use polka.Base.Dict.{lookup}
use polka.Base.Dict.Laws.{lookup-insert}
use polka.Base.Strings.Laws.{norm-norm}
use polka.Base.Result.{ok, >>=-eq-ok, ok_injective}
use polka.Backend.State.{contains}
use polka.Config.Types.{Environment}
use polka.Tools.Registry.{
  own_exclusions, ToolPlugin, Registry, plugin, exclusive_peers, register, register_all,
  new_registry, add_plugin,
}
use polka.Tools.Registry.Laws.{excludes, contains-exclusive_peers}
use polka.Tools.Registry.Symmetry.{register-eq-ok}
use polka.Tools.Dispatch.{is_configured, or_else}
use polka.Tools.Validation.{
  check_plugin, check_plugins, check_database, first_configured, when_configured, exclusion,
}
use polka.Tools.Validation.{validate_environment}

-- what is found under an id is a plugin of that id, which is in the list
abbrev pub IsFiled : Registry → Type 1
IsFiled r =
    (k : Text) (p : ToolPlugin)
    → lookup k r.by_id ≡ some p
    → (norm p.id ≡ k) × ((C : ToolPlugin → Type 0) → All C r.plugins → C p)

All-init :
    (C : ToolPlugin → Type 0) (xs : List ToolPlugin) (p : ToolPlugin)
    → All C (xs ++ p ∷ [])
    → All C xs × C p
All-init C [] p (x, h) = (tt, x)
All-init C (y ∷ xs) p (x, h) = let (a, b) = All-init C xs p h in ((x, a), b)

add_plugin-IsFiled :
    (r : Registry) (p : ToolPlugin) → IsFiled r → IsFiled (add_plugin r (norm p.id) p)
add_plugin-IsFiled r p f k q h = elim (text_dec k (norm p.id)) [
  | yes e ↦ same (found e)
  | no n ↦ let (a, b) = f k q (older n) in (a, (λ C h. b C (All-init C r.plugins p h).0))
]
  where
    found : k ≡ norm p.id → (p ≡ q) × (k ≡ norm p.id)
    found e = ground (arith, lookup-insert k (norm p.id) p r.by_id)

    same :
        (p ≡ q) × (k ≡ norm p.id)
        → (norm q.id ≡ k) × ((C : ToolPlugin → Type 0) → All C (r.plugins ++ p ∷ []) → C q)
    same (x, e) = (
      ap (λ (t : ToolPlugin). norm t.id) (sym x) ∙ sym e,
      (λ C h. subst C x (All-init C r.plugins p h).1),
    )

    older : k ≢ norm p.id → lookup k r.by_id ≡ some q
    older n = ground (arith, lookup-insert k (norm p.id) p r.by_id)

register_all-IsFiled :
    (ps : List ToolPlugin) (r s : Registry) → IsFiled r → register_all r ps ≡ ok s → IsFiled s
unfolding register_all
register_all-IsFiled [] r s f h = subst IsFiled (ok_injective h) f
register_all-IsFiled (p ∷ ps) r s f h =
    let (q, a, b) = >>=-eq-ok (register r p) (λ q. register_all q ps) h in
    let (free, e) = register-eq-ok r q p a in
    register_all-IsFiled ps q s (subst IsFiled e (add_plugin-IsFiled r p f)) b

empty-IsFiled : IsFiled (record { plugins = []; by_id = [] })
unfolding lookup
empty-IsFiled k p h = cc

pub or_else-none {ℓ} : {A : Type ℓ} (a b : Option A) → or_else a b ≡ none → (a ≡ none) × (b ≡ none)
or_else-none none b h = (refl, h)
or_else-none (some x) b h = cc

module _ (r : Registry) (e : Environment) where
  check_plugins-none :
      (ps : List ToolPlugin) → check_plugins r e ps ≡ none → All (λ p. check_plugin r e p ≡ none) ps
  unfolding check_plugins
  check_plugins-none [] h = tt
  check_plugins-none (p ∷ ps) h =
      let (a, b) = or_else-none (check_plugin r e p) (check_plugins r e ps) h in
      (a, check_plugins-none ps b)

  first_configured-none :
      (ids : List Text) (id : Text) (q : ToolPlugin)
      → first_configured r e ids ≡ none
      → contains id ids ≡ true
      → plugin r id ≡ some q
      → is_configured e q ≡ false
  unfolding first_configured
  first_configured-none [] id q h c f = cc
  first_configured-none (j ∷ ids) id q h c f =
      let (a, b) = or_else-none (when_configured r e (plugin r j)) (first_configured r e ids) h in
      elim (text_dec j id) [
        | yes x ↦ idle (plugin r j) a (ap (plugin r) x ∙ f)
        | no n ↦ first_configured-none ids id q b (ground arith) f
      ]
    where
      idle :
          (o : Option ToolPlugin)
          → when_configured r e o ≡ none
          → o ≡ some q
          → is_configured e q ≡ false
      idle none x y = cc
      idle (some p) x y = elim (Bool-cases (is_configured e q)) [ inl k ↦ ground arith | inr k ↦ k ]

  exclusion-none :
      (p : ToolPlugin)
      → check_plugin r e p ≡ none
      → is_configured e p ≡ true
      → first_configured r e (exclusive_peers r p.id) ≡ none
  exclusion-none p h k =
      let (a, b) = or_else-none _ _ h in
      go (is_configured e p) (first_configured r e (exclusive_peers r p.id)) k a
    where
      go :
          (b : Bool) (o : Option ToolPlugin)
          → b ≡ true
          → (if b then exclusion r e p o else none) ≡ none
          → o ≡ none
      go true none x h = refl
      go true (some q) x h = cc
      go false o x h = cc

-- In an environment that is accepted, with a registry that `NewRegistry` builds: of two plugins with
-- different names, where the one declares that it excludes the other, not both are configured.
pub exclusive-validate_environment :
    (ps : List ToolPlugin) (r : Registry) (e : Environment) (a b : Text) (p q : ToolPlugin)
    → new_registry ps ≡ ok r
    → validate_environment r e ≡ none
    → plugin r a ≡ some p
    → plugin r b ≡ some q
    → norm a ≢ []
    → norm b ≢ []
    → norm a ≢ norm b
    → excludes p.exclusive_with (norm b) ≡ true
    → is_configured e p ≡ true
    → is_configured e q ≡ false
unfolding new_registry validate_environment plugin
exclusive-validate_environment ps r e a b p q h v fa fb na nb n x k =
    let filed = register_all-IsFiled ps (record { plugins = []; by_id = [] }) r empty-IsFiled h in
    let (named, among) = filed (norm a) p fa in
    let (checked, rest) =
      or_else-none (check_plugins r e r.plugins) (check_database r e e.database) v in
    let idle =
      exclusion-none r e p
        (among (λ i. check_plugin r e i ≡ none) (check_plugins-none r e r.plugins checked)) k in
    let own : own_exclusions (lookup (norm p.id) r.by_id) ≡ p.exclusive_with =
      ap own_exclusions (ap (λ i. lookup i r.by_id) named ∙ fa) in
    let there : contains (norm b) (exclusive_peers r p.id) ≡ true =
      ground (arith, contains-exclusive_peers r p.id b, own, named) in
    first_configured-none r e (exclusive_peers r p.id) (norm b) q idle there
      (ap (λ i. lookup i r.by_id) (norm-norm b) ∙ fb)
