-- ===== src/Tools/Registry/Symmetry.antt =====
-- The exclusive peers of two tools, each seen from the other (tools/registry.go).
use polka.Base.{Text, ◌==◌, norm, ◌&&◌, ◌||◌, none, List}
use polka.Base.{[], ◌∷◌, ◌++◌, ◌≡◌, ◌≢◌, refl, arith, subst}
use polka.Base.Dict.{lookup}
use polka.Base.Dict.Laws.{lookup-insert}
use polka.Base.Result.{ok, >>=-eq-ok, ok_injective}
use polka.Backend.State.{contains}
use polka.Tools.Registry.{
  ToolPlugin, Registry, plugin, register, register_all, new_registry, add_plugin,
}
use polka.Tools.Registry.{own_exclusions, exclusive_peers}
use polka.Tools.Registry.Laws.{excludes, excluded_by, contains-exclusive_peers}

-- the plugin found under a name is the one that has it
abbrev pub IsConsistent : Registry → Type 0
IsConsistent r =
    (t x : Text) → excludes (own_exclusions (lookup t r.by_id)) x ≡ excluded_by r.plugins t x

excluded_by-append :
    (ps : List ToolPlugin) (p : ToolPlugin) (t x : Text)
    → excluded_by (ps ++ p ∷ []) t x
      ≡ (excluded_by ps t x || (norm p.id == t && excludes p.exclusive_with x))
excluded_by-append [] p t x = ground arith
excluded_by-append (q ∷ ps) p t x = ground (arith, excluded_by-append ps p t x)

==-sym : (s t : Text) → (s == t) ≡ (t == s)
==-sym s t = ground arith

-- adding a plugin under an id that is not taken
add_plugin-IsConsistent :
    (r : Registry) (p : ToolPlugin)
    → IsConsistent r
    → lookup (norm p.id) r.by_id ≡ none
    → IsConsistent (add_plugin r (norm p.id) p)
add_plugin-IsConsistent r p c free t x =
    ground (
      arith,
      lookup-insert t (norm p.id) p r.by_id,
      excluded_by-append r.plugins p t x,
      c t x,
      free,
    )

-- what an accepted registration does
pub register-eq-ok :
    (r s : Registry) (p : ToolPlugin)
    → register r p ≡ ok s
    → (lookup (norm p.id) r.by_id ≡ none) × (add_plugin r (norm p.id) p ≡ s)
unfolding register
register-eq-ok r s p h = ground arith

register-IsConsistent :
    (r s : Registry) (p : ToolPlugin) → IsConsistent r → register r p ≡ ok s → IsConsistent s
register-IsConsistent r s p c h =
    let (free, e) = register-eq-ok r s p h in
    subst IsConsistent e (add_plugin-IsConsistent r p c free)

empty-IsConsistent : IsConsistent (record { plugins = []; by_id = [] })
unfolding lookup
empty-IsConsistent t x = refl

register_all-IsConsistent :
    (ps : List ToolPlugin) (r s : Registry)
    → IsConsistent r
    → register_all r ps ≡ ok s
    → IsConsistent s
unfolding register_all
register_all-IsConsistent [] r s c h = subst IsConsistent (ok_injective h) c
register_all-IsConsistent (p ∷ ps) r s c h =
    let (q, a, b) = >>=-eq-ok (register r p) (λ q. register_all q ps) h in
    register_all-IsConsistent ps q s (register-IsConsistent r q p c a) b

-- In a registry that `NewRegistry` builds, of two tools with names that are not blank, the one is an
-- exclusive peer of the other exactly if the other is one of it.
pub exclusive_peers_sym :
    (ps : List ToolPlugin) (r : Registry) (a b : Text)
    → new_registry ps ≡ ok r
    → norm a ≢ []
    → norm b ≢ []
    → contains (norm b) (exclusive_peers r a) ≡ contains (norm a) (exclusive_peers r b)
unfolding new_registry plugin
exclusive_peers_sym ps r a b h na nb =
    let c =
      register_all-IsConsistent ps (record { plugins = []; by_id = [] }) r empty-IsConsistent h in
    ground (
      arith,
      contains-exclusive_peers r a b na,
      contains-exclusive_peers r b a nb,
      c (norm a) (norm b),
      c (norm b) (norm a),
      ==-sym (norm a) (norm b),
    )
