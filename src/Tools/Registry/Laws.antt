-- ===== src/Tools/Registry/Laws.antt =====
-- Which tools exclude each other (tools/registry.go).
use polka.Base.{Text, ◌==◌, norm, trim, null, Bool, false, not, ◌&&◌, ◌||◌, List}
use polka.Base.{[], ◌∷◌, ◌++◌, if◌then◌else◌, ◌≡◌, arith, ap, ◌∙◌, subst, text_dec, ◌≢◌}
use polka.Base.Strings.{equal_fold}
use polka.Base.Strings.Laws.{equal_fold-norm, norm-norm}
use polka.Backend.State.{contains}
use polka.Backend.State.Laws.{contains-append}
use polka.Tools.Registry.{ToolPlugin, Registry, plugin, add_peer, add_declared, add_if_excludes}
use polka.Tools.Registry.{add_excluding, own_exclusions, exclusive_peers}

-- whether a list of exclusions names a tool in normal form
abbrev pub excludes : List Text → Text → Bool
excludes [] t = false
excludes (p ∷ ps) t = norm p == t || excludes ps t

-- whether a plugin of this id, in normal form, excludes the target
abbrev pub excluded_by : List ToolPlugin → Text → Text → Bool
excluded_by [] x target = false
excluded_by (p ∷ ps) x target =
    (norm p.id == x && excludes p.exclusive_with target) || excluded_by ps x target

-- a name that can be a peer of the target
abbrev pub can_be_peer : Text → Text → Bool
can_be_peer x target = not (null x) && not (x == target)

-- whether x is there after n is added, unless it cannot be a peer or is there already
AddsPeer : Text → Text → Text → List Text → Type 0
AddsPeer x n target peers =
    contains x (if null n || n == target || contains n peers then peers else peers ++ n ∷ [])
    ≡ (contains x peers || (can_be_peer x target && n == x))

adds_itself : (n target : Text) (peers : List Text) → AddsPeer n n target peers
unfolding AddsPeer
adds_itself n target peers = ground (arith, contains-append n peers (n ∷ []))

adds_no_other : (x n target : Text) (peers : List Text) → n ≢ x → AddsPeer x n target peers
unfolding AddsPeer
adds_no_other x n target peers h = ground (arith, contains-append x peers (n ∷ []))

contains-add_peer :
    (x target : Text) (peers : List Text) (p : Text)
    → contains x (add_peer target peers p)
      ≡ (contains x peers || (can_be_peer x target && norm p == x))
unfolding AddsPeer
contains-add_peer x target peers p = elim (text_dec (norm p) x) [
  | yes q ↦ subst (λ y. AddsPeer y (norm p) target peers) q (adds_itself (norm p) target peers)
  | no k ↦ adds_no_other x (norm p) target peers k
]

contains-add_declared :
    (x target : Text) (ps peers : List Text)
    → contains x (add_declared target ps peers)
      ≡ (contains x peers || (can_be_peer x target && excludes ps x))
unfolding add_declared
contains-add_declared x target [] peers = ground arith
contains-add_declared x target (p ∷ ps) peers = ground (
  arith,
  contains-add_declared x target ps (add_peer target peers p),
  contains-add_peer x target peers p,
)

equal_fold-normal : (p t : Text) → norm t ≡ t → equal_fold (trim p) t ≡ (norm p == t)
equal_fold-normal p t n = subst (λ y. equal_fold (trim p) y ≡ (norm p == y)) n (equal_fold-norm p t)

contains-add_normal :
    (x target : Text) (peers : List Text) (id : Text)
    → norm id ≡ id
    → contains x (add_peer target peers id)
      ≡ (contains x peers || (can_be_peer x target && id == x))
contains-add_normal x target peers id m =
    contains-add_peer x target peers id
    ∙ ap (λ y. contains x peers || (can_be_peer x target && y == x)) m

contains-add_if_excludes :
    (x target id : Text) (ps peers : List Text)
    → norm target ≡ target
    → norm id ≡ id
    → contains x (add_if_excludes target id ps peers)
      ≡ (contains x peers || (can_be_peer x target && id == x && excludes ps target))
unfolding add_if_excludes
contains-add_if_excludes x target id [] peers n m = ground arith
contains-add_if_excludes x target id (p ∷ ps) peers n m = ground (
  arith,
  contains-add_if_excludes x target id ps peers n m,
  contains-add_if_excludes x target id ps (add_peer target peers id) n m,
  contains-add_normal x target peers id m,
  equal_fold-normal p target n,
)

contains-add_excluding :
    (x target : Text) (ps : List ToolPlugin) (peers : List Text)
    → norm target ≡ target
    → contains x (add_excluding target ps peers)
      ≡ (contains x peers || (can_be_peer x target && excluded_by ps x target))
unfolding add_excluding
contains-add_excluding x target [] peers n = ground arith
contains-add_excluding x target (p ∷ ps) peers n = ground (
  arith,
  contains-add_excluding x target ps (add_if_excludes target (norm p.id) p.exclusive_with peers) n,
  contains-add_if_excludes x target (norm p.id) p.exclusive_with peers n (norm-norm p.id),
)

-- For a name that is not blank, another name is among its exclusive peers exactly if that is not blank
-- either, the two differ in normal form, and one excludes the other in any spelling: the plugin found
-- under the first name excludes the second, or a registered plugin of the second excludes the first.
pub contains-exclusive_peers :
    (r : Registry) (id peer : Text)
    → norm id ≢ []
    → contains (norm peer) (exclusive_peers r id) ≡ (
        can_be_peer (norm peer) (norm id)
        && (excludes (own_exclusions (plugin r id)) (norm peer)
            || excluded_by r.plugins (norm peer) (norm id)))
unfolding exclusive_peers plugin
contains-exclusive_peers r id peer h =
    let target = norm id in
    let own = own_exclusions (plugin r target) in
    ground (
      arith,
      contains-add_excluding (norm peer) target r.plugins (add_declared target own [])
          (norm-norm id),
      contains-add_declared (norm peer) target own [],
      norm-norm id,
    )
