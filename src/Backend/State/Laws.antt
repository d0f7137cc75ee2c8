-- ===== src/Backend/State/Laws.antt =====
-- What `has` answers after `record` and `forget`, and the order of each tool's versions
-- (backend/state.go).
use polka.Base.{Text, ◌==◌, Bool, true, false, ◌&&◌, ◌||◌, not, List, [], ◌∷◌, ◌++◌}
use polka.Base.{if◌then◌else◌, ◌≡◌, refl, ap, sym, subst, ◌∙◌, arith, Bool-cases, inl, inr}
use polka.Base.Dict.{Dict, insert, lookup_or}
use polka.Base.Dict.Laws.{lookup-insert, lookup-delete}
use polka.Config.Workers.Names.{
  text_le_trans, sort_texts, insert_sorted, IsSorted, sort_texts-IsSorted,
}
use polka.Backend.State.{InstallState, contains, has, record_version, remove_first, store_versions}
use polka.Backend.State.{forget}

pub contains-append :
    (v : Text) (xs ys : List Text) → contains v (xs ++ ys) ≡ (contains v xs || contains v ys)
contains-append v [] ys = refl
contains-append v (x ∷ xs) ys = ground (arith, contains-append v xs ys)

contains-insert_sorted :
    (v w : Text) (ws : List Text) → contains v (insert_sorted w ws) ≡ (w == v || contains v ws)
unfolding insert_sorted
contains-insert_sorted v w [] = refl
contains-insert_sorted v w (x ∷ ws) = ground (arith, contains-insert_sorted v w ws)

contains-sort_texts : (v : Text) (ws : List Text) → contains v (sort_texts ws) ≡ contains v ws
unfolding sort_texts
contains-sort_texts v [] = refl
contains-sort_texts v (w ∷ ws) =
    contains-insert_sorted v w (sort_texts ws) ∙ ap (λ b. w == v || b) (contains-sort_texts v ws)

-- the versions of one tool after a change of another
versions-insert :
    (t u : Text) (vs : List Text) (tools : Dict (List Text))
    → lookup_or [] u (insert t vs tools) ≡ (if u == t then vs else lookup_or [] u tools)
unfolding lookup_or
versions-insert t u vs tools = ground (arith, lookup-insert u t vs tools)

versions-store_versions :
    (t u : Text) (vs : List Text) (tools : Dict (List Text))
    → lookup_or [] u (store_versions t vs tools) ≡ (if u == t then vs else lookup_or [] u tools)
unfolding lookup_or
versions-store_versions t u [] tools = ground (arith, lookup-delete u t tools)
versions-store_versions t u (v ∷ vs) tools = ground (arith, lookup-insert u t (v ∷ vs) tools)

-- After a version is recorded it is installed, and the answer for every other version, of this and
-- of every other tool, is what it was.
pub has-record_version :
    (s : InstallState) (tool version asked_tool asked : Text)
    → has (record_version s tool version) asked_tool asked
      ≡ ((asked_tool == tool && asked == version) || has s asked_tool asked)
unfolding record_version has
has-record_version s tool version u asked =
    let versions = lookup_or [] tool s.tools in
    let recorded = sort_texts (versions ++ version ∷ []) in
    ground (
      arith,
      versions-insert tool u recorded s.tools,
      contains-sort_texts asked (versions ++ version ∷ []),
      contains-append asked versions (version ∷ []),
    )

-- the versions of each tool are sorted and distinct
abbrev pub IsDistinct : List Text → Type 0
IsDistinct [] = Unit
IsDistinct (v ∷ vs) = (contains v vs ≡ false) × IsDistinct vs

remove_first-contains :
    (v w : Text) (ws : List Text)
    → IsDistinct ws
    → contains w (remove_first v ws) ≡ (not (w == v) && contains w ws)
unfolding remove_first
remove_first-contains v w [] d = ground arith
remove_first-contains v w (x ∷ ws) d = ground (arith, remove_first-contains v w ws)

-- After a version is forgotten it is not installed, and the answer for every other version, of this
-- and of every other tool, is what it was, if no version of the tool was listed twice.
pub has-forget :
    (s : InstallState) (tool version asked_tool asked : Text)
    → IsDistinct (lookup_or [] tool s.tools)
    → has (forget s tool version) asked_tool asked
      ≡ (not (asked_tool == tool && asked == version) && has s asked_tool asked)
unfolding forget has
has-forget s tool version u asked d =
    let versions = lookup_or [] tool s.tools in
    ground (
      arith,
      versions-store_versions tool u (remove_first version versions) s.tools,
      remove_first-contains version asked versions d,
    )

IsDistinct-insert_sorted :
    (w : Text) (ws : List Text)
    → contains w ws ≡ false
    → IsDistinct ws
    → IsDistinct (insert_sorted w ws)
unfolding insert_sorted
IsDistinct-insert_sorted w [] h d = ground arith
IsDistinct-insert_sorted w (x ∷ ws) h d =
    ground (arith, IsDistinct-insert_sorted w ws, contains-insert_sorted x w ws)

IsDistinct-sort_texts : (ws : List Text) → IsDistinct ws → IsDistinct (sort_texts ws)
unfolding sort_texts
IsDistinct-sort_texts [] d = tt
IsDistinct-sort_texts (w ∷ ws) d =
    IsDistinct-insert_sorted w (sort_texts ws) (contains-sort_texts w ws ∙ d.0)
      (IsDistinct-sort_texts ws d.1)

IsDistinct-snoc :
    (v : Text) (ws : List Text) → contains v ws ≡ false → IsDistinct ws → IsDistinct (ws ++ v ∷ [])
IsDistinct-snoc v [] h d = ground arith
IsDistinct-snoc v (w ∷ ws) h d = ground (arith, IsDistinct-snoc v ws, contains-append w ws (v ∷ []))

IsDistinct-remove_first :
    (v : Text) (ws : List Text) → IsDistinct ws → IsDistinct (remove_first v ws)
unfolding remove_first
IsDistinct-remove_first v [] d = tt
IsDistinct-remove_first v (w ∷ ws) d =
    ground (arith, IsDistinct-remove_first v ws, remove_first-contains v w ws)

IsSorted-remove_first : (v : Text) (ws : List Text) → IsSorted ws → IsSorted (remove_first v ws)
unfolding remove_first
IsSorted-remove_first v [] h = tt
IsSorted-remove_first v (w ∷ []) h = ground arith
IsSorted-remove_first v (w ∷ x ∷ []) h = ground arith
IsSorted-remove_first v (w ∷ x ∷ y ∷ ws) h =
    ground (arith, IsSorted-remove_first v (x ∷ y ∷ ws), text_le_trans w x y)

-- the versions of every tool are sorted, with none listed twice
abbrev pub IsWellFormed : InstallState → Type 0
IsWellFormed s =
    (tool : Text) → IsSorted (lookup_or [] tool s.tools) × IsDistinct (lookup_or [] tool s.tools)

abbrev IsTidy : List Text → Type 0
IsTidy vs = IsSorted vs × IsDistinct vs

record_known :
    (s : InstallState) (tool version : Text)
    → has s tool version ≡ true
    → record_version s tool version ≡ s
unfolding record_version
record_known s tool version h = ground arith

record_fresh :
    (s : InstallState) (tool version : Text)
    → has s tool version ≡ false
    → record_version s tool version ≡ record s {
      tools = insert tool (sort_texts (lookup_or [] tool s.tools ++ version ∷ [])) s.tools;
    }
unfolding record_version
record_fresh s tool version h = ground arith

IsTidy-if :
    (b : Bool) (vs ws us : List Text)
    → us ≡ (if b then vs else ws)
    → IsTidy vs
    → IsTidy ws
    → IsTidy us
IsTidy-if true vs ws us e v w = subst IsTidy (sym e) v
IsTidy-if false vs ws us e v w = subst IsTidy (sym e) w

-- Recording a version keeps the versions of every tool sorted and distinct.
pub record_version-IsWellFormed :
    (s : InstallState) (tool version : Text)
    → IsWellFormed s
    → IsWellFormed (record_version s tool version)
unfolding record_version has
record_version-IsWellFormed s tool version w u = elim (Bool-cases (has s tool version)) [
  | inl known ↦
      subst (λ x. IsTidy (lookup_or [] u x.tools)) (sym (record_known s tool version known)) (w u)
  | inr fresh ↦
      subst (λ x. IsTidy (lookup_or [] u x.tools)) (sym (record_fresh s tool version fresh))
        (IsTidy-if (u == tool) _ _ _ (versions-insert tool u _ s.tools)
          (
            sort_texts-IsSorted _,
            IsDistinct-sort_texts _ (IsDistinct-snoc version _ fresh (w tool).1),
          )
          (w u))
]

-- Forgetting a version keeps the versions of every tool sorted and distinct.
pub forget-IsWellFormed :
    (s : InstallState) (tool version : Text) → IsWellFormed s → IsWellFormed (forget s tool version)
unfolding forget
forget-IsWellFormed s tool version w u =
    IsTidy-if (u == tool) _ _ _ (versions-store_versions tool u _ s.tools)
      (IsSorted-remove_first version _ (w tool).0, IsDistinct-remove_first version _ (w tool).1)
      (w u)
