-- ===== src/Backend/State.antt =====
-- The record of installed tool versions, `installState` (backend/state.go).
pub mod Laws
use polka.Base.{ℕ, Text, ◌==◌, Bool, true, false, ◌||◌, Option, none, some, List, [], ◌∷◌, ◌++◌}
use polka.Base.{if◌then◌else◌}
use polka.Base.Dict.{Dict, lookup, insert, delete, lookup_or}
use polka.Config.Workers.Names.{sort_texts}

pub record InstallState : Type 0 where
  pub version : ℕ
  pub tools : Dict (List Text)

abbrev pub contains : Text → List Text → Bool
contains v [] = false
contains v (w ∷ ws) = w == v || contains v ws

-- `has`
unfoldable pub has : InstallState → Text → Text → Bool
has s tool version = contains version (lookup_or [] tool s.tools)

-- `record`
unfoldable pub record_version : InstallState → Text → Text → InstallState
record_version s tool version =
    let versions = sort_texts (lookup_or [] tool s.tools ++ version ∷ []) in
    if has s tool version then s else record s { tools = insert tool versions s.tools }

-- `append(versions[:index], versions[index+1:]...)` at the first index that holds the version
unfoldable pub remove_first : Text → List Text → List Text
remove_first v [] = []
remove_first v (w ∷ ws) = let rest = remove_first v ws in if w == v then ws else w ∷ rest

abbrev pub store_versions : Text → List Text → Dict (List Text) → Dict (List Text)
store_versions tool [] tools = delete tool tools
store_versions tool (v ∷ versions) tools = insert tool (v ∷ versions) tools

-- `forget`
unfoldable pub forget : InstallState → Text → Text → InstallState
unfolding remove_first
forget s tool version = record s {
  tools = store_versions tool (remove_first version (lookup_or [] tool s.tools)) s.tools;
}
