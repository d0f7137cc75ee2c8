-- ===== src/Config/Database/Laws.antt =====
-- Normalising and merging database sections, and which database version is read
-- (config/types.go).
use polka.Base.{Text, null, norm, trim, true, ◌&&◌, Option, none, some, []}
use polka.Base.{◌≡◌, ◌≢◌, refl, ap, ◌∙◌, arith, Option-cases, inl, inr, if◌then◌else◌}
use polka.Base.Int.{is_zero}
use polka.Base.Strings.Laws.{norm-nil, trim-nil, norm-norm, trim-trim, equal_fold-norm}
use polka.Config.Types.{Environment, DatabaseConfig}
use polka.Config.Tools.{set_tool_version}
use polka.Config.Tools.Laws.{tool_version-set_tool_version}
use polka.Config.Database.{normalize_database_config, merge_database_config, is_managed_engine}
use polka.Config.Database.{populate_database_tool_version, database_tool_version}
use polka.Config.Database.{populate, normalize_database, empty_database, override_database}

-- Normalising a database section twice is normalising it once.
pub normalize_database_config_idem :
    (d : Option DatabaseConfig)
    → normalize_database_config (normalize_database_config d) ≡ normalize_database_config d
unfolding normalize_database_config
normalize_database_config_idem none = refl
normalize_database_config_idem (some d) = ground (arith, norm-norm d.engine, trim-trim d.version)

-- a section as it reads: nil has empty fields
abbrev fields : Option DatabaseConfig → DatabaseConfig
fields none = empty_database
fields (some d) = d

-- a section whose fields are all empty is nil
abbrev collapse : DatabaseConfig → Option DatabaseConfig
collapse d = if null d.engine && null d.version && is_zero d.port then none else some d

abbrev IsNormal : Option DatabaseConfig → Type 0
IsNormal d = normalize_database_config d ≡ d

fields-collapse : (d : DatabaseConfig) → fields (collapse d) ≡ d
fields-collapse d = ground arith

normal_engine :
    (d : Option DatabaseConfig) → IsNormal d → norm (fields d).engine ≡ (fields d).engine
unfolding normalize_database_config
normal_engine none h = norm-nil
normal_engine (some d) h = ground arith

normal_version :
    (d : Option DatabaseConfig) → IsNormal d → trim (fields d).version ≡ (fields d).version
unfolding normalize_database_config
normal_version none h = trim-nil
normal_version (some d) h = ground arith

normal-collapse : (d : Option DatabaseConfig) → IsNormal d → collapse (fields d) ≡ d
unfolding normalize_database_config
normal-collapse none h = refl
normal-collapse (some d) h = ground arith

override_normal :
    (m o : DatabaseConfig)
    → norm m.engine ≡ m.engine
    → trim m.version ≡ m.version
    → norm o.engine ≡ o.engine
    → trim o.version ≡ o.version
    → normalize_database (override_database m o) ≡ collapse (override_database m o)
override_normal m o me mv oe ov = ground arith

-- on normal sections a merge picks each field by itself
merge-fields :
    (a b : Option DatabaseConfig)
    → IsNormal a
    → IsNormal b
    → merge_database_config a b ≡ collapse (override_database (fields a) (fields b))
unfolding merge_database_config
merge-fields none none ha hb = ground arith
merge-fields (some d) none ha hb =
    override_normal d empty_database (normal_engine (some d) ha) (normal_version (some d) ha)
      norm-nil trim-nil
merge-fields none (some o) ha hb =
    override_normal empty_database o norm-nil trim-nil (normal_engine (some o) hb)
      (normal_version (some o) hb)
merge-fields (some d) (some o) ha hb =
    override_normal d o (normal_engine (some d) ha) (normal_version (some d) ha)
      (normal_engine (some o) hb) (normal_version (some o) hb)

override_assoc :
    (a b c : DatabaseConfig)
    → override_database (override_database a b) c ≡ override_database a (override_database b c)
override_assoc a b c = ground arith

-- A merge of normal sections is normal.
pub merge_database_config-normal :
    (a b : Option DatabaseConfig)
    → normalize_database_config (merge_database_config a b) ≡ merge_database_config a b
unfolding merge_database_config normalize_database_config
merge_database_config-normal none none = refl
merge_database_config-normal (some d) none = normalize_database_config_idem (some d)
merge_database_config-normal none (some o) =
    normalize_database_config_idem (some (override_database empty_database o))
merge_database_config-normal (some d) (some o) =
    normalize_database_config_idem (some (override_database d o))

-- Merging normal sections is associative: of several, the last one that has a field decides it.
pub merge_database_config_assoc :
    (a b c : Option DatabaseConfig)
    → normalize_database_config a ≡ a
    → normalize_database_config b ≡ b
    → normalize_database_config c ≡ c
    → merge_database_config (merge_database_config a b) c
      ≡ merge_database_config a (merge_database_config b c)
merge_database_config_assoc a b c ha hb hc =
    rw (merge-fields (merge_database_config a b) c (merge_database_config-normal a b) hc) (
      rw (merge-fields a (merge_database_config b c) ha (merge_database_config-normal b c)) (
        simp (merge-fields a b ha hb, merge-fields b c hb hc, fields-collapse)
          (ap collapse (override_assoc (fields a) (fields b) (fields c)))))

pub managed-ne-nil : (engine : Text) → is_managed_engine engine ≡ true → engine ≢ []
unfolding is_managed_engine
managed-ne-nil engine h = ground arith

set_tool_version-database :
    (e : Environment) (tool v : Text) → (set_tool_version e tool v).database ≡ e.database
unfolding set_tool_version
set_tool_version-database e tool v = ground arith

database_tool_version-populate-some :
    (e : Environment) (d : DatabaseConfig) (engine : Text)
    → e.database ≡ some d
    → database_tool_version (populate e d) engine ≡ database_tool_version e engine
unfolding database_tool_version
database_tool_version-populate-some e d engine h = ground (
  arith,
  tool_version-set_tool_version e (norm d.engine) d.version (norm engine),
  managed-ne-nil (norm d.engine),
  set_tool_version-database e (norm d.engine) d.version,
  norm-norm engine,
  norm-norm d.engine,
  equal_fold-norm d.engine engine,
)

pub populate_database_tool_version-some :
    (e : Environment) (d : DatabaseConfig)
    → e.database ≡ some d
    → populate_database_tool_version e ≡ populate e d
unfolding populate_database_tool_version
populate_database_tool_version-some e d h = ground arith

pub populate_database_tool_version-none :
    (e : Environment) → e.database ≡ none → populate_database_tool_version e ≡ e
unfolding populate_database_tool_version
populate_database_tool_version-none e h = ground arith

-- Copying a database's version to the tool versions changes the version of no engine.
pub database_tool_version-populate_database_tool_version :
    (e : Environment) (engine : Text)
    → database_tool_version (populate_database_tool_version e) engine
      ≡ database_tool_version e engine
database_tool_version-populate_database_tool_version e engine = elim (Option-cases e.database) [
  | inl h ↦ ap (λ x. database_tool_version x engine) (populate_database_tool_version-none e h)
  | inr (d, h) ↦
      ap (λ x. database_tool_version x engine) (populate_database_tool_version-some e d h)
      ∙ database_tool_version-populate-some e d engine h
]
