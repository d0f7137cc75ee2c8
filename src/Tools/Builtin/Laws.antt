-- ===== src/Tools/Builtin/Laws.antt =====
-- What the manifest rules of a built-in plugin guarantee (tools/registry.go).
use polka.Base.{
  Text, trim, text_dec, null, Bool, true, false, not, ◌&&◌, ◌||◌, Option, none, some, List, [], ◌∷◌,
  if◌then◌else◌,
}
use polka.Base.{◌≡◌, refl, ap, sym, subst, ◌∙◌, arith, ◌⊎◌, inl, inr, Bool-cases}
use polka.Base.Dict.{Dict, lookup}
use polka.Backend.State.{contains}
use polka.Config.Types.{Environment}
use polka.Config.Settings.{setting_int}
use polka.Config.Workers.Names.{keys, sort_texts, sorted_worker_names}
use polka.Tools.Constraint.{allows_label}
use polka.Tools.Dispatch.{or_else}
use polka.Tools.Validation.{VersionError, validate_version, valid_port, is_zero}
use polka.Tools.Validation.Peers.{or_else-none}
use polka.Tools.Builtin.{SettingType, ManifestError, some_set}
use polka.Tools.Builtin.{
  port, BuiltinPlugin, requires_version, settings_configured, some_version, check_setting,
}
use polka.Tools.Builtin.{
  check_settings, check_ports, check_label, check_version, validate_manifest_rules,
}
use polka.Service.Workers.Jobs.{contains-sort_texts}

contains-lookup {ℓ} :
    {V : Type ℓ} (k : Text) (v : V) (m : Dict V) → lookup k m ≡ some v → contains k (keys m) ≡ true
unfolding lookup
contains-lookup k v [] h = cc
contains-lookup k v ((j, w) ∷ m) h = ground (arith, contains-lookup k v m)

module _ (e : Environment) (p : BuiltinPlugin) where
  -- the integer setting is not set, or a valid port
  abbrev pub port_fits : Text → Bool
  port_fits key =
      is_zero (setting_int e p.settings_namespace key)
      || valid_port (setting_int e p.settings_namespace key)

  -- a port setting of a plugin that has settings is not set, or a valid port
  abbrev pub IsPort : Text → Type 0
  IsPort key = (null p.settings_namespace || port_fits key) ≡ true

  -- a version is well formed and within the bounds of the manifest; there is none only if no setting
  -- is configured or a plugin that excludes this one has a version
  abbrev pub IsAcceptable : Text → Type 0
  IsAcceptable version =
      ((null version ≡ true)
        × ((settings_configured e p.settings_namespace p.settings ≡ false)
            ⊎ (some_version e p.exclusive_with ≡ true)))
      ⊎ ((null version ≡ false)
          × (validate_version version ≡ none)
          × (allows_label p.version_constraint version ≡ true))

  -- a port among settings of which none is configured is not set
  some_set-port :
      (key : Text) (schema : Dict SettingType)
      → some_set e p.settings_namespace schema ≡ false
      → lookup key schema ≡ some port
      → port_fits key ≡ true
  unfolding some_set lookup
  some_set-port key [] h l = cc
  some_set-port key ((k, t) ∷ schema) h l = ground (arith, some_set-port key schema)

  check_settings-none :
      (ns : List Text) (key : Text)
      → check_settings e p ns ≡ none
      → contains key ns ≡ true
      → lookup key p.settings ≡ some port
      → port_fits key ≡ true
  unfolding check_settings
  check_settings-none [] key h c l = cc
  check_settings-none (n ∷ ns) key h c l =
      let (a, b) =
        or_else-none (check_setting e p n (lookup n p.settings)) (check_settings e p ns) h in
      elim (text_dec n key) [
        | yes x ↦ in_range (
            ap (check_setting e p key) (sym l)
            ∙ subst (λ k. check_setting e p k (lookup k p.settings) ≡ none) x a)
        | no x ↦ check_settings-none ns key b (ground arith) l
      ]
    where
      in_range : check_setting e p key (some port) ≡ none → port_fits key ≡ true
      in_range g = ground arith

  check_version-none :
      (version : Text)
      → null version ≡ false
      → check_version e p version ≡ none
      → (validate_version version ≡ none) × (allows_label p.version_constraint version ≡ true)
  check_version-none version n h = labeled (validate_version version) (second (null version) n h)
    where
      second :
          (b : Bool)
          → b ≡ false
          → (if b then none else check_label e p version (validate_version version)) ≡ none
          → check_label e p version (validate_version version) ≡ none
      second true q g = cc
      second false q g = g

      labeled :
          (o : Option VersionError)
          → check_label e p version o ≡ none
          → (o ≡ none) × (allows_label p.version_constraint version ≡ true)
      labeled (some reason) g = cc
      labeled none g = (refl, ground arith)

  check_ports-none :
      check_ports e p ≡ none → (key : Text) → lookup key p.settings ≡ some port → IsPort key
  unfolding sorted_worker_names
  check_ports-none h key l = go (null p.settings_namespace) h
    where
      go :
          (b : Bool)
          → (if b then none else check_settings e p (sort_texts (keys p.settings))) ≡ none
          → (b || port_fits key) ≡ true
      go true g = refl
      go false g =
          check_settings-none (sort_texts (keys p.settings)) key g
            (contains-sort_texts key (keys p.settings) ∙ contains-lookup key port p.settings l) l

  unconfigured-IsPort :
      settings_configured e p.settings_namespace p.settings ≡ false
      → (key : Text) → lookup key p.settings ≡ some port
      → IsPort key
  unfolding settings_configured
  unconfigured-IsPort h key l = go (null p.settings_namespace) h
    where
      go :
          (b : Bool)
          → (if b then false else some_set e p.settings_namespace p.settings) ≡ false
          → (b || port_fits key) ≡ true
      go true g = refl
      go false g = some_set-port key p.settings g l

  -- what is left of the rules once those on a missing version are passed
  remaining_rules :
      (b c d : Bool) (rest : Option ManifestError)
      → (if b && not c then none else if b && not d then some (requires_version p.id) else rest)
        ≡ none
      → ((b ≡ true) × (c ≡ false)) ⊎ (((b ≡ false) ⊎ (d ≡ true)) × (rest ≡ none))
  remaining_rules true false d rest h = inl (refl, refl)
  remaining_rules true true true rest h = inr (inr refl, h)
  remaining_rules true true false rest h = cc
  remaining_rules false c d rest h = inr (inl refl, h)

  checked-IsAcceptable :
      (version : Text)
      → (null version ≡ false) ⊎ (some_version e p.exclusive_with ≡ true)
      → check_version e p version ≡ none
      → IsAcceptable version
  checked-IsAcceptable version o h = elim (Bool-cases (null version)) [
    | inl b ↦ elim o [ inl n ↦ cc | inr s ↦ inl (b, inr s) ]
    | inr b ↦ let (c, d) = check_version-none version b h in inr (b, c, d)
  ]

  -- A plugin that the rules of its manifest accept either has a version that is well formed and that
  -- the manifest's bounds allow, or has no version, and then no setting that is configured or an
  -- exclusive peer with a version. If the plugin has a namespace for its settings, each setting that
  -- is a port is unset (zero) or a valid port.
  pub validate_manifest_rules_sound :
      validate_manifest_rules e p ≡ none
      → IsAcceptable (trim (p.version e))
        × ((key : Text) → lookup key p.settings ≡ some port → IsPort key)
  unfolding validate_manifest_rules
  validate_manifest_rules_sound h =
      let version = trim (p.version e) in
      elim (remaining_rules (null version) (settings_configured e p.settings_namespace p.settings)
        (some_version e p.exclusive_with) (or_else (check_version e p version) (check_ports e p))
        h) [
          | inl (b, c) ↦ (inl (b, inl c), unconfigured-IsPort c)
          | inr (o, g) ↦
              let (a, c) = or_else-none (check_version e p version) (check_ports e p) g in
              (checked-IsAcceptable version o a, check_ports-none c)
        ]
