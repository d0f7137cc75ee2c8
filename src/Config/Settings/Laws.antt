-- ===== src/Config/Settings/Laws.antt =====
-- Reading settings after writing them, and normalising them (config/types.go).
use polka.Base.{Text, ◌==◌, norm, Option, none, some, [], ◌∷◌}
use polka.Base.{◌≡◌, ◌≢◌, refl, arith, if◌then◌else◌, ◌&&◌, All, Option-cases, inl, inr, ◌⊎◌}
use polka.Base.Strings.Laws.{norm-norm}
use polka.Base.Dict.{Dict, lookup, find_where}
use polka.Base.Dict.Laws.{insert-All, delete-All, lookup-insert, lookup-delete}
use polka.Base.Dict.Rebuild.{rebuild-rebuild}
use polka.Config.Keys.{lookup_fold, delete_fold, set_fold}
use polka.Config.Keys.Laws.{lookup_fold-set_fold, lookup_fold-delete_fold, matches_key-norm}
use polka.Config.Values.{Value, nil, normalize_setting_value}
use polka.Config.Values.Laws.{normalize_setting_value_idem}
use polka.Config.Types.{Environment, SettingsConfig}
use polka.Config.Settings.{setting, set_setting, settings_after, prune_namespace, scan_namespaces}
use polka.Config.Settings.{values_entry, settings_entry, normalize_settings_config}

-- every namespace is spelled in its normal form
abbrev pub HasNormalNamespaces : SettingsConfig → Type 0
HasNormalNamespaces = All (λ (ns, _). norm ns ≡ ns)

-- no namespace can then match a name without being spelled like it
scan_namespaces-eq-none :
    (t k : Text) (settings : SettingsConfig)
    → HasNormalNamespaces settings
    → lookup (norm t) settings ≡ none
    → scan_namespaces (norm t) k settings ≡ none
unfolding scan_namespaces lookup
scan_namespaces-eq-none t k [] n h = refl
scan_namespaces-eq-none t k ((ns, values) ∷ settings) (n, ns_normal) h =
    ground (arith, scan_namespaces-eq-none t k settings ns_normal, matches_key-norm t ns)

lookup_fold-nil : (k : Text) → lookup_fold {V = Value} k [] ≡ none
unfolding lookup_fold lookup find_where
lookup_fold-nil k = refl

prune_namespace-HasNormalNamespaces :
    (t : Text) (values : Dict Value) (settings : SettingsConfig)
    → HasNormalNamespaces settings
    → HasNormalNamespaces (prune_namespace (norm t) values settings)
prune_namespace-HasNormalNamespaces t [] settings n = delete-All _ (norm t) settings n
prune_namespace-HasNormalNamespaces t (v ∷ values) settings n =
    insert-All _ (norm t) (v ∷ values) settings (norm-norm t) n

settings_after-HasNormalNamespaces :
    (t k : Text) (v : Option Value) (settings : SettingsConfig)
    → HasNormalNamespaces settings
    → HasNormalNamespaces (settings_after (norm t) k v settings)
settings_after-HasNormalNamespaces t k none settings n =
    elim (Option-cases (lookup (norm t) settings)) [
      | inl e ↦ rw (e, settings_after) n
      | inr (values, e) ↦
          rw (e, settings_after)
            (prune_namespace-HasNormalNamespaces t (delete_fold k values) settings n)
    ]
settings_after-HasNormalNamespaces t k (some v) settings n =
    elim (Option-cases (lookup (norm t) settings)) [
      | inl e ↦
          rw (e, settings_after) (insert-All _ (norm t) (set_fold k v []) settings (norm-norm t) n)
      | inr (values, e) ↦
          rw (e, settings_after)
            (insert-All _ (norm t) (set_fold k v values) settings (norm-norm t) n)
    ]

-- the value that a lookup finds when there is no other spelling of the namespace
abbrev read : Text → Text → SettingsConfig → Option Value
read ns k settings = elim (lookup ns settings) [ none ↦ none | some values ↦ lookup_fold k values ]

setting-read :
    (e : Environment) (t k : Text)
    → HasNormalNamespaces e.settings
    → norm t ≢ []
    → norm k ≢ []
    → setting e t k ≡ read (norm t) (norm k) e.settings
unfolding setting
setting-read e t k n ht hk = ground (arith, scan_namespaces-eq-none t (norm k) e.settings n)

read-prune_namespace :
    (ns u asked : Text) (values : Dict Value) (settings : SettingsConfig)
    → read u asked (prune_namespace ns values settings)
      ≡ (if u == ns then lookup_fold asked values else read u asked settings)
read-prune_namespace ns u asked [] settings =
    ground (arith, lookup-delete u ns settings, lookup_fold-nil asked)
read-prune_namespace ns u asked (v ∷ values) settings =
    ground (arith, lookup-insert u ns (v ∷ values) settings)

read-settings_after :
    (t u k asked : Text) (v : Option Value) (settings : SettingsConfig)
    → read (norm u) (norm asked) (settings_after (norm t) (norm k) v settings) ≡ (
        if norm u == norm t && norm asked == norm k then v else read (norm u) (norm asked) settings)
read-settings_after t u k asked none settings = elim (Option-cases (lookup (norm t) settings)) [
  | inl e ↦ rw (e, settings_after) (ground arith)
  | inr (values, e) ↦
      rw (e, settings_after)
        (rw read-prune_namespace (ground (arith, lookup_fold-delete_fold k asked nil values)))
]
read-settings_after t u k asked (some v) settings = elim (Option-cases (lookup (norm t) settings)) [
  | inl e ↦
      rw (e, settings_after)
        (ground (
          arith,
          lookup-insert (norm u) (norm t) (set_fold (norm k) v []) settings,
          lookup_fold-set_fold k asked v [],
          lookup_fold-nil (norm asked),
        ))
  | inr (values, e) ↦
      rw (e, settings_after)
        (ground (
          arith,
          lookup-insert (norm u) (norm t) (set_fold (norm k) v values) settings,
          lookup_fold-set_fold k asked v values,
        ))
]

set_setting-eq :
    (e : Environment) (namespace key : Text) (value : Value)
    → norm namespace ≢ []
    → norm key ≢ []
    → set_setting e namespace key value ≡ record e {
      settings =
          settings_after (norm namespace) (norm key) (normalize_setting_value value) e.settings;
    }
unfolding set_setting
set_setting-eq e namespace key value hn hk = ground arith

setting-eq-none :
    (e : Environment) (t k : Text) → (norm t ≡ []) ⊎ (norm k ≡ []) → setting e t k ≡ none
unfolding setting
setting-eq-none e t k h = ground arith

-- With namespaces in normal form, and for a namespace and a key that are not blank: after a setting
-- is set, reading it in any spelling gives its normalised value, nothing if that is a zero value, and
-- every other setting reads as before.
pub setting-set_setting :
    (e : Environment) (namespace key : Text) (value : Value) (ns' key' : Text)
    → HasNormalNamespaces e.settings
    → norm namespace ≢ []
    → norm key ≢ []
    → setting (set_setting e namespace key value) ns' key' ≡ (
        if norm ns' == norm namespace && norm key' == norm key
        then normalize_setting_value value
        else setting e ns' key')
setting-set_setting e namespace key value ns' key' n hn hk =
    let v = normalize_setting_value value in
    let s = settings_after (norm namespace) (norm key) v e.settings in
    rw (set_setting-eq e namespace key value hn hk) (
      ground (
        arith,
        setting-read (record e { settings = s }) ns' key'
            (settings_after-HasNormalNamespaces namespace (norm key) v e.settings n),
        setting-read e ns' key' n,
        setting-eq-none e ns' key',
        setting-eq-none (record e { settings = s }) ns' key',
        read-settings_after namespace ns' key key' v e.settings,
      ))

values_entry_idem :
    (k : Text) (v : Value) (e : Text × Value)
    → values_entry k v ≡ some e
    → values_entry e.0 e.1 ≡ some e
values_entry_idem k v e h = ground (arith, norm-norm k, normalize_setting_value_idem v e.1)

settings_entry_idem :
    (k : Text) (m : Dict Value) (e : Text × Dict Value)
    → settings_entry k m ≡ some e
    → settings_entry e.0 e.1 ≡ some e
settings_entry_idem k m e h =
    ground (arith, norm-norm k, rebuild-rebuild values_entry values_entry_idem m)

-- Normalising the settings twice is normalising them once.
pub normalize_settings_config_idem :
    (settings : SettingsConfig)
    → normalize_settings_config (normalize_settings_config settings)
      ≡ normalize_settings_config settings
unfolding normalize_settings_config
normalize_settings_config_idem settings =
    rebuild-rebuild settings_entry settings_entry_idem settings
