-- ===== src/Config/Extensions/Pecl/Laws.antt =====
-- PECL packages that are written to a YAML file and read back (config/types.go). The YAML library is
-- a parameter.
use polka.Base.{Text, trim}
use polka.Base.{Option, some, [], ◌∷◌, ◌≡◌, refl, ap, ap₂, subst, ◌∙◌, arith, All}
use polka.Base.Strings.Laws.{trim-trim}
use polka.Base.Dict.{Dict, NodupKeys}
use polka.Base.Dict.Rebuild.{
  rebuild, rebuild-NodupKeys, rebuild-All, rebuild_fixed, rebuild_copy, rebuild-map_values,
  map_values,
}
use polka.Config.Types.{PeclExtensionConfig}
use polka.Config.Values.{Value, str, sprint}
use polka.Config.Extensions.Pecl.{
  option_entry, normalize_options, pecl_entry, normalize_pecl_extensions,
}
use polka.Config.Extensions.Pecl.{
  pecl_extension_version_string, read_options, read_package, pecl_extensions_from_yaml, PeclOptions,
  PeclValue, package_map, scalar, values, texts,
}
use polka.Config.Extensions.Pecl.{write_package, pecl_extensions_file_value}

-- what normalising leaves of a package
record IsTidy (e : PeclExtensionConfig) : Type 0 where
  trimmed : trim e.version ≡ e.version
  options_trimmed : All (λ (_, v). trim v ≡ v) e.configure_options
  options_nodup : NodupKeys e.configure_options

options-trimmed : (m : Dict Text) → All (λ (_, v). trim v ≡ v) (normalize_options m)
unfolding normalize_options
options-trimmed m =
    rebuild-All option_entry (λ (_, v). trim v ≡ v) (λ k v e h. ground (arith, trim-trim v)) m

options-nodup : (m : Dict Text) → NodupKeys (normalize_options m)
unfolding normalize_options
options-nodup m = rebuild-NodupKeys option_entry m

IsTidy-package :
    (x : PeclExtensionConfig)
    → IsTidy (record {
      version = trim x.version;
      configure_options = normalize_options x.configure_options;
    })
IsTidy-package x = record {
  trimmed = trim-trim x.version;
  options_trimmed = options-trimmed x.configure_options;
  options_nodup = options-nodup x.configure_options;
}

pecl_entry-value :
    (k : Text) (x : PeclExtensionConfig) (e : Text × PeclExtensionConfig)
    → pecl_entry k x ≡ some e
    → record { version = trim x.version; configure_options = normalize_options x.configure_options }
      ≡ e.1
pecl_entry-value k x e h = ground arith

pecl_entry-IsTidy :
    (k : Text) (x : PeclExtensionConfig) (e : Text × PeclExtensionConfig)
    → pecl_entry k x ≡ some e
    → IsTidy e.1
pecl_entry-IsTidy k x e h = subst IsTidy (pecl_entry-value k x e h) (IsTidy-package x)

copied :
    (m : Dict Text)
    → All (λ (_, v). trim v ≡ v) m
    → All (λ (o, v). ◌≡◌ {A = Option (Text × Text)} (some (o, trim v)) (some (o, v))) m
copied [] h = tt
copied ((o, v) ∷ m) (e, h) = (ground arith, copied m h)

-- what the YAML library gives back for what it has written to a file
pub record YamlDecoder : Type 0 where
  pub value : Value → Value
  pub options : PeclOptions → PeclOptions

-- a package, written to a file and decoded
abbrev pub through_file : YamlDecoder → PeclValue → PeclValue
through_file d (package_map version options) = package_map (d.value version) (d.options options)
through_file d (scalar value) = scalar (d.value value)

-- a text comes back as it was, and a map of texts as a map of any values that holds the texts
pub record KeepsTexts (d : YamlDecoder) : Type 0 where
  pub text : (s : Text) → d.value (str s) ≡ str s
  pub options : (m : Dict Text) → d.options (texts m) ≡ values (map_values str m)

module _ (d : YamlDecoder) (keeps : KeepsTexts d) where
  -- reading what was written to a file for a package
  abbrev reread : PeclExtensionConfig → PeclExtensionConfig
  reread e = read_package (through_file d (write_package e.version e.configure_options))

  version_reread : (v : Text) → trim v ≡ v → pecl_extension_version_string (d.value (str v)) ≡ v
  unfolding pecl_extension_version_string sprint
  version_reread v e = rw (keeps.text v) e

  options_reread :
      (m : Dict Text)
      → All (λ (_, v). trim v ≡ v) m
      → NodupKeys m
      → read_options (d.options (texts m)) ≡ m
  unfolding sprint
  options_reread m h u =
      ap read_options (keeps.options m)
      ∙ rebuild-map_values str (λ option value. some (option, trim (sprint value))) m
      ∙ rebuild_fixed (λ option value. some (option, trim value)) m u (copied m h)

  package_reread :
      (v : Text) (m : Dict Text)
      → trim v ≡ v
      → All (λ (_, v). trim v ≡ v) m
      → NodupKeys m
      → read_package (through_file d (write_package v m))
        ≡ record { version = v; configure_options = m }
  package_reread v [] e h u =
      ap (λ version. record { version = version; configure_options = [] }) (version_reread v e)
  package_reread v (o ∷ m) e h u =
      ap₂ (λ version options. record { version = version; configure_options = options })
        (version_reread v e) (options_reread (o ∷ m) h u)

  reread_tidy : (e : PeclExtensionConfig) → IsTidy e → reread e ≡ e
  reread_tidy e t =
      package_reread e.version e.configure_options t.trimmed t.options_trimmed t.options_nodup

  normal_reread :
      (m : Dict PeclExtensionConfig) → All (λ (_, e). reread e ≡ e) (normalize_pecl_extensions m)
  unfolding normalize_pecl_extensions
  normal_reread m =
      rebuild-All pecl_entry (λ (_, e). reread e ≡ e)
        (λ k x e h. reread_tidy e.1 (pecl_entry-IsTidy k x e h)) m

map_values_fixed :
    (h : PeclExtensionConfig → PeclExtensionConfig) (m : Dict PeclExtensionConfig)
    → All (λ (_, e). h e ≡ e) m
    → map_values h m ≡ m
map_values_fixed h [] a = refl
map_values_fixed h ((k, e) ∷ m) (p, a) = ap₂ (λ x y. (k, x) ∷ y) p (map_values_fixed h m a)

normal_nodup : (m : Dict PeclExtensionConfig) → NodupKeys (normalize_pecl_extensions m)
unfolding normalize_pecl_extensions
normal_nodup m = rebuild-NodupKeys pecl_entry m

-- If the YAML library gives a text back as it was, and a map of texts as a map of any values that
-- holds those texts, then packages that are written to a file and read back are the packages as they
-- were, normalised twice.
pub pecl_extensions_from_yaml-pecl_extensions_file_value :
    (d : YamlDecoder) (keeps : KeepsTexts d) (m : Dict PeclExtensionConfig)
    → pecl_extensions_from_yaml (map_values (through_file d) (pecl_extensions_file_value m))
      ≡ normalize_pecl_extensions (normalize_pecl_extensions m)
unfolding pecl_extensions_from_yaml pecl_extensions_file_value
pecl_extensions_from_yaml-pecl_extensions_file_value d keeps m =
    let n = normalize_pecl_extensions m in
    let write = λ (e : PeclExtensionConfig). write_package e.version e.configure_options in
    let read = λ (name : Text) (value : PeclValue). some (name, read_package value) in
    ap normalize_pecl_extensions (
      ap (λ file. rebuild read (map_values (through_file d) file))
        (rebuild_copy write n (normal_nodup m))
      ∙ rebuild-map_values (through_file d) read (map_values write n)
      ∙ rebuild-map_values write (λ name value. read name (through_file d value)) n
      ∙ rebuild_copy (reread d keeps) n (normal_nodup m)
      ∙ map_values_fixed (reread d keeps) n (normal_reread d keeps m))
