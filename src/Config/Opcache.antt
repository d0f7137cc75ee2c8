-- ===== src/Config/Opcache.antt =====
-- OPcache presets and directives of an environment (config/types.go).
use polka.Base.{Text, ◌==◌, codes, norm, trim, Option, some, [], ◌∷◌, if◌then◌else◌}
use polka.Base.{◌≡◌, ◌∙◌, arith}
use polka.Base.Strings.Laws.{norm-norm, norm-nil, trim-trim}
use polka.Base.Dict.{Dict}
use polka.Base.Dict.Rebuild.{rebuild, rebuild-rebuild, rebuild_copy_rebuild}
use polka.Config.Values.{Value, nil, str, sprint}
use polka.Config.Types.{Environment}

-- `NormalizeOPcachePreset`
unfoldable pub normalize_opcache_preset : Text → Text
normalize_opcache_preset preset =
    let normalized = norm preset in if normalized == codes "none" then [] else normalized

-- the entry that a round of `NormalizeOPcacheConfig` writes
abbrev pub directive_entry : Text → Text → Option (Text × Text)
directive_entry key value = some (norm key, trim value)

-- `NormalizeOPcacheConfig`
unfoldable pub normalize_opcache_config : Dict Text → Dict Text
normalize_opcache_config = rebuild directive_entry

-- `opcacheConfigValueString`
unfoldable pub opcache_config_value_string : Value → Text
opcache_config_value_string nil = []
opcache_config_value_string v = trim (sprint v)

-- `NormalizeOPcacheConfigFromYAML`
unfoldable pub normalize_opcache_config_from_yaml : Dict Value → Dict Text
normalize_opcache_config_from_yaml =
    rebuild (λ key value. some (norm key, opcache_config_value_string value))

-- `OPcacheFileConfigFromEnvironment`
unfoldable pub opcache_file_config : Environment → Dict Value
opcache_file_config e =
    rebuild (λ key value. some (key, str value)) (normalize_opcache_config e.opcache_config)

-- `OPcachePresetConfig`
unfoldable pub opcache_preset_config : Text → Dict Text
opcache_preset_config preset =
    let normalized = normalize_opcache_preset preset in
    if normalized == codes "dev"
    then (codes "opcache.enable", codes "1")
      ∷ (codes "opcache.file_update_protection", codes "0")
      ∷ (codes "opcache.revalidate_freq", codes "0")
      ∷ (codes "opcache.validate_timestamps", codes "1")
      ∷ []
    else if normalized == codes "production"
    then (codes "opcache.enable", codes "1")
      ∷ (codes "opcache.file_update_protection", codes "0")
      ∷ (codes "opcache.validate_timestamps", codes "0")
      ∷ []
    else []

-- Normalising a preset twice is normalising it once.
pub normalize_opcache_preset_idem :
    (p : Text) → normalize_opcache_preset (normalize_opcache_preset p) ≡ normalize_opcache_preset p
unfolding normalize_opcache_preset
normalize_opcache_preset_idem p = ground (arith, norm-norm p, norm-nil)

directive_entry_idem :
    (k v : Text) (e : Text × Text) → directive_entry k v ≡ some e → directive_entry e.0 e.1 ≡ some e
directive_entry_idem k v e h = ground (arith, norm-norm k, trim-trim v)

-- Normalising the directives twice is normalising them once.
pub normalize_opcache_config_idem :
    (m : Dict Text)
    → normalize_opcache_config (normalize_opcache_config m) ≡ normalize_opcache_config m
unfolding normalize_opcache_config
normalize_opcache_config_idem m = rebuild-rebuild directive_entry directive_entry_idem m

-- Directives that are written to a file and read back are the normalised ones.
pub normalize_opcache_config_from_yaml-opcache_file_config :
    (e : Environment)
    → normalize_opcache_config_from_yaml (opcache_file_config e)
      ≡ normalize_opcache_config e.opcache_config
unfolding normalize_opcache_config_from_yaml opcache_file_config opcache_config_value_string sprint
    normalize_opcache_config
normalize_opcache_config_from_yaml-opcache_file_config e =
    rebuild_copy_rebuild directive_entry str
      (λ key value. some (norm key, opcache_config_value_string value)) e.opcache_config
    ∙ normalize_opcache_config_idem e.opcache_config
