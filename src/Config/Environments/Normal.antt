-- ===== src/Config/Environments/Normal.antt =====
-- How the steps of `NormalizeEnvironment` act on an environment that has been through them
-- (config/types.go).
use polka.Base.{Text, null, norm, trim, Bool, true, false, ◌&&◌, Option, none, some, [], ◌∷◌}
use polka.Base.{
  if◌then◌else◌, ◌≡◌, ◌≢◌, refl, sym, ap, ◌∙◌, arith, All, Option-cases, Bool-cases, inl, inr,
}
use polka.Base.Strings.Laws.{norm-norm, trim-trim}
use polka.Base.Dict.{Dict, NodupKeys, delete_where}
use polka.Base.Dict.Laws.{insert-All, insert-NodupKeys, delete_where-NodupKeys}
use polka.Base.Dict.Rebuild.{rebuild-NodupKeys, rebuild-All, rebuild_fixed}
use polka.Config.Keys.{set_fold}
use polka.Config.Types.{Environment, ToolsConfig, DatabaseConfig}
use polka.Config.Tools.{normalize_tools_config, tools_entry, set_tool_version, tool_version}
use polka.Config.Database.{populate_database_tool_version, populate}
use polka.Config.Database.Laws.{
  managed-ne-nil, populate_database_tool_version-some, populate_database_tool_version-none,
}
use polka.Config.Database.{is_managed_engine}
use polka.Config.Tools.Laws.{tool_version-set_tool_version}
use polka.Config.Types.{ServerConfig}
use polka.Config.Settings.Laws.{normalize_settings_config_idem}
use polka.Config.Database.Laws.{normalize_database_config_idem}
use polka.Config.Server.{inherit_environment_https, serve_https, normalize_server_config}
use polka.Config.Server.{normalize_server_config_idem, normalize_server_config-serve_https}
use polka.Config.Memory.Laws.{normalize_memory_limit_idem}
use polka.Config.Opcache.{normalize_opcache_preset_idem, normalize_opcache_config_idem}
use polka.Config.Extensions.Laws.{normalize_php_extensions_idem, normalize_pie_extensions_idem}
use polka.Config.Extensions.Pecl.{normalize_pecl_extensions}
use polka.Config.Workers.{normalize_environment_variables_idem, normalize_workers_config_idem}
use polka.Config.Environments.{normalize_environment, normalize_fields}

-- tool versions as normalising leaves them
abbrev IsNormalTools : ToolsConfig → Type 0
IsNormalTools tools = NodupKeys tools × All (λ (k, v). tools_entry k v ≡ some (k, v)) tools

-- what a round writes is written unchanged
tools_entry-fixed :
    (k v : Text) (e : Text × Text) → tools_entry k v ≡ some e → tools_entry e.0 e.1 ≡ some e
tools_entry-fixed k v e h = ground (arith, norm-norm k, trim-trim v)

normalize_tools_config-IsNormalTools : (t : ToolsConfig) → IsNormalTools (normalize_tools_config t)
unfolding normalize_tools_config
normalize_tools_config-IsNormalTools t = (
  rebuild-NodupKeys tools_entry t,
  rebuild-All tools_entry (λ (k, v). tools_entry k v ≡ some (k, v))
      (λ k v e h. tools_entry-fixed k v e h) t,
)

normalize_tools_config-fixed : (t : ToolsConfig) → IsNormalTools t → normalize_tools_config t ≡ t
unfolding normalize_tools_config
normalize_tools_config-fixed t (u, h) = rebuild_fixed tools_entry t u h

delete_where-All {ℓ κ} :
    {W : Type ℓ} (P : Text × W → Type κ) (test : Text → Bool) (m : Dict W)
    → All P m
    → All P (delete_where test m)
unfolding delete_where
delete_where-All P test [] h = tt
delete_where-All P test ((j, x) ∷ m) (q, h) = ground (arith, delete_where-All P test m h)

set_fold-IsNormalTools :
    (t v : Text) (tools : ToolsConfig)
    → norm t ≢ []
    → trim v ≢ []
    → IsNormalTools tools
    → IsNormalTools (set_fold (norm t) (trim v) tools)
unfolding set_fold
set_fold-IsNormalTools t v tools ht hv (u, h) = (
  insert-NodupKeys (norm t) (trim v) _ (delete_where-NodupKeys _ tools u),
  insert-All (λ (k, v). tools_entry k v ≡ some (k, v)) (norm t) (trim v) _
      (ground (arith, norm-norm t, trim-trim v)) (delete_where-All _ _ tools h),
)

set_tool_version-tools :
    (e : Environment) (t v : Text)
    → norm t ≢ []
    → trim v ≢ []
    → set_tool_version e t v ≡ record e { tools = set_fold (norm t) (trim v) e.tools }
unfolding set_tool_version
set_tool_version-tools e t v ht hv = ground arith

-- Carrying a version over changes the tool versions alone, and keeps them normal.
populate-tools :
    (e : Environment) (d : DatabaseConfig)
    → IsNormalTools e.tools
    → (tools : ToolsConfig) × (populate e d ≡ record e { tools = tools }) × IsNormalTools tools
populate-tools e d n = elim (Bool-cases (null (trim d.version))) [
  | inl empty ↦ (e.tools, ground arith, n)
  | inr filled ↦
      elim (Bool-cases
        (is_managed_engine (norm d.engine) && null (tool_version e (norm d.engine)))) [
          | inr other ↦ (e.tools, ground arith, n)
          | inl missing ↦
              let engine = norm d.engine in
              let named : norm engine ≢ [] = rw norm-norm (managed-ne-nil engine (ground arith)) in
              let versioned : trim d.version ≢ [] = ground arith in
              (
                set_fold (norm engine) (trim d.version) e.tools,
                rw (filled, missing) (set_tool_version-tools e engine d.version named versioned),
                set_fold-IsNormalTools engine d.version e.tools named versioned n,
              )
        ]
]

populate-populate :
    (e : Environment) (d : DatabaseConfig) → populate (populate e d) d ≡ populate e d
populate-populate e d = ground (
  arith,
  tool_version-set_tool_version e (norm d.engine) d.version (norm d.engine),
  norm-norm d.engine,
  managed-ne-nil (norm d.engine),
)

populate_database_tool_version-tools :
    (e : Environment)
    → IsNormalTools e.tools
    → (tools : ToolsConfig) × (populate_database_tool_version e ≡ record e { tools = tools })
      × IsNormalTools tools
populate_database_tool_version-tools e n = elim (Option-cases e.database) [
  | inl h ↦ (e.tools, populate_database_tool_version-none e h, n)
  | inr (d, h) ↦
      let (tools, p, k) = populate-tools e d n in
      (tools, populate_database_tool_version-some e d h ∙ p, k)
]

populate_database_tool_version_idem :
    (e : Environment)
    → IsNormalTools e.tools
    → populate_database_tool_version (populate_database_tool_version e)
      ≡ populate_database_tool_version e
populate_database_tool_version_idem e n = elim (Option-cases e.database) [
  | inl h ↦ ap populate_database_tool_version (populate_database_tool_version-none e h)
  | inr (d, h) ↦
      let (tools, p, k) = populate-tools e d n in
      let same = populate_database_tool_version-some e d h in
      let kept : (populate_database_tool_version e).database ≡ some d =
        ap (λ x. x.database) (same ∙ p) ∙ h in
      populate_database_tool_version-some (populate_database_tool_version e) d kept
      ∙ ap (λ x. populate x d) same
      ∙ populate-populate e d
      ∙ sym same
]

abbrev inherited : Bool → Option ServerConfig → Option ServerConfig
inherited https server = if https then some (serve_https server) else server

inherit-server :
    (e : Environment)
    → inherit_environment_https e ≡ record e { server = inherited e.https e.server }
unfolding inherit_environment_https
inherit-server e = ground arith

inherited-normal :
    (https : Bool) (s : Option ServerConfig)
    → normalize_server_config (inherited https (normalize_server_config s))
      ≡ inherited https (normalize_server_config s)
inherited-normal true s = normalize_server_config-serve_https s
inherited-normal false s = normalize_server_config_idem s

inherited-inherited :
    (https : Bool) (s : Option ServerConfig)
    → inherited https (inherited https s) ≡ inherited https s
inherited-inherited true none = refl
inherited-inherited true (some s) = refl
inherited-inherited false s = refl

module _ (name : Text) (e : Environment)
    (pecl : normalize_pecl_extensions (normalize_pecl_extensions e.pecl_extensions)
      ≡ normalize_pecl_extensions e.pecl_extensions) where
  -- the normalised fields with the server and the tool versions as they end up
  abbrev settled : ToolsConfig → Environment
  settled tools = record (normalize_fields name e) {
    tools = tools;
    server = inherited e.https (normalize_server_config e.server);
  }

  fields-settled :
      (tools : ToolsConfig)
      → IsNormalTools tools
      → normalize_fields name (settled tools) ≡ settled tools
  fields-settled tools n = λ i. record {
    name = name;
    framework = norm-norm e.framework i;
    tools = normalize_tools_config-fixed tools n i;
    settings = normalize_settings_config_idem e.settings i;
    docroot = trim-trim e.docroot i;
    https = e.https;
    env_file = trim-trim e.env_file i;
    env_vars = normalize_environment_variables_idem e.env_vars i;
    database = normalize_database_config_idem e.database i;
    memory_limit = normalize_memory_limit_idem e.memory_limit i;
    php_extensions = normalize_php_extensions_idem e.php_extensions i;
    pie_extensions = normalize_pie_extensions_idem e.pie_extensions i;
    pecl_extensions = pecl i;
    zend_extensions = normalize_php_extensions_idem e.zend_extensions i;
    opcache_preset = normalize_opcache_preset_idem e.opcache_preset i;
    opcache_config = normalize_opcache_config_idem e.opcache_config i;
    server = inherited-normal e.https e.server i;
    workers = normalize_workers_config_idem e.workers i;
  }

  inherit-settled :
      (tools : ToolsConfig) → inherit_environment_https (settled tools) ≡ settled tools
  inherit-settled tools =
      inherit-server (settled tools)
      ∙ ap (λ s. record (settled tools) { server = s })
          (inherited-inherited e.https (normalize_server_config e.server))

  -- Normalising an environment twice is normalising it once, if that holds of its PECL packages.
  pub normalize_environment_idem :
      normalize_environment name (normalize_environment name e) ≡ normalize_environment name e
  unfolding normalize_environment
  normalize_environment_idem =
      let start = normalize_tools_config e.tools in
      let n = normalize_tools_config-IsNormalTools e.tools in
      let (tools, q, k) = populate_database_tool_version-tools (settled start) n in
      let once : normalize_environment name e ≡ settled tools =
        ap populate_database_tool_version (inherit-server (normalize_fields name e)) ∙ q in
      let stays : populate_database_tool_version (settled tools) ≡ settled tools =
        ap populate_database_tool_version (sym q)
        ∙ populate_database_tool_version_idem (settled start) n
        ∙ q in
      ap (normalize_environment name) once
      ∙ ap (λ x. populate_database_tool_version (inherit_environment_https x))
          (fields-settled tools k)
      ∙ ap populate_database_tool_version (inherit-settled tools)
      ∙ stays
      ∙ sym once
