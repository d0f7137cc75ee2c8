-- ===== src/Config/Tools/Laws.antt =====
-- Reading tool versions after writing them, and normalising them (config/types.go).
use polka.Base.{Text, ◌==◌, norm, trim, some, []}
use polka.Base.{◌≡◌, ◌≢◌, arith, if◌then◌else◌}
use polka.Base.Strings.Laws.{norm-norm, trim-trim}
use polka.Base.Dict.Rebuild.{rebuild-rebuild}
use polka.Config.Keys.Laws.{lookup_fold-set_fold, lookup_fold-delete_fold}
use polka.Config.Types.{Environment, ToolsConfig}
use polka.Config.Tools.{tool_version, set_tool_version, tools_entry, normalize_tools_config}

-- After the version of a tool with a name that is not blank is set, reading that tool in any spelling
-- gives the new version without surrounding space, the empty text if it was cleared, and every other tool reads as before.
pub tool_version-set_tool_version :
    (e : Environment) (tool version asked : Text)
    → norm tool ≢ []
    → tool_version (set_tool_version e tool version) asked
      ≡ (if norm asked == norm tool then trim version else tool_version e asked)
unfolding tool_version set_tool_version
tool_version-set_tool_version e tool version asked h = ground (
  arith,
  lookup_fold-set_fold tool asked (trim version) e.tools,
  lookup_fold-delete_fold tool asked (trim version) e.tools,
  trim-trim version,
)

tools_entry_idem :
    (k v : Text) (e : Text × Text) → tools_entry k v ≡ some e → tools_entry e.0 e.1 ≡ some e
tools_entry_idem k v e h = ground (arith, norm-norm k, trim-trim v)

-- Normalising twice is normalising once.
pub normalize_tools_config_idem :
    (tools : ToolsConfig)
    → normalize_tools_config (normalize_tools_config tools) ≡ normalize_tools_config tools
unfolding normalize_tools_config
normalize_tools_config_idem tools = rebuild-rebuild tools_entry tools_entry_idem tools
