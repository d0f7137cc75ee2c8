-- ===== src/Config/Services/Laws.antt =====
-- What the Redis view shows after a tool's version is set.
use polka.Base.{Text, codes, norm, trim, ◌==◌, some, [], ◌≡◌, ◌≢◌, refl, arith}
use polka.Base.{if◌then◌else◌}
use polka.Config.Types.{Environment}
use polka.Config.Tools.{set_tool_version}
use polka.Config.Tools.Laws.{tool_version-set_tool_version}
use polka.Config.Settings.{setting, setting_int, setting_string}
use polka.Config.Services.{redis}

set_tool_version-settings :
    (e : Environment) (tool version : Text)
    → (set_tool_version e tool version).settings ≡ e.settings
unfolding set_tool_version
set_tool_version-settings e tool version = ground arith

setting_int-set_tool_version :
    (e : Environment) (tool version ns key : Text)
    → setting_int (set_tool_version e tool version) ns key ≡ setting_int e ns key
unfolding setting_int setting
setting_int-set_tool_version e tool version ns key =
    rw (set_tool_version-settings e tool version) refl

setting_string-set_tool_version :
    (e : Environment) (tool version ns key : Text)
    → setting_string (set_tool_version e tool version) ns key ≡ setting_string e ns key
unfolding setting_string setting
setting_string-set_tool_version e tool version ns key =
    rw (set_tool_version-settings e tool version) refl

-- After the version of a tool with a name that is not blank is set to one that is not blank, the Redis view shows that version if the
-- tool is Redis in any spelling, with the port and the password that are set, and is what it was if
-- it is another tool.
pub redis-set_tool_version :
    (e : Environment) (tool version : Text)
    → norm tool ≢ []
    → trim version ≢ []
    → redis (set_tool_version e tool version) ≡ (
        if norm (codes "redis") == norm tool
        then some (record {
          version = trim version;
          port = setting_int e (codes "redis") (codes "port");
          password = setting_string e (codes "redis") (codes "password");
        })
        else redis e)
unfolding redis
redis-set_tool_version e tool version named v = ground (
  arith,
  tool_version-set_tool_version e tool version (codes "redis") named,
  setting_int-set_tool_version e tool version (codes "redis") (codes "port"),
  setting_string-set_tool_version e tool version (codes "redis") (codes "password"),
)
