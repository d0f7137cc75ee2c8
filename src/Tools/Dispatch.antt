-- ===== src/Tools/Dispatch.antt =====
-- Which plugin answers to a command, and the commands that plugins bring (tools/registry.go).
pub mod Laws
use polka.Base.{
  Text, ◌==◌, norm, trim, null, Bool, true, false, not, ◌&&◌, ◌||◌, Option, none, some,
}
use polka.Base.{List, [], ◌∷◌, ◌++◌, if◌then◌else◌}
use polka.Base.Strings.{equal_fold}
use polka.Base.Dict.{Dict, insert}
use polka.Base.Result.{Result, ok, err, ◌>>=◌}
use polka.Backend.State.{contains}
use polka.Config.Types.{Environment}
use polka.Tools.Registry.{ToolPlugin, Registry, plugin}

-- `DispatchRequest`
pub record DispatchRequest : Type 0 where
  pub config_tool : Text
  pub executable : Text
  pub provider : ToolPlugin

pub data DispatchError : Type 0 where
  unsupported_tool : Text → DispatchError

-- `strings.EqualFold(strings.TrimSpace(command), trimmed)`
abbrev pub answers : Text → Text → Bool
answers trimmed command = equal_fold (trim command) trimmed

abbrev pub request_for : ToolPlugin → Text → DispatchRequest
request_for p command = record { config_tool = p.id; executable = norm command; provider = p }

-- the loop over the commands of a plugin
unfoldable pub first_command : Text → ToolPlugin → List Text → Option DispatchRequest
first_command trimmed p [] = none
first_command trimmed p (c ∷ cs) =
    let rest = first_command trimmed p cs in
    if answers trimmed c then some (request_for p c) else rest

abbrev pub or_else {ℓ} : {A : Type ℓ} → Option A → Option A → Option A
or_else none rest = rest
or_else (some a) rest = some a

-- the loop over the plugins
unfoldable pub first_plugin : Text → List ToolPlugin → Option DispatchRequest
first_plugin trimmed [] = none
first_plugin trimmed (p ∷ ps) =
    or_else (first_command trimmed p p.dispatch_commands) (first_plugin trimmed ps)

abbrev pub supported {ℓ} : {A : Type ℓ} → Text → Option A → Result DispatchError A
supported tool none = err (unsupported_tool tool)
supported tool (some request) = ok request

-- `ResolveDispatchRequest`
unfoldable pub resolve_dispatch_request : Registry → Text → Result DispatchError DispatchRequest
resolve_dispatch_request r tool = supported tool (first_plugin (norm tool) r.plugins)

-- a search is over, or goes on with what it can fall back to
pub data Search : Type 0 where
  done : DispatchRequest → Search
  going : Option DispatchRequest → Search

module _ (environment : Environment) where
  abbrev pub is_configured : ToolPlugin → Bool
  is_configured p = not (null (trim (p.version environment)))

  -- the loop over the commands of a plugin, with the first request to fall back to
  unfoldable pub search_commands : Text → ToolPlugin → List Text → Option DispatchRequest → Search
  search_commands trimmed p [] fallback = going fallback
  search_commands trimmed p (c ∷ cs) fallback =
      let passed = search_commands trimmed p cs fallback in
      let kept = search_commands trimmed p cs (or_else fallback (some (request_for p c))) in
      if answers trimmed c then if is_configured p then done (request_for p c) else kept else passed

  -- the loop over the plugins, and the fallback behind it
  unfoldable pub search_plugins :
      Text → List ToolPlugin → Option DispatchRequest → Option DispatchRequest
  search_plugins trimmed [] fallback = fallback
  search_plugins trimmed (p ∷ ps) fallback =
      elim (search_commands trimmed p p.dispatch_commands fallback) [
        | done request ↦ some request
        | going next ↦ search_plugins trimmed ps next
      ]

  -- `ResolveDispatchRequestForEnvironment`
  unfoldable pub resolve_dispatch_request_for_environment :
      Registry → Text → Result DispatchError DispatchRequest
  resolve_dispatch_request_for_environment r tool =
      supported tool (search_plugins (norm tool) r.plugins none)

-- `LogRequest`
pub record LogRequest : Type 0 where
  pub config_tool : Text
  pub provider : ToolPlugin

abbrev pub log_request_of : Registry → Text → Option ToolPlugin → Result DispatchError LogRequest
log_request_of r trimmed none = do
  request ← resolve_dispatch_request r trimmed
  ok (record { config_tool = request.config_tool; provider = request.provider })
log_request_of r trimmed (some p) = ok (record { config_tool = p.id; provider = p })

-- `ResolveLogRequest`
unfoldable pub resolve_log_request : Registry → Text → Result DispatchError LogRequest
resolve_log_request r tool = log_request_of r (norm tool) (plugin r (norm tool))

-- a command that is new goes behind the others; one has been seen if it is among them
abbrev pub add_command : List Text → Text → List Text
add_command commands command =
    let normalized = norm command in
    if null normalized || contains normalized commands
    then commands
    else commands ++ normalized ∷ []

unfoldable pub add_commands : List Text → List Text → List Text
add_commands commands [] = commands
add_commands commands (c ∷ cs) = add_commands (add_command commands c) cs

-- the loops of `uniqueToolCommands`
unfoldable pub add_tool_commands :
    (ToolPlugin → List Text) → List Text → List ToolPlugin → List Text
add_tool_commands command_list commands [] = commands
add_tool_commands command_list commands (p ∷ ps) =
    add_tool_commands command_list (add_commands commands (command_list p)) ps

-- `uniqueToolCommands`
unfoldable pub unique_tool_commands : List ToolPlugin → (ToolPlugin → List Text) → List Text
unique_tool_commands plugins command_list = add_tool_commands command_list [] plugins

-- `CleanupCommandNames`
unfoldable pub cleanup_command_names : Registry → List Text
cleanup_command_names r = unique_tool_commands r.plugins (λ p. p.cleanup_commands)

-- `ActiveCommandNames`
unfoldable pub active_command_names : Registry → Option Environment → List Text
active_command_names r none = []
active_command_names r (some e) = unique_tool_commands r.plugins (λ p. p.active_commands e)
