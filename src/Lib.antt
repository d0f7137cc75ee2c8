-- ===== src/Lib.antt =====
-- A verification library for polka, a manager of PHP development environments written in Go.
--
-- A project's environment names tools, their versions and their settings; polka reads it from YAML,
-- normalises it, works out which tools to install and in which order, downloads them over several
-- connections at once, and records what is installed. These are the parts modelled here:
--
-- * Config (config/types.go, config/workers.go): the environment model. Config/Types has the structs;
--   Config/Keys the lookups that ignore case and surrounding space, which ToolVersion, SetToolVersion,
--   Setting and SetSetting share; Config/Tools, Settings, Values, Services, Database, Server, Memory,
--   Opcache, Extensions (with Pecl) and Workers the operations on each section; Workers/Command is
--   SplitWorkerCommand; Environments is NormalizeEnvironment and the conversion from and to the file
--   shapes. What the YAML library gives back for what it has written is a parameter,
--   YamlDecoder of Extensions/Pecl/Laws. A definition has the name of its Go function in snake case.
-- * Backend/State (backend/state.go): installState with has, record (record_version) and forget.
-- * Tools/Layers (tools/registry.go): the layering loop of InstallRequestLayers, which takes the
--   requests, their dependencies and the order in which they were first met.
-- * Tools/Planning (tools/registry.go): InstallRequests and InstallRequestLayers, with the depth-first
--   search visit. Its variables are the record Collected, which is passed on; what is written before
--   an error is dropped with it, as the source does. Planning/Order is the invariant of the
--   search, Planning/Pinned that of the versions it collects.
-- * Tools/Dispatch (tools/registry.go): which plugin answers to a command, and the commands that
--   plugins bring. Tools/Validation (tools/registry.go, tools/database.go, tools/ids.go):
--   ValidateEnvironment and PHPExtensions.
-- * Tools/Version (tools/downloader.go): compareVersions and the functions that choose a version for a
--   request; what a server or a regular expression delivers is an argument. Version/Order has the
--   laws of the order, Version/Best those of the choice.
-- * Tools/Checksum (tools/downloader.go): parseChecksumValueForAlgorithm, parseGitHubAssetDigest and
--   verifyFileChecksum, of a file that is not opened, not read to its end, or read; the hash functions
--   are an argument.
-- * Tools/Constraint (tools/manifest_rules.go): manifestVersionConstraint and the parts of versions.
--   Tools/Builtin (tools/registry.go): validateManifestRules of a built-in plugin.
-- * Tools/Registry (tools/registry.go): NewRegistry, Register, Plugin and ExclusivePeers.
-- * Tools/Chunks and Tools/Transfer (tools/ranged_download.go): the chunk arithmetic of rangedTransfer
--   and its workers. Goroutines are a list of workers in a phase each, and a run is any sequence of
--   the steps of `Step`; what the network and the disk do decides which step a busy worker takes.
-- * Tools/Probe (tools/ranged_download.go): what a download makes of the server's answers:
--   parseContentRange, validateRangeProbe, validateChunkResponse, and the switch of
--   downloadFileWithProgress over the first answer.
-- * Service/Processes and Service/Workers (service/workers.go): WorkersStateMatchesEnvironment,
--   EnsureManagedWorkersStarted, StopManagedWorkers and what they call. The hooks of the source are a
--   record of functions over a state of the operating system, which stands for the processes; the
--   state file is an option.
--
-- Base has what they share: text as a list of code points (Base/Strings), Go maps as association
-- lists in the order of iteration (Base/Dict), the loop that fills a fresh map from another one
-- (Base/Dict/Rebuild), Go's integers (Base/Int) and results (Base/Result). Tests holds examples.
--
-- Bounds and fuel. The layering loop runs on fuel, one unit for each request: a round that goes on takes
-- at least one of them. The search runs on fuel for its depth, two more than there are registered ids:
-- each deeper call is under one more id that is being visited. The other loops are structural
-- recursion. Numbers have no bound but where Go converts: a uint64 setting read as an int is wrapped
-- by `to_int64`, and ParseInt refuses what does not fit an int64. The chunk arithmetic is that of an
-- int64, with its wrap-around (Base/Int); Tools/Chunks/Exact has the same numbers without a bound.
--
-- Not modelled. A nil map and an empty map are one thing, and so are a map and its copies: that a
-- function writes into its caller's map or pointer is not seen. Lower and upper case are those of ASCII letters,
-- white space that of Unicode. An error is the reason for it, without its message. Files, HTTP, YAML,
-- the command line, the text of the plugins' manifests and scripts are left out; processes are what
-- the hooks of Service/Processes make of them.
pub mod Base
pub mod Config
pub mod Backend
pub mod Tools
pub mod Service
pub mod Tests
