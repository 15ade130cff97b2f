-- ===== src/Lib.antt =====
-- A model of go-mamacord, a Discord bot whose commands are plugins written in Starlark, with theorems
-- about it. The host loads a generation of every plugin's program, gives it the permissions that its
-- manifest requests and the operator's policy grants, hands it invocations, validates the outcome that
-- it returns, and carries out the operations of the outcome on Discord and on the bot's storage.
--
-- Which file models what (paths from the root of the repository; the functions keep their names, in
-- snake case, and a method is named after what it does where the bare name would be taken):
--   Base                 Boolean tests, lists, Go strings and maps, signed numbers
--   Files                os, path/filepath and encoding/json for a document in a file: an interface
--   Permissions          internal/permissions/policy.go: Effective, merge, Granted; Permissions/File
--                        has LoadPolicyFile and WritePolicyFile
--   Manifest/Ids         internal/runtime/plugins/manifest/document.go: the pattern of ids
--   CustomId             internal/runtime/plugins/customid/codec.go: Build and Parse
--   Cooldown             internal/runtime/discord/router/cooldown: Policy (policy.go), Key (key.go) and
--                        Tracker (tracker.go); Policy/Refinement has the specification by lists
--   Contract             internal/runtime/plugins/contract: Value (value.go), View and Components (the
--                        views of operation.go), Domain and DomainRules (domain.go), Operation
--                        (operation.go and capability.go)
--   Contract/Inputs      invocation.go: the invocation and its inputs; Refs has the Discord objects in
--                        it, and Invocation with its child modules has Invocation.Validate
--   Contract/Definition  definition.go: what a program declares, and Definition.Validate; Patterns has
--                        the patterns of routes and names, Choices the choices of options
--   Contract/Catalog     catalog.go: Definition.Compile, Resolve (Match), ValidateOutcome and
--                        ValidateCheckDecision (Outcome); the other modules below it hold proofs, of
--                        which Replies is about the decisions of checks
--   Execution            internal/runtime/plugins/starlark/generation/execution.go: invokeProgram and
--                        checkProgram, with internal/evaluation: limits and kinds of errors
--   Bundle               internal/runtime/plugins/starlark/compile: CanonicalBundleLabel and
--                        CompileBundle, without the initialization of the modules
--   Generation           internal/runtime/plugins/starlark/generation/lifecycle.go and instance.go
--   Generation/Manager   internal/runtime/plugins/starlark/generation/manager.go
--   GuildConfig          internal/guildconfig/config.go; GuildConfig/Store has Load and Save
-- Modules named Laws, or after what they prove, hold lemmas; the Tests hold runs on concrete inputs.
--
-- How the code is read. A Go string is the list of the code points of a valid UTF-8 string, `len` is
-- `byte_len`, and `utf8.RuneCountInString` is `length`. A map is an association list. A pointer that
-- may be nil is an Option. An error is a value, with the text of the source less the values in it. A
-- critical section is one function on the state, and concurrent calls are lists of such steps in any
-- order. The tests of `utf8.ValidString` are true of the strings of the model and are left out. The
-- fuel of `compile` in Bundle is one more than the limit on the depth of loads, and Bundle/Termination
-- shows that it is enough. The fuel of `format_int` is 20 digits (`int_fuel`): an int64 has at most
-- 19, and Contract/Invocation/Snowflakes shows that 20 are enough below 2 ^ 64.
-- Code of other packages is a parameter: the file system and the JSON codec (Files), the plugins'
-- key-value store and its JSON (GuildConfig/Store), lower case above ASCII (Cooldown), `net/url` as a
-- test of https addresses (Contract/View), lower case of a code point (`lower` in
-- Contract/Definition), the call of a Starlark callable (`run` in Execution), the reading and
-- the Starlark compilation of a module and `path.Clean` (Bundle), and what a float64 is:
-- the text that `strconv.FormatFloat` gives for it, its bits and its place in the order are fields of
-- `Float64`. The lowering of a callable's result to an outcome (starlark/author/effects) is not
-- modelled, and is a parameter of Execution too, so that its theorems hold for every lowering.
-- A catalog is an association list: where the code ranges over a map, the list's order stands for the
-- order that Go picks.
--
-- Not modelled: the Starlark interpreter and what is written in its terms, the Discord client, the SQL
-- storage, the HTTP interface, the marketplace, texts and start-up, which are calls of libraries; the
-- deep clones (values are immutable here), the bounded print of an evaluation and the timeouts of a
-- retirement.
pub mod Base
pub mod Files
pub mod Permissions
pub mod Manifest
pub mod CustomId
pub mod Cooldown
pub mod Contract
pub mod Execution
pub mod Bundle
pub mod Generation
pub mod GuildConfig
