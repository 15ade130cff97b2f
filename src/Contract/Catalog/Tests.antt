-- ===== src/Contract/Catalog/Tests.antt =====
-- Tests of catalogs, and the theorems about them at concrete inputs.
use go_mamacord.Base.{
  All, ◌≡◌, refl, ◌≤◌, ◌⊎◌, ◌↔◌, ℕ, true, false, Option, none, some, List, [], ◌∷◌, length, all,
  trim_space, In, here, there, codes, insert,
}
use go_mamacord.Contract.Verdict.{valid, verdict_of, ok, error, for_each}
use go_mamacord.Contract.View.{Button, button, primary, count_embeds}
use go_mamacord.Contract.Components.{validate_message}
use go_mamacord.Contract.Inputs.{
  check, Invocation, command, unacknowledged, slash_command, component_button,
}
use go_mamacord.Contract.Invocation.Validate.{validate_invocation}
use go_mamacord.Contract.Operation.{
  Operation, message, validate_operations, validate_from, validate_operation, validate_end,
}
use go_mamacord.Contract.Invocation.Options.{validate_option_values}
use go_mamacord.Contract.Operation.Tests.{in_guild, no_https}
use go_mamacord.Contract.Definition.{
  Definition, command_definition, no_commands, more, CommandHead, ComponentDefinition, custom,
  guild_only, defer_none, defer_update,
}
use go_mamacord.Manifest.Ids.{valid_local_id}
use go_mamacord.Contract.Patterns.{valid_slash_name, valid_route}
use go_mamacord.Contract.Definition.Commands.{validate_command}
use go_mamacord.Contract.Definition.Options.{validate_option_definitions}
use go_mamacord.Contract.Definition.Checks.{add_route, validate_checks, validate_named_route}
use go_mamacord.Contract.Definition.Validate.{validate_definition, validate_component_definition}
use go_mamacord.Contract.Catalog.{
  RouteSignature, route_component, signature_of, Catalog, candidates, compile, signatures_of,
  add_all, gather,
}
use go_mamacord.Contract.Catalog.Match.{
  matches, resolve, same_path, provide_options, check_definitions,
}
use go_mamacord.Contract.Catalog.Outcome.{
  validate_check_decision, CheckDecision, denied_message, validate_outcome, validate_handlers,
  declares,
}
use go_mamacord.Contract.Catalog.Candidates.{is_autocomplete}
use go_mamacord.Contract.Catalog.Paths.{HasShortPath, compile-HasShortPath}
use go_mamacord.Contract.Catalog.Unambiguous.{compile_unambiguous, resolve-declared}
use go_mamacord.Contract.Catalog.Declared.{Handler, handlers_in, outcome_handlers}
use go_mamacord.Contract.Catalog.Clicks.{click, outcome_handlers-resolve}

abbrev pub same : ℕ → ℕ
same c = c

abbrev pub poll_head : CommandHead
poll_head = record {
  kind = slash_command;
  route = codes "command:poll";
  name = codes "poll";
  description = codes "Asks a question.";
  description_id = [];
  ephemeral = false;
  defer = defer_none;
  default_member_permissions = [];
  options = [];
  checks = record { kind = custom; permissions = []; route = codes "check:open" } ∷ [];
}

abbrev pub vote : ComponentDefinition
vote = record {
  id = codes "vote";
  route = codes "component:vote";
  defer = defer_update;
  kinds = component_button ∷ [];
  checks = record { kind = custom; permissions = []; route = codes "check:open" } ∷ [];
}

abbrev pub polls : Definition
polls = record {
  cogs =
      record {
        name = codes "Polls";
        description = [];
        checks = record { kind = guild_only; permissions = []; route = [] } ∷ [];
        commands = more (command_definition poll_head no_commands) no_commands;
        listeners = [];
        tasks = [];
        components = vote ∷ [];
        modals = [];
      }
      ∷ [];
}

abbrev vote_signature : RouteSignature
vote_signature = record (signature_of route_component (codes "component:vote")) {
  defer = defer_update;
  component_id = codes "vote";
  component_kinds = component_button ∷ [];
}

abbrev pub catalog : Catalog
catalog = add_all (signatures_of polls) []

compile-polls : compile same polls ≡ ok catalog
unfolding compile validate_definition for_each trim_space validate_checks validate_command
    valid_slash_name add_route valid_route validate_option_definitions insert
    validate_component_definition validate_named_route valid_local_id
compile-polls = refl

abbrev pub asking : Invocation
asking = record in_guild {
  route = codes "command:poll";
  kind = command;
  response_state = unacknowledged;
  task = none;
  command = some record {
    kind = slash_command;
    path = codes "poll" ∷ [];
    options = [];
    target_user = none;
    target_member = none;
    target_message = none;
  };
}

abbrev pub vote_button : Button
vote_button = record {
  handler = codes "vote";
  label = codes "Vote";
  style = primary;
  url = [];
  emoji = none;
  disabled = false;
}

abbrev pub question : List (Option Operation)
question =
    some (
      message
        (record {
          content = codes "Tea?";
          embeds = [];
          components = record { components = button vote_button ∷ [] } ∷ [];
        })
        false)
    ∷ []

abbrev vote_handler : Handler
vote_handler = (codes "vote", component_button)

pub asking_resolves : verdict_of (resolve catalog asking) ≡ valid
unfolding resolve validate_invocation trim_space valid_route validate_option_values add_all
    signatures_of insert same_path provide_options check_definitions
asking_resolves = refl

pub question_accepted : validate_outcome no_https catalog asking question ≡ valid
unfolding validate_outcome resolve validate_invocation trim_space valid_route validate_option_values
    add_all signatures_of insert same_path provide_options check_definitions validate_operations
    validate_from validate_operation validate_message count_embeds valid_local_id validate_end
    validate_handlers
question_accepted = refl

vote_named : In vote_handler (outcome_handlers question)
unfolding handlers_in gather
vote_named = here refl

vote_declared : In vote_signature (signatures_of polls)
unfolding signatures_of
vote_declared = there (there (here refl))

-- Two components cannot share a route.
abbrev doubled : Definition
doubled = record {
  cogs =
      record {
        name = codes "Polls";
        description = [];
        checks = [];
        commands = no_commands;
        listeners = [];
        tasks = [];
        components = vote ∷ record vote { id = codes "veto" } ∷ [];
        modals = [];
      }
      ∷ [];
}

doubled_refused : compile same doubled ≡ error "duplicate route"
unfolding compile validate_definition for_each trim_space validate_checks add_route valid_route
    insert validate_component_definition validate_named_route valid_local_id
doubled_refused = refl

compile_unambiguous_example :
    (length (candidates (codes "check:open") catalog) ≤ 1)
    ⊎ (all (λ s. is_autocomplete s.type) (candidates (codes "check:open") catalog) ≡ true)
compile_unambiguous_example =
    compile_unambiguous same polls catalog compile-polls (codes "check:open")

resolve-declared_example :
    (resolve catalog (click asking vote_signature vote_handler []) ≡ ok vote_signature) ↔ (
      (validate_invocation (click asking vote_signature vote_handler []) ≡ valid)
      × (matches vote_signature (click asking vote_signature vote_handler []) ≡ valid))
resolve-declared_example =
    resolve-declared same polls catalog vote_signature (click asking vote_signature vote_handler [])
      compile-polls vote_declared refl refl

outcome_handlers-resolve_example :
    (s : RouteSignature) × In s (signatures_of polls)
    × (declares (codes "vote") component_button s ≡ true)
    × ((resolve catalog (click asking s vote_handler []) ≡ ok s)
        ↔ (validate_invocation (click asking s vote_handler []) ≡ valid))
outcome_handlers-resolve_example =
    outcome_handlers-resolve same no_https polls catalog asking question vote_handler asking []
      compile-polls question_accepted vote_named

compile-HasShortPath_example : All (HasShortPath 3) (signatures_of polls)
compile-HasShortPath_example = compile-HasShortPath same polls catalog compile-polls

abbrev pub checking_open : Invocation
checking_open = record in_guild {
  route = codes "check:open";
  kind = check;
  task = none;
  check = some (codes "open");
}

abbrev pub refusal : CheckDecision
refusal = record {
  kind = denied_message;
  denial = some record {
    reply = record { content = codes "Closed."; embeds = []; components = [] };
    ephemeral = true;
  };
}

pub open_resolves : verdict_of (resolve catalog checking_open) ≡ valid
unfolding resolve validate_invocation trim_space valid_route validate_option_values add_all
    signatures_of insert same_path provide_options check_definitions
open_resolves = refl

pub refusal_accepted : validate_check_decision no_https catalog checking_open refusal ≡ valid
unfolding validate_check_decision resolve validate_invocation trim_space valid_route add_all
    signatures_of insert validate_message count_embeds validate_handlers
refusal_accepted = refl
