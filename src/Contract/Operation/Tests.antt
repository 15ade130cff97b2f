-- ===== src/Contract/Operation/Tests.antt =====
-- Tests of outcomes, and the theorems about them at concrete inputs.
use go_mamacord.Base.{
  ◌≡◌, refl, Bool, true, false, Option, none, some, List, [], ◌∷◌, length, ◌≤◌, ◌↔◌, All, GoString,
  codes, pos, trim_space,
}
use go_mamacord.Contract.Verdict.{valid, invalid}
use go_mamacord.Contract.View.{count_embeds}
use go_mamacord.Contract.Components.{validate_message}
use go_mamacord.Contract.Refs.{UserRef}
use go_mamacord.Contract.Inputs.{
  is_kind, Invocation, command, task, autocomplete, no_response, unacknowledged, no_origin,
}
use go_mamacord.Contract.Invocation.{
  validate_kv_scope, validate_snowflake, parse_uint, parse_digits,
}
use go_mamacord.Contract.Domain.{set_slowmode, clear_timezone}
use go_mamacord.Contract.DomainRules.{validate_domain}
use go_mamacord.Contract.Operation.{
  Operation, domain, best_effort, kv_delete, message, is_terminal, is_choices, requires_terminal,
  validate_operations, validate_from, validate_operation, validate_end, validate_best_effort,
}
use go_mamacord.Contract.Operation.Laws.{IsValidIn, AnswersLast, ends_with, validate_operations_iff}
use go_mamacord.Contract.Operation.Scope.{OperationHasContext, validate_operations-HasContext}

abbrev pub no_https : GoString → Bool
no_https url = false

abbrev pub someone : UserRef
someone = record {
  id = codes "7";
  username = codes "ana";
  name = codes "Ana";
  avatar_url = [];
  bot = false;
  system = false;
}

abbrev pub in_guild : Invocation
in_guild = record {
  plugin_id = codes "fun";
  generation = codes "g1";
  route = codes "task:clean";
  kind = task;
  guild = some (record { id = codes "41"; name = codes "den" });
  channel = none;
  author = some someone;
  bot_user = none;
  member = none;
  locale = codes "en-US";
  now_unix = pos 100;
  random_seed = 1;
  runtime = record { version = []; description = []; repository = []; mascot_image_url = [] };
  state = [];
  is_owner = false;
  response_state = no_response;
  modal_origin = no_origin;
  command = none;
  autocomplete = none;
  component = none;
  modal = none;
  event = none;
  task = some (codes "clean");
  check = none;
}

abbrev from_command : Invocation
from_command = record in_guild { kind = command; response_state = unacknowledged }

abbrev slow_channel : Operation
slow_channel = domain (set_slowmode (codes "52") (pos 30))

abbrev housekeeping : List (Option Operation)
housekeeping =
    some slow_channel
    ∷ some (best_effort (domain clear_timezone))
    ∷ some (kv_delete (codes "seen:7") none)
    ∷ []

abbrev reply : Operation
reply = message record { content = codes "done"; embeds = []; components = [] } true

housekeeping_valid : validate_operations no_https in_guild housekeeping ≡ valid
unfolding validate_operations validate_from validate_operation validate_end validate_best_effort
    validate_domain validate_snowflake parse_uint parse_digits validate_kv_scope trim_space
housekeeping_valid = refl

unanswered :
    validate_operations no_https from_command (some slow_channel ∷ [])
    ≡ invalid "interaction outcome requires a terminal response"
unfolding validate_operations validate_from validate_operation validate_end validate_domain
    validate_snowflake parse_uint parse_digits
unanswered = refl

after_reply :
    validate_operations no_https from_command (some reply ∷ some slow_channel ∷ [])
    ≡ invalid "operation follows a terminal interaction response"
unfolding validate_operations validate_from validate_operation validate_message count_embeds
after_reply = refl

validate_operations_iff_example : (validate_operations no_https in_guild housekeeping ≡ valid) ↔ (
    (length housekeeping ≤ 25)
    × All (IsValidIn no_https in_guild) housekeeping
    × AnswersLast housekeeping
    × (requires_terminal in_guild ≡ true → ends_with is_terminal housekeeping ≡ true)
    × (is_kind autocomplete in_guild ≡ true → ends_with is_choices housekeeping ≡ true))
validate_operations_iff_example = validate_operations_iff no_https in_guild housekeeping

validate_operations-HasContext_example : All (OperationHasContext in_guild) housekeeping
validate_operations-HasContext_example =
    validate_operations-HasContext no_https in_guild housekeeping housekeeping_valid
