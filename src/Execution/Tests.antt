-- ===== src/Execution/Tests.antt =====
-- Tests of the limits and of programs, and the theorems about them at concrete inputs.
use go_mamacord.Base.{
  ◌≡◌, ◌≢◌, refl, ◌⊎◌, inr, ◌↔◌, true, false, Option, none, some, List, [], ◌∷◌, All, codes,
}
use go_mamacord.Contract.Verdict.{valid, Result, ok}
use go_mamacord.Contract.Inputs.{Invocation, check, is_kind}
use go_mamacord.Contract.Operation.{Operation, required_capabilities}
use go_mamacord.Contract.Operation.Scope.{OperationHasContext}
use go_mamacord.Contract.Operation.Tests.{no_https}
use go_mamacord.Contract.Catalog.Tests.{
  catalog, asking, question, asking_resolves, checking_open, refusal, open_resolves,
  refusal_accepted, question_accepted,
}
use go_mamacord.Execution.{
  default_limits, validate_limits, Run, no_cause, other_cause, Program, Budget, done, failed,
  stale_generation, step_limit, allows, needs, invoke_program, check_program,
}
use go_mamacord.Execution.Laws.{Passed, invoke_program_iff, invoke_program-granted}
use go_mamacord.Contract.Catalog.Outcome.{CheckDecision}
use go_mamacord.Execution.Decisions.{Decided, check_program_iff}
use go_mamacord.Execution.Errors.{IsUnrouted, invoke_program-stale_iff}

abbrev Made : Type 0
Made = List (Option Operation)

-- A callable is the outcome that it returns.
abbrev give : Made → Budget → Invocation → Run Made
give os b i = record { result = some os; step_limit_hit = false; cause = no_cause }

abbrev exhaust : Made → Budget → Invocation → Run Made
exhaust os b i = record { result = none; step_limit_hit = true; cause = other_cause }

abbrev keep : Made → Invocation → Result Made
keep os i = ok os

abbrev program : Program Made
program = record {
  limits = default_limits;
  catalog = some catalog;
  routes = (codes "command:poll", question) ∷ [];
}

default_limits_valid : validate_limits default_limits ≡ valid
unfolding validate_limits
default_limits_valid = refl

asked : invoke_program no_https give keep program asking [] ≡ done question
unfolding required_capabilities
asked = (invoke_program_iff no_https give keep program asking [] question).1 (record {
  catalog = catalog;
  callable = question;
  value = question;
  asked = refl;
  present = refl;
  resolved = asking_resolves;
  stateful = refl;
  routed = refl;
  returned = refl;
  lowered = refl;
  accepted = question_accepted;
  granted_all = refl;
})

exhausted : invoke_program no_https exhaust keep program asking [] ≡ failed step_limit
unfolding invoke_program
exhausted = rw asking_resolves refl

unrouted :
    invoke_program no_https give keep (record program { routes = [] }) asking []
    ≡ failed stale_generation
unrouted =
    (invoke_program-stale_iff no_https give keep (record program { routes = [] }) asking []).1
      (refl, inr (catalog, refl, asking_resolves, refl, refl))

invoke_program_iff_example :
    (invoke_program no_https give keep program asking [] ≡ done question)
    ↔ Passed no_https give keep program asking [] question
invoke_program_iff_example = invoke_program_iff no_https give keep program asking [] question

invoke_program-granted_example :
    All (λ o. All (λ k. allows [] k ≡ true) (needs o)) question
    × All (OperationHasContext asking) question
invoke_program-granted_example =
    invoke_program-granted no_https give keep program asking [] question asked

invoke_program-stale_iff_example :
    (invoke_program no_https give keep (record program { routes = [] }) asking []
      ≡ failed stale_generation)
    ↔ ((is_kind check asking ≡ false)
        × ((record program { routes = [] }).catalog ≡ none
            ⊎ IsUnrouted no_https give keep (record program { routes = [] }) asking []))
invoke_program-stale_iff_example =
    invoke_program-stale_iff no_https give keep (record program { routes = [] }) asking []

abbrev decide : CheckDecision → Budget → Invocation → Run CheckDecision
decide d b i = record { result = some d; step_limit_hit = false; cause = no_cause }

abbrev keep_decision : CheckDecision → Result CheckDecision
keep_decision d = ok d

abbrev checks_program : Program CheckDecision
checks_program = record {
  limits = default_limits;
  catalog = some catalog;
  routes = (codes "check:open", refusal) ∷ [];
}

refused : check_program no_https decide keep_decision checks_program checking_open ≡ done refusal
unfolding check_program
refused = rw (open_resolves, refusal_accepted) refl

check_program_iff_example :
    (check_program no_https decide keep_decision checks_program checking_open ≡ done refusal)
    ↔ Decided no_https decide keep_decision checks_program checking_open refusal
check_program_iff_example =
    check_program_iff no_https decide keep_decision checks_program checking_open refusal

-- The same reply for everyone to see is no decision.
abbrev loud : CheckDecision
loud = record refusal {
  denial = some record {
    reply = record { content = codes "Closed."; embeds = []; components = [] };
    ephemeral = false;
  };
}

loud_refused :
    check_program no_https decide keep_decision
      (record checks_program { routes = (codes "check:open", loud) ∷ [] })
      checking_open
    ≢ done loud
loud_refused h =
    let fits =
      ((check_program_iff no_https decide keep_decision
          (record checks_program { routes = (codes "check:open", loud) ∷ [] }) checking_open loud).0
        h).replies in
    cc fits.0
