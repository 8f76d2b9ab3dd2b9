-- ===== src/Policy/Schedule/Tests.antt =====
-- Runs of the policy service, and the theorems at these runs.
use dsh_assistant.Prelude.{
  text_equality, ℕ, String, ◌≡◌, refl, ◌≤◌, false, some, none, List, [], ◌∷◌, true,
}
use dsh_assistant.Json.{Json, null, end, field}
use dsh_assistant.Policy.Types.{
  PolicyConfig, ActionRequest, execute, l3, approve, ConfirmationTicket, l2, consumed, pending,
}
use dsh_assistant.Policy.Schedule.{
  Event, run, register, step, decided, start, decide, resolved, finished, reached,
}
use dsh_assistant.Policy.Service.{propose, decide, propose, create_ticket, try_claim}
use dsh_assistant.Policy.State.{
  register_executor, level_for, record_audit, deny_ticket, deny_for_ticket, update_ticket, deny,
  allow, executor_key,
}
use dsh_assistant.Policy.Execution.{resolve, run_claimed, settle, apply}
use dsh_assistant.Policy.Fingerprint.{action_fingerprint}
use dsh_assistant.Policy.Schedule.Once.{runs_of, at_most_once}
use dsh_assistant.Policy.Schedule.Trust.{
  IsAutomatic, started_call, is_running, apply_trusted, resolve_trusted,
}
use dsh_assistant.Prelude.Dict.{get, put}
use dsh_assistant.Policy.Schedule.Closed.{closed_stays_closed}
use dsh_assistant.Prelude.Decimal.{show}

abbrev digest : String → String
digest s = s

abbrev config : PolicyConfig
config = record {
  rules = record { capability = "tasks"; intent = execute; level = l3 } ∷ [];
  auto_execute = "tasks" ∷ [];
}

abbrev request : String → ActionRequest
request capability = record {
  capability = capability;
  operation = "create";
  intent = execute;
  payload = field "title" (Json.str "standup") end;
  confirmation_id = none;
  aborted = false;
}

-- a proposal, an approval whose executor returns, and a second approval
abbrev approved_twice : List (Event ℕ)
approved_twice =
    register "calendar" "create" 7
    ∷ decided (request "calendar")
    ∷ resolved "conf-1" approve false
    ∷ resolved "conf-1" approve false
    ∷ finished 0 (some null)
    ∷ resolved "conf-1" approve false
    ∷ []

-- the ticket after the first completion
abbrev consumed_ticket : ConfirmationTicket
consumed_ticket = record {
  id = "conf-1";
  fingerprint =
      action_fingerprint digest "calendar" "create" (field "title" (Json.str "standup") end);
  capability = "calendar";
  operation = "create";
  payload = field "title" (Json.str "standup") end;
  level = l2;
  status = consumed;
}

abbrev automatic : List (Event ℕ)
automatic = register "tasks" "create" 9 ∷ []

abbrev proposed : List (Event ℕ)
proposed = register "calendar" "create" 7 ∷ decided (request "calendar") ∷ []

-- The approved action ran once and its ticket is consumed; an action at level L3 runs at once; an
-- approval starts the executor.
runs_evaluated :
    (runs_of "conf-1" (run digest approved_twice (start config)).invoked ≡ 1)
    × (get "conf-1" (run digest approved_twice (start config)).policy.tickets
        ≡ some consumed_ticket)
    × (is_running (apply digest (request "tasks") (reached digest config automatic)).0 ≡ true)
    × (started_call (resolve "conf-1" approve false (reached digest config proposed)).0
        ≡ some (7, field "title" (Json.str "standup") end))
unfolding apply run step start decide propose create_ticket level_for record_audit register_executor
    resolve deny_ticket deny_for_ticket try_claim update_ticket run_claimed settle
    action_fingerprint get put show deny allow
runs_evaluated = (refl, refl, refl, refl)

at_most_once_example : runs_of "conf-1" (run digest approved_twice (start config)).invoked ≤ 1
at_most_once_example = at_most_once digest config approved_twice "conf-1"

apply_trusted_example : IsAutomatic (reached digest config automatic) (request "tasks")
apply_trusted_example = apply_trusted digest (request "tasks") config automatic (runs_evaluated.2)

closed_stays_closed_example :
    (get "conf-1"
        (run digest approved_twice (run digest approved_twice (start config))).policy.tickets
      ≡ some consumed_ticket)
    × (runs_of "conf-1"
          (run digest approved_twice (run digest approved_twice (start config))).invoked
        ≡ runs_of "conf-1" (run digest approved_twice (start config)).invoked)
closed_stays_closed_example =
    closed_stays_closed digest config approved_twice approved_twice "conf-1" consumed_ticket
      (runs_evaluated.1) refl

resolve_trusted_example :
    (ticket : ConfirmationTicket) × (get "conf-1" (reached digest config proposed).tickets
      ≡ some ticket)
    × (ticket.status ≡ pending)
    × (approve ≡ approve)
    × (false ≡ false)
    × (field "title" (Json.str "standup") end ≡ ticket.payload)
    × (get
          (executor_key ticket.capability ticket.operation)
          (reached digest config proposed).executors
        ≡ some 7)
    × (ticket.fingerprint
        ≡ action_fingerprint digest ticket.capability ticket.operation
            (field "title" (Json.str "standup") end))
resolve_trusted_example =
    resolve_trusted digest config proposed "conf-1" approve false 7
      (field "title" (Json.str "standup") end) (runs_evaluated.3)
