-- ===== src/Approval/Broker/Tests.antt =====
-- The broker at concrete requests.
use dsh_assistant.Prelude.{
  text_equality, number_equality, ◌+◌, String, ◌≡◌, refl, false, none, some, List, [], ◌∷◌,
}
use dsh_assistant.Prelude.Dict.{get, put, has}
use dsh_assistant.Approval.Broker.{
  resolve, settle, unavailable, approve, allowed_once, OpenDshApproval, prune_loop, prune, wait_for,
  open_approval, abort, settle_all, dispose,
}
use dsh_assistant.Approval.Broker.Calls.{
  Call, run, start, step, opening, resolving, aborting, disposing,
}
use dsh_assistant.Approval.Broker.Pruned.{settled, waits, promised}
use dsh_assistant.Approval.Broker.Once.{promises_balanced}

abbrev request : String → OpenDshApproval
request id = record {
  request_id = id;
  tool_name = "bash";
  call_id = none;
  reason = some "";
  arguments = none;
  session_id = "s";
  aborted = false;
}

abbrev sha : String → String
sha s = s

-- one request is approved, its listener fires late, it is pruned by the next one, and asked again
abbrev some_calls : List Call
some_calls =
    opening (request "a")
    ∷ resolving "dsh:a" approve
    ∷ aborting "dsh:a"
    ∷ opening (request "b")
    ∷ opening (request "a")
    ∷ opening (request "b")
    ∷ disposing
    ∷ []

calls_evaluated :
    ((run sha some_calls (start 1)).promises ≡ "dsh:a" ∷ "dsh:b" ∷ "dsh:a" ∷ [])
    × ((run sha some_calls (start 1)).broker.answers
        ≡ ("dsh:a", allowed_once) ∷ ("dsh:b", unavailable) ∷ ("dsh:a", unavailable) ∷ [])
unfolding run step open_approval resolve abort dispose settle_all settle wait_for prune prune_loop
    get put has
calls_evaluated = (refl, refl)

promises_balanced_example :
    promised "dsh:a" (run sha some_calls (start 1)).promises
    ≡ settled "dsh:a" (run sha some_calls (start 1)).broker.answers
      + waits (get "dsh:a" (run sha some_calls (start 1)).broker.records)
promises_balanced_example = promises_balanced sha 1 some_calls "dsh:a"
