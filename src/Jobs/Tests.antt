-- ===== src/Jobs/Tests.antt =====
-- Jobs at a concrete workflow.
use dsh_assistant.Prelude.{
  text_equality, number_equality, suc, ◌≤◌, ◌≡◌, refl, true, none, some, List, [], ◌∷◌,
}
use dsh_assistant.Prelude.Dict.{get, put}
use dsh_assistant.Prelude.Decimal.{show}
use dsh_assistant.Prelude.Result.{ok, raise}
use dsh_assistant.Jobs.Service.{
  is_active, run, running, read, Event, start, step, registered, every, killed, WorkflowDefinition,
  WorkflowRunRecord, AssistantJobService, new_service, register_workflow, active_count, launch,
  abort, finish, end_run, started, aborting, ended,
}
use dsh_assistant.Jobs.Bounds.{at_most_four}
use dsh_assistant.Jobs.Finished.{ended_stays, end_frees_place}

abbrev brief : WorkflowDefinition
brief = record {
  name = "morning-brief";
  title = "Morning brief";
  schedule = every 86400000;
  intent = read;
}

abbrev one_life : List Event
one_life =
    registered brief
    ∷ started "morning-brief" (some 7) (ok "job-1")
    ∷ aborting "run-1"
    ∷ ended "run-1" (ok "nothing today")
    ∷ []

abbrev killed_run : WorkflowRunRecord
killed_run = record {
  run_id = "run-1";
  workflow = "morning-brief";
  job_id = "job-1";
  status = killed;
  summary = some "nothing today";
  error = none;
}

killed_evaluated : get "run-1" (run one_life new_service).runs ≡ some killed_run
unfolding run step register_workflow start launch abort end_run finish get put show
killed_evaluated = refl

abbrev fifth_start : List Event
fifth_start =
    registered brief
    ∷ started "morning-brief" (some 7) (ok "job-1")
    ∷ started "morning-brief" (some 7) (ok "job-2")
    ∷ started "morning-brief" (some 7) (ok "job-3")
    ∷ started "morning-brief" (some 7) (ok "job-4")
    ∷ []

refused_evaluated :
    (start "morning-brief" (some 7) (ok "job-5") (run fifth_start new_service)).0
    ≡ raise "a session may run at most 4 registered workflows at once"
unfolding run step register_workflow start launch get put show
refused_evaluated = refl

abbrev second_start : List Event
second_start = started "morning-brief" none (ok "job-2") ∷ ended "run-1" (raise "late") ∷ []

at_most_four_example :
    active_count 7 (run fifth_start new_service).owners (run fifth_start new_service).runs ≤ 4
at_most_four_example = at_most_four fifth_start 7

ended_stays_example :
    get "run-1" (run second_start (run one_life new_service)).runs ≡ some killed_run
ended_stays_example = ended_stays one_life second_start "run-1" killed_run killed_evaluated refl

abbrev live_run : WorkflowRunRecord
live_run = record killed_run { status = running; summary = none }

abbrev one_running : AssistantJobService
one_running = record new_service {
  runs = ("run-1", live_run) ∷ [];
  owners = ("run-1", 7) ∷ [];
  next_run = 2;
}

live_evaluated : get "run-1" one_running.runs ≡ some live_run
unfolding get
live_evaluated = refl

active_evaluated : is_active 7 one_running.owners live_run ≡ true
unfolding get
active_evaluated = refl

end_frees_place_example :
    suc (active_count 7 one_running.owners (end_run "run-1" (raise "late") one_running).1.runs)
    ≡ active_count 7 one_running.owners one_running.runs
end_frees_place_example =
    end_frees_place "run-1" (raise "late") 7 one_running live_run live_evaluated active_evaluated
