-- ===== src/Jobs/Service.antt =====
-- domain/jobs/types.ts and service.ts: `AssistantJobService`. The times of start and end are left out.
-- The agents that own runs are numbers, as they are compared by identity. The job registry is not
-- part of the repository: what its `start` returns or throws, and its answer to `kill`, are
-- arguments. A workflow's `run` is the event that it ends with a summary or an error, and the
-- controllers that were aborted are part of the state.
use dsh_assistant.Prelude.{
  leb, if◌then◌else◌, any, count_if, text_equality, number_equality, ◌==◌, ◌&◌, ℕ, suc, String,
  Bool, true, false, ◌&&◌, Option, none, some, List, [], ◌∷◌, map,
}
use dsh_assistant.Prelude.Dict.{Dict, get, put, values}
use dsh_assistant.Prelude.Decimal.{show}
use dsh_assistant.Prelude.Result.{Result, ok, raise}

pub data WorkflowSchedule : Type 0 where
  manual : WorkflowSchedule
  every : ℕ → WorkflowSchedule

pub data WorkflowIntent : Type 0 where
  read execute : WorkflowIntent

pub data WorkflowRunStatus : Type 0 where
  running completed killed failed : WorkflowRunStatus

pub record WorkflowDefinition : Type 0 where
  pub name : String
  pub title : String
  pub schedule : WorkflowSchedule
  pub intent : WorkflowIntent

pub record WorkflowRunRecord : Type 0 where
  pub run_id : String
  pub workflow : String
  pub job_id : String
  pub status : WorkflowRunStatus
  pub summary : Option String
  pub error : Option String

pub record WorkflowStatus : Type 0 where
  pub name : String
  pub title : String
  pub schedule : WorkflowSchedule
  pub intent : WorkflowIntent
  pub last_run : Option WorkflowRunRecord

pub record JobOutcome : Type 0 where
  pub status : WorkflowRunStatus
  pub detail : String
  pub output : Option String

pub record AssistantJobService : Type 0 where
  pub workflows : Dict String WorkflowDefinition
  pub runs : Dict String WorkflowRunRecord
  pub owners : Dict String ℕ
  pub next_run : ℕ
  pub aborted : List String

abbrev pub new_service : AssistantJobService
new_service = record { workflows = []; runs = []; owners = []; next_run = 1; aborted = [] }

abbrev pub max_active_per_owner : ℕ
max_active_per_owner = 4

abbrev pub is_running : WorkflowRunStatus → Bool
is_running running = true
is_running _ = false

unfoldable pub register_workflow : WorkflowDefinition → AssistantJobService → AssistantJobService
register_workflow workflow s = record s { workflows = put workflow.name workflow s.workflows }

-- the last of those that pass, as `[...].reverse().find(...)`
abbrev pub or_later {ℓ} : {A : Type ℓ} → Option A → Option A → Option A
or_later earlier none = earlier
or_later earlier (some later) = some later

abbrev pub find_last {ℓ} : {A : Type ℓ} → (A → Bool) → List A → Option A
find_last p [] = none
find_last p (x ∷ xs) = or_later (if p x then some x else none) (find_last p xs)

unfoldable pub last_run : String → AssistantJobService → Option WorkflowRunRecord
last_run workflow s = find_last (λ run. run.workflow == workflow) (values s.runs)

unfoldable pub list_workflows : AssistantJobService → List WorkflowStatus
unfolding last_run
list_workflows s =
    map
      (λ workflow. record {
        name = workflow.name;
        title = workflow.title;
        schedule = workflow.schedule;
        intent = workflow.intent;
        last_run = last_run workflow.name s;
      })
      (values s.workflows)

abbrev pub get_run : String → AssistantJobService → Option WorkflowRunRecord
get_run run_id s = get run_id s.runs

abbrev pub owned_by : ℕ → Option ℕ → Bool
owned_by owner none = false
owned_by owner (some other) = other == owner

abbrev pub is_active : ℕ → Dict String ℕ → WorkflowRunRecord → Bool
is_active owner owners run = is_running run.status && owned_by owner (get run.run_id owners)

abbrev pub active_count : ℕ → Dict String ℕ → Dict String WorkflowRunRecord → ℕ
active_count owner owners runs = count_if (is_active owner owners) (values runs)

abbrev pub is_full : Option ℕ → AssistantJobService → Bool
is_full none s = false
is_full (some owner) s = leb max_active_per_owner (active_count owner s.owners s.runs)

abbrev pub own : String → Option ℕ → Dict String ℕ → Dict String ℕ
own run_id none owners = owners
own run_id (some owner) owners = put run_id owner owners

abbrev pub run_name : ℕ → String
run_name n = "run-" & show n

-- after the checks of `start`; the host's registry is taken not to run the workflow to its end before
-- it returns
unfoldable pub launch :
    WorkflowDefinition
    → Option ℕ
    → Result String String
    → AssistantJobService
    → Result String (String × String) × AssistantJobService
launch workflow owner (raise message) s = (raise message, record s { next_run = suc s.next_run })
launch workflow owner (ok job_id) s = (
  ok (run_name s.next_run, job_id),
  record s {
    next_run = suc s.next_run;
    runs =
        put (run_name s.next_run)
          (record {
            run_id = run_name s.next_run;
            workflow = workflow.name;
            job_id = job_id;
            status = running;
            summary = none;
            error = none;
          })
          s.runs;
    owners = own (run_name s.next_run) owner s.owners;
  },
)

unfoldable pub start :
    String
    → Option ℕ
    → Result String String
    → AssistantJobService
    → Result String (String × String) × AssistantJobService
unfolding launch
start name owner job s = elim (get name s.workflows) [
  | none ↦ (raise ("unknown workflow: " & name), s)
  | some workflow ↦
      if is_full owner s
      then (
        raise (
            "a session may run at most "
            & show max_active_per_owner
            & " registered workflows at once"),
        s,
      )
      else launch workflow owner job s
]

-- `kill` is the job registry's: from the job and its owner to `'requested'` or not
unfoldable pub cancel :
    (String → Option ℕ → Result String Bool) → String → AssistantJobService → Result String Bool
cancel kill run_id s = elim (get run_id s.runs) [
  | none ↦ raise ("unknown run: " & run_id)
  | some run ↦ kill run.job_id (get run_id s.owners)
]

-- the registry calls `cancel` of a run's handle
unfoldable pub abort : String → AssistantJobService → AssistantJobService
abort run_id s = record s { aborted = run_id ∷ s.aborted }

unfoldable pub finish :
    String
    → WorkflowRunStatus
    → Option String
    → Option String
    → AssistantJobService
    → AssistantJobService
finish run_id status summary error s = elim (get run_id s.runs) [
  | none ↦ s
  | some current ↦
      if is_running current.status
      then record s {
        runs =
            put run_id (record current { status = status; summary = summary; error = error })
              s.runs;
      }
      else s
]

abbrev pub end_of : Bool → Result String String → JobOutcome
end_of true (ok summary) = record { status = killed; detail = "cancelled"; output = some summary }
end_of true (raise e) = record { status = killed; detail = "cancelled"; output = none }
end_of false (ok summary) = record { status = completed; detail = "ok"; output = some summary }
end_of false (raise e) = record { status = failed; detail = "failed"; output = none }

abbrev pub error_of : Result String String → JobOutcome → Option String
error_of (ok summary) outcome = none
error_of (raise e) outcome = some outcome.detail

-- `execute` after the workflow's `run` ended
unfoldable pub end_run :
    String → Result String String → AssistantJobService → JobOutcome × AssistantJobService
unfolding finish
end_run run_id result s =
    let outcome = end_of (any (λ id. id == run_id) s.aborted) result in
    (outcome, finish run_id outcome.status outcome.output (error_of result outcome) s)

-- `wait` after the registry's `wait`
unfoldable pub waited : String → AssistantJobService → Result String WorkflowRunRecord
waited run_id s = elim (get run_id s.runs) [
  | none ↦ raise ("unknown run: " & run_id)
  | some latest ↦ ok latest
]

-- What happens to a service, in any order. A run that was never started may end here; then nothing
-- is written.
pub data Event : Type 0 where
  registered : WorkflowDefinition → Event
  started : String → Option ℕ → Result String String → Event
  aborting : String → Event
  ended : String → Result String String → Event

unfoldable pub step : Event → AssistantJobService → AssistantJobService
unfolding register_workflow start abort end_run
step (registered workflow) s = register_workflow workflow s
step (started name owner job) s = (start name owner job s).1
step (aborting run_id) s = abort run_id s
step (ended run_id result) s = (end_run run_id result s).1

unfoldable pub run : List Event → AssistantJobService → AssistantJobService
run [] s = s
run (event ∷ events) s = run events (step event s)
