-- ===== src/Jobs/Bounds.antt =====
-- domain/jobs/service.ts: how many runs an owner may have at a time.
use dsh_assistant.Jobs.Fresh.{IsFresh, step-IsFresh}
use dsh_assistant.Prelude.{
  Bool-cases, Option-cases, all, text_equality, number_equality, ◌==◌, ℕ, ◌≤◌, String, ◌≡◌, inl,
  inr, true, false, not, Option, none, some, arith, eq_iff, List, count_if, ◌∷◌, [], refl, any,
  Bool, nat_beq_iff,
}
use dsh_assistant.Prelude.Dict.{Dict, get, put, get-put, values, count_if-put}
use dsh_assistant.Prelude.Result.{Result, ok, raise}
use dsh_assistant.Jobs.Service.{
  is_running, WorkflowRunStatus, WorkflowDefinition, AssistantJobService, run_name, launch, finish,
  active_count, is_full, start, step, WorkflowRunRecord, max_active_per_owner, register_workflow,
  abort, running, end_run, is_active, Event, registered, started, aborting, ended, end_of, error_of,
  new_service, run,
}

-- no owner has more than the bound
abbrev pub IsBounded : AssistantJobService → Type 0
IsBounded s = (owner : ℕ) → active_count owner s.owners s.runs ≤ max_active_per_owner

count_if-own :
    (owner other : ℕ) (id : String) (owners : Dict String ℕ) (rs : List WorkflowRunRecord)
    → all (λ r. not (id == r.run_id)) rs ≡ true
    → count_if (is_active owner (put id other owners)) rs ≡ count_if (is_active owner owners) rs
count_if-own owner other id owners [] h = refl
count_if-own owner other id owners (r ∷ rs) h =
    ground (arith, h, get-put id r.run_id other owners, count_if-own owner other id owners rs)

launch-IsBounded :
    (workflow : WorkflowDefinition) (owner : Option ℕ) (job : Result String String)
    (s : AssistantJobService)
    → is_full owner s ≡ false
    → IsFresh s
    → IsBounded s
    → IsBounded (launch workflow owner job s).1
unfolding launch
launch-IsBounded workflow owner (raise e) s room fresh h other = h other
launch-IsBounded workflow none (ok job_id) s room fresh h other =
    let new : WorkflowRunRecord = record {
      run_id = run_name s.next_run;
      workflow = workflow.name;
      job_id = job_id;
      status = running;
      summary = none;
      error = none;
    } in
    ground (
      arith,
      count_if-put (is_active other s.owners) (run_name s.next_run) new s.runs,
      h other,
      fresh.owners s.next_run,
      fresh.runs s.next_run,
    )
launch-IsBounded workflow (some owner) (ok job_id) s room fresh h other =
    let new : WorkflowRunRecord = record {
      run_id = run_name s.next_run;
      workflow = workflow.name;
      job_id = job_id;
      status = running;
      summary = none;
      error = none;
    } in
    ground (
      arith,
      count_if-put (is_active other (put (run_name s.next_run) owner s.owners))
          (run_name s.next_run) new s.runs,
      h other,
      h owner,
      room,
      count_if-own other owner (run_name s.next_run) s.owners (values s.runs)
          (fresh.names s.next_run (omega arith)),
      fresh.runs s.next_run,
      get-put (run_name s.next_run) (run_name s.next_run) owner s.owners,
      nat_beq_iff owner other,
      eq_iff (run_name s.next_run) (run_name s.next_run),
    )

finish-IsBounded :
    (id : String) (status : WorkflowRunStatus) (summary error : Option String)
    (s : AssistantJobService)
    → is_running status ≡ false
    → IsBounded s
    → IsBounded (finish id status summary error s)
unfolding finish
finish-IsBounded id status summary error s ends h owner = elim (Option-cases (get id s.runs)) [
  | inl p ↦ rw (p, finish) (h owner)
  | inr (r, p) ↦ elim (Bool-cases (is_running r.status)) [
    | inl q ↦
        rw (p, q, finish)
          (ground (
            arith,
            h owner,
            ends,
            count_if-put (is_active owner s.owners) id
                (record r { status = status; summary = summary; error = error }) s.runs,
          ))
    | inr q ↦ rw (p, q, finish) (h owner)
  ]
]

start-IsBounded :
    (name : String) (owner : Option ℕ) (job : Result String String) (s : AssistantJobService)
    → IsFresh s
    → IsBounded s
    → IsBounded (start name owner job s).1
unfolding start
start-IsBounded name owner job s fresh h other = elim (Option-cases (get name s.workflows)) [
  | inl p ↦ rw (p, start) (h other)
  | inr (workflow, p) ↦ elim (Bool-cases (is_full owner s)) [
    | inl q ↦ rw (p, q, start) (h other)
    | inr q ↦ rw (p, q, start) (launch-IsBounded workflow owner job s q fresh h other)
  ]
]

pub end_of-ends :
    (aborted : Bool) (result : Result String String)
    → is_running (end_of aborted result).status ≡ false
end_of-ends true (ok summary) = refl
end_of-ends true (raise e) = refl
end_of-ends false (ok summary) = refl
end_of-ends false (raise e) = refl

step-IsBounded :
    (event : Event) (s : AssistantJobService) → IsFresh s → IsBounded s → IsBounded (step event s)
unfolding step register_workflow abort end_run
step-IsBounded (registered workflow) s fresh h owner = h owner
step-IsBounded (started name owner job) s fresh h other =
    start-IsBounded name owner job s fresh h other
step-IsBounded (aborting id) s fresh h owner = h owner
step-IsBounded (ended id result) s fresh h other =
    let aborted = any (λ other. other == id) s.aborted in
    let outcome = end_of aborted result in
    finish-IsBounded id outcome.status outcome.output (error_of result outcome) s
      (end_of-ends aborted result) h other

run-IsBounded :
    (events : List Event) (s : AssistantJobService)
    → IsFresh s
    → IsBounded s
    → IsBounded (run events s)
unfolding run
run-IsBounded [] s fresh h = h
run-IsBounded (event ∷ events) s fresh h =
    run-IsBounded events (step event s) (step-IsFresh event s fresh)
      (step-IsBounded event s fresh h)

pub new_service-IsFresh : IsFresh new_service
unfolding get
new_service-IsFresh = record { runs = λ n le. refl; owners = λ n le. refl; names = λ n le. refl }

-- After any registrations, starts, aborts and ends of runs, in any order, no session owns more than
-- four runs that are running, whatever the job registry and the workflows return or throw.
pub at_most_four :
    (events : List Event) (owner : ℕ)
    → active_count owner (run events new_service).owners (run events new_service).runs ≤ 4
at_most_four events = run-IsBounded events new_service new_service-IsFresh (λ owner. omega arith)
