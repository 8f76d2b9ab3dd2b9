-- ===== src/Jobs/Finished.antt =====
-- domain/jobs/service.ts: a run that ended stays as it ended.
use dsh_assistant.Prelude.{
  Bool-cases, Option-cases, any, text_equality, number_equality, ◌==◌, ℕ, suc, String, ◌≡◌, inl,
  inr, true, false, Option, none, some, List, [], ◌∷◌, arith, eq_iff,
}
use dsh_assistant.Prelude.Dict.{get, get-put, count_if-put}
use dsh_assistant.Prelude.Result.{Result, ok, raise}
use dsh_assistant.Jobs.Service.{
  is_active, run, running, Event, start, step, is_running, error_of, registered, WorkflowRunStatus,
  WorkflowDefinition, WorkflowRunRecord, AssistantJobService, new_service, register_workflow,
  active_count, is_full, run_name, launch, abort, finish, end_of, end_run, started, aborting, ended,
}
use dsh_assistant.Jobs.Bounds.{end_of-ends, new_service-IsFresh}
use dsh_assistant.Jobs.Fresh.{IsFresh, step-IsFresh}

module _ (id : String) (r : WorkflowRunRecord) (over : is_running r.status ≡ false) where
  launch-get :
      (workflow : WorkflowDefinition) (owner : Option ℕ) (job : Result String String)
      (s : AssistantJobService)
      → IsFresh s
      → get id s.runs ≡ some r
      → get id (launch workflow owner job s).1.runs ≡ some r
  unfolding launch
  launch-get workflow owner (raise e) s fresh found = found
  launch-get workflow owner (ok job_id) s fresh found = ground (
    arith,
    found,
    fresh.runs s.next_run (omega arith),
    eq_iff (run_name s.next_run) id,
    get-put (run_name s.next_run) id
        (record {
          run_id = run_name s.next_run;
          workflow = workflow.name;
          job_id = job_id;
          status = running;
          summary = none;
          error = none;
        })
        s.runs,
  )

  start-get :
      (name : String) (owner : Option ℕ) (job : Result String String) (s : AssistantJobService)
      → IsFresh s
      → get id s.runs ≡ some r
      → get id (start name owner job s).1.runs ≡ some r
  unfolding start
  start-get name owner job s fresh found = elim (Option-cases (get name s.workflows)) [
    | inl p ↦ rw (p, start) found
    | inr (workflow, p) ↦ elim (Bool-cases (is_full owner s)) [
      | inl q ↦ rw (p, q, start) found
      | inr q ↦ rw (p, q, start) (launch-get workflow owner job s fresh found)
    ]
  ]

  finish-get :
      (other : String) (status : WorkflowRunStatus) (summary error : Option String)
      (s : AssistantJobService)
      → get id s.runs ≡ some r
      → get id (finish other status summary error s).runs ≡ some r
  unfolding finish
  finish-get other status summary error s found = elim (Option-cases (get other s.runs)) [
    | inl p ↦ rw (p, finish) found
    | inr (c, p) ↦ elim (Bool-cases (is_running c.status)) [
      | inl q ↦
          rw (p, q, finish)
            (ground (
              arith,
              found,
              p,
              q,
              over,
              eq_iff other id,
              get-put other id (record c { status = status; summary = summary; error = error })
                  s.runs,
            ))
      | inr q ↦ rw (p, q, finish) found
    ]
  ]

  step-get :
      (event : Event) (s : AssistantJobService)
      → IsFresh s
      → get id s.runs ≡ some r
      → get id (step event s).runs ≡ some r
  unfolding step register_workflow abort end_run
  step-get (registered workflow) s fresh found = found
  step-get (started name owner job) s fresh found = start-get name owner job s fresh found
  step-get (aborting other) s fresh found = found
  step-get (ended other result) s fresh found =
      let outcome = end_of (any (λ known. known == other) s.aborted) result in
      finish-get other outcome.status outcome.output (error_of result outcome) s found

  run-get :
      (events : List Event) (s : AssistantJobService)
      → IsFresh s
      → get id s.runs ≡ some r
      → get id (run events s).runs ≡ some r
  unfolding run
  run-get [] s fresh found = found
  run-get (event ∷ events) s fresh found =
      run-get events (step event s) (step-IsFresh event s fresh) (step-get event s fresh found)

run-IsFresh : (events : List Event) (s : AssistantJobService) → IsFresh s → IsFresh (run events s)
unfolding run
run-IsFresh [] s fresh = fresh
run-IsFresh (event ∷ events) s fresh =
    run-IsFresh events (step event s) (step-IsFresh event s fresh)

-- A run of a new service that has completed, failed or been killed keeps its status, its summary and its
-- error through everything that happens later; its name is never given to another run.
pub ended_stays :
    (before after : List Event) (id : String) (r : WorkflowRunRecord)
    → get id (run before new_service).runs ≡ some r
    → is_running r.status ≡ false
    → get id (run after (run before new_service)).runs ≡ some r
ended_stays before after id r found over =
    run-get id r over after (run before new_service)
      (run-IsFresh before new_service new_service-IsFresh) found

finish_frees :
    (id : String) (status : WorkflowRunStatus) (summary error : Option String) (owner : ℕ)
    (s : AssistantJobService) (r : WorkflowRunRecord)
    → is_running status ≡ false
    → get id s.runs ≡ some r
    → is_active owner s.owners r ≡ true
    → suc (active_count owner s.owners (finish id status summary error s).runs)
      ≡ active_count owner s.owners s.runs
unfolding finish
finish_frees id status summary error owner s r ends found live =
    let running : is_running r.status ≡ true = ground (arith, live) in
    rw (found, running, finish)
      (ground (
        arith,
        found,
        live,
        ends,
        count_if-put (is_active owner s.owners) id
            (record r { status = status; summary = summary; error = error }) s.runs,
      ))

-- When the workflow of a run that is running ends, with a summary or an error, aborted or not, its owner
-- has one active run fewer, so that a start refused for the bound may be made again.
pub end_frees_place :
    (id : String) (result : Result String String) (owner : ℕ) (s : AssistantJobService)
    (r : WorkflowRunRecord)
    → get id s.runs ≡ some r
    → is_active owner s.owners r ≡ true
    → suc (active_count owner s.owners (end_run id result s).1.runs)
      ≡ active_count owner s.owners s.runs
unfolding end_run
end_frees_place id result owner s r found live =
    let aborted = any (λ other. other == id) s.aborted in
    let outcome = end_of aborted result in
    finish_frees id outcome.status outcome.output (error_of result outcome) owner s r
      (end_of-ends aborted result) found live
