-- ===== src/Jobs/Fresh.antt =====
-- domain/jobs/service.ts: the names of runs are never used again.
use dsh_assistant.Prelude.{
  Bool-cases, Option-cases, all, text_equality, number_equality, ◌==◌, ℕ, ◌≤◌, ◌<◌, String, ◌≡◌,
  ◌≢◌, inl, inr, true, false, not, Option, none, some, arith, eq_iff, any,
}
use dsh_assistant.Prelude.Dict.{Dict, get, put, get-put, values, all-get, all-put}
use dsh_assistant.Prelude.Decimal.{show_injective}
use dsh_assistant.Prelude.Result.{Result, ok, raise}
use dsh_assistant.Jobs.Service.{
  is_running, WorkflowRunStatus, WorkflowDefinition, AssistantJobService, run_name, launch, finish,
  is_full, start, step, register_workflow, abort, end_run, Event, registered, started, aborting,
  ended, end_of, error_of,
}

-- The names of runs are used in order: none from the next one on is in use.
pub record IsFresh (s : AssistantJobService) : Type 0 where
  pub runs : (n : ℕ) → s.next_run ≤ n → get (run_name n) s.runs ≡ none
  pub owners : (n : ℕ) → s.next_run ≤ n → get (run_name n) s.owners ≡ none
  pub names :
      (n : ℕ) → s.next_run ≤ n → all (λ r. not (run_name n == r.run_id)) (values s.runs) ≡ true

run_name_apart : (m n : ℕ) → m ≢ n → (run_name m == run_name n) ≡ false
run_name_apart m n h = elim (Bool-cases (run_name m == run_name n)) [
  | inl e ↦ absurd (h (show_injective "run-" m n ((eq_iff (run_name m) (run_name n)).0 e)))
  | inr e ↦ e
]

get-put_next {ℓ} :
    {V : Type ℓ} (m n : ℕ) (v : V) (d : Dict String V)
    → m < n
    → get (run_name n) d ≡ none
    → get (run_name n) (put (run_name m) v d) ≡ none
get-put_next m n v d h e =
    ground (
      arith,
      get-put (run_name m) (run_name n) v d,
      run_name_apart m n (λ e. omega (arith, h, e)),
      e,
    )

launch-IsFresh :
    (workflow : WorkflowDefinition) (owner : Option ℕ) (job : Result String String)
    (s : AssistantJobService)
    → IsFresh s
    → IsFresh (launch workflow owner job s).1
unfolding launch
launch-IsFresh workflow owner (raise e) s h = record {
  runs = λ n le. h.runs n (omega (arith, le));
  owners = λ n le. h.owners n (omega (arith, le));
  names = λ n le. h.names n (omega (arith, le));
}
launch-IsFresh workflow none (ok job_id) s h = record {
  runs =
      λ n le. get-put_next s.next_run n _ s.runs (omega (arith, le)) (h.runs n (omega (arith, le)));
  owners = λ n le. h.owners n (omega (arith, le));
  names = λ n le.
      all-put _ _ _ s.runs (h.names n (omega (arith, le)))
        (ground (arith, run_name_apart n s.next_run (λ e. omega (arith, le, e))));
}
launch-IsFresh workflow (some owner) (ok job_id) s h = record {
  runs =
      λ n le. get-put_next s.next_run n _ s.runs (omega (arith, le)) (h.runs n (omega (arith, le)));
  owners = λ n le.
      get-put_next s.next_run n owner s.owners (omega (arith, le)) (h.owners n (omega (arith, le)));
  names = λ n le.
      all-put _ _ _ s.runs (h.names n (omega (arith, le)))
        (ground (arith, run_name_apart n s.next_run (λ e. omega (arith, le, e))));
}

finish-IsFresh :
    (id : String) (status : WorkflowRunStatus) (summary error : Option String)
    (s : AssistantJobService)
    → IsFresh s
    → IsFresh (finish id status summary error s)
unfolding finish
finish-IsFresh id status summary error s h = elim (Option-cases (get id s.runs)) [
  | inl p ↦ rw (p, finish) h
  | inr (r, p) ↦ elim (Bool-cases (is_running r.status)) [
    | inl q ↦
        rw (p, q, finish)
          (record {
            runs = λ n le. ground (
              arith,
              get-put id (run_name n)
                  (record r { status = status; summary = summary; error = error }) s.runs,
              h.runs n le,
              p,
              eq_iff id (run_name n),
            );
            owners = h.owners;
            names = λ n le.
                all-put _ _ _ s.runs (h.names n le) (all-get _ id s.runs r (h.names n le) p);
          })
    | inr q ↦ rw (p, q, finish) h
  ]
]

start-IsFresh :
    (name : String) (owner : Option ℕ) (job : Result String String) (s : AssistantJobService)
    → IsFresh s
    → IsFresh (start name owner job s).1
unfolding start
start-IsFresh name owner job s h = elim (Option-cases (get name s.workflows)) [
  | inl p ↦ rw (p, start) h
  | inr (workflow, p) ↦ elim (Bool-cases (is_full owner s)) [
    | inl q ↦ rw (p, q, start) h
    | inr q ↦ rw (p, q, start) (launch-IsFresh workflow owner job s h)
  ]
]

pub step-IsFresh : (event : Event) (s : AssistantJobService) → IsFresh s → IsFresh (step event s)
unfolding step register_workflow abort end_run
step-IsFresh (registered workflow) s h = record {
  runs = h.runs;
  owners = h.owners;
  names = h.names;
}
step-IsFresh (started name owner job) s h = start-IsFresh name owner job s h
step-IsFresh (aborting id) s h = record { runs = h.runs; owners = h.owners; names = h.names }
step-IsFresh (ended id result) s h =
    let outcome = end_of (any (λ other. other == id) s.aborted) result in
    finish-IsFresh id outcome.status outcome.output (error_of result outcome) s h
