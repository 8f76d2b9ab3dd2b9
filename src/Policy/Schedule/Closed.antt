-- ===== src/Policy/Schedule/Closed.antt =====
-- An answered or finished confirmation never changes and never runs again.
use dsh_assistant.Prelude.{
  String, ◌≡◌, refl, Bool, true, false, arith, List, [], ◌∷◌, Option, none, some, text_equality, ℕ,
  ◌∙◌,
}
use dsh_assistant.Policy.Execution.{apply, resolve}
use dsh_assistant.Policy.Types.{
  ConfirmationStatus, denied, cancelled, consumed, failed, ConfirmationTicket, PolicyConfig,
}
use dsh_assistant.Policy.Schedule.{
  World, run, step, Event, Json, Progress, register_executor, Call, PolicyService, start, call_at,
  register, decided, finish_call, progressed, decide, settled, running, applied, resolved, finished,
}
use dsh_assistant.Policy.State.{Progress, register_executor, PolicyService, settled, running}
use dsh_assistant.Policy.Schedule.Moves.{Moves, decide_moves}
use dsh_assistant.Prelude.Dict.{get}
use dsh_assistant.Json.{Json}
use dsh_assistant.Policy.Schedule.Once.{
  IsSound, runs_of, run-IsSound, step-IsSound, start-IsSound, runs_of-without_call,
}
use dsh_assistant.Policy.Schedule.Methods.{Changes, apply_moves, resolve_moves}
use dsh_assistant.Policy.Schedule.Effects.{runs, get-settle}
use mathlib.Core.Path.{subst}
use dsh_assistant.Policy.Service.{decide}

abbrev pub is_closed : ConfirmationStatus → Bool
is_closed denied = true
is_closed cancelled = true
is_closed consumed = true
is_closed failed = true
is_closed _ = false

Moves-closed :
    (sha256 : String → String) (j : String) (n n' : ℕ) (t : ConfirmationTicket)
    (o' : Option ConfirmationTicket) (called : Bool)
    → is_closed t.status ≡ true
    → Moves sha256 j n n' (some t) o' called
    → (o' ≡ some t) × (called ≡ false)
Moves-closed sha256 j n n' t none true closed h = absurd h
Moves-closed sha256 j n n' t none false closed h = absurd h
Moves-closed sha256 j n n' t (some u) called closed h = ground arith

module _ {E : Type 0} (sha256 : String → String) (id : String) (t : ConfirmationTicket) where
  -- the ticket is `t` still, and no call was made for it
  abbrev Untouched : World E → World E → Type 0
  Untouched w w' =
      (get id w'.policy.tickets ≡ some t) × (runs_of id w'.invoked ≡ runs_of id w.invoked)

  module _ (closed : is_closed t.status ≡ true) where
    quiet_progress :
        (w : World E) (progress : Progress E) (s' : PolicyService E)
        → get id s'.tickets ≡ some t
        → runs id progress ≡ false
        → Untouched w (progressed (progress, s') w)
    quiet_progress w (settled outcome) s' kept quiet = (kept, refl)
    quiet_progress w (running executor payload continuation) s' kept quiet = (kept, ground arith)

    progressed-Untouched :
        (w : World E) (progress : Progress E) (s' : PolicyService E)
        → get id w.policy.tickets ≡ some t
        → Changes sha256 id w.policy (progress, s')
        → Untouched w (progressed (progress, s') w)
    progressed-Untouched w progress s' found h =
        let (kept, quiet) =
          Moves-closed sha256 id w.policy.next_id s'.next_id t (get id s'.tickets)
            (runs id progress) closed
            (subst
              (λ o.
                Moves sha256 id w.policy.next_id s'.next_id o (get id s'.tickets)
                  (runs id progress))
              found h) in
        quiet_progress w progress s' kept quiet

    finished-Untouched :
        (w : World E) (i : ℕ) (result : Option Json) (call : Option (Call E))
        → IsSound sha256 w
        → call_at i w.awaiting ≡ call
        → get id w.policy.tickets ≡ some t
        → Untouched w (finish_call i result call w)
    finished-Untouched w i result none sound e found = (found, refl)
    finished-Untouched w i result (some call) sound e found = ground (
      arith,
      get-settle id call.continuation result w.policy,
      sound.live id,
      runs_of-without_call id i w.awaiting call e,
    )

    step-Untouched :
        (event : Event E) (w : World E)
        → IsSound sha256 w
        → get id w.policy.tickets ≡ some t
        → Untouched w (step sha256 event w)
    unfolding step register_executor
    step-Untouched (register capability operation executor) w sound found = (found, refl)
    step-Untouched (decided request) w sound found = (
      (Moves-closed sha256 id w.policy.next_id (decide sha256 request w.policy).1.next_id t
          (get id (decide sha256 request w.policy).1.tickets) false closed
          (subst
            (λ o.
              Moves sha256 id w.policy.next_id (decide sha256 request w.policy).1.next_id o
                (get id (decide sha256 request w.policy).1.tickets) false)
            found (decide_moves sha256 id request w.policy (sound.fresh _ (omega arith))))).0,
      refl,
    )
    step-Untouched (applied request) w sound found =
        let (progress, s') = apply sha256 request w.policy in
        progressed-Untouched w progress s' found
          (apply_moves sha256 id request w.policy sound.keyed (sound.fresh _ (omega arith)))
    step-Untouched (resolved other decision aborted) w sound found =
        let (progress, s') = resolve other decision aborted w.policy in
        progressed-Untouched w progress s' found
          (resolve_moves sha256 id other decision aborted w.policy sound.keyed)
    step-Untouched (finished index result) w sound found =
        finished-Untouched w index result (call_at index w.awaiting) sound refl found

    run-Untouched :
        (events : List (Event E)) (w : World E)
        → IsSound sha256 w
        → get id w.policy.tickets ≡ some t
        → Untouched w (run sha256 events w)
    unfolding run
    run-Untouched [] w sound found = (found, refl)
    run-Untouched (e ∷ es) w sound found =
        let w' = step sha256 e w in
        let (kept, quiet) = step-Untouched e w sound found in
        let (kept', quiet') = run-Untouched es w' (step-IsSound sha256 e w sound) kept in
        (kept', quiet' ∙ quiet)

-- Once a confirmation is denied, cancelled, consumed or failed in a reachable state, no later calls
-- and completions change its ticket, and none of them starts its action.
pub closed_stays_closed :
    {E : Type 0} (sha256 : String → String) (config : PolicyConfig) (before after : List (Event E))
    (id : String) (t : ConfirmationTicket)
    → get id (run sha256 before (start config)).policy.tickets ≡ some t
    → is_closed t.status ≡ true
    → (get id (run sha256 after (run sha256 before (start config))).policy.tickets ≡ some t)
      × (runs_of id (run sha256 after (run sha256 before (start config))).invoked
          ≡ runs_of id (run sha256 before (start config)).invoked)
closed_stays_closed sha256 config before after id t found closed =
    run-Untouched sha256 id t closed after (run sha256 before (start config))
      (run-IsSound sha256 before (start config) (start-IsSound sha256 config)) found
