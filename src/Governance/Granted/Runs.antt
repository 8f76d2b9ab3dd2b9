-- ===== src/Governance/Granted/Runs.antt =====
-- domain/governance/service.ts: an approval in force goes back to a call of `recordApproval`.
use dsh_assistant.Registry.Queries.{list_records}
use dsh_assistant.Prelude.{
  any, text_equality, number_equality, ℕ, String, ◌≡◌, refl, sym, Bool, true, Option, none, some,
  List, [], ◌∷◌, arith, ap, inl, inr,
}
use dsh_assistant.Prelude.Dict.{get}
use dsh_assistant.Registry.Service.{Registry}
use dsh_assistant.Governance.Types.{approved_for_exact_diff, ApprovalRecord}
use dsh_assistant.Governance.State.{◌>>=◌, Governance, Outside, M, ◌>>=◌, capture_snapshot}
use dsh_assistant.Governance.Keeps.{Keeps, approvals_of}
use dsh_assistant.Governance.Keeps.Methods.{begin_activation-Keeps, resume_activation-Keeps}
use dsh_assistant.Governance.Keeps.Others.{
  begin_safe_mode-Keeps, resume_safe_mode-Keeps, exit_safe_mode-Keeps, begin_disable-Keeps,
  begin_uninstall-Keeps, resume_disable-Keeps, resume_uninstall-Keeps,
}
use dsh_assistant.Governance.Preserves.{Preserves}
use dsh_assistant.Governance.Granted.{
  grants, Recorded, request_approval-Recorded, record_approval-Recorded, abandon-Recorded,
}
use dsh_assistant.Governance.Running.{
  Answer, Running, starting, disabling, uninstalling, entering_safe_mode,
}
use dsh_assistant.Governance.Schedule.{
  Call, run, World, step, request, record_decision, activate, abandon, enter_safe_mode,
  leave_safe_mode, disable_plugin, uninstall_plugin, answered, resume, running_at, resumed,
  new_governance, new_world, initial_state,
}
use mathlib.Core.Path.{subst}
use dsh_assistant.Governance.Frame.{Frames}
use dsh_assistant.Governance.Frame.Helpers.{capture_snapshot-Frames}
use dsh_assistant.Prelude.Result.{Result-cases}

resume-Keeps :
    (o : Outside) (r : Running) (answer : Answer) → Keeps approvals_of (resume o r answer)
unfolding resume
resume-Keeps o (starting c previous stage) answer =
    resume_activation-Keeps o c previous stage answer
resume-Keeps o (disabling p stage) answer = resume_disable-Keeps o p stage answer
resume-Keeps o (uninstalling p stage) answer = resume_uninstall-Keeps o p stage answer
resume-Keeps o entering_safe_mode answer = resume_safe_mode-Keeps answer

module _ (given : String → String → Bool) where
  kept :
      {A : Type 0} (m : M A) (s : Governance)
      → Keeps approvals_of m
      → Recorded given s.approvals
      → Recorded given (m s).1.approvals
  unfolding Keeps
  kept m s h = subst (Recorded given) (sym (h s))

  resumed-Recorded :
      (i : ℕ) (o : Outside) (answer : Answer) (r : Option Running) (w : World)
      → Recorded given w.governance.approvals
      → Recorded given (resumed i o answer r w).governance.approvals
  resumed-Recorded i o answer none w h = h
  resumed-Recorded i o answer (some r) w h = kept _ w.governance (resume-Keeps o r answer) h

  step-Recorded :
      (call : Call) (w : World)
      → ((id fingerprint : String)
          → grants call id fingerprint ≡ true
          → given id fingerprint ≡ true)
      → Recorded given w.governance.approvals
      → Recorded given (step call w).governance.approvals
  unfolding step Preserves
  step-Recorded (request o id) w g h = request_approval-Recorded given o id w.governance h
  step-Recorded (record_decision o trusted authority input) w g h =
      record_approval-Recorded given o trusted authority input g w.governance h
  step-Recorded (activate o id trusted) w g h =
      kept _ w.governance (begin_activation-Keeps o id trusted) h
  step-Recorded (abandon id fingerprint trusted) w g h =
      abandon-Recorded given id fingerprint trusted w.governance h
  step-Recorded (enter_safe_mode o trusted) w g h =
      kept _ w.governance (begin_safe_mode-Keeps o trusted) h
  step-Recorded (leave_safe_mode o trusted) w g h =
      kept _ w.governance (exit_safe_mode-Keeps o trusted) h
  step-Recorded (disable_plugin o trusted owner version) w g h =
      kept _ w.governance (begin_disable-Keeps o trusted owner version) h
  step-Recorded (uninstall_plugin o trusted owner version acknowledged) w g h =
      kept _ w.governance (begin_uninstall-Keeps o trusted owner version acknowledged) h
  step-Recorded (answered i o answer) w g h =
      resumed-Recorded i o answer (running_at i w.running) w h

  run-Recorded :
      (calls : List Call) (w : World)
      → ((id fingerprint : String)
          → any (λ call. grants call id fingerprint) calls ≡ true
          → given id fingerprint ≡ true)
      → Recorded given w.governance.approvals
      → Recorded given (run calls w).governance.approvals
  unfolding run
  run-Recorded [] w g h = h
  run-Recorded (call ∷ calls) w g h =
      run-Recorded calls (step call w) (λ id fingerprint e. g id fingerprint (ground (arith, e)))
        (step-Recorded call w (λ id fingerprint e. g id fingerprint (ground (arith, e))) h)

nothing_approved :
    (built : Outside) (registry : Registry) → (new_governance built registry).approvals ≡ []
unfolding new_governance ◌>>=◌ Frames list_records
nothing_approved built registry =
    let blank : Governance = initial_state registry in
    let kept : (capture_snapshot built blank).1.approvals ≡ [] =
      ap (λ (t : Governance). t.approvals) (capture_snapshot-Frames built blank) in
    elim (Result-cases (capture_snapshot built blank).0) [
      | inl (e, p) ↦ rw p kept
      | inr (snapshot, p) ↦ rw p kept
    ]

new_world-Recorded :
    (given : String → String → Bool) (built : Outside) (registry : Registry)
    → Recorded given (new_world built registry).governance.approvals
unfolding new_world get
new_world-Recorded given built registry =
    subst (Recorded given) (sym (nothing_approved built registry)) (λ id a found approved. cc)

-- After any calls to a new service, whose methods may wait and be answered in any order, an approval
-- in force is of a fingerprint that one of the calls of `recordApproval`, made with a credential of
-- the recovery root, approved for that candidate. No other call and no answer approves anything.
pub in_force_was_granted :
    (built : Outside) (registry : Registry) (calls : List Call) (id : String) (a : ApprovalRecord)
    → get id (run calls (new_world built registry)).governance.approvals ≡ some a
    → a.decision ≡ approved_for_exact_diff
    → any (λ call. grants call id a.fingerprint) calls ≡ true
in_force_was_granted built registry calls id a found approved =
    run-Recorded (λ i f. any (λ call. grants call i f) calls) calls (new_world built registry)
      (λ i f e. e) (new_world-Recorded _ built registry) id a found (rw approved refl)
