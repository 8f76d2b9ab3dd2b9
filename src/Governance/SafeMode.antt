-- ===== src/Governance/SafeMode.antt =====
-- domain/governance/service.ts: `enterSafeMode`, `exitSafeMode` and `completeInterruptedActivation`.
use dsh_assistant.Prelude.{
  if◌then◌else◌, text_equality, number_equality, ℕ, String, Bool, true, false, not, Option, none,
  some, List, [], ◌∷◌,
}
use dsh_assistant.Prelude.Result.{Result, ok, raise}
use dsh_assistant.Registry.Types.{RegistryRecord, LifecycleStatus, active}
use dsh_assistant.Registry.Service.{transition_status}
use dsh_assistant.Registry.Queries.{list_records}
use dsh_assistant.Governance.Types.{
  failed, ActivationPhase, prepare, ActivationState, recovery, ActivationSnapshot, GovernanceError,
  contract_error, is_starting, activation_failed, idle, safe_mode, active,
}
use dsh_assistant.Governance.State.{
  read, Governance, Outside, M, ◌>>=◌, ◌>>◌, return, ensure, ask_registry, change_registry,
  active_query, isolated_runtime_owner, capture_snapshot, is_recovery_required,
  assert_mutation_idle, assert_credential,
}
use dsh_assistant.Governance.Running.{Progress, Answer, rejects, entering_safe_mode, waits}
use dsh_assistant.Governance.Activation.{update}

unfoldable pub disable_isolated : List RegistryRecord → M (Unit {0})
disable_isolated [] = return tt
disable_isolated (r ∷ rs) = do
  (if isolated_runtime_owner r
      then change_registry (transition_status r.owner r.version LifecycleStatus.disabled)
      else return tt)
  disable_isolated rs

-- `finally { this.mutation = 'idle' }` around a part that may throw
abbrev pub released {ℓ} :
    {A : Type ℓ} → Result GovernanceError A × Governance → Result GovernanceError A × Governance
released (ok a, s) = (ok a, s)
released (raise e, s) = (raise e, record s { mutation = none })

unfoldable pub withhold_isolated : Outside → M Progress
unfolding disable_isolated
withhold_isolated o = do
  found ← ask_registry (list_records o.collate active_query)
  disable_isolated found
  update (λ s. record s { safe_mode = true; state = safe_mode })
  snapshot ← capture_snapshot o
  update (λ s. record s { current = some snapshot })
  waits entering_safe_mode

unfoldable pub begin_safe_mode : Outside → Bool → M Progress
unfolding withhold_isolated
begin_safe_mode o trusted = do
  assert_credential trusted
  assert_mutation_idle recovery
  update (λ s. record s { mutation = some recovery })
  λ s. released (withhold_isolated o s)

-- after `runtime.unloadGenerated()`
abbrev pub resume_safe_mode : Answer → M Progress
resume_safe_mode (rejects message) s = (raise (failed message), record s { mutation = none })
resume_safe_mode _ s = (ok none, record s { mutation = none })

abbrev pub resting_state : Option ActivationSnapshot → ActivationState
resting_state none = idle
resting_state (some snapshot) = active

unfoldable pub exit_safe_mode : Outside → Bool → M (Unit {0})
exit_safe_mode o trusted = do
  assert_credential trusted
  assert_mutation_idle recovery
  s ← read
  ensure (not (is_recovery_required s))
      (contract_error "cannot exit Safe Mode while recovery is still required")
  update (λ s. record s { safe_mode = false; state = resting_state s.last_known_good })
  snapshot ← capture_snapshot o
  update (λ s. record s { current = some snapshot; mutation = none })

abbrev or_unknown : Option String → String
or_unknown none = "unknown"
or_unknown (some id) = id

abbrev or_prepare : Option ActivationPhase → ActivationPhase
or_prepare none = prepare
or_prepare (some phase) = phase

abbrev generation_of : Option ActivationSnapshot → Option ℕ
generation_of none = none
generation_of (some snapshot) = some snapshot.generation

-- on the start of the program, after a crash within an activation
unfoldable pub complete_interrupted_activation : M (Unit {0})
complete_interrupted_activation s =
    if is_starting s.state
    then (
      ok tt,
      record s {
        last_failure = some (record {
          candidate_id = or_unknown s.pending_candidate_id;
          version = "";
          digest = "";
          phase = or_prepare s.phase;
          diagnostics =
              "activation interrupted before durable commit; prior LKG remains authoritative";
          rollback_attempted = false;
          rollback_succeeded = true;
          restored_lkg_generation = generation_of s.last_known_good;
          safe_mode_required = false;
        });
        state = activation_failed;
        pending_candidate_id = none;
        phase = none;
        mutation = none;
      },
    )
    else (ok tt, s)
