-- ===== src/Governance/Activation.antt =====
-- domain/governance/service.ts: `activate`, cut at its awaits. The holds and failures that tests inject
-- are answers: `failActivation` at a phase has the effect of a refusal there.
pub mod Failed
pub mod InForce
mod Tests
use dsh_assistant.Prelude.{
  if◌then◌else◌, text_equality, number_equality, ◌&◌, String, Bool, true, false, not, Option, none,
  some, List, map,
}
use dsh_assistant.Prelude.Result.{Result, ok, raise}
use dsh_assistant.Registry.Types.{RegistryError, contract, ownership_conflict, active}
use dsh_assistant.Candidate.Types.{CandidateRecord}
use dsh_assistant.Memory.Query.{join}
use dsh_assistant.Governance.Types.{
  failed, ActivationPhase, verify_eligibility, prepare, health, commit, LifecycleMutation,
  activation, EligibilityDenial, SnapshotOwner, ActivationSnapshot, GovernanceError, contract_error,
  authority_error, crash, activation_denied, uninstall_denied, registry_error, is_starting,
  activating, activation_failed, activation_pending, active,
}
use dsh_assistant.Governance.State.{
  read, Governance, Outside, M, ◌>>=◌, ◌>>◌, return, throw, ensure, owners_from_registry,
  capture_snapshot, assert_mutation_idle, assert_credential, apply_registry_owners, commit_registry,
}
use dsh_assistant.Governance.Eligibility.{eligibility}
use dsh_assistant.Governance.Approvals.{with_facts}
use dsh_assistant.Governance.Running.{
  Progress, done, Answer, resolves, crashes, refuses, rejects, Activating, preparing, prepared,
  checking, committing, starting, waits,
}

-- `this.lastKnownGood ?? this.captureSnapshot()`
abbrev pub good_or_captured : Outside → Option ActivationSnapshot → M ActivationSnapshot
good_or_captured o none = capture_snapshot o
good_or_captured o (some snapshot) = return snapshot

abbrev pub update : (Governance → Governance) → M (Unit {0})
update f s = (ok tt, f s)

-- up to the first await
unfoldable pub begin_activation : Outside → String → Bool → M Progress
begin_activation o id trusted = do
  assert_credential trusted
  assert_mutation_idle activation
  gate ← eligibility o id
  ensure gate.ok (activation_denied gate.denials)
  found ← with_facts o id
  update (λ s. record s {
    mutation = some LifecycleMutation.activation;
    state = activation_pending;
    pending_candidate_id = some id;
    phase = some verify_eligibility;
  })
  s ← read
  previous ← good_or_captured o s.last_known_good
  update (λ s. record s { rollback_target = some previous })
  waits (starting (found.0) previous Activating.held)

-- the `finally` block
unfoldable pub release_activation : M (Unit {0})
release_activation s = (ok tt, if is_starting s.state then s else record s { mutation = none })

-- `error.message`
abbrev owner_text : String × String → String
owner_text owner = owner.0 & "@" & owner.1

abbrev pub registry_message : RegistryError → String
registry_message (contract message) = message
registry_message (ownership_conflict capability owners) =
    "conflicting active owners for " & capability & ": " & join ", " (map owner_text owners)

abbrev reasons : List EligibilityDenial → String
reasons denials = join ", " (map (λ d. d.reason) denials)

abbrev pub message_of : GovernanceError → String
message_of (contract_error message) = message
message_of (authority_error message) = message
message_of (failed message) = message
message_of (crash message) = message
message_of (activation_denied denials) = "activation denied: " & reasons denials
message_of (uninstall_denied denials) = "uninstall denied: " & reasons denials
message_of (registry_error e) = registry_message e

-- the `catch` block, up to its await
unfoldable pub fail_activation :
    Outside → CandidateRecord → ActivationSnapshot → ActivationPhase → String → M Progress
fail_activation o c previous phase diagnostics = do
  owners ← owners_from_registry o
  waits (starting c previous (Activating.restoring phase diagnostics owners))

unfoldable pub crash_activation : String → M Progress
crash_activation point = do release_activation; throw (crash ("simulated crash after " & point))

abbrev pub or_message : String → Option String → String
or_message message none = message
or_message message (some diagnostics) = diagnostics

-- the registry, at the start of the phase `commit`; an error of the registry is caught
abbrev catch_commit :
    Outside
    → CandidateRecord
    → ActivationSnapshot
    → Result GovernanceError (Unit {0}) × Governance
    → Result GovernanceError Progress × Governance
catch_commit o c previous (ok _, s) = waits (starting c previous Activating.registered) s
catch_commit o c previous (raise e, s) = fail_activation o c previous commit (message_of e) s

unfoldable pub commit_candidate : Outside → CandidateRecord → ActivationSnapshot → M Progress
unfolding commit_registry fail_activation
commit_candidate o c previous s = catch_commit o c previous (commit_registry o c s)

unfoldable pub finish_activation : Outside → CandidateRecord → ActivationSnapshot → M Progress
finish_activation o c previous = do
  snapshot ← capture_snapshot o
  update (λ s. record s {
    current = some snapshot;
    last_known_good = some snapshot;
    state = active;
    pending_candidate_id = none;
    phase = none;
    last_failure = none;
    integrity_verified = true;
  })
  waits (starting c previous Activating.committed)

abbrev digest_text : Option String → String
digest_text none = ""
digest_text (some digest) = digest

-- the rest of the `catch` block, and the `finally` block
unfoldable pub end_failed :
    Outside → CandidateRecord → ActivationSnapshot → ActivationPhase → String → Bool → M Progress
end_failed o c previous phase diagnostics restored = do
  snapshot ← capture_snapshot o
  update (λ s. record s {
    current = some snapshot;
    last_known_good = some previous;
    state = activation_failed;
    last_failure = some (record {
      candidate_id = c.id;
      version = c.version;
      digest = digest_text c.digest;
      phase = phase;
      diagnostics = diagnostics;
      rollback_attempted = true;
      rollback_succeeded = restored;
      restored_lkg_generation = some previous.generation;
      safe_mode_required = not restored;
    });
    safe_mode = if restored then s.safe_mode else true;
  })
  release_activation
  done

-- `restoreSnapshot` after its await: whether the snapshot's owners are active again
abbrev pub restored_or_not :
    Outside
    → List SnapshotOwner
    → Result GovernanceError (Unit {0}) × Governance
    → Result GovernanceError Bool × Governance
restored_or_not o prior (ok _, s) = (ok true, s)
restored_or_not o prior (raise e, s) = (ok false, (apply_registry_owners o prior s).1)

unfoldable pub restore_owners : Outside → ActivationSnapshot → List SnapshotOwner → Answer → M Bool
unfolding apply_registry_owners
restore_owners o snapshot prior resolves s =
    restored_or_not o prior (apply_registry_owners o snapshot.owners s)
restore_owners o snapshot prior other s = (ok false, (apply_registry_owners o prior s).1)

unfoldable pub resume_activation :
    Outside → CandidateRecord → ActivationSnapshot → Activating → Answer → M Progress
resume_activation o c previous Activating.held resolves = do
  update (λ s. record s { state = activating })
  waits (starting c previous preparing)
resume_activation o c previous Activating.held (rejects message) = throw (failed message)
resume_activation o c previous Activating.held _ =
    throw (crash "simulated crash after activation-pending")
resume_activation o c previous preparing resolves = waits (starting c previous prepared)
resume_activation o c previous preparing (refuses diagnostics) =
    fail_activation o c previous prepare (or_message "prepare failed" diagnostics)
resume_activation o c previous preparing (rejects message) =
    fail_activation o c previous prepare message
resume_activation o c previous preparing crashes = fail_activation o c previous prepare ""
resume_activation o c previous prepared crashes = crash_activation "prepare"
resume_activation o c previous prepared _ = waits (starting c previous checking)
resume_activation o c previous checking resolves = commit_candidate o c previous
resume_activation o c previous checking (refuses diagnostics) =
    fail_activation o c previous health (or_message "health failed" diagnostics)
resume_activation o c previous checking (rejects message) =
    fail_activation o c previous health message
resume_activation o c previous checking crashes = fail_activation o c previous health ""
resume_activation o c previous Activating.registered crashes = crash_activation "registry-commit"
resume_activation o c previous Activating.registered _ = waits (starting c previous committing)
resume_activation o c previous committing resolves = finish_activation o c previous
resume_activation o c previous committing (rejects message) =
    fail_activation o c previous commit message
resume_activation o c previous committing _ = fail_activation o c previous commit ""
resume_activation o c previous Activating.committed crashes = crash_activation "commit"
resume_activation o c previous Activating.committed _ = do release_activation; done
resume_activation o c previous (Activating.restoring phase diagnostics prior) answer = do
  restored ← restore_owners o previous prior answer
  end_failed o c previous phase diagnostics restored
