-- ===== src/Governance/Approvals.antt =====
-- domain/governance/service.ts: `requestApproval`, `recordApproval` and `abandonFailedActivation`.
use dsh_assistant.Prelude.{
  if◌then◌else◌, text_equality, number_equality, ◌==◌, ◌&◌, suc, String, Bool, false, not, ◌&&◌,
  ◌||◌, Option, none, some, List, [], ◌∷◌,
}
use dsh_assistant.Prelude.Dict.{Dict, get, put}
use dsh_assistant.Prelude.Decimal.{show}
use dsh_assistant.Prelude.Result.{ok, raise}
use dsh_assistant.Candidate.Types.{CandidateRecord}
use dsh_assistant.Governance.Types.{
  rejected, is_approved, ApprovalDecision, approval_requested, approved_for_exact_diff, superseded,
  recovery, ApprovalAuthority, ApprovalRecord, EligibilityDenial, ActivationFailure,
  TrustedDecision, approve_exact_diff, reject, TrustedApprovalInput, GovernanceError,
  contract_error, is_failed, rolled_back,
}
use dsh_assistant.Governance.State.{
  read, Outside, M, ◌>>=◌, ◌>>◌, return, throw, ensure, is_recovery_required, assert_mutation_idle,
  assert_credential,
}
use dsh_assistant.Governance.Fingerprint.{facts}
use dsh_assistant.Governance.Eligibility.{request_eligibility}

abbrev pub with_facts : Outside → String → M (CandidateRecord × String)
with_facts o id s = (facts o id, s)

abbrev first_denial : String → List EligibilityDenial → GovernanceError
first_denial id [] = contract_error ("review-required: " & id)
first_denial id (d ∷ ds) = contract_error (d.reason & ": " & d.detail)

-- the approval of another fingerprint than the one at hand is superseded
abbrev pub supersede :
    String
    → String
    → Option ApprovalRecord
    → Dict String ApprovalRecord
    → Dict String ApprovalRecord
supersede id fingerprint none approvals = approvals
supersede id fingerprint (some existing) approvals =
    if is_approved existing.decision && not (existing.fingerprint == fingerprint)
    then put id (record existing { decision = superseded }) approvals
    else approvals

abbrev pub create_approval :
    String → String → ApprovalDecision → Option ApprovalAuthority → M ApprovalRecord
create_approval id fingerprint decision authority s =
    let created : ApprovalRecord = record {
      id = "apr-" & show s.next_approval;
      candidate_id = id;
      fingerprint = fingerprint;
      decision = decision;
      authority = authority;
    } in
    (
      ok created,
      record s {
        next_approval = suc s.next_approval;
        approvals = put id created (supersede id fingerprint (get id s.approvals) s.approvals);
      },
    )

abbrev pub kept_or_created : String → String → Option ApprovalRecord → M ApprovalRecord
kept_or_created id fingerprint none = create_approval id fingerprint approval_requested none
kept_or_created id fingerprint (some existing) =
    if is_approved existing.decision && existing.fingerprint == fingerprint
    then return existing
    else create_approval id fingerprint approval_requested none

unfoldable pub request_approval : Outside → String → M ApprovalRecord
request_approval o id = do
  gate ← request_eligibility o id
  ensure gate.ok (first_denial id gate.denials)
  found ← with_facts o id
  s ← read
  kept_or_created id (found.1) (get id s.approvals)

abbrev pub decision_of : TrustedDecision → ApprovalDecision
decision_of approve_exact_diff = approved_for_exact_diff
decision_of reject = rejected

unfoldable pub record_approval :
    Outside → Bool → ApprovalAuthority → TrustedApprovalInput → M ApprovalRecord
record_approval o trusted authority input = do
  assert_credential trusted
  found ← with_facts o input.candidate_id
  ensure (input.fingerprint == found.1)
      (contract_error "approval fingerprint does not match the current sealed candidate")
  create_approval input.candidate_id (found.1) (decision_of input.decision) (some authority)

abbrev pub same_id : String → Option String → Bool
same_id id none = false
same_id id (some other) = other == id

abbrev failed_candidate : Option ActivationFailure → Option String
failed_candidate none = none
failed_candidate (some failure) = some failure.candidate_id

abbrev pub supersede_exact : String → String → Option ApprovalRecord → M (Unit {0})
supersede_exact id fingerprint none s = throw (contract_error "activation approval is stale") s
supersede_exact id fingerprint (some approval) s =
    if is_approved approval.decision && approval.fingerprint == fingerprint
    then (
      ok tt,
      record s {
        approvals = put id (record approval { decision = superseded }) s.approvals;
        state = rolled_back;
        pending_candidate_id = none;
        phase = none;
      },
    )
    else (raise (contract_error "activation approval is stale"), s)

unfoldable pub abandon_failed_activation : String → String → Bool → M (Unit {0})
abandon_failed_activation id fingerprint trusted = do
  assert_credential trusted
  assert_mutation_idle recovery
  s ← read
  ensure
      (is_failed s.state
        && same_id id s.pending_candidate_id
        && same_id id (failed_candidate s.last_failure))
      (contract_error "no matching failed activation to abandon")
  ensure (not (s.safe_mode || is_recovery_required s))
      (contract_error "failed activation still requires recovery")
  supersede_exact id fingerprint (get id s.approvals)
