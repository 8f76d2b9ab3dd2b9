-- ===== src/Governance/Eligibility.antt =====
-- domain/governance/service.ts: why a candidate may not be approved or activated.
use dsh_assistant.Prelude.{
  if◌then◌else◌, any, first, text_equality, number_equality, ◌==◌, ◌&◌, String, Bool, true, false,
  not, ◌&&◌, ◌||◌, Option, none, some, List, [], ◌∷◌, ◌++◌, map,
}
use dsh_assistant.Prelude.Dict.{get}
use dsh_assistant.Prelude.Result.{Result, ok, raise}
use dsh_assistant.Registry.Types.{RegistryRecord, LifecycleStatus}
use dsh_assistant.Registry.Queries.{list_records}
use dsh_assistant.Registry.Conflicts.{conflicts}
use dsh_assistant.Memory.Query.{join}
use dsh_assistant.Candidate.Types.{ValidationReport, CandidateRecord, is_validated, lifecycle_text}
use dsh_assistant.Governance.Types.{
  unreviewed, rejected, ApprovalDecision, approval_requested, approved_for_exact_diff, superseded,
  ApprovalRecord, EligibilityDenial, EligibilityResult, GovernanceError,
}
use dsh_assistant.Governance.Trust.{requires_isolated_generated_runtime}
use dsh_assistant.Governance.Compatibility.{
  OwnerExecutionFacts, ActivationCompatibilityInput, evaluate_activation_compatibility,
}
use dsh_assistant.Governance.State.{
  read, Governance, ReviewState, not_reviewed, reviewing, changes_required, review_complete, stale,
  ReviewReport, Outside, M, ◌>>=◌, return, ask_registry, everything, active_query, kind_text,
  origin_text, isolated_runtime_owner, is_recovery_required,
}
use dsh_assistant.Governance.Fingerprint.{facts}

-- `if (condition) denials.push({ reason, detail })`
abbrev pub deny_if : Bool → String → String → List EligibilityDenial
deny_if true reason detail = record { reason = reason; detail = detail } ∷ []
deny_if false reason detail = []

abbrev pub has_text : String → Option String → Bool
has_text s none = false
has_text s (some t) = s == t

abbrev pub validation_passed : Option ValidationReport → Bool
validation_passed none = false
validation_passed (some report) = report.passed

abbrev pub validation_digest : Option ValidationReport → Option String
validation_digest none = none
validation_digest (some report) = report.digest

-- what the validation says of the digest, and the digest of the files as they are now
unfoldable pub digest_denials : Outside → CandidateRecord → Option String → List EligibilityDenial
digest_denials o c none =
    deny_if true "digest-mismatch" "validation digest does not match the sealed artifact"
digest_denials o c (some digest) =
    if not (has_text digest (validation_digest c.validation))
    then deny_if true "digest-mismatch" "validation digest does not match the sealed artifact"
    else deny_if (o.root_exists c.workspace_root && not (o.live_digest c == digest))
        "digest-mismatch" "sealed artifact no longer matches the approved digest"

-- the owner's active record, which is the first of those listed
unfoldable pub active_of : Outside → String → M (Option RegistryRecord)
active_of o owner = do
  found ← ask_registry (list_records o.collate (record active_query { owner = some owner }))
  return (first found)

abbrev pub is_disabled : LifecycleStatus → Bool
is_disabled LifecycleStatus.disabled = true
is_disabled _ = false

abbrev pub withheld : String → RegistryRecord → Bool
withheld base item = item.version == base && is_disabled item.status && isolated_runtime_owner item

unfoldable pub base_denials : Outside → CandidateRecord → Option String → M (List EligibilityDenial)
unfolding active_of
base_denials o c none = return []
base_denials o c (some base) = do
  active ← active_of o c.owner
  s ← read
  listed ← ask_registry (list_records o.collate (record everything { owner = some c.owner }))
  return (elim active [
    | none ↦
        deny_if (not (s.safe_mode && any (withheld base) listed)) "base-changed"
          ("no active owner for " & c.owner & "; proposal assumed " & base)
    | some r ↦
        deny_if (not (r.version == base)) "base-changed"
          ("active base is " & r.version & ", proposal assumed " & base)
  ])

abbrev pub review_policy_version : String
review_policy_version = "m4.1"

abbrev pub report_denials : Option String → Option ReviewReport → List EligibilityDenial
report_denials digest none =
    deny_if true "review-stale"
      "Independent Review does not bind the current digest and pinned policy"
report_denials digest (some last) =
    if not (has_text last.digest digest) || not (last.policy_version == review_policy_version)
    then deny_if true "review-stale"
        "Independent Review does not bind the current digest and pinned policy"
    else deny_if last.open_blocker "review-changes-required"
        "inherited or open blocking findings remain"

abbrev pub state_denials :
    ReviewState → Option String → Option ReviewReport → List EligibilityDenial
state_denials not_reviewed digest last =
    deny_if true "review-required" "Independent Review is required before approval can be requested"
state_denials stale digest last =
    deny_if true "review-stale" "Independent Review does not bind the current sealed digest"
state_denials changes_required digest last =
    deny_if true "review-changes-required" "blocking Independent Review findings remain open"
state_denials reviewing digest last =
    deny_if true "review-changes-required" "blocking Independent Review findings remain open"
state_denials review_complete digest last = report_denials digest last

unfoldable pub review_denials :
    CandidateRecord
    → Option ((CandidateRecord → ReviewState) × (String → Option ReviewReport))
    → List EligibilityDenial
review_denials c none =
    deny_if true "review-required" "Independent Review is required before approval can be requested"
review_denials c (some review) = state_denials ((review.0) c) c.digest ((review.1) c.id)

abbrev pub facts_of : RegistryRecord → OwnerExecutionFacts
facts_of r = record {
  owner = r.owner;
  provenance_kind = some (kind_text r.provenance.kind);
  origin = some (origin_text r.provenance.origin);
  services = some r.services;
  providers = some r.providers;
}

abbrev pub facts_maybe : Option RegistryRecord → Option OwnerExecutionFacts
facts_maybe none = none
facts_maybe (some r) = some (facts_of r)

abbrev pub compatibility_input :
    CandidateRecord → Option RegistryRecord → ActivationCompatibilityInput
compatibility_input c active = record {
  candidate = record {
    owner = c.owner;
    provenance_kind = some (kind_text c.provenance.kind);
    origin = some (origin_text c.provenance.origin);
    services = some c.manifest.services;
    providers = some c.manifest.providers;
  };
  resolution_capability = some c.manifest.resolution_capability;
  capabilities = some c.manifest.capabilities;
  active_owner = facts_maybe active;
}

unfoldable pub compatibility_denials : Outside → CandidateRecord → M (List EligibilityDenial)
unfolding active_of
compatibility_denials o c = do
  active ← active_of o c.owner
  return (
      map (λ d. record { reason = d.reason; detail = d.detail })
        (evaluate_activation_compatibility (compatibility_input c active)).denials)

unfoldable pub candidate_denials : Outside → CandidateRecord → M (List EligibilityDenial)
unfolding digest_denials base_denials review_denials compatibility_denials
candidate_denials o c = do
  base ← base_denials o c c.base_version
  compatible ← compatibility_denials o c
  return (
      deny_if (not c.sealed) "not-sealed"
        "candidate must be sealed before approval can be requested"
      ++ deny_if (not (is_validated c.lifecycle) || not (validation_passed c.validation))
          "not-validated" ("lifecycle is " & lifecycle_text c.lifecycle)
      ++ digest_denials o c c.digest
      ++ base
      ++ review_denials c o.review
      ++ compatible)

abbrev pub unknown_candidate : String → List EligibilityDenial
unknown_candidate id = record { reason = "unknown-candidate"; detail = id } ∷ []

unfoldable pub approval_request_denials : Outside → String → M (List EligibilityDenial)
unfolding candidate_denials
approval_request_denials o id = elim (get id o.candidates) [
  | none ↦ return (unknown_candidate id)
  | some c ↦ candidate_denials o c
]

abbrev pub fingerprint_denials :
    ApprovalRecord → Result GovernanceError (CandidateRecord × String) → List EligibilityDenial
fingerprint_denials approval (raise e) =
    deny_if true "approval-stale" "cannot recompute fingerprint"
fingerprint_denials approval (ok found) =
    deny_if (not (approval.fingerprint == found.1)) "approval-stale"
      "approval fingerprint no longer matches the candidate"

abbrev pub decision_denials :
    ApprovalRecord
    → ApprovalDecision
    → Result GovernanceError (CandidateRecord × String)
    → List EligibilityDenial
decision_denials approval unreviewed found =
    deny_if true "approval-required" "trusted approval for the exact digest/diff is required"
decision_denials approval approval_requested found =
    deny_if true "approval-required" "trusted approval for the exact digest/diff is required"
decision_denials approval rejected found = deny_if true "approval-rejected" approval.id
decision_denials approval superseded found =
    deny_if true "approval-stale" "prior approval was superseded"
decision_denials approval approved_for_exact_diff found = fingerprint_denials approval found

abbrev pub approval_denials :
    Option ApprovalRecord
    → Result GovernanceError (CandidateRecord × String)
    → List EligibilityDenial
approval_denials none found =
    deny_if true "approval-required" "trusted approval for the exact digest/diff is required"
approval_denials (some approval) found = decision_denials approval approval.decision found

abbrev pub conflict_denials : List String → List EligibilityDenial
conflict_denials [] = []
conflict_denials (c ∷ cs) = deny_if true "ownership-conflict" (join ", " (c ∷ cs))

unfoldable pub state_of_affairs : Outside → CandidateRecord → Governance → List EligibilityDenial
state_of_affairs o c s =
    conflict_denials (map (λ item. item.capability) (conflicts o.collate s.registry))
    ++ deny_if (is_recovery_required s) "recovery-required"
        "reactivation is blocked while recovery is required"
    ++ deny_if
        (s.safe_mode
          && requires_isolated_generated_runtime c.owner (some (kind_text c.provenance.kind))
              (some (origin_text c.provenance.origin)))
        "safe-mode" "generated extensions are excluded in Safe Mode"

-- `denials` of service.ts
unfoldable pub activation_denials : Outside → String → M (List EligibilityDenial)
unfolding candidate_denials state_of_affairs
activation_denials o id = elim (get id o.candidates) [
  | none ↦ return (unknown_candidate id)
  | some c ↦ do
    request ← candidate_denials o c
    s ← read
    return (request ++ approval_denials (get id s.approvals) (facts o id) ++ state_of_affairs o c s)
]

abbrev pub is_ok : List EligibilityDenial → Bool
is_ok [] = true
is_ok (d ∷ ds) = false

abbrev pub fingerprint_maybe : Result GovernanceError (CandidateRecord × String) → Option String
fingerprint_maybe (raise e) = none
fingerprint_maybe (ok found) = some found.1

abbrev pub eligibility_result : Outside → String → List EligibilityDenial → EligibilityResult
eligibility_result o id denials = record {
  ok = is_ok denials;
  candidate_id = id;
  fingerprint =
      if any (λ d. d.reason == "unknown-candidate") denials
      then none
      else fingerprint_maybe (facts o id);
  denials = denials;
}

unfoldable pub eligibility : Outside → String → M EligibilityResult
unfolding activation_denials
eligibility o id = do denials ← activation_denials o id; return (eligibility_result o id denials)

unfoldable pub request_eligibility : Outside → String → M EligibilityResult
unfolding approval_request_denials
request_eligibility o id = do
  denials ← approval_request_denials o id
  return (eligibility_result o id denials)
