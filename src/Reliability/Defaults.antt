-- ===== src/Reliability/Defaults.antt =====
-- domain/reliability/defaults.ts, and the lists of gate.ts
use dsh_assistant.Prelude.{
  if◌then◌else◌, any, select, text_equality, number_equality, ◌==◌, ℕ, Bool, true, false, not, none,
  some, List, [], ◌∷◌, ◌++◌,
}
use dsh_assistant.Reliability.Types.{
  applied, r0, r2, FailureMode, not_applied, not_applicable, AdversarialScenario,
  ReliabilityCheckName, never_on_unknown, TrustBoundaries, RiskModel, happy_path,
  timeout_before_side_effect, credential_failure, fail_before_side_effect, input_invalid,
  timeout_after_side_effect, duplicate_request, fail_after_side_effect, local_persistence_failure,
  rate_limited, restart_boundary, caller_cancelled, duplicate_delivery, none_claimed,
  rollback_interaction, caller_cancellation, reconciliation_failed, auth_failure,
  reconciliation_unavailable, rate_limit, stale_proposal, permission_denied, provider_4xx,
  provider_5xx, partial_success, stale_state, concurrent_change, network_partition,
  credential_expired, schema_drift, provider_contract_drift, restart_during_operation,
  rollback_failure, risk_model_present, risk_class_consistent, control_plane_not_escalated,
  side_effects_classified, trust_boundaries_declared, failure_modes_covered,
  real_contract_evidence_present, retry_policy_valid, idempotency_reconciliation_valid,
  adversarial_tests_covered, secret_safety_valid, rollback_semantics_valid,
}

-- `===` on the texts of an enumeration, by their places in it
abbrev pub scenario_place : AdversarialScenario → ℕ
scenario_place happy_path = 0
scenario_place fail_before_side_effect = 1
scenario_place fail_after_side_effect = 2
scenario_place duplicate_delivery = 3
scenario_place caller_cancellation = 4
scenario_place reconciliation_unavailable = 5
scenario_place credential_failure = 6
scenario_place rate_limited = 7
scenario_place stale_proposal = 8
scenario_place restart_boundary = 9
scenario_place rollback_interaction = 10

abbrev pub same_scenario : AdversarialScenario → AdversarialScenario → Bool
same_scenario a b = scenario_place a == scenario_place b

abbrev pub mode_place : FailureMode → ℕ
mode_place input_invalid = 0
mode_place permission_denied = 1
mode_place auth_failure = 2
mode_place provider_4xx = 3
mode_place rate_limit = 4
mode_place provider_5xx = 5
mode_place timeout_before_side_effect = 6
mode_place timeout_after_side_effect = 7
mode_place caller_cancelled = 8
mode_place partial_success = 9
mode_place duplicate_request = 10
mode_place stale_state = 11
mode_place concurrent_change = 12
mode_place network_partition = 13
mode_place reconciliation_failed = 14
mode_place credential_expired = 15
mode_place schema_drift = 16
mode_place provider_contract_drift = 17
mode_place local_persistence_failure = 18
mode_place restart_during_operation = 19
mode_place rollback_failure = 20

abbrev pub name_place : ReliabilityCheckName → ℕ
name_place risk_model_present = 0
name_place risk_class_consistent = 1
name_place control_plane_not_escalated = 2
name_place side_effects_classified = 3
name_place trust_boundaries_declared = 4
name_place failure_modes_covered = 5
name_place real_contract_evidence_present = 6
name_place retry_policy_valid = 7
name_place idempotency_reconciliation_valid = 8
name_place adversarial_tests_covered = 9
name_place secret_safety_valid = 10
name_place rollback_semantics_valid = 11

abbrev pub r3_failures : List FailureMode
r3_failures =
    timeout_before_side_effect ∷ timeout_after_side_effect ∷ duplicate_request ∷ caller_cancelled
    ∷ reconciliation_failed ∷ auth_failure ∷ rate_limit ∷ []

abbrev pub adversarial_scenarios : List AdversarialScenario
adversarial_scenarios =
    happy_path ∷ fail_before_side_effect ∷ fail_after_side_effect ∷ duplicate_delivery
    ∷ caller_cancellation ∷ reconciliation_unavailable ∷ credential_failure ∷ rate_limited
    ∷ stale_proposal ∷ restart_boundary ∷ rollback_interaction ∷ []

abbrev pub r2_scenarios : List AdversarialScenario
r2_scenarios = happy_path ∷ fail_before_side_effect ∷ restart_boundary ∷ rollback_interaction ∷ []

abbrev pub r1_scenarios : List AdversarialScenario
r1_scenarios = happy_path ∷ credential_failure ∷ rate_limited ∷ []

abbrev pub host_control_boundaries : TrustBoundaries
host_control_boundaries = record {
  credential_owner = "host";
  candidate_network_authority = "none";
  approval_authority = "recovery-root";
  activation_authority = "recovery-root";
  recovery_authority = "recovery-root";
}

abbrev pub is_covered : List AdversarialScenario → AdversarialScenario → Bool
is_covered covered item = any (same_scenario item) covered

abbrev pub omitted : List AdversarialScenario → List AdversarialScenario
omitted covered =
    select (λ item. not (is_covered covered item))
      (select (λ item. not (same_scenario item happy_path)) adversarial_scenarios)

unfoldable pub synthesize_local : Bool → RiskModel
synthesize_local mutating =
    let covered : List AdversarialScenario = if mutating then r2_scenarios else happy_path ∷ [] in
    record {
      declared_class = some (if mutating then r2 else r0);
      trust_boundaries = host_control_boundaries;
      side_effects = if mutating then (not_applied ∷ applied ∷ []) ∷ [] else [];
      failure_modes =
          if mutating then input_invalid ∷ local_persistence_failure ∷ [] else input_invalid ∷ [];
      uncertain_outcomes = [];
      write_retries = never_on_unknown;
      idempotency = record {
        strategy = none_claimed;
        contract_kind = not_applicable;
        evidence =
            if mutating
            then "Local mutation; no remote provider contract."
            else "R0 has no external mutation.";
      };
      reconciliation = record {
        strategy = "not-applicable";
        independent_context = true;
        cancelled_context_reuse = false;
      };
      rollback = record { compensates_external = false; compensation = none };
      validation_scenarios = covered;
      omitted_scenarios = omitted covered;
      unresolved_risks = [];
    }

-- the required scenarios that are neither covered nor omitted
abbrev pub covered_or_omitted : RiskModel → List AdversarialScenario → List AdversarialScenario
covered_or_omitted model required =
    select (λ item. not (is_covered (model.validation_scenarios ++ model.omitted_scenarios) item))
      required
