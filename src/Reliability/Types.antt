-- ===== src/Reliability/Types.antt =====
-- domain/reliability/types.ts, and the fields of a manifest that the gate reads. Fields of the risk model
-- that no check reads (the capability, the actions of side effects, external systems, boundaries by
-- name, persistence, observability, the network, file system, process and persistence owners, the
-- budget of retries, the unmount on rollback, the strategy of reads) are left out, as are the details
-- of the checks, which are texts for people.
use dsh_assistant.Prelude.{text_equality, number_equality, String, Bool, Option, List}
use dsh_assistant.Registry.Types.{ProvenanceKind}

pub data RiskClass : Type 0 where
  r0 r1 r2 r3 r4 : RiskClass

pub data FailureMode : Type 0 where
  input_invalid permission_denied auth_failure provider_4xx rate_limit provider_5xx
        timeout_before_side_effect timeout_after_side_effect caller_cancelled partial_success
        duplicate_request stale_state concurrent_change network_partition reconciliation_failed
        credential_expired schema_drift provider_contract_drift local_persistence_failure
        restart_during_operation rollback_failure :
      FailureMode

pub data SideEffectOutcome : Type 0 where
  not_applied applied unknown reconciled : SideEffectOutcome

pub data IdempotencyStrategy : Type 0 where
  none_claimed provider_native_key deterministic_resource_id compare_and_set transaction_id
        read_after_uncertain_write provider_operation_lookup fixture_only :
      IdempotencyStrategy

pub data ContractKind : Type 0 where
  not_applicable real_provider_contract test_double : ContractKind

pub data AdversarialScenario : Type 0 where
  happy_path fail_before_side_effect fail_after_side_effect duplicate_delivery caller_cancellation
        reconciliation_unavailable credential_failure rate_limited stale_proposal restart_boundary
        rollback_interaction :
      AdversarialScenario

pub data ReliabilityCheckName : Type 0 where
  risk_model_present risk_class_consistent control_plane_not_escalated side_effects_classified
        trust_boundaries_declared failure_modes_covered real_contract_evidence_present
        retry_policy_valid idempotency_reconciliation_valid adversarial_tests_covered
        secret_safety_valid rollback_semantics_valid :
      ReliabilityCheckName

pub data WriteRetry : Type 0 where
  never_on_unknown only_if_idempotent blind_on_timeout : WriteRetry

pub record TrustBoundaries : Type 0 where
  pub credential_owner : String
  pub candidate_network_authority : String
  pub approval_authority : String
  pub activation_authority : String
  pub recovery_authority : String

pub record IdempotencyClaim : Type 0 where
  pub strategy : IdempotencyStrategy
  pub contract_kind : ContractKind
  pub evidence : String

pub record ReconciliationPolicy : Type 0 where
  pub strategy : String
  pub independent_context : Bool
  pub cancelled_context_reuse : Bool

pub record RollbackSemantics : Type 0 where
  pub compensates_external : Bool
  pub compensation : Option String

pub record RiskModel : Type 0 where
  pub declared_class : Option RiskClass
  pub trust_boundaries : TrustBoundaries
  -- the outcomes of each side effect
  pub side_effects : List (List SideEffectOutcome)
  pub failure_modes : List FailureMode
  pub uncertain_outcomes : List String
  pub write_retries : WriteRetry
  pub idempotency : IdempotencyClaim
  pub reconciliation : ReconciliationPolicy
  pub rollback : RollbackSemantics
  pub validation_scenarios : List AdversarialScenario
  pub omitted_scenarios : List AdversarialScenario
  pub unresolved_risks : List String

pub record ReliabilityCheck : Type 0 where
  pub name : ReliabilityCheckName
  pub passed : Bool

pub record ReliabilityGateResult : Type 0 where
  pub derived_class : RiskClass
  pub effective_class : RiskClass
  pub synthesized : Bool
  pub model : RiskModel
  pub checks : List ReliabilityCheck
  pub passed : Bool
  pub unresolved : List String

pub record OperationalEffects : Type 0 where
  pub network : List String
  pub filesystem : List String
  pub process : List String
  pub secrets : List String
  pub remote_read_only : Bool

pub record GateManifest : Type 0 where
  pub owner : String
  pub provenance_kind : ProvenanceKind
  pub capabilities : List String
  pub permissions : List String
  pub secrets : List String
  pub effects : OperationalEffects
  pub risk_model : Option RiskModel
