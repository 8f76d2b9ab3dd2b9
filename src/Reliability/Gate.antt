-- ===== src/Reliability/Gate.antt =====
-- domain/reliability/gate.ts
use dsh_assistant.Prelude.{
  ltb, if◌then◌else◌, any, all, select, text_equality, number_equality, ◌==◌, String, Bool, true,
  false, not, ◌&&◌, ◌||◌, Option, none, some, List, [], ◌∷◌, ◌++◌,
}
use dsh_assistant.Registry.Types.{ProvenanceKind, managed, generated, third_party}
use dsh_assistant.Memory.Normalize.{trim}
use dsh_assistant.Reliability.Types.{
  unknown, RiskClass, r0, r1, r2, r3, r4, FailureMode, SideEffectOutcome, IdempotencyStrategy,
  ContractKind, real_provider_contract, AdversarialScenario, ReliabilityCheckName, WriteRetry,
  blind_on_timeout, TrustBoundaries, RiskModel, ReliabilityCheck, ReliabilityGateResult,
  GateManifest, happy_path, risk_model_present, trust_boundaries_declared, risk_class_consistent,
  secret_safety_valid, control_plane_not_escalated, real_contract_evidence_present,
  adversarial_tests_covered, retry_policy_valid, side_effects_classified, failure_modes_covered,
  rollback_semantics_valid, idempotency_reconciliation_valid, fixture_only,
}
use dsh_assistant.Reliability.Classify.{has_any, risk_rank, is_credentialed, derive_risk_class}
use dsh_assistant.Reliability.Defaults.{
  mode_place, name_place, r3_failures, adversarial_scenarios, r2_scenarios, r1_scenarios,
  synthesize_local, covered_or_omitted,
}

abbrev pub is_real : ContractKind → Bool
is_real real_provider_contract = true
is_real _ = false

abbrev pub is_fixture : IdempotencyStrategy → Bool
is_fixture fixture_only = true
is_fixture _ = false

unfoldable pub has_real_contract_evidence : RiskModel → Bool
unfolding trim
has_real_contract_evidence model =
    is_real model.idempotency.contract_kind
    && (not (is_fixture model.idempotency.strategy) && not (trim model.idempotency.evidence == ""))

abbrev pub base_checks : List ReliabilityCheckName
base_checks =
    risk_model_present ∷ risk_class_consistent ∷ control_plane_not_escalated ∷ retry_policy_valid
    ∷ []

abbrev pub required_for : RiskClass → List ReliabilityCheckName
required_for r0 = base_checks
required_for r1 =
    base_checks
    ++ (trust_boundaries_declared ∷ secret_safety_valid ∷ real_contract_evidence_present
        ∷ adversarial_tests_covered ∷ [])
required_for r2 =
    base_checks
    ++ (side_effects_classified ∷ trust_boundaries_declared ∷ adversarial_tests_covered
        ∷ rollback_semantics_valid ∷ [])
required_for _ =
    base_checks
    ++ (side_effects_classified ∷ trust_boundaries_declared ∷ failure_modes_covered
        ∷ real_contract_evidence_present ∷ idempotency_reconciliation_valid
        ∷ adversarial_tests_covered ∷ secret_safety_valid ∷ rollback_semantics_valid ∷ [])

abbrev pub scenarios_for : RiskClass → List AdversarialScenario
scenarios_for r3 = adversarial_scenarios
scenarios_for r2 = r2_scenarios
scenarios_for r1 = r1_scenarios
scenarios_for _ = happy_path ∷ []

abbrev pub failures_for : RiskClass → List FailureMode
failures_for r3 = r3_failures
failures_for _ = []

abbrev pub is_r3 : RiskClass → Bool
is_r3 r3 = true
is_r3 _ = false

abbrev pub is_r4 : RiskClass → Bool
is_r4 r4 = true
is_r4 _ = false

abbrev pub is_generated : ProvenanceKind → Bool
is_generated managed = false
is_generated generated = true
is_generated third_party = true

abbrev pub is_unknown : SideEffectOutcome → Bool
is_unknown unknown = true
is_unknown _ = false

abbrev pub is_blind : WriteRetry → Bool
is_blind blind_on_timeout = true
is_blind _ = false

-- `derived !== 'R0' && derived !== 'R2'`
abbrev pub needs_model : RiskClass → Bool
needs_model r0 = false
needs_model r2 = false
needs_model _ = true

abbrev pub is_downgrade : Option RiskClass → RiskClass → Bool
is_downgrade none derived = false
is_downgrade (some declared) derived = ltb (risk_rank declared) (risk_rank derived)

abbrev pub is_foreign : String → Bool
is_foreign authority = not (authority == "recovery-root") && not (authority == "host")

abbrev pub has_compensation : Option String → Bool
has_compensation none = false
has_compensation (some text) = not (text == "")

abbrev pub check : ReliabilityCheckName → Bool → ReliabilityCheck
check name passed = record { name = name; passed = passed }

abbrev pub has_mode : FailureMode → List FailureMode → Bool
has_mode item modes = any (λ other. mode_place other == mode_place item) modes

abbrev pub is_arbitrary : TrustBoundaries → Bool
is_arbitrary boundaries =
    boundaries.candidate_network_authority == "arbitrary-fetch"
    || boundaries.candidate_network_authority == "*"

unfoldable pub evaluate_checks : GateManifest → RiskClass → RiskModel → Bool → List ReliabilityCheck
unfolding has_real_contract_evidence
evaluate_checks manifest derived model synthesized =
    let boundaries = model.trust_boundaries in
    let mutating_write = any has_any model.side_effects in
    let unknown_declared =
      any (λ outcomes. any is_unknown outcomes) model.side_effects
      || has_any model.uncertain_outcomes in
    check risk_model_present (not synthesized || not (needs_model derived))
    ∷ check risk_class_consistent (not (is_downgrade model.declared_class derived))
    ∷ check control_plane_not_escalated (
        not (is_generated manifest.provenance_kind && is_r4 derived)
        && not (
            is_foreign boundaries.approval_authority
            || (is_foreign boundaries.activation_authority
                || is_foreign boundaries.recovery_authority)))
    ∷ check side_effects_classified
        (ltb (risk_rank derived) 2 || (mutating_write && (not (is_r3 derived) || unknown_declared)))
    ∷ check trust_boundaries_declared (
        boundaries.approval_authority == "recovery-root"
        && (boundaries.activation_authority == "recovery-root"
            && boundaries.recovery_authority == "recovery-root"))
    ∷ check failure_modes_covered (
        not (
          has_any
            (select (λ item. not (has_mode item model.failure_modes)) (failures_for derived))))
    ∷ check real_contract_evidence_present (has_real_contract_evidence model)
    ∷ check retry_policy_valid (not (is_blind model.write_retries))
    ∷ check idempotency_reconciliation_valid (
        ltb (risk_rank derived) 3
        || (model.reconciliation.independent_context
            && (not model.reconciliation.cancelled_context_reuse
                && not (model.reconciliation.strategy == ""))))
    ∷ check adversarial_tests_covered
        (not (has_any (covered_or_omitted model (scenarios_for derived))))
    ∷ check secret_safety_valid (
        (not (is_credentialed manifest) || boundaries.credential_owner == "host")
        && not (is_arbitrary boundaries))
    ∷ check rollback_semantics_valid
        (not model.rollback.compensates_external || has_compensation model.rollback.compensation)
    ∷ []

abbrev pub effective_class : Option RiskClass → RiskClass → RiskClass
effective_class none derived = derived
effective_class (some declared) derived =
    if ltb (risk_rank derived) (risk_rank declared) then declared else derived

abbrev pub is_none {ℓ} : {A : Type ℓ} → Option A → Bool
is_none none = true
is_none (some a) = false

abbrev pub is_r2 : RiskClass → Bool
is_r2 r2 = true
is_r2 _ = false

abbrev pub model_or_synthesized : Option RiskModel → RiskClass → RiskModel
model_or_synthesized none derived = synthesize_local (is_r2 derived)
model_or_synthesized (some model) derived = model

abbrev pub is_required : List ReliabilityCheckName → ReliabilityCheck → Bool
is_required required item = any (λ name. name_place name == name_place item.name) required

unfoldable pub evaluate_with : GateManifest → RiskClass → RiskModel → Bool → ReliabilityGateResult
unfolding evaluate_checks
evaluate_with manifest derived model synthesized =
    let effective = effective_class model.declared_class derived in
    let required = required_for (if is_r4 effective then derived else effective) in
    let applicable =
      select (is_required required) (evaluate_checks manifest derived model synthesized) in
    record {
      derived_class = derived;
      effective_class = effective;
      synthesized = synthesized;
      model = model;
      checks = applicable;
      passed = all (λ item. item.passed) applicable && not (synthesized && needs_model derived);
      unresolved = model.unresolved_risks;
    }

unfoldable pub evaluate_reliability : GateManifest → ReliabilityGateResult
unfolding derive_risk_class synthesize_local evaluate_with
evaluate_reliability manifest =
    let derived = derive_risk_class manifest in
    evaluate_with manifest derived (model_or_synthesized manifest.risk_model derived)
      (is_none manifest.risk_model)
