-- ===== src/Reliability/Tests.antt =====
-- The gate at a concrete candidate that writes to a remote service.
use dsh_assistant.Prelude.{
  text_equality, number_equality, ◌≡◌, refl, true, false, not, none, some, [], ◌∷◌,
}
use dsh_assistant.Registry.Identity.{starts_with}
use dsh_assistant.Registry.Types.{generated}
use dsh_assistant.Memory.Normalize.{trim}
use dsh_assistant.Reliability.Types.{
  RiskClass, SideEffectOutcome, IdempotencyStrategy, ContractKind, WriteRetry, RiskModel,
  GateManifest,
}
use dsh_assistant.Reliability.Classify.{includes, is_control, controls, derive_risk_class}
use dsh_assistant.Reliability.Defaults.{r3_failures, adversarial_scenarios, host_control_boundaries}
use dsh_assistant.Reliability.Gate.{
  has_real_contract_evidence, needs_model, evaluate_checks, evaluate_with, evaluate_reliability,
}
use dsh_assistant.Reliability.Passed.{no_model_passes, Guarded, r3_passes_safely}

abbrev calendar_model : RiskModel
calendar_model = record {
  declared_class = some RiskClass.r3;
  trust_boundaries = host_control_boundaries;
  side_effects =
      (SideEffectOutcome.applied ∷ SideEffectOutcome.not_applied ∷ SideEffectOutcome.unknown ∷ [])
      ∷ [];
  failure_modes = r3_failures;
  uncertain_outcomes = [];
  write_retries = WriteRetry.only_if_idempotent;
  idempotency = record {
    strategy = IdempotencyStrategy.provider_native_key;
    contract_kind = ContractKind.real_provider_contract;
    evidence = "provider reference, request id";
  };
  reconciliation = record {
    strategy = "lookup";
    independent_context = true;
    cancelled_context_reuse = false;
  };
  rollback = record { compensates_external = false; compensation = none };
  validation_scenarios = adversarial_scenarios;
  omitted_scenarios = [];
  unresolved_risks = [];
}

abbrev calendar : GateManifest
calendar = record {
  owner = "generated/calendar";
  provenance_kind = generated;
  capabilities = "calendar.write" ∷ [];
  permissions = [];
  secrets = "token" ∷ [];
  effects = record {
    network = "api.example.org" ∷ [];
    filesystem = [];
    process = [];
    secrets = [];
    remote_read_only = false;
  };
  risk_model = some calendar_model;
}

derived_evaluated : derive_risk_class calendar ≡ RiskClass.r3
unfolding derive_risk_class controls is_control includes starts_with
derived_evaluated = refl

passed_evaluated : (evaluate_reliability calendar).passed ≡ true
unfolding evaluate_reliability evaluate_with evaluate_checks has_real_contract_evidence trim
    derive_risk_class controls is_control includes starts_with
passed_evaluated = refl

abbrev reckless_model : RiskModel
reckless_model = record calendar_model { write_retries = WriteRetry.blind_on_timeout }

refused_blind_evaluated :
    (evaluate_reliability (record calendar { risk_model = some reckless_model })).passed ≡ false
unfolding evaluate_reliability evaluate_with evaluate_checks has_real_contract_evidence trim
    derive_risk_class controls is_control includes starts_with
refused_blind_evaluated = refl

no_model_passes_example :
    (evaluate_reliability (record calendar { risk_model = none })).passed
    ≡ not (needs_model (derive_risk_class (record calendar { risk_model = none })))
no_model_passes_example = no_model_passes (record calendar { risk_model = none }) refl

r3_passes_safely_example : Guarded calendar calendar_model
r3_passes_safely_example =
    r3_passes_safely calendar calendar_model refl derived_evaluated passed_evaluated
