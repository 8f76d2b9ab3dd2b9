-- ===== src/Governance/Tests.antt =====
-- Governance at concrete plugins.
use dsh_assistant.Prelude.{
  any, text_equality, number_equality, ◌≡◌, refl, false, not, ◌&&◌, ◌||◌, none, some, List, [], ◌∷◌,
  map,
}
use dsh_assistant.Governance.Trust.{requires_isolated_generated_runtime}
use dsh_assistant.Governance.Compatibility.{
  OwnerExecutionFacts, ActivationCompatibilityInput, host_owned_irreplaceable_owners,
  domain_of_capability, is_host_product_capability, is_host_owned_irreplaceable, is_isolated,
  classify_owner_execution, target_of, uses_host_product, evaluate_activation_compatibility,
}
use dsh_assistant.Governance.Dependents.{
  Severity, Row, declared_loop, registry_loop, analyze_plugin_dependents,
}
use dsh_assistant.Governance.Dependents.Removal.{needs, nothing_needs}
use dsh_assistant.Registry.Identity.{starts_with}
use dsh_assistant.Governance.Compatibility.Exact.{
  runs_isolated, offers, belongs_to_host, is_ui, compatible_iff,
}

abbrev note_taker : OwnerExecutionFacts
note_taker = record {
  owner = "generated/notes";
  provenance_kind = some "generated";
  origin = some "assistant";
  services = none;
  providers = some [];
}

abbrev replacing_memory : ActivationCompatibilityInput
replacing_memory = record {
  candidate = note_taker;
  resolution_capability = some "memory.read";
  capabilities = some ("ui.panel" ∷ []);
  active_owner = some (record note_taker {
    owner = "managed/personal-memory";
    services = some ("personalMemory" ∷ []);
  });
}

reasons_evaluated :
    map (λ d. d.reason) (evaluate_activation_compatibility replacing_memory).denials
    ≡ "host-owned-owner-not-replaceable" ∷ "host-product-change-required" ∷ []
unfolding evaluate_activation_compatibility is_isolated requires_isolated_generated_runtime
    is_host_owned_irreplaceable host_owned_irreplaceable_owners uses_host_product
    is_host_product_capability domain_of_capability classify_owner_execution starts_with
reasons_evaluated = refl

-- the assistant's plugin may not take the place of the host's memory
compatible_iff_example :
    (evaluate_activation_compatibility replacing_memory).ok
    ≡ not (
        runs_isolated note_taker
        && (offers note_taker
            || belongs_to_host (target_of replacing_memory replacing_memory.active_owner)
            || any is_ui ("memory.read" ∷ "ui.panel" ∷ [])))
compatible_iff_example = compatible_iff replacing_memory

abbrev rows : List Row
rows =
    record {
      owner = "generated/notes";
      version = "1";
      status = "active";
      plugin_dependencies = none;
    }
    ∷ record {
      owner = "generated/old";
      version = "1";
      status = "disabled";
      plugin_dependencies =
          some (record { capability = some "notes.read"; strength = some "hard" } ∷ []);
    }
    ∷ []

rows_evaluated :
    (analyze_plugin_dependents "generated/notes" "1" ("notes.read" ∷ []) rows).severity
    ≡ Severity.nothing
unfolding analyze_plugin_dependents registry_loop declared_loop
rows_evaluated = refl

nothing_needs_example : any (needs "generated/notes" "1" ("notes.read" ∷ [])) rows ≡ false
nothing_needs_example = nothing_needs "generated/notes" "1" ("notes.read" ∷ []) rows rows_evaluated
