-- ===== src/Governance/Compatibility/Exact.antt =====
-- domain/activation-compatibility: exactly which candidates are compatible.
use dsh_assistant.Prelude.{
  any, text_equality, number_equality, ◌==◌, String, ◌≡◌, refl, Bool, not, ◌&&◌, ◌||◌, some, List,
  [], ◌∷◌, arith, Bool-cases, inl, inr, sym,
}
use dsh_assistant.Registry.Identity.{starts_with}
use dsh_assistant.Governance.Trust.{is_text, requires_isolated_generated_runtime}
use dsh_assistant.Governance.Compatibility.{
  OwnerExecutionFacts, ActivationCompatibilityInput, or_empty, has_any,
  host_owned_irreplaceable_owners, domain_of_capability, is_host_product_capability,
  is_host_owned_irreplaceable, is_isolated, target_of, capabilities_of, uses_host_product,
  evaluate_activation_compatibility,
}
use mathlib.Core.Path.{subst}

-- the text before the first dot, or all of it, is `ui`
abbrev pub is_ui : String → Bool
is_ui capability = domain_of_capability capability == "ui"

-- code that the assistant or a third party wrote: by its owner, its kind or its origin
abbrev pub runs_isolated : OwnerExecutionFacts → Bool
runs_isolated facts =
    starts_with "generated/" facts.owner
    || starts_with "third-party/" facts.owner
    || is_text "generated" facts.provenance_kind
    || is_text "third-party" facts.provenance_kind
    || is_text "assistant" facts.origin
    || is_text "import" facts.origin

abbrev pub offers : OwnerExecutionFacts → Bool
offers facts = has_any (or_empty facts.services) || has_any (or_empty facts.providers)

-- the plugins of the host that have services
abbrev pub host_owners : List String
host_owners =
    "managed/personal-memory" ∷ "managed/personal-knowledge" ∷ "managed/integrations"
    ∷ "managed/trust-policy" ∷ "managed/assistant-jobs" ∷ "managed/web-search"
    ∷ "managed/ui-control-surface" ∷ []

abbrev pub belongs_to_host : OwnerExecutionFacts → Bool
belongs_to_host facts =
    any (λ owner. owner == facts.owner) host_owners
    || (offers facts
        && (is_text "managed" facts.provenance_kind || starts_with "managed/" facts.owner))

host_owners_lem : host_owned_irreplaceable_owners ≡ host_owners
unfolding host_owned_irreplaceable_owners
host_owners_lem = refl

ui_lem : (c : String) → is_host_product_capability (some c) ≡ is_ui c
unfolding is_host_product_capability domain_of_capability
ui_lem c = elim (Bool-cases (c == "")) [
  | inl empty ↦
      subst (λ x. is_host_product_capability (some x) ≡ is_ui x)
        (sym ((text_equality.agrees c "").0 empty)) refl
  | inr other ↦ ground (arith, other)
]

any_lem :
    (p q : String → Bool) (xs : List String) → ((x : String) → p x ≡ q x) → any p xs ≡ any q xs
any_lem p q [] h = refl
any_lem p q (x ∷ xs) h = ground (arith, h x, any_lem p q xs h)

host_lem : (facts : OwnerExecutionFacts) → is_host_owned_irreplaceable facts ≡ belongs_to_host facts
unfolding is_host_owned_irreplaceable
host_lem facts = rw host_owners_lem (ground arith)

isolated_lem : (facts : OwnerExecutionFacts) → is_isolated facts ≡ runs_isolated facts
unfolding is_isolated requires_isolated_generated_runtime
isolated_lem facts = ground arith

-- A candidate is compatible exactly unless its owner, its kind or its origin says that it is generated,
-- of a third party, of the assistant or imported, and it brings services or providers, or takes the
-- place of a plugin that belongs to the host, or there is a capability, one that it claims or the one
-- that it is to resolve, whose text before the first dot is `ui`. Without an active owner, the plugin
-- whose place it takes is the candidate itself.
pub compatible_iff :
    (input : ActivationCompatibilityInput)
    → (evaluate_activation_compatibility input).ok
      ≡ not (
          runs_isolated input.candidate
          && (offers input.candidate
              || belongs_to_host (target_of input input.active_owner)
              || any is_ui
                  (capabilities_of input.resolution_capability (or_empty input.capabilities))))
unfolding evaluate_activation_compatibility uses_host_product
compatible_iff input = ground (
  arith,
  isolated_lem input.candidate,
  host_lem (target_of input input.active_owner),
  any_lem (λ id. is_host_product_capability (some id)) is_ui
      (capabilities_of input.resolution_capability (or_empty input.capabilities)) ui_lem,
)
