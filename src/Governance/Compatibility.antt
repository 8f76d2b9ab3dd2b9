-- ===== src/Governance/Compatibility.antt =====
-- domain/activation-compatibility: whether a candidate can run in its class and in the place of what is
-- active.
pub mod Exact
use dsh_assistant.Prelude.{
  none, if◌then◌else◌, any, select, text_equality, number_equality, ◌==◌, ◌&◌, String, ◌≡◌, Bool,
  true, false, not, ◌&&◌, ◌||◌, Option, some, List, [], ◌∷◌, ◌++◌, map, arith,
}
use Prim.Native.Char.{code}
use dsh_assistant.Registry.Identity.{starts_with}
use dsh_assistant.Registry.Bootstrap.{core_bootstrap_inventory}
use dsh_assistant.Governance.Trust.{is_text, requires_isolated_generated_runtime}

pub data ExecutionClass : Type 0 where
  host_in_process isolated_generated : ExecutionClass

pub data OwnerReplaceability : Type 0 where
  replaceable host_owned_irreplaceable : OwnerReplaceability

pub record OwnerExecutionFacts : Type 0 where
  pub owner : String
  pub provenance_kind : Option String
  pub origin : Option String
  pub services : Option (List String)
  pub providers : Option (List String)

pub record ActivationCompatibilityInput : Type 0 where
  pub candidate : OwnerExecutionFacts
  pub resolution_capability : Option String
  pub capabilities : Option (List String)
  pub active_owner : Option OwnerExecutionFacts

pub record ActivationCompatibilityDenial : Type 0 where
  pub reason : String
  pub detail : String

pub record ActivationCompatibilityResult : Type 0 where
  pub ok : Bool
  pub execution_class : ExecutionClass
  pub replaceability : OwnerReplaceability
  pub denials : List ActivationCompatibilityDenial

abbrev pub or_empty : Option (List String) → List String
or_empty none = []
or_empty (some xs) = xs

-- `xs.length > 0`
abbrev pub has_any : List String → Bool
has_any [] = false
has_any (x ∷ xs) = true

unfoldable pub host_owned_irreplaceable_owners : List String
host_owned_irreplaceable_owners =
    map (λ item. item.owner)
      (select (λ item. has_any (or_empty item.services) || has_any (or_empty item.providers))
        core_bootstrap_inventory)

-- the text before the first dot, or all of it
unfoldable pub domain_of_capability : String → String
domain_of_capability String.[] = ""
domain_of_capability (String.◌∷◌ c s) =
    let rest = domain_of_capability s in if code c == 46 then "" else String.◌∷◌ c rest

unfoldable pub is_host_product_capability : Option String → Bool
unfolding domain_of_capability
is_host_product_capability none = false
is_host_product_capability (some capability) =
    not (capability == "") && domain_of_capability capability == "ui"

unfoldable pub is_host_owned_irreplaceable : OwnerExecutionFacts → Bool
is_host_owned_irreplaceable facts =
    if any (λ owner. owner == facts.owner) host_owned_irreplaceable_owners
    then true
    else if not (has_any (or_empty facts.services)) && not (has_any (or_empty facts.providers))
    then false
    else is_text "managed" facts.provenance_kind || starts_with "managed/" facts.owner

abbrev pub execution_class_of : Bool → ExecutionClass
execution_class_of true = isolated_generated
execution_class_of false = host_in_process

abbrev pub replaceability_of : Bool → OwnerReplaceability
replaceability_of true = host_owned_irreplaceable
replaceability_of false = replaceable

unfoldable pub is_isolated : OwnerExecutionFacts → Bool
is_isolated facts =
    requires_isolated_generated_runtime facts.owner facts.provenance_kind facts.origin

unfoldable pub classify_owner_execution : OwnerExecutionFacts → ExecutionClass × OwnerReplaceability
classify_owner_execution facts =
    (execution_class_of (is_isolated facts), replaceability_of (is_host_owned_irreplaceable facts))

pub is_host_product_change_need : String → Option OwnerExecutionFacts → Bool
is_host_product_change_need capability none = is_host_product_capability (some capability)
is_host_product_change_need capability (some domain_owner) =
    is_host_product_capability (some capability) || is_host_owned_irreplaceable domain_owner

abbrev pub target_of :
    ActivationCompatibilityInput → Option OwnerExecutionFacts → OwnerExecutionFacts
target_of input none = input.candidate
target_of input (some active) = active

abbrev pub capabilities_of : Option String → List String → List String
capabilities_of none capabilities = capabilities
capabilities_of (some capability) capabilities = capability ∷ capabilities

-- `if (condition) denials.push(denial)`
abbrev pub push_if : Bool → String → String → List ActivationCompatibilityDenial
push_if true reason detail = record { reason = reason; detail = detail } ∷ []
push_if false reason detail = []

abbrev no_denials : List ActivationCompatibilityDenial → Bool
no_denials [] = true
no_denials (d ∷ ds) = false

unfoldable pub uses_host_product : ActivationCompatibilityInput → Bool
uses_host_product input =
    any (λ id. is_host_product_capability (some id))
      (capabilities_of input.resolution_capability (or_empty input.capabilities))

unfoldable pub evaluate_activation_compatibility :
    ActivationCompatibilityInput → ActivationCompatibilityResult
evaluate_activation_compatibility input =
    let isolated = is_isolated input.candidate in
    let target = target_of input input.active_owner in
    let classified =
      classify_owner_execution
        (record input.candidate { services = target.services; providers = target.providers }) in
    let denials =
      push_if
        (isolated
          && (has_any (or_empty input.candidate.services)
              || has_any (or_empty input.candidate.providers)))
        "isolated-runtime-forbids-services-or-providers"
        "generated runtime does not proxy services or providers"
      ++ push_if (isolated && is_host_owned_irreplaceable target) "host-owned-owner-not-replaceable"
          (input.candidate.owner
            & " is a host-owned in-process owner and cannot be replaced by an isolated assistant-origin candidate")
      ++ push_if (isolated && uses_host_product input) "host-product-change-required"
          "WUI/frontend host composition requires a trusted product change, not an isolated generated tool" in
    record {
      ok = no_denials denials;
      execution_class = if isolated then isolated_generated else classified.0;
      replaceability = replaceability_of (is_host_owned_irreplaceable target);
      denials = denials;
    }
