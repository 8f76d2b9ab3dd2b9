-- ===== src/Registry/Normalize.antt =====
-- domain/registry/normalize.ts: `normalizeRegisterInput`, the checks of a record.
pub mod Kept
use dsh_assistant.Prelude.{
  any, text_equality, number_equality, ◌==◌, ◌&◌, String, Bool, true, not, ◌&&◌, ◌||◌, Option, none,
  some, List, [], ◌∷◌,
}
use dsh_assistant.Prelude.Result.{Result, ok, ◌>>=◌, ◌>>◌, require, each}
use dsh_assistant.Json.{quote}
use dsh_assistant.Registry.Types.{
  LifecycleStatus, candidate, unreviewed, managed, generated, third_party, CapabilityClaim,
  PluginDependency, RegistryRecord, RegistryRegisterInput, RegistryError, contract, same_kind,
  is_import,
}
use dsh_assistant.Registry.Identity.{
  starts_with, strict_semver, parse_capability_id, parse_owner_id, parse_version, parse_token,
  parse_name,
}

parse_capability_claim : CapabilityClaim → Result RegistryError CapabilityClaim
parse_capability_claim raw = do
  id ← parse_capability_id raw.id
  permissions ← each (parse_token "permission") raw.permissions
  ok (record { id = id; permissions = permissions })

abbrev or_empty {ℓ} : {A : Type ℓ} → Option (List A) → List A
or_empty none = []
or_empty (some xs) = xs

abbrev or_candidate : Option LifecycleStatus → LifecycleStatus
or_candidate none = candidate
or_candidate (some status) = status

-- `new Set(ids).size === ids.length`
distinct : List CapabilityClaim → Bool
distinct [] = true
distinct (claim ∷ claims) = not (any (λ other. other.id == claim.id) claims) && distinct claims

-- the rules that tie an owner to its provenance
provenance_rules : RegistryRegisterInput → Result RegistryError (Unit {0})
provenance_rules input =
    let kind = input.provenance.kind in
    let third = same_kind kind third_party in
    do
      require (not (same_kind kind managed) || starts_with "managed/" input.owner)
          (contract "managed provenance requires a managed/* owner")
      require (not (same_kind kind generated) || starts_with "generated/" input.owner)
          (contract "generated provenance requires a generated/* owner")
      require (not third || starts_with "third-party/" input.owner)
          (contract "third-party provenance requires a third-party/* owner")
      require (not (starts_with "third-party/" input.owner) || third)
          (contract "third-party/* owners require third-party provenance")
      require (not third || is_import input.provenance.origin)
          (contract "third-party provenance requires origin import")
      require (not third || strict_semver input.version)
          (contract ("third-party version must be strict semver: " & quote input.version))

parse_provider : Option String → Result RegistryError (Option String)
parse_provider none = ok none
parse_provider (some provider) = do token ← parse_token "provider" provider; ok (some token)

parse_dependency : PluginDependency → Result RegistryError PluginDependency
parse_dependency item = do
  capability ← parse_capability_id item.capability
  ok (record item { capability = capability })

unfoldable pub normalize_register_input :
    RegistryRegisterInput → Result RegistryError RegistryRecord
unfolding parse_capability_claim distinct provenance_rules parse_provider parse_dependency
normalize_register_input input = do
  owner ← parse_owner_id input.owner
  provenance_rules input
  capabilities ← each parse_capability_claim input.capabilities
  require (distinct capabilities) (contract "duplicate capability claim on one record")
  version ← parse_version input.version
  permissions ← each (parse_token "permission") (or_empty input.permissions)
  runtime_seams ← each (parse_token "runtime seam") input.runtime_seams
  provider ← parse_provider input.provider
  tools ← each (parse_name "tool") (or_empty input.tools)
  services ← each (parse_name "service") (or_empty input.services)
  providers ← each (parse_token "provider") (or_empty input.providers)
  plugin_dependencies ← each parse_dependency (or_empty input.plugin_dependencies)
  ok (record {
    owner = owner;
    version = version;
    provenance = input.provenance;
    status = or_candidate input.status;
    evidence = input.evidence;
    approval = unreviewed;
    capabilities = capabilities;
    permissions = permissions;
    runtime_seams = runtime_seams;
    provider = provider;
    tools = tools;
    services = services;
    providers = providers;
    plugin_dependencies = plugin_dependencies;
  })
