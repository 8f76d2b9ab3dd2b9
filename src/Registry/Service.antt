-- ===== src/Registry/Service.antt =====
-- domain/registry/service.ts: `RegistryService`. Its state is the map of records by key; a method that
-- throws leaves it as it was. `cloneRecord` copies immutable values and is left out, as is the
-- persistence port; `list` and `conflicts` are in Queries and Conflicts.
pub mod Calls
pub mod Owners
pub mod Resolve
pub mod Transition
mod Tests
use dsh_assistant.Prelude.{
  if◌then◌else◌, any, select, text_equality, number_equality, ◌==◌, ◌&◌, String, Bool, not, ◌&&◌,
  Option, none, some, List, [], ◌∷◌, ◌++◌, map,
}
use dsh_assistant.Prelude.Result.{Result, ok, raise, ◌>>=◌, ◌>>◌, require}
use dsh_assistant.Prelude.Dict.{Dict, get, put, has, values}
use dsh_assistant.Registry.Types.{
  LifecycleStatus, CapabilityClaim, RegistryRecord, ActiveOwnerResolution, RegistryRevisePatch,
  RegistryRegisterInput, RegistryError, contract, ownership_conflict, is_active,
}
use dsh_assistant.Registry.Identity.{parse_capability_id, parse_owner_id, parse_version, record_key}
use dsh_assistant.Registry.Normalize.{normalize_register_input}

abbrev pub Registry : Type 0
Registry = Dict String RegistryRecord

unfoldable pub claims_capability : RegistryRecord → String → Bool
claims_capability r capability = any (λ item. item.id == capability) r.capabilities

abbrev pub key_of : RegistryRecord → String
key_of r = record_key r.owner r.version

-- the other active claimants of one capability
unfoldable pub rivals : String → String → Registry → List RegistryRecord
rivals ignore capability s =
    select
      (λ existing.
        not (key_of existing == ignore)
        && is_active existing.status
        && claims_capability existing capability)
      (values s)

abbrev owners_of : List RegistryRecord → List (String × String)
owners_of = map (λ item. (item.owner, item.version))

abbrev pub refuse : RegistryRecord → String → List RegistryRecord → Result RegistryError (Unit {0})
refuse r capability [] = ok tt
refuse r capability (other ∷ others) =
    raise (ownership_conflict capability (owners_of (other ∷ others) ++ (r.owner, r.version) ∷ []))

unfoldable pub assert_claims :
    RegistryRecord → String → Registry → List CapabilityClaim → Result RegistryError (Unit {0})
assert_claims r ignore s [] = ok tt
assert_claims r ignore s (claim ∷ claims) = do
  refuse r claim.id (rivals ignore claim.id s)
  assert_claims r ignore s claims

unfoldable pub assert_no_active_conflict :
    RegistryRecord → String → Registry → Result RegistryError (Unit {0})
assert_no_active_conflict r ignore s =
    if is_active r.status then assert_claims r ignore s r.capabilities else ok tt

unfoldable pub register :
    RegistryRegisterInput → Registry → Result RegistryError (RegistryRecord × Registry)
register input s = do
  r ← normalize_register_input input
  require (not (has (key_of r) s)) (contract ("record already exists: " & key_of r))
  assert_no_active_conflict r (key_of r) s
  ok (r, put (key_of r) r s)

unfoldable pub get_record :
    String → String → Registry → Result RegistryError (Option RegistryRecord)
get_record owner version s = do
  owner' ← parse_owner_id owner
  version' ← parse_version version
  ok (get (record_key owner' version') s)

-- `this.records.get(key)`, or the error
abbrev pub known : String → Registry → Result RegistryError RegistryRecord
known key s = elim (get key s) [
  | none ↦ raise (contract ("unknown record: " & key))
  | some current ↦ ok current
]

abbrev pub key_for : String → String → Result RegistryError String
key_for owner version = do
  owner' ← parse_owner_id owner
  version' ← parse_version version
  ok (record_key owner' version')

unfoldable pub transition_status :
    String → String → LifecycleStatus → Registry → Result RegistryError (RegistryRecord × Registry)
transition_status owner version status s = do
  key ← key_for owner version
  current ← known key s
  let next = record current { status = status }
  assert_no_active_conflict next key s
  ok (next, put key next s)

abbrev or_current {ℓ} : {A : Type ℓ} → Option A → A → A
or_current none current = current
or_current (some new) current = new

abbrev or_provider : Option String → Option String → Option String
or_provider none current = current
or_provider (some new) current = some new

abbrev pub revised_input : RegistryRevisePatch → RegistryRecord → RegistryRegisterInput
revised_input patch current = record {
  owner = current.owner;
  version = current.version;
  provenance = current.provenance;
  status = some current.status;
  evidence = current.evidence;
  capabilities = or_current patch.capabilities current.capabilities;
  permissions = some (or_current patch.permissions current.permissions);
  runtime_seams = current.runtime_seams;
  provider = or_provider patch.provider current.provider;
  tools = some current.tools;
  services = some current.services;
  providers = some (or_current patch.providers current.providers);
  plugin_dependencies = some current.plugin_dependencies;
}

unfoldable pub revise :
    String
    → String
    → RegistryRevisePatch
    → Registry
    → Result RegistryError (RegistryRecord × Registry)
revise owner version patch s = do
  key ← key_for owner version
  current ← known key s
  normalized ← normalize_register_input (revised_input patch current)
  let next = record normalized { approval = current.approval; status = current.status }
  assert_no_active_conflict next key s
  ok (next, put key next s)

abbrev pub resolution : String → List RegistryRecord → List RegistryRecord → ActiveOwnerResolution
resolution id [] holders = ActiveOwnerResolution.unknown id
resolution id (m ∷ mentioned) [] = ActiveOwnerResolution.inactive id (m ∷ mentioned)
resolution id (m ∷ mentioned) (a ∷ []) = ActiveOwnerResolution.owned id a
resolution id (m ∷ mentioned) (a ∷ b ∷ holders) =
    ActiveOwnerResolution.conflict id (a ∷ b ∷ holders)

unfoldable pub resolve_active_owner : String → Registry → Result RegistryError ActiveOwnerResolution
resolve_active_owner capability s = do
  id ← parse_capability_id capability
  let mentioned = select (λ r. claims_capability r id) (values s)
  ok (resolution id mentioned (select (λ r. is_active r.status) mentioned))

pub list_capabilities : String → String → Registry → Result RegistryError (List String)
list_capabilities owner version s = do
  found ← get_record owner version s
  elim found [
    | none ↦ raise (contract ("unknown record: " & owner & "@" & version))
    | some r ↦ ok (map (λ item. item.id) r.capabilities)
  ]
