-- ===== src/Governance/State.antt =====
-- domain/governance/service.ts: the state of `GovernanceService`, what it reads of its surroundings, and
-- its private helpers. A method is a function from the state to a result or an error, and the state
-- that it leaves; the state survives an error, as in the code. The audit lines of
-- `onActivationDiagnostic` and the hooks that save the state (`persist`, `beginAuthorityCommit`,
-- `finishAuthorityCommit`) are left out; they are taken to return.
use dsh_assistant.Prelude.{
  if◌then◌else◌, any, text_equality, number_equality, ◌==◌, ◌&◌, ℕ, ◌+◌, String, Bool, true, false,
  not, ◌&&◌, Option, none, some, List, [], ◌∷◌, map,
}
use dsh_assistant.Prelude.Result.{Result, ok, raise}
use dsh_assistant.Prelude.Dict.{Dict}
use dsh_assistant.Json.{Json}
use dsh_assistant.Registry.Types.{
  is_active as registry_active, RegistryRecord, RegistryQuery, RegistryError, RegistryRegisterInput,
  LifecycleStatus, verified, ProvenanceKind, ProvenanceOrigin, managed, generated, third_party,
  human, assistant, imported,
}
use dsh_assistant.Registry.Service.{Registry, register, get_record, transition_status}
use dsh_assistant.Registry.Queries.{list_records}
use dsh_assistant.Candidate.Types.{CandidateRecord}
use dsh_assistant.Governance.Types.{
  ActivationPhase, ActivationState, LifecycleMutation, activation, uninstall, recovery,
  ApprovalRecord, SnapshotOwner, ActivationSnapshot, ActivationFailure, GovernanceError,
  contract_error, authority_error, activation_denied, uninstall_denied, registry_error,
  mutation_text, is_starting, is_rollback_pending, is_failed,
}
use dsh_assistant.Governance.Trust.{requires_isolated_generated_runtime}

pub record Governance : Type 0 where
  pub registry : Registry
  pub approvals : Dict String ApprovalRecord
  pub next_approval : ℕ
  pub generation : ℕ
  pub state : ActivationState
  pub current : Option ActivationSnapshot
  pub last_known_good : Option ActivationSnapshot
  pub rollback_target : Option ActivationSnapshot
  pub last_failure : Option ActivationFailure
  pub safe_mode : Bool
  pub integrity_verified : Bool
  pub phase : Option ActivationPhase
  pub pending_candidate_id : Option String
  -- `none` is `'idle'`
  pub mutation : Option LifecycleMutation

pub data ReviewState : Type 0 where
  not_reviewed reviewing changes_required review_complete stale : ReviewState

-- `open_blocker` is `findings.some((item) => item.blocking && item.status === 'open')`
pub record ReviewReport : Type 0 where
  pub digest : String
  pub policy_version : String
  pub open_blocker : Bool

-- What the service reads when a part of a method runs: the candidate workspace and the files under it,
-- the reviews, and what the runtime has mounted. `diff` is `none` where `workspace.diff` throws;
-- `review` is `none` where the service has no reviewer.
pub record Outside : Type 0 where
  pub candidates : Dict String CandidateRecord
  pub diff : String → Option Json
  pub root_exists : String → Bool
  pub live_digest : CandidateRecord → String
  pub review : Option ((CandidateRecord → ReviewState) × (String → Option ReviewReport))
  pub mounted : List String
  pub profile_identity : String
  pub sha256 : String → String
  pub collate : String → String → Bool

abbrev pub M {ℓ} : Type ℓ → Type ℓ
M A = Governance → Result GovernanceError A × Governance

abbrev pub then_with {ℓ κ} :
    {A : Type ℓ} {B : Type κ}
    → Result GovernanceError A
    → Governance
    → (A → M B)
    → Result GovernanceError B × Governance
then_with (ok a) s f = f a s
then_with (raise e) s f = (raise e, s)

infixl 5 ◌>>=◌ ◌>>◌
unfoldable pub ◌>>=◌ {ℓ κ} : {A : Type ℓ} {B : Type κ} → M A → (A → M B) → M B
◌>>=◌ m f s = then_with (m s).0 (m s).1 f

abbrev pub ◌>>◌ {ℓ} : {B : Type ℓ} → M (Unit {0}) → M B → M B
m >> k = m >>= λ _. k

abbrev pub return {ℓ} : {A : Type ℓ} → A → M A
return a s = (ok a, s)

abbrev pub throw {ℓ} : {A : Type ℓ} → GovernanceError → M A
throw e s = (raise e, s)

abbrev pub read : M Governance
read s = (ok s, s)

abbrev pub write : Governance → M (Unit {0})
write s' s = (ok tt, s')

-- `if (!condition) throw error`
abbrev pub ensure : Bool → GovernanceError → M (Unit {0})
ensure true e = return tt
ensure false e = throw e

-- a call of the registry that only reads, and one that changes it
abbrev lift_result {ℓ} : {A : Type ℓ} → Result RegistryError A → Result GovernanceError A
lift_result (ok a) = ok a
lift_result (raise e) = raise (registry_error e)

unfoldable pub ask_registry {ℓ} : {A : Type ℓ} → (Registry → Result RegistryError A) → M A
ask_registry f s = (lift_result (f s.registry), s)

abbrev changed :
    Result RegistryError (RegistryRecord × Registry)
    → Governance
    → Result GovernanceError (Unit {0}) × Governance
changed (ok out) s = (ok tt, record s { registry = out.1 })
changed (raise e) s = (raise (registry_error e), s)

unfoldable pub change_registry :
    (Registry → Result RegistryError (RegistryRecord × Registry)) → M (Unit {0})
change_registry f s = changed (f s.registry) s

abbrev pub everything : RegistryQuery
everything = record { owner = none; status = none; capability = none; provenance_kind = none }

abbrev pub active_query : RegistryQuery
active_query = record everything { status = some LifecycleStatus.active }

abbrev pub kind_text : ProvenanceKind → String
kind_text managed = "managed"
kind_text generated = "generated"
kind_text third_party = "third-party"

abbrev pub origin_text : ProvenanceOrigin → String
origin_text human = "human"
origin_text assistant = "assistant"
origin_text imported = "import"

-- generated-runtime/trust.ts: `isolatedRuntimeOwner`
unfoldable pub isolated_runtime_owner : RegistryRecord → Bool
isolated_runtime_owner r =
    requires_isolated_generated_runtime r.owner (some (kind_text r.provenance.kind))
      (some (origin_text r.provenance.origin))

abbrev pub snapshot_owner : RegistryRecord → SnapshotOwner
snapshot_owner r = record {
  owner = r.owner;
  version = r.version;
  status = r.status;
  capabilities = map (λ item. item.id) r.capabilities;
}

unfoldable pub owners_from_registry : Outside → M (List SnapshotOwner)
unfolding ask_registry
owners_from_registry o = do
  found ← ask_registry (list_records o.collate active_query)
  return (map snapshot_owner found)

unfoldable pub capture_snapshot : Outside → M ActivationSnapshot
unfolding owners_from_registry
capture_snapshot o = do
  s ← read
  write (record s { generation = s.generation + 1 })
  owners ← owners_from_registry o
  return (record {
    generation = s.generation + 1;
    owners = owners;
    profile_identity = o.profile_identity;
    mounted = o.mounted;
  })

abbrev pub failure_needs_safe_mode : Option ActivationFailure → Bool
failure_needs_safe_mode none = false
failure_needs_safe_mode (some failure) = failure.safe_mode_required

abbrev pub failure_rolled_back : Option ActivationFailure → Bool
failure_rolled_back none = false
failure_rolled_back (some failure) = failure.rollback_succeeded

unfoldable pub is_recovery_required : Governance → Bool
is_recovery_required s =
    if is_rollback_pending s.state
    then true
    else if s.safe_mode && failure_needs_safe_mode s.last_failure && not s.integrity_verified
    then true
    else is_failed s.state && not (failure_rolled_back s.last_failure) && not s.integrity_verified

unfoldable pub lifecycle_busy : Governance → Option LifecycleMutation
lifecycle_busy s = elim s.mutation [
  | some kind ↦ some kind
  | none ↦
      if is_starting s.state
      then some activation
      else if is_rollback_pending s.state
      then some recovery
      else none
]

abbrev pub busy_error : LifecycleMutation → LifecycleMutation → GovernanceError
busy_error busy activation = activation_denied (
    record {
      reason = mutation_text busy & "-in-flight";
      detail = "another trusted lifecycle mutation is in progress";
    }
    ∷ [])
busy_error busy uninstall = uninstall_denied (
    record {
      reason = mutation_text busy & "-in-flight";
      detail = "another trusted lifecycle mutation is in progress";
    }
    ∷ [])
busy_error busy _ = contract_error (mutation_text busy & "-in-flight")

unfoldable pub assert_mutation_idle : LifecycleMutation → M (Unit {0})
assert_mutation_idle kind s = elim (lifecycle_busy s) [
  | none ↦ (ok tt, s)
  | some busy ↦ (raise (busy_error busy kind), s)
]

-- `trusted` is whether the credential was issued by this recovery root
unfoldable pub assert_credential : Bool → M (Unit {0})
assert_credential trusted =
    ensure trusted
      (authority_error "approval/recovery action requires a credential issued by the recovery root")

-- the loop of `applyRegistryOwners` over what is active
unfoldable pub disable_unwanted : List SnapshotOwner → List RegistryRecord → M (Unit {0})
disable_unwanted owners [] = return tt
disable_unwanted owners (r ∷ rs) = do
  (if any (λ item. item.owner == r.owner && item.version == r.version) owners
      then return tt
      else change_registry (transition_status r.owner r.version LifecycleStatus.disabled))
  disable_unwanted owners rs

-- one owner of the loop over what is wanted
abbrev pub enable_found : SnapshotOwner → Option RegistryRecord → M (Unit {0})
enable_found owner none = return tt
enable_found owner (some r) =
    if registry_active r.status
    then return tt
    else change_registry (transition_status owner.owner owner.version LifecycleStatus.active)

unfoldable pub enable_wanted : List SnapshotOwner → M (Unit {0})
enable_wanted [] = return tt
enable_wanted (owner ∷ owners) = do
  found ← ask_registry (get_record owner.owner owner.version)
  enable_found owner found
  enable_wanted owners

unfoldable pub apply_registry_owners : Outside → List SnapshotOwner → M (Unit {0})
apply_registry_owners o owners = do
  found ← ask_registry (list_records o.collate active_query)
  disable_unwanted owners found
  enable_wanted owners

abbrev pub first_provider : List String → Option String
first_provider [] = none
first_provider (p ∷ ps) = some p

abbrev pub to_register_input : CandidateRecord → RegistryRegisterInput
to_register_input c = record {
  owner = c.owner;
  version = c.version;
  provenance = c.provenance;
  status = some LifecycleStatus.active;
  evidence = verified;
  capabilities = map (λ id. record { id = id; permissions = [] }) c.manifest.capabilities;
  permissions = some c.manifest.permissions;
  runtime_seams = c.manifest.runtime_seams;
  provider = first_provider c.manifest.providers;
  tools = some c.manifest.tools;
  services = some c.manifest.services;
  providers = some c.manifest.providers;
  plugin_dependencies = c.manifest.plugin_dependencies;
}

abbrev pub retire_previous : CandidateRecord → List RegistryRecord → M (Unit {0})
retire_previous c [] = return tt
retire_previous c (previous ∷ rest) =
    if previous.version == c.version
    then return tt
    else change_registry
        (transition_status previous.owner previous.version LifecycleStatus.disabled)

abbrev pub commit_existing : CandidateRecord → Option RegistryRecord → M (Unit {0})
commit_existing c none = change_registry (register (to_register_input c))
commit_existing c (some existing) =
    if registry_active existing.status
    then return tt
    else change_registry (transition_status c.owner c.version LifecycleStatus.active)

unfoldable pub commit_registry : Outside → CandidateRecord → M (Unit {0})
commit_registry o c = do
  found ← ask_registry (list_records o.collate (record active_query { owner = some c.owner }))
  retire_previous c found
  existing ← ask_registry (get_record c.owner c.version)
  commit_existing c existing
