-- ===== src/Governance/Removal.antt =====
-- domain/governance/service.ts: `disable` and `uninstall`, cut at their awaits.
pub mod Failed
mod Tests
use dsh_assistant.Prelude.{
  if◌then◌else◌, find, select, first, text_equality, number_equality, ◌==◌, ◌&◌, String, Bool, true,
  false, not, ◌&&◌, Option, none, some, List, [], ◌∷◌, map,
}
use dsh_assistant.Prelude.Dict.{values}
use dsh_assistant.Prelude.Result.{Result, ok, raise}
use dsh_assistant.Registry.Types.{
  is_active as registry_active, RegistryRecord, LifecycleStatus, Strength, PluginDependency,
}
use dsh_assistant.Registry.Service.{get_record, transition_status}
use dsh_assistant.Registry.Queries.{list_records}
use dsh_assistant.Candidate.Types.{CandidateRecord}
use dsh_assistant.Memory.Query.{join}
use dsh_assistant.Governance.Types.{
  failed, LifecycleMutation, uninstall, disable, EligibilityDenial, ActivationSnapshot,
  GovernanceError, contract_error, crash, uninstall_denied, safe_mode,
}
use dsh_assistant.Governance.Dependents.{
  Row, Declared, PluginDependent, PluginDependencyResult, Severity, is_hard, is_optional,
  analyze_plugin_dependents,
}
use dsh_assistant.Governance.State.{
  read, Governance, Outside, M, ◌>>=◌, ◌>>◌, return, throw, ensure, ask_registry, change_registry,
  everything, isolated_runtime_owner, capture_snapshot, assert_mutation_idle, assert_credential,
}
use dsh_assistant.Governance.Running.{
  Progress, Answer, resolves, crashes, rejects, Removing, unloading, Prior, Running, disabling,
  uninstalling, waits,
}
use dsh_assistant.Governance.Activation.{update}

abbrev strength_text : Strength → String
strength_text Strength.hard = "hard"
strength_text Strength.optional = "optional"

abbrev pub declared : PluginDependency → Declared
declared d = record { capability = some d.capability; strength = some (strength_text d.strength) }

abbrev pub status_text : LifecycleStatus → String
status_text LifecycleStatus.candidate = "candidate"
status_text LifecycleStatus.active = "active"
status_text LifecycleStatus.disabled = "disabled"
status_text LifecycleStatus.retired = "retired"

abbrev pub row_of : RegistryRecord → Row
row_of r = record {
  owner = r.owner;
  version = r.version;
  status = status_text r.status;
  plugin_dependencies = some (map declared r.plugin_dependencies);
}

unfoldable pub plugin_dependents : Outside → RegistryRecord → M PluginDependencyResult
plugin_dependents o r = do
  listed ← ask_registry (list_records o.collate everything)
  return (
      analyze_plugin_dependents r.owner r.version (map (λ item. item.id) r.capabilities)
        (map row_of listed))

abbrev one_denial : String → String → List EligibilityDenial
one_denial reason detail = record { reason = reason; detail = detail } ∷ []

abbrev blocked_detail : Option PluginDependent → String
blocked_detail none = "active hard dependents remain"
blocked_detail (some first) =
    first.owner & "@" & first.version & " requires " & first.required_capability

abbrev or_acknowledgement : String → String
or_acknowledgement named =
    if named == "" then "optional dependents require acknowledgement" else named

abbrev pub severity_denials : Bool → List PluginDependent → Severity → List EligibilityDenial
severity_denials acknowledged dependents Severity.unresolved =
    one_denial "dependency-unresolved" "dependency graph could not be verified"
severity_denials acknowledged dependents Severity.hard =
    one_denial "dependency-blocked" (blocked_detail (find is_hard dependents))
severity_denials acknowledged dependents Severity.optional =
    if acknowledged
    then []
    else one_denial "optional-dependents" (
        or_acknowledgement
          (join ", " (map (λ d. d.owner & "@" & d.version) (select is_optional dependents))))
severity_denials acknowledged dependents Severity.nothing = []

abbrev pub record_denials :
    Outside → String → Bool → Option RegistryRecord → M (List EligibilityDenial)
record_denials o key acknowledged none = return (one_denial "unknown-plugin" key)
record_denials o key acknowledged (some r) =
    if not (isolated_runtime_owner r)
    then return (one_denial "managed-plugin" (key & " is not a user plugin"))
    else if not (registry_active r.status)
    then return (one_denial "already-uninstalled" key)
    else do
      graph ← plugin_dependents o r
      return (severity_denials acknowledged graph.dependents graph.severity)

abbrev pub key_text : String → String → String
key_text owner version = owner & "@" & version

unfoldable pub uninstall_denials : Outside → String → String → Bool → M (List EligibilityDenial)
unfolding plugin_dependents
uninstall_denials o owner version acknowledged = do
  found ← ask_registry (get_record owner version)
  record_denials o (key_text owner version) acknowledged found

-- `workspace.list().find(...)`
abbrev pub candidate_for : Outside → String → String → Option CandidateRecord
candidate_for o owner version =
    find (λ item. item.owner == owner && item.version == version) (values o.candidates)

abbrev is_some {ℓ} : {A : Type ℓ} → Option A → Bool
is_some none = false
is_some (some a) = true

abbrev prior_of : String → String → Option CandidateRecord → Governance → Prior
prior_of owner version candidate s = record {
  owner = owner;
  version = version;
  has_candidate = is_some candidate;
  current = s.current;
  last_known_good = s.last_known_good;
}

unfoldable pub begin_disable : Outside → Bool → String → String → M Progress
begin_disable o trusted owner version = do
  assert_credential trusted
  assert_mutation_idle disable
  found ← ask_registry (get_record owner version)
  ensure (is_some found) (contract_error ("unknown record: " & key_text owner version))
  s ← read
  update (λ s. record s { mutation = some LifecycleMutation.disable })
  waits (disabling (prior_of owner version (candidate_for o owner version) s) Removing.held)

abbrev is_empty : List EligibilityDenial → Bool
is_empty [] = true
is_empty (d ∷ ds) = false

unfoldable pub begin_uninstall : Outside → Bool → String → String → Bool → M Progress
begin_uninstall o trusted owner version acknowledged = do
  assert_credential trusted
  assert_mutation_idle uninstall
  denials ← uninstall_denials o owner version acknowledged
  ensure (is_empty denials) (uninstall_denied denials)
  ensure (is_some (candidate_for o owner version))
      (uninstall_denied (one_denial "unknown-artifact" (key_text owner version)))
  s ← read
  update (λ s. record s { mutation = some LifecycleMutation.uninstall })
  waits (uninstalling (prior_of owner version (candidate_for o owner version) s) Removing.held)

-- a try block around a change of the registry: whether it went through
abbrev pub outcome :
    Result GovernanceError (Unit {0}) × Governance
    → Result GovernanceError (Option GovernanceError) × Governance
outcome (ok _, s) = (ok none, s)
outcome (raise e, s) = (ok (some e), s)

abbrev pub attempt : M (Unit {0}) → M (Option GovernanceError)
attempt m s = outcome (m s)

abbrev pub safe_mode_on : Option GovernanceError → M (Unit {0})
safe_mode_on none = return tt
safe_mode_on (some e) = update (λ s. record s { safe_mode = true; state = safe_mode })

abbrev was_active : Option RegistryRecord → Bool
was_active none = false
was_active (some r) = registry_active r.status

-- the end of the `catch` block, and the `finally` block
unfoldable pub end_removal : Prior → GovernanceError → M Progress
end_removal p e s = (
  raise e,
  record s { current = p.current; last_known_good = p.last_known_good; mutation = none },
)

abbrev pub wait_or_end :
    (Prior → Removing → Running) → Prior → GovernanceError → Option ActivationSnapshot → M Progress
wait_or_end again p e none = end_removal p e
wait_or_end again p e (some snapshot) = waits (again p (Removing.restoring e))

-- the `catch` block: the plugin is made active again, or Safe Mode is entered
unfoldable pub fail_removal : (Prior → Removing → Running) → Prior → GovernanceError → M Progress
unfolding end_removal
fail_removal again p e = do
  found ← ask_registry (get_record p.owner p.version)
  tried ←
      (if was_active found
        then return none
        else attempt (change_registry (transition_status p.owner p.version LifecycleStatus.active)))
  safe_mode_on tried
  wait_or_end again p e p.current

abbrev pub restore_failed : Answer → Option GovernanceError
restore_failed resolves = none
restore_failed _ = some (failed "restore failed")

unfoldable pub end_restored : Prior → GovernanceError → Answer → M Progress
unfolding end_removal
end_restored p e answer = do safe_mode_on (restore_failed answer); end_removal p e

abbrev pub error_of : Answer → GovernanceError
error_of (rejects message) = failed message
error_of _ = failed ""

abbrev pub release : M Progress
release s = (ok none, record s { mutation = none })

abbrev pub crash_removal : String → M Progress
crash_removal point s =
    (raise (crash ("simulated crash after " & point)), record s { mutation = none })

abbrev pub after_disabled : Outside → Prior → Option GovernanceError → M Progress
after_disabled o p (some e) = fail_removal disabling p e
after_disabled o p none = do
  snapshot ← capture_snapshot o
  update (λ s. record s { current = some snapshot })
  release

unfoldable pub finish_disable : Outside → Prior → M Progress
unfolding fail_removal
finish_disable o p = do
  tried ← attempt (change_registry (transition_status p.owner p.version LifecycleStatus.disabled))
  after_disabled o p tried

unfoldable pub resume_disable : Outside → Prior → Removing → Answer → M Progress
unfolding finish_disable fail_removal end_restored
resume_disable o p Removing.held resolves =
    if p.has_candidate then waits (disabling p unloading) else finish_disable o p
resume_disable o p unloading resolves = finish_disable o p
resume_disable o p (Removing.restoring e) answer = end_restored p e answer
resume_disable o p _ answer = fail_removal disabling p (error_of answer)

abbrev pub after_registry : Prior → Option GovernanceError → M Progress
after_registry p (some e) = fail_removal uninstalling p e
after_registry p none = waits (uninstalling p Removing.registered)

unfoldable pub drop_from_registry : Prior → M Progress
unfolding fail_removal
drop_from_registry p = do
  tried ← attempt (change_registry (transition_status p.owner p.version LifecycleStatus.disabled))
  after_registry p tried

unfoldable pub commit_uninstall : Outside → Prior → M Progress
commit_uninstall o p = do
  snapshot ← capture_snapshot o
  update (λ s. record s { current = some snapshot; last_known_good = some snapshot })
  waits (uninstalling p Removing.committed)

-- the hold stands before the `try` block: an error there leaves the mutation in progress
unfoldable pub resume_uninstall : Outside → Prior → Removing → Answer → M Progress
unfolding drop_from_registry commit_uninstall fail_removal end_restored
resume_uninstall o p Removing.held resolves = waits (uninstalling p unloading)
resume_uninstall o p Removing.held answer = throw (error_of answer)
resume_uninstall o p unloading resolves = drop_from_registry p
resume_uninstall o p unloading answer = fail_removal uninstalling p (error_of answer)
resume_uninstall o p Removing.registered resolves = commit_uninstall o p
resume_uninstall o p Removing.registered crashes = crash_removal "uninstall-registry-commit"
resume_uninstall o p Removing.registered answer = fail_removal uninstalling p (error_of answer)
resume_uninstall o p Removing.committed crashes = crash_removal "uninstall-commit"
resume_uninstall o p Removing.committed _ = release
resume_uninstall o p (Removing.restoring e) answer = end_restored p e answer
