-- ===== src/Governance/Keeps/Others.antt =====
-- domain/governance/service.ts: removal and Safe Mode leave the approvals alone.
use dsh_assistant.Governance.Keeps.Methods.{parts}
use dsh_assistant.Prelude.{
  text_equality, number_equality, String, refl, inl, inr, Bool, Option, none, some,
}
use dsh_assistant.Prelude.Result.{Result-cases}
use dsh_assistant.Registry.Types.{RegistryRecord}
use dsh_assistant.Governance.Types.{ActivationSnapshot, GovernanceError}
use dsh_assistant.Governance.State.{Outside, M}
use dsh_assistant.Governance.Running.{
  Answer, resolves, crashes, refuses, rejects, Removing, unloading, Prior, Running,
}
use dsh_assistant.Governance.SafeMode.{
  released, withhold_isolated, begin_safe_mode, resume_safe_mode, exit_safe_mode,
}
use dsh_assistant.Governance.Removal.{
  plugin_dependents, record_denials, uninstall_denials, begin_disable, begin_uninstall, attempt,
  safe_mode_on, end_removal, wait_or_end, fail_removal, end_restored, release, crash_removal,
  after_disabled, finish_disable, resume_disable, after_registry, drop_from_registry,
  commit_uninstall, resume_uninstall,
}
use dsh_assistant.Governance.Frame.{Frames, frame}
use dsh_assistant.Governance.Frame.Helpers.{disable_isolated-Frames}
use dsh_assistant.Governance.Keeps.{Keeps, approvals_of}

released-Keeps {ℓ} :
    {A : Type ℓ} (m : M A) → Keeps approvals_of m → Keeps approvals_of (λ s. released (m s))
unfolding Keeps
released-Keeps m h s = elim (Result-cases (m s).0) [
  | inl (e, p) ↦ rw p (h s)
  | inr (a, p) ↦ rw p (h s)
]

withhold_isolated-Keeps : (o : Outside) → Keeps approvals_of (withhold_isolated o)
unfolding withhold_isolated
withhold_isolated-Keeps o = search (parts, disable_isolated-Frames) depth 12

pub begin_safe_mode-Keeps :
    (o : Outside) (trusted : Bool) → Keeps approvals_of (begin_safe_mode o trusted)
unfolding begin_safe_mode
begin_safe_mode-Keeps o trusted = search (parts, released-Keeps, withhold_isolated-Keeps) depth 12

pub resume_safe_mode-Keeps : (answer : Answer) → Keeps approvals_of (resume_safe_mode answer)
unfolding Keeps
resume_safe_mode-Keeps resolves s = refl
resume_safe_mode-Keeps crashes s = refl
resume_safe_mode-Keeps (refuses d) s = refl
resume_safe_mode-Keeps (rejects d) s = refl

pub exit_safe_mode-Keeps :
    (o : Outside) (trusted : Bool) → Keeps approvals_of (exit_safe_mode o trusted)
unfolding exit_safe_mode
exit_safe_mode-Keeps o trusted = search parts fits 3000 depth 20

plugin_dependents-Frames : (o : Outside) (r : RegistryRecord) → Frames (plugin_dependents o r)
unfolding plugin_dependents
plugin_dependents-Frames o r = search frame

record_denials-Frames :
    (o : Outside) (key : String) (acknowledged : Bool) (found : Option RegistryRecord)
    → Frames (record_denials o key acknowledged found)
record_denials-Frames o key acknowledged none = search frame
record_denials-Frames o key acknowledged (some r) = search (frame, plugin_dependents-Frames)

uninstall_denials-Frames :
    (o : Outside) (owner version : String) (acknowledged : Bool)
    → Frames (uninstall_denials o owner version acknowledged)
unfolding uninstall_denials
uninstall_denials-Frames o owner version acknowledged = search (frame, record_denials-Frames)

pub begin_disable-Keeps :
    (o : Outside) (trusted : Bool) (owner version : String)
    → Keeps approvals_of (begin_disable o trusted owner version)
unfolding begin_disable
begin_disable-Keeps o trusted owner version = search parts fits 3000 depth 20

pub begin_uninstall-Keeps :
    (o : Outside) (trusted : Bool) (owner version : String) (acknowledged : Bool)
    → Keeps approvals_of (begin_uninstall o trusted owner version acknowledged)
unfolding begin_uninstall
begin_uninstall-Keeps o trusted owner version acknowledged =
    search (parts, uninstall_denials-Frames) fits 3000 depth 20

attempt-Keeps : (m : M (Unit {0})) → Keeps approvals_of m → Keeps approvals_of (attempt m)
unfolding Keeps
attempt-Keeps m h s = elim (Result-cases (m s).0) [
  | inl (e, p) ↦ rw p (h s)
  | inr (a, p) ↦ rw p (h s)
]

safe_mode_on-Keeps : (tried : Option GovernanceError) → Keeps approvals_of (safe_mode_on tried)
unfolding Keeps
safe_mode_on-Keeps none s = refl
safe_mode_on-Keeps (some e) s = refl

end_removal-Keeps : (p : Prior) (e : GovernanceError) → Keeps approvals_of (end_removal p e)
unfolding end_removal Keeps
end_removal-Keeps p e s = refl

wait_or_end-Keeps :
    (again : Prior → Removing → Running) (p : Prior) (e : GovernanceError)
    (current : Option ActivationSnapshot)
    → Keeps approvals_of (wait_or_end again p e current)
unfolding Keeps
wait_or_end-Keeps again p e none s = end_removal-Keeps p e s
wait_or_end-Keeps again p e (some snapshot) s = refl

ruleset removals = (parts, attempt-Keeps, safe_mode_on-Keeps, end_removal-Keeps, wait_or_end-Keeps)

fail_removal-Keeps :
    (again : Prior → Removing → Running) (p : Prior) (e : GovernanceError)
    → Keeps approvals_of (fail_removal again p e)
unfolding fail_removal
fail_removal-Keeps again p e = search removals depth 12

end_restored-Keeps :
    (p : Prior) (e : GovernanceError) (answer : Answer)
    → Keeps approvals_of (end_restored p e answer)
unfolding end_restored
end_restored-Keeps p e answer = search removals

release-Keeps : Keeps approvals_of release
unfolding Keeps
release-Keeps s = refl

crash_removal-Keeps : (point : String) → Keeps approvals_of (crash_removal point)
unfolding Keeps
crash_removal-Keeps point s = refl

ruleset removed =
    (removals, fail_removal-Keeps, end_restored-Keeps, release-Keeps, crash_removal-Keeps)

after_disabled-Keeps :
    (o : Outside) (p : Prior) (tried : Option GovernanceError)
    → Keeps approvals_of (after_disabled o p tried)
after_disabled-Keeps o p none = search removed depth 10
after_disabled-Keeps o p (some e) = search removed

finish_disable-Keeps : (o : Outside) (p : Prior) → Keeps approvals_of (finish_disable o p)
unfolding finish_disable
finish_disable-Keeps o p = search (removed, after_disabled-Keeps)

after_registry-Keeps :
    (p : Prior) (tried : Option GovernanceError) → Keeps approvals_of (after_registry p tried)
after_registry-Keeps p none = search removed
after_registry-Keeps p (some e) = search removed

drop_from_registry-Keeps : (p : Prior) → Keeps approvals_of (drop_from_registry p)
unfolding drop_from_registry
drop_from_registry-Keeps p = search (removed, after_registry-Keeps)

commit_uninstall-Keeps : (o : Outside) (p : Prior) → Keeps approvals_of (commit_uninstall o p)
unfolding commit_uninstall
commit_uninstall-Keeps o p = search removed depth 10

pub resume_disable-Keeps :
    (o : Outside) (p : Prior) (stage : Removing) (answer : Answer)
    → Keeps approvals_of (resume_disable o p stage answer)
unfolding resume_disable
resume_disable-Keeps o p Removing.held resolves = search (removed, finish_disable-Keeps)
resume_disable-Keeps o p Removing.held crashes = search removed
resume_disable-Keeps o p Removing.held (refuses d) = search removed
resume_disable-Keeps o p Removing.held (rejects d) = search removed
resume_disable-Keeps o p unloading resolves = finish_disable-Keeps o p
resume_disable-Keeps o p unloading crashes = search removed
resume_disable-Keeps o p unloading (refuses d) = search removed
resume_disable-Keeps o p unloading (rejects d) = search removed
resume_disable-Keeps o p Removing.registered answer = search removed
resume_disable-Keeps o p Removing.committed answer = search removed
resume_disable-Keeps o p (Removing.restoring e) answer = search removed

ruleset uninstalled = (removed, drop_from_registry-Keeps, commit_uninstall-Keeps)

pub resume_uninstall-Keeps :
    (o : Outside) (p : Prior) (stage : Removing) (answer : Answer)
    → Keeps approvals_of (resume_uninstall o p stage answer)
unfolding resume_uninstall
resume_uninstall-Keeps o p Removing.held resolves = search uninstalled
resume_uninstall-Keeps o p Removing.held crashes = search uninstalled
resume_uninstall-Keeps o p Removing.held (refuses d) = search uninstalled
resume_uninstall-Keeps o p Removing.held (rejects d) = search uninstalled
resume_uninstall-Keeps o p unloading resolves = search uninstalled
resume_uninstall-Keeps o p unloading crashes = search uninstalled
resume_uninstall-Keeps o p unloading (refuses d) = search uninstalled
resume_uninstall-Keeps o p unloading (rejects d) = search uninstalled
resume_uninstall-Keeps o p Removing.registered resolves = search uninstalled
resume_uninstall-Keeps o p Removing.registered crashes = search uninstalled
resume_uninstall-Keeps o p Removing.registered (refuses d) = search uninstalled
resume_uninstall-Keeps o p Removing.registered (rejects d) = search uninstalled
resume_uninstall-Keeps o p Removing.committed resolves = search uninstalled
resume_uninstall-Keeps o p Removing.committed crashes = search uninstalled
resume_uninstall-Keeps o p Removing.committed (refuses d) = search uninstalled
resume_uninstall-Keeps o p Removing.committed (rejects d) = search uninstalled
resume_uninstall-Keeps o p (Removing.restoring e) answer = search uninstalled
