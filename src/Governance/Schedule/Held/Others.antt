-- ===== src/Governance/Schedule/Held/Others.antt =====
-- domain/governance/service.ts: removal and Safe Mode while they wait, and the methods that begin.
use dsh_assistant.Governance.Schedule.Held.{
  kind_of, Held, mutation_of, waits-Held, holding, resume_activation-Held,
}
use dsh_assistant.Prelude.{
  if◌then◌else◌, text_equality, number_equality, String, ◌≡◌, refl, inl, inr, Bool, true, false,
  Option, none, some,
}
use dsh_assistant.Prelude.Result.{Result-cases}
use dsh_assistant.Governance.Types.{
  LifecycleMutation, recovery, ActivationSnapshot, GovernanceError,
}
use dsh_assistant.Governance.State.{Outside, M}
use dsh_assistant.Governance.Running.{
  Progress, Answer, resolves, crashes, refuses, rejects, Removing, unloading, Prior, Running,
  starting, disabling, uninstalling, entering_safe_mode,
}
use dsh_assistant.Governance.SafeMode.{resume_safe_mode}
use dsh_assistant.Governance.Removal.{
  attempt, safe_mode_on, end_removal, wait_or_end, fail_removal, end_restored, release,
  crash_removal, after_disabled, finish_disable, resume_disable, after_registry, drop_from_registry,
  commit_uninstall, resume_uninstall,
}
use dsh_assistant.Governance.Keeps.{Keeps}
use dsh_assistant.Governance.Schedule.{resume}

attempt-mutation : (m : M (Unit {0})) → Keeps mutation_of m → Keeps mutation_of (attempt m)
unfolding Keeps
attempt-mutation m h s = elim (Result-cases (m s).0) [
  | inl (e, p) ↦ rw p (h s)
  | inr (a, p) ↦ rw p (h s)
]

safe_mode_on-mutation : (tried : Option GovernanceError) → Keeps mutation_of (safe_mode_on tried)
unfolding Keeps
safe_mode_on-mutation none s = refl
safe_mode_on-mutation (some e) s = refl

end_removal-Held :
    (kind : LifecycleMutation) (p : Prior) (e : GovernanceError) → Held kind (end_removal p e)
unfolding end_removal Held
end_removal-Held kind p e s h = tt

release-Held : (kind : LifecycleMutation) → Held kind release
unfolding Held
release-Held kind s h = tt

crash_removal-Held : (kind : LifecycleMutation) (point : String) → Held kind (crash_removal point)
unfolding Held
crash_removal-Held kind point s h = tt

module _ (kind : LifecycleMutation) (again : Prior → Removing → Running)
    (same : (p : Prior) (stage : Removing) → kind_of (again p stage) ≡ kind) where
  wait_or_end-Held :
      (p : Prior) (e : GovernanceError) (current : Option ActivationSnapshot)
      → Held kind (wait_or_end again p e current)
  wait_or_end-Held p e none = end_removal-Held kind p e
  wait_or_end-Held p e (some snapshot) = waits-Held kind _ (same p (Removing.restoring e))

  fail_removal-Held : (p : Prior) (e : GovernanceError) → Held kind (fail_removal again p e)
  unfolding fail_removal
  fail_removal-Held p e =
      search (holding, attempt-mutation, safe_mode_on-mutation, wait_or_end-Held) depth 12

end_restored-Held :
    (kind : LifecycleMutation) (p : Prior) (e : GovernanceError) (answer : Answer)
    → Held kind (end_restored p e answer)
unfolding end_restored
end_restored-Held kind p e answer = search (holding, safe_mode_on-mutation, end_removal-Held)

if-Held :
    (kind : LifecycleMutation) (b : Bool) (m n : M Progress)
    → Held kind m
    → Held kind n
    → Held kind (if b then m else n)
if-Held kind true m n h k = h
if-Held kind false m n h k = k

disabling_kind :
    (p : Prior) (stage : Removing) → kind_of (disabling p stage) ≡ LifecycleMutation.disable
disabling_kind p stage = refl

uninstalling_kind :
    (p : Prior) (stage : Removing) → kind_of (uninstalling p stage) ≡ LifecycleMutation.uninstall
uninstalling_kind p stage = refl

fail_disable-Held :
    (p : Prior) (e : GovernanceError) → Held LifecycleMutation.disable (fail_removal disabling p e)
fail_disable-Held = fail_removal-Held LifecycleMutation.disable disabling disabling_kind

fail_uninstall-Held :
    (p : Prior) (e : GovernanceError)
    → Held LifecycleMutation.uninstall (fail_removal uninstalling p e)
fail_uninstall-Held = fail_removal-Held LifecycleMutation.uninstall uninstalling uninstalling_kind

ruleset removed = (
  holding, attempt-mutation, end_removal-Held, release-Held, crash_removal-Held, fail_disable-Held,
  fail_uninstall-Held, end_restored-Held,
)

after_disabled-Held :
    (o : Outside) (p : Prior) (tried : Option GovernanceError)
    → Held LifecycleMutation.disable (after_disabled o p tried)
after_disabled-Held o p none = search removed depth 10
after_disabled-Held o p (some e) = search removed

finish_disable-Held :
    (o : Outside) (p : Prior) → Held LifecycleMutation.disable (finish_disable o p)
unfolding finish_disable
finish_disable-Held o p = search (removed, after_disabled-Held)

after_registry-Held :
    (p : Prior) (tried : Option GovernanceError)
    → Held LifecycleMutation.uninstall (after_registry p tried)
after_registry-Held p none = search removed
after_registry-Held p (some e) = search removed

drop_from_registry-Held : (p : Prior) → Held LifecycleMutation.uninstall (drop_from_registry p)
unfolding drop_from_registry
drop_from_registry-Held p = search (removed, after_registry-Held)

commit_uninstall-Held :
    (o : Outside) (p : Prior) → Held LifecycleMutation.uninstall (commit_uninstall o p)
unfolding commit_uninstall
commit_uninstall-Held o p = search removed depth 10

resume_disable-Held :
    (o : Outside) (p : Prior) (stage : Removing) (answer : Answer)
    → Held LifecycleMutation.disable (resume_disable o p stage answer)
unfolding resume_disable
resume_disable-Held o p Removing.held resolves = search (removed, finish_disable-Held, if-Held)
resume_disable-Held o p Removing.held crashes = search removed
resume_disable-Held o p Removing.held (refuses d) = search removed
resume_disable-Held o p Removing.held (rejects d) = search removed
resume_disable-Held o p unloading resolves = search (removed, finish_disable-Held)
resume_disable-Held o p unloading crashes = search removed
resume_disable-Held o p unloading (refuses d) = search removed
resume_disable-Held o p unloading (rejects d) = search removed
resume_disable-Held o p Removing.registered resolves = search removed
resume_disable-Held o p Removing.registered crashes = search removed
resume_disable-Held o p Removing.registered (refuses d) = search removed
resume_disable-Held o p Removing.registered (rejects d) = search removed
resume_disable-Held o p Removing.committed resolves = search removed
resume_disable-Held o p Removing.committed crashes = search removed
resume_disable-Held o p Removing.committed (refuses d) = search removed
resume_disable-Held o p Removing.committed (rejects d) = search removed
resume_disable-Held o p (Removing.restoring e) answer = search removed

ruleset uninstalled = (removed, drop_from_registry-Held, commit_uninstall-Held)

resume_uninstall-Held :
    (o : Outside) (p : Prior) (stage : Removing) (answer : Answer)
    → Held LifecycleMutation.uninstall (resume_uninstall o p stage answer)
unfolding resume_uninstall
resume_uninstall-Held o p Removing.held resolves = search uninstalled
resume_uninstall-Held o p Removing.held crashes = search uninstalled
resume_uninstall-Held o p Removing.held (refuses d) = search uninstalled
resume_uninstall-Held o p Removing.held (rejects d) = search uninstalled
resume_uninstall-Held o p unloading resolves = search uninstalled
resume_uninstall-Held o p unloading crashes = search uninstalled
resume_uninstall-Held o p unloading (refuses d) = search uninstalled
resume_uninstall-Held o p unloading (rejects d) = search uninstalled
resume_uninstall-Held o p Removing.registered resolves = search uninstalled
resume_uninstall-Held o p Removing.registered crashes = search uninstalled
resume_uninstall-Held o p Removing.registered (refuses d) = search uninstalled
resume_uninstall-Held o p Removing.registered (rejects d) = search uninstalled
resume_uninstall-Held o p Removing.committed resolves = search uninstalled
resume_uninstall-Held o p Removing.committed crashes = search uninstalled
resume_uninstall-Held o p Removing.committed (refuses d) = search uninstalled
resume_uninstall-Held o p Removing.committed (rejects d) = search uninstalled
resume_uninstall-Held o p (Removing.restoring e) answer = search removed

resume_safe_mode-Held : (answer : Answer) → Held recovery (resume_safe_mode answer)
unfolding Held
resume_safe_mode-Held resolves s e = tt
resume_safe_mode-Held crashes s e = tt
resume_safe_mode-Held (refuses d) s e = tt
resume_safe_mode-Held (rejects d) s e = tt

pub resume-Held :
    (o : Outside) (r : Running) (answer : Answer) → Held (kind_of r) (resume o r answer)
unfolding resume
resume-Held o (starting c previous stage) answer = resume_activation-Held o c previous stage answer
resume-Held o (disabling p stage) answer = resume_disable-Held o p stage answer
resume-Held o (uninstalling p stage) answer = resume_uninstall-Held o p stage answer
resume-Held o entering_safe_mode answer = resume_safe_mode-Held answer
