-- ===== src/Governance/Schedule/Held.antt =====
-- domain/governance/service.ts: a method that waits keeps the lifecycle change in progress.
pub mod Others
use dsh_assistant.Prelude.{
  text_equality, number_equality, String, ◌≡◌, refl, ap, ◌∙◌, inl, inr, Bool, Option, none, some,
}
use dsh_assistant.Prelude.Result.{Result, ok, raise, Result-cases}
use dsh_assistant.Candidate.Types.{CandidateRecord}
use dsh_assistant.Governance.Types.{
  ActivationPhase, commit, LifecycleMutation, activation, recovery, ActivationSnapshot,
  GovernanceError,
}
use dsh_assistant.Governance.State.{Governance, Outside, M, ◌>>=◌, ◌>>◌, throw, commit_registry}
use dsh_assistant.Governance.Running.{Progress}
use dsh_assistant.Governance.Running.{
  Progress, done, Answer, resolves, crashes, refuses, rejects, Activating, preparing, prepared,
  checking, committing, Running, starting, disabling, uninstalling, entering_safe_mode, waits,
}
use dsh_assistant.Governance.Activation.{
  update, message_of, fail_activation, crash_activation, commit_candidate, finish_activation,
  end_failed, resume_activation,
}
use dsh_assistant.Governance.Frame.{
  Framed, Framed-trans, Frames, then-Frames, return-Frames, read-Frames, if-Frames,
  ask_registry-Frames, change_registry-Frames, frame, owners_from_registry-Frames,
}
use dsh_assistant.Governance.Frame.Helpers.{
  capture_snapshot-Frames, disable_unwanted-Frames, enable_wanted-Frames,
  apply_registry_owners-Frames, disable_isolated-Frames, commit_registry-Frames,
  restore_owners-Frames, good_or_captured-Frames,
}
use dsh_assistant.Governance.Keeps.{
  Keeps, then-Keeps, return-Keeps, throw-Keeps, read-Keeps, if-Keeps, ask_registry-Keeps,
  ensure-Keeps, assert_mutation_idle-Keeps, assert_credential-Keeps, approvals_of, Frames-Keeps,
  update-Keeps, keeps,
}

abbrev pub kind_of : Running → LifecycleMutation
kind_of (starting c previous stage) = activation
kind_of (disabling p stage) = LifecycleMutation.disable
kind_of (uninstalling p stage) = LifecycleMutation.uninstall
kind_of entering_safe_mode = recovery

-- a method that waits is of the kind of change that is in progress
abbrev pub Waits : LifecycleMutation → Result GovernanceError Progress × Governance → Type 0
Waits kind (ok (some r), s) = (kind_of r ≡ kind) × (s.mutation ≡ some kind)
Waits kind (ok none, s) = Unit
Waits kind (raise e, s) = Unit

unfoldable pub Held : LifecycleMutation → M Progress → Type 0
Held kind m = (s : Governance) → s.mutation ≡ some kind → Waits kind (m s)

abbrev pub mutation_of : Governance → Option LifecycleMutation
mutation_of s = s.mutation

pub then-Held {ℓ} :
    {A : Type ℓ} (kind : LifecycleMutation) (m : M A) (k : A → M Progress)
    → Keeps mutation_of m
    → ((a : A) → Held kind (k a))
    → Held kind (m >>= k)
unfolding ◌>>=◌ Held Keeps
then-Held kind m k h next s e = elim (Result-cases (m s).0) [
  | inl (error, p) ↦ rw p tt
  | inr (a, p) ↦ rw p (next a (m s).1 (h s ∙ e))
]

pub waits-Held : (kind : LifecycleMutation) (r : Running) → kind_of r ≡ kind → Held kind (waits r)
unfolding Held
waits-Held kind r same s e = (same, e)

pub ended-Held : (kind : LifecycleMutation) (m : M (Unit {0})) → Held kind (m >> done)
unfolding ◌>>=◌ Held
ended-Held kind m s e = elim (Result-cases (m s).0) [
  | inl (error, p) ↦ rw p tt
  | inr (a, p) ↦ rw p tt
]

pub thrown-Held :
    (kind : LifecycleMutation) (m : M (Unit {0})) (e : GovernanceError) → Held kind (m >> throw e)
unfolding ◌>>=◌ Held
thrown-Held kind m error s e = elim (Result-cases (m s).0) [
  | inl (error', p) ↦ rw p tt
  | inr (a, p) ↦ rw p tt
]

pub throw-Held : (kind : LifecycleMutation) (e : GovernanceError) → Held kind (throw e)
unfolding Held
throw-Held kind error s e = tt

pub Frames-mutation {ℓ} : {A : Type ℓ} (m : M A) → Frames m → Keeps mutation_of m
unfolding Frames Keeps
Frames-mutation m h s = ap mutation_of (h s)

pub update-mutation :
    (g : Governance → Governance)
    → ((s : Governance) → (g s).mutation ≡ s.mutation)
    → Keeps mutation_of (update g)
unfolding Keeps
update-mutation g h s = h s

pub ruleset holding = (
  then-Held, waits-Held, ended-Held, thrown-Held, throw-Held, keeps, Frames-mutation,
  update-mutation, capture_snapshot-Frames, owners_from_registry-Frames, ask_registry-Frames,
  change_registry-Frames, restore_owners-Frames, commit_registry-Frames,
)

fail_activation-Held :
    (o : Outside) (c : CandidateRecord) (previous : ActivationSnapshot) (phase : ActivationPhase)
    (diagnostics : String)
    → Held activation (fail_activation o c previous phase diagnostics)
unfolding fail_activation
fail_activation-Held o c previous phase diagnostics = search holding

commit_candidate-Held :
    (o : Outside) (c : CandidateRecord) (previous : ActivationSnapshot)
    → Held activation (commit_candidate o c previous)
unfolding commit_candidate Held Frames
commit_candidate-Held o c previous s e =
    let h : (commit_registry o c s).1.mutation ≡ some activation =
      ap mutation_of (commit_registry-Frames o c s) ∙ e in
    elim (Result-cases (commit_registry o c s).0) [
      | inl (error, p) ↦
          rw p (
            fail_activation-Held o c previous commit (message_of error) (commit_registry o c s).1 h)
      | inr (a, p) ↦ rw p (refl, h)
    ]

finish_activation-Held :
    (o : Outside) (c : CandidateRecord) (previous : ActivationSnapshot)
    → Held activation (finish_activation o c previous)
unfolding finish_activation
finish_activation-Held o c previous = search holding depth 10

crash_activation-Held : (point : String) → Held activation (crash_activation point)
unfolding crash_activation
crash_activation-Held point = search holding

end_failed-Held :
    (o : Outside) (c : CandidateRecord) (previous : ActivationSnapshot) (phase : ActivationPhase)
    (diagnostics : String) (restored : Bool)
    → Held activation (end_failed o c previous phase diagnostics restored)
unfolding end_failed
end_failed-Held o c previous phase diagnostics restored = search holding depth 12

ruleset started = (
  holding, fail_activation-Held, crash_activation-Held, commit_candidate-Held,
  finish_activation-Held, end_failed-Held,
)

pub resume_activation-Held :
    (o : Outside) (c : CandidateRecord) (previous : ActivationSnapshot) (stage : Activating)
    (answer : Answer)
    → Held activation (resume_activation o c previous stage answer)
unfolding resume_activation
resume_activation-Held o c previous Activating.held resolves = search started
resume_activation-Held o c previous Activating.held crashes = search started
resume_activation-Held o c previous Activating.held (refuses d) = search started
resume_activation-Held o c previous Activating.held (rejects d) = search started
resume_activation-Held o c previous preparing resolves = search started
resume_activation-Held o c previous preparing crashes = search started
resume_activation-Held o c previous preparing (refuses d) = search started
resume_activation-Held o c previous preparing (rejects d) = search started
resume_activation-Held o c previous prepared resolves = search started
resume_activation-Held o c previous prepared crashes = search started
resume_activation-Held o c previous prepared (refuses d) = search started
resume_activation-Held o c previous prepared (rejects d) = search started
resume_activation-Held o c previous checking resolves = search started
resume_activation-Held o c previous checking crashes = search started
resume_activation-Held o c previous checking (refuses d) = search started
resume_activation-Held o c previous checking (rejects d) = search started
resume_activation-Held o c previous Activating.registered resolves = search started
resume_activation-Held o c previous Activating.registered crashes = search started
resume_activation-Held o c previous Activating.registered (refuses d) = search started
resume_activation-Held o c previous Activating.registered (rejects d) = search started
resume_activation-Held o c previous committing resolves = search started
resume_activation-Held o c previous committing crashes = search started
resume_activation-Held o c previous committing (refuses d) = search started
resume_activation-Held o c previous committing (rejects d) = search started
resume_activation-Held o c previous Activating.committed resolves = search started
resume_activation-Held o c previous Activating.committed crashes = search started
resume_activation-Held o c previous Activating.committed (refuses d) = search started
resume_activation-Held o c previous Activating.committed (rejects d) = search started
resume_activation-Held o c previous (Activating.restoring phase diagnostics prior) answer =
    search started
