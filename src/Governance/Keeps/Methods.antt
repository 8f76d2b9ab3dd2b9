-- ===== src/Governance/Keeps/Methods.antt =====
-- domain/governance/service.ts: activation, removal and Safe Mode leave the approvals alone.
use dsh_assistant.Prelude.{
  ◌≡◌, text_equality, number_equality, String, Bool, Bool-cases, inl, inr, refl, ◌∙◌,
}
use dsh_assistant.Governance.State.{Outside, commit_registry}
use dsh_assistant.Governance.Activation.{
  begin_activation, commit_candidate, crash_activation, end_failed, fail_activation,
  finish_activation, release_activation, resume_activation, message_of,
}
use dsh_assistant.Governance.Keeps.{Keeps, approvals_of, Frames-Keeps, update-Keeps, keeps}
use dsh_assistant.Governance.Frame.Helpers.{
  capture_snapshot-Frames, restore_owners-Frames, commit_registry-Frames, good_or_captured-Frames,
}
use dsh_assistant.Candidate.Types.{CandidateRecord}
use dsh_assistant.Governance.Frame.{
  owners_from_registry-Frames, ask_registry-Frames, change_registry-Frames,
}
use dsh_assistant.Governance.Types.{ActivationSnapshot, is_starting, ActivationPhase, commit}
use dsh_assistant.Governance.Running.{
  Activating, Answer, refuses, rejects, preparing, prepared, checking, committing, resolves,
  crashes,
}
use dsh_assistant.Prelude.Result.{Result-cases}
use dsh_assistant.Governance.Keeps.Gate.{eligibility-Keeps, with_facts-Keeps}

pub ruleset parts = (
  keeps, Frames-Keeps, update-Keeps, eligibility-Keeps, with_facts-Keeps, good_or_captured-Frames,
  capture_snapshot-Frames, owners_from_registry-Frames, ask_registry-Frames, change_registry-Frames,
)

pub begin_activation-Keeps :
    (o : Outside) (id : String) (trusted : Bool)
    → Keeps approvals_of (begin_activation o id trusted)
unfolding begin_activation
begin_activation-Keeps o id trusted = search parts fits 3000 depth 30

release_activation-Keeps : Keeps approvals_of release_activation
unfolding Keeps release_activation
release_activation-Keeps s = elim (Bool-cases (is_starting s.state)) [
  | inl p ↦ rw p refl
  | inr p ↦ rw p refl
]

fail_activation-Keeps :
    (o : Outside) (c : CandidateRecord) (previous : ActivationSnapshot) (phase : ActivationPhase)
    (diagnostics : String)
    → Keeps approvals_of (fail_activation o c previous phase diagnostics)
unfolding fail_activation
fail_activation-Keeps o c previous phase diagnostics = search parts

crash_activation-Keeps : (point : String) → Keeps approvals_of (crash_activation point)
unfolding crash_activation
crash_activation-Keeps point = search (parts, release_activation-Keeps)

commit_candidate-Keeps :
    (o : Outside) (c : CandidateRecord) (previous : ActivationSnapshot)
    → Keeps approvals_of (commit_candidate o c previous)
unfolding commit_candidate Keeps
commit_candidate-Keeps o c previous s =
    let h : (commit_registry o c s).1.approvals ≡ s.approvals =
      Frames-Keeps (commit_registry o c) (commit_registry-Frames o c) s in
    elim (Result-cases (commit_registry o c s).0) [
      | inl (e, p) ↦
          rw p
            (fail_activation-Keeps o c previous commit (message_of e) (commit_registry o c s).1 ∙ h)
      | inr (a, p) ↦ rw p h
    ]

finish_activation-Keeps :
    (o : Outside) (c : CandidateRecord) (previous : ActivationSnapshot)
    → Keeps approvals_of (finish_activation o c previous)
unfolding finish_activation
finish_activation-Keeps o c previous = search parts depth 10

end_failed-Keeps :
    (o : Outside) (c : CandidateRecord) (previous : ActivationSnapshot) (phase : ActivationPhase)
    (diagnostics : String) (restored : Bool)
    → Keeps approvals_of (end_failed o c previous phase diagnostics restored)
unfolding end_failed
end_failed-Keeps o c previous phase diagnostics restored =
    search (parts, release_activation-Keeps) depth 12

ruleset endings = (
  parts, release_activation-Keeps, fail_activation-Keeps, crash_activation-Keeps,
  commit_candidate-Keeps, finish_activation-Keeps, end_failed-Keeps, restore_owners-Frames,
)

pub resume_activation-Keeps :
    (o : Outside) (c : CandidateRecord) (previous : ActivationSnapshot) (stage : Activating)
    (answer : Answer)
    → Keeps approvals_of (resume_activation o c previous stage answer)
unfolding resume_activation
resume_activation-Keeps o c previous Activating.held resolves = search endings
resume_activation-Keeps o c previous Activating.held crashes = search endings
resume_activation-Keeps o c previous Activating.held (refuses d) = search endings
resume_activation-Keeps o c previous Activating.held (rejects d) = search endings
resume_activation-Keeps o c previous preparing resolves = search endings
resume_activation-Keeps o c previous preparing crashes = search endings
resume_activation-Keeps o c previous preparing (refuses d) = search endings
resume_activation-Keeps o c previous preparing (rejects d) = search endings
resume_activation-Keeps o c previous prepared resolves = search endings
resume_activation-Keeps o c previous prepared crashes = search endings
resume_activation-Keeps o c previous prepared (refuses d) = search endings
resume_activation-Keeps o c previous prepared (rejects d) = search endings
resume_activation-Keeps o c previous checking resolves = search endings
resume_activation-Keeps o c previous checking crashes = search endings
resume_activation-Keeps o c previous checking (refuses d) = search endings
resume_activation-Keeps o c previous checking (rejects d) = search endings
resume_activation-Keeps o c previous Activating.registered resolves = search endings
resume_activation-Keeps o c previous Activating.registered crashes = search endings
resume_activation-Keeps o c previous Activating.registered (refuses d) = search endings
resume_activation-Keeps o c previous Activating.registered (rejects d) = search endings
resume_activation-Keeps o c previous committing resolves = search endings
resume_activation-Keeps o c previous committing crashes = search endings
resume_activation-Keeps o c previous committing (refuses d) = search endings
resume_activation-Keeps o c previous committing (rejects d) = search endings
resume_activation-Keeps o c previous Activating.committed resolves = search endings
resume_activation-Keeps o c previous Activating.committed crashes = search endings
resume_activation-Keeps o c previous Activating.committed (refuses d) = search endings
resume_activation-Keeps o c previous Activating.committed (rejects d) = search endings
resume_activation-Keeps o c previous (Activating.restoring phase diagnostics prior) answer =
    search endings
