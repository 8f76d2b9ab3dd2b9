-- ===== src/Governance/Running.antt =====
-- domain/governance/service.ts: an asynchronous method that waits, and what it is told when it resumes.
use dsh_assistant.Prelude.{text_equality, number_equality, String, Option, none, some, List, Bool}
use dsh_assistant.Candidate.Types.{CandidateRecord}
use dsh_assistant.Governance.Types.{
  ActivationPhase, SnapshotOwner, ActivationSnapshot, GovernanceError,
}
use dsh_assistant.Governance.State.{M, return}

-- What a promise gives: it resolves, resolves with `ok: false` and diagnostics, or rejects with a
-- message; `crashes` is a `SimulatedCrashError` of `maybeInterrupt`, and elsewhere a rejection with no
-- message.
pub data Answer : Type 0 where
  resolves crashes : Answer
  refuses : Option String → Answer
  rejects : String → Answer

-- The awaits of `activate`, in its order, each with the local variables that are read after it.
pub data Activating : Type 0 where
  held preparing prepared checking registered committing committed : Activating
  -- `runtime.restore` in the `catch` block, with the owners that were active before it
  restoring : ActivationPhase → String → List SnapshotOwner → Activating

-- The awaits of `disable` and of `uninstall`: the hold, the unloading, `maybeInterrupt` after the
-- registry and after the end, and `runtime.restore` in the `catch` block with the error.
pub data Removing : Type 0 where
  held unloading registered committed : Removing
  restoring : GovernanceError → Removing

-- what a removal took from the state when it began
pub record Prior : Type 0 where
  pub owner : String
  pub version : String
  pub has_candidate : Bool
  pub current : Option ActivationSnapshot
  pub last_known_good : Option ActivationSnapshot

pub data Running : Type 0 where
  starting : CandidateRecord → ActivationSnapshot → Activating → Running
  disabling uninstalling : Prior → Removing → Running
  entering_safe_mode : Running

-- a method that has returned, or that waits again
abbrev pub Progress : Type 0
Progress = Option Running

abbrev pub waits : Running → M Progress
waits r = return (some r)

abbrev pub done : M Progress
done = return none
