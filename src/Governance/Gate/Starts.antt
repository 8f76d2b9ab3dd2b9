-- ===== src/Governance/Gate/Starts.antt =====
-- domain/governance/service.ts: what a started activation stands on.
use dsh_assistant.Prelude.{any, text_equality, number_equality, String, ◌≡◌, Bool, true, none, List}
use dsh_assistant.Prelude.Result.{ok}
use dsh_assistant.Registry.Service.{Registry}
use dsh_assistant.Candidate.Types.{CandidateRecord}
use dsh_assistant.Governance.State.{Governance, Outside, lifecycle_busy}
use dsh_assistant.Governance.Fingerprint.{facts}
use dsh_assistant.Governance.Running.{Progress}
use dsh_assistant.Governance.Activation.{begin_activation}
use dsh_assistant.Governance.Gate.{begin_activation-Passed, subst}
use dsh_assistant.Governance.Gate.Cleared.{Cleared, activation_denials-[]}
use dsh_assistant.Governance.Granted.{grants}
use dsh_assistant.Governance.Granted.Runs.{in_force_was_granted}
use dsh_assistant.Governance.Schedule.{Call, run, new_world}
use mathlib.Core.Path.{subst}

-- Where `activate` comes to its first await, the credential was the recovery root's and no other
-- lifecycle change was in progress. The candidate is then known, sealed and validated, its digest is that
-- of its validation and of the files where they are there, its last review is complete, of this digest
-- and policy and without an open blocker, the approval in force is of the fingerprint that the
-- candidate has now, no recovery is required, the candidate is not one that Safe Mode excludes,
-- and no capability has two active owners.
pub started_was_cleared :
    (o : Outside) (id : String) (trusted : Bool) (s : Governance) (progress : Progress)
    → (begin_activation o id trusted s).0 ≡ ok progress
    → (trusted ≡ true)
      × (lifecycle_busy s ≡ none)
      × (found : CandidateRecord × String) × (facts o id ≡ ok found)
      × Cleared o id found.0 found.1 s
started_was_cleared o id trusted s progress h =
    let (trust, idle, cleared, found, e, previous, same) =
      begin_activation-Passed o id trusted s progress h in
    (trust, idle, found, e, activation_denials-[] o id s found e cleared)

-- After any calls to a new service, an activation that comes to its first await is of a candidate whose
-- fingerprint at that moment a person approved: one of the calls was `recordApproval` with a credential
-- of the recovery root, for this candidate and this fingerprint.
pub started_was_granted :
    (built : Outside) (registry : Registry) (calls : List Call) (o : Outside) (id : String)
    (trusted : Bool) (progress : Progress)
    → (begin_activation o id trusted (run calls (new_world built registry)).governance).0
      ≡ ok progress
    → (found : CandidateRecord × String) × (facts o id ≡ ok found)
      × (any (λ call. grants call id found.1) calls ≡ true)
started_was_granted built registry calls o id trusted progress h =
    let (
      trust,
      idle,
      found,
      e,
      (known, presentable, (a, at, approved, same), recovered, safe, agreed),
    ) =
      started_was_cleared o id trusted (run calls (new_world built registry)).governance progress
        h in
    (
      found,
      e,
      subst (λ f. any (λ call. grants call id f) calls ≡ true) same
          (in_force_was_granted built registry calls id a at approved),
    )
