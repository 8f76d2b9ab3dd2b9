-- ===== src/Governance/Schedule.antt =====
-- domain/governance/service.ts: the methods of one service in the order in which their parts run. A
-- method that waits stands among the running ones until it is answered; between two parts, any other
-- call may be made. `rollback`, `remountCommittedGenerated` and `noteIsolatedRuntimeFailure` are not
-- among the calls.
pub mod Held
pub mod Begins
pub mod Single
pub mod Tests
pub mod Alone
use dsh_assistant.Prelude.{
  text_equality, number_equality, ℕ, zero, suc, String, Bool, false, Option, none, some, List, [],
  ◌∷◌,
}
use dsh_assistant.Prelude.Result.{Result, ok, raise}
use dsh_assistant.Governance.Types.{ApprovalAuthority, TrustedApprovalInput, GovernanceError, idle}
use dsh_assistant.Governance.State.{Governance, Outside, M, capture_snapshot, ◌>>=◌}
use dsh_assistant.Governance.Running.{
  Progress, Answer, Running, starting, disabling, uninstalling, entering_safe_mode,
}
use dsh_assistant.Governance.Approvals.{
  request_approval, record_approval, abandon_failed_activation,
}
use dsh_assistant.Governance.Activation.{begin_activation, resume_activation, update}
use dsh_assistant.Governance.Removal.{
  begin_disable, begin_uninstall, resume_disable, resume_uninstall,
}
use dsh_assistant.Governance.SafeMode.{begin_safe_mode, resume_safe_mode, exit_safe_mode}
use dsh_assistant.Registry.Service.{Registry}

-- A call, with what the service reads of its surroundings then and whether the credential is the
-- recovery root's, or the answer that the running method at an index waits for.
pub data Call : Type 0 where
  request : Outside → String → Call
  record_decision : Outside → Bool → ApprovalAuthority → TrustedApprovalInput → Call
  activate : Outside → String → Bool → Call
  abandon : String → String → Bool → Call
  enter_safe_mode : Outside → Bool → Call
  leave_safe_mode : Outside → Bool → Call
  disable_plugin : Outside → Bool → String → String → Call
  uninstall_plugin : Outside → Bool → String → String → Bool → Call
  answered : ℕ → Outside → Answer → Call

pub record World : Type 0 where
  pub governance : Governance
  pub running : List Running

abbrev pub joined : Result GovernanceError Progress → List Running → List Running
joined (ok (some r)) rs = r ∷ rs
joined (ok none) rs = rs
joined (raise e) rs = rs

abbrev pub begun : Result GovernanceError Progress × Governance → List Running → World
begun (progress, s) rs = record { governance = s; running = joined progress rs }

abbrev pub returned {ℓ} :
    {A : Type ℓ} → Result GovernanceError A × Governance → List Running → World
returned (result, s) rs = record { governance = s; running = rs }

unfoldable pub resume : Outside → Running → Answer → M Progress
resume o (starting c previous stage) answer = resume_activation o c previous stage answer
resume o (disabling p stage) answer = resume_disable o p stage answer
resume o (uninstalling p stage) answer = resume_uninstall o p stage answer
resume o entering_safe_mode answer = resume_safe_mode answer

abbrev pub running_at : ℕ → List Running → Option Running
running_at i [] = none
running_at zero (r ∷ rs) = some r
running_at (suc i) (r ∷ rs) = running_at i rs

abbrev pub without : ℕ → List Running → List Running
without i [] = []
without zero (r ∷ rs) = rs
without (suc i) (r ∷ rs) = r ∷ without i rs

abbrev pub resumed : ℕ → Outside → Answer → Option Running → World → World
resumed i o answer none w = w
resumed i o answer (some r) w = begun (resume o r answer w.governance) (without i w.running)

unfoldable pub step : Call → World → World
step (request o id) w = returned (request_approval o id w.governance) w.running
step (record_decision o trusted authority input) w =
    returned (record_approval o trusted authority input w.governance) w.running
step (activate o id trusted) w = begun (begin_activation o id trusted w.governance) w.running
step (abandon id fingerprint trusted) w =
    returned (abandon_failed_activation id fingerprint trusted w.governance) w.running
step (enter_safe_mode o trusted) w = begun (begin_safe_mode o trusted w.governance) w.running
step (leave_safe_mode o trusted) w = returned (exit_safe_mode o trusted w.governance) w.running
step (disable_plugin o trusted owner version) w =
    begun (begin_disable o trusted owner version w.governance) w.running
step (uninstall_plugin o trusted owner version acknowledged) w =
    begun (begin_uninstall o trusted owner version acknowledged w.governance) w.running
step (answered i o answer) w = resumed i o answer (running_at i w.running) w

unfoldable pub run : List Call → World → World
run [] w = w
run (call ∷ calls) w = run calls (step call w)

-- the fields at their initial values, with the registry that the constructor is given
abbrev pub initial_state : Registry → Governance
initial_state registry = record {
  registry = registry;
  approvals = [];
  next_approval = 1;
  generation = 0;
  state = idle;
  current = none;
  last_known_good = none;
  rollback_target = none;
  last_failure = none;
  safe_mode = false;
  integrity_verified = false;
  phase = none;
  pending_candidate_id = none;
  mutation = none;
}

-- the constructor, where nothing is hydrated
abbrev construct : Outside → M (Unit {0})
construct o = do
  snapshot ← capture_snapshot o
  update (λ s. record s { current = some snapshot; last_known_good = some snapshot })

unfoldable pub new_governance : Outside → Registry → Governance
unfolding capture_snapshot ◌>>=◌
new_governance o registry = (construct o (initial_state registry)).1

unfoldable pub new_world : Outside → Registry → World
new_world o registry = record { governance = new_governance o registry; running = [] }
