-- ===== src/Governance/Types.antt =====
-- domain/governance/types.ts and errors.ts. The times of creation and capture, which are written and
-- never read, and the summary that an approval shows to a person are left out.
use dsh_assistant.Prelude.{
  text_equality, number_equality, ℕ, String, Bool, true, false, Option, List,
}
use dsh_assistant.Registry.Types.{RegistryError, LifecycleStatus}

pub data ApprovalDecision : Type 0 where
  unreviewed approval_requested approved_for_exact_diff rejected superseded : ApprovalDecision

pub data ActivationPhase : Type 0 where
  verify_eligibility capture_lkg prepare health commit : ActivationPhase

pub data ActivationState : Type 0 where
  idle activation_pending activating active activation_failed rollback_pending rolled_back
        safe_mode :
      ActivationState

pub data LifecycleMutation : Type 0 where
  activation uninstall disable recovery : LifecycleMutation

-- `source`; the kind is always `human-control`
pub data ApprovalAuthority : Type 0 where
  application_ui recovery_root operator_cli : ApprovalAuthority

pub record ApprovalRecord : Type 0 where
  pub id : String
  pub candidate_id : String
  pub fingerprint : String
  pub decision : ApprovalDecision
  pub authority : Option ApprovalAuthority

pub record EligibilityDenial : Type 0 where
  pub reason : String
  pub detail : String

pub record EligibilityResult : Type 0 where
  pub ok : Bool
  pub candidate_id : String
  pub fingerprint : Option String
  pub denials : List EligibilityDenial

pub record SnapshotOwner : Type 0 where
  pub owner : String
  pub version : String
  pub status : LifecycleStatus
  pub capabilities : List String

pub record ActivationSnapshot : Type 0 where
  pub generation : ℕ
  pub owners : List SnapshotOwner
  pub profile_identity : String
  pub mounted : List String

pub record ActivationFailure : Type 0 where
  pub candidate_id : String
  pub version : String
  pub digest : String
  pub phase : ActivationPhase
  pub diagnostics : String
  pub rollback_attempted : Bool
  pub rollback_succeeded : Bool
  pub restored_lkg_generation : Option ℕ
  pub safe_mode_required : Bool

-- what `recordApproval` may record
pub data TrustedDecision : Type 0 where
  approve_exact_diff reject : TrustedDecision

pub record TrustedApprovalInput : Type 0 where
  pub candidate_id : String
  pub fingerprint : String
  pub decision : TrustedDecision

-- `failed` is an `Error` of no class of its own, and `crash` is `SimulatedCrashError`
pub data GovernanceError : Type 0 where
  contract_error authority_error failed crash : String → GovernanceError
  activation_denied uninstall_denied : List EligibilityDenial → GovernanceError
  registry_error : RegistryError → GovernanceError

abbrev pub is_approved : ApprovalDecision → Bool
is_approved approved_for_exact_diff = true
is_approved _ = false

abbrev pub mutation_text : LifecycleMutation → String
mutation_text activation = "activation"
mutation_text uninstall = "uninstall"
mutation_text disable = "disable"
mutation_text recovery = "recovery"

abbrev pub is_starting : ActivationState → Bool
is_starting activation_pending = true
is_starting activating = true
is_starting _ = false

abbrev pub is_rollback_pending : ActivationState → Bool
is_rollback_pending rollback_pending = true
is_rollback_pending _ = false

abbrev pub is_failed : ActivationState → Bool
is_failed activation_failed = true
is_failed _ = false
