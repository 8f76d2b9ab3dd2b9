-- ===== src/Policy/Types.antt =====
-- domain/policy/types.ts. Timestamps (`createdAt`, `at`) are written and never read, and are left out.
use dsh_assistant.Prelude.{String, Bool, true, false, Option, List}
use dsh_assistant.Json.{Json, Fields}

pub data TrustLevel : Type 0 where
  l0 l1 l2 l3 l4 : TrustLevel

pub data ActionIntent : Type 0 where
  read propose execute : ActionIntent

pub data ConfirmationStatus : Type 0 where
  pending approved executing denied cancelled consumed failed : ConfirmationStatus

pub data PolicyDenyCode : Type 0 where
  denied cancelled replay mismatch unavailable in_flight failed : PolicyDenyCode

pub data Verdict : Type 0 where
  allow deny pending_confirmation approved cancelled consumed : Verdict

-- how a person answers a confirmation
pub data Decision : Type 0 where
  approve deny cancel : Decision

pub record PolicyRule : Type 0 where
  pub capability : String
  pub intent : ActionIntent
  pub level : TrustLevel

pub record PolicyConfig : Type 0 where
  pub rules : List PolicyRule
  pub auto_execute : List String

-- `aborted` is `signal?.aborted` at the time of the call
pub record ActionRequest : Type 0 where
  pub capability : String
  pub operation : String
  pub intent : ActionIntent
  pub payload : Fields
  pub confirmation_id : Option String
  pub aborted : Bool

pub record ConfirmationTicket : Type 0 where
  pub id : String
  pub fingerprint : String
  pub capability : String
  pub operation : String
  pub payload : Fields
  pub level : TrustLevel
  pub status : ConfirmationStatus

pub record AuditRecord : Type 0 where
  pub id : String
  pub verdict : Verdict
  pub level : TrustLevel
  pub capability : String
  pub operation : String
  pub confirmation_id : Option String
  pub fingerprint : String
  pub reason : String

pub data PolicyOutcome : Type 0 where
  allow :
      (level : TrustLevel) (reason : String) (confirmation_id : Option String)
      (result : Option Json)
      → PolicyOutcome
  deny :
      (level : TrustLevel) (reason : String) (code : PolicyDenyCode)
      (confirmation_id : Option String)
      → PolicyOutcome
  pending_confirmation :
      (level : TrustLevel) (reason confirmation_id fingerprint : String) → PolicyOutcome

abbrev pub level_text : TrustLevel → String
level_text l0 = "L0"
level_text l1 = "L1"
level_text l2 = "L2"
level_text l3 = "L3"
level_text l4 = "L4"

abbrev pub intent_text : ActionIntent → String
intent_text read = "read"
intent_text propose = "propose"
intent_text execute = "execute"

-- `===` on these
abbrev pub is_execute : ActionIntent → Bool
is_execute execute = true
is_execute _ = false

abbrev pub same_intent : ActionIntent → ActionIntent → Bool
same_intent read read = true
same_intent propose propose = true
same_intent execute execute = true
same_intent _ _ = false

abbrev pub is_l3 : TrustLevel → Bool
is_l3 l3 = true
is_l3 _ = false

abbrev pub is_pending : ConfirmationStatus → Bool
is_pending pending = true
is_pending _ = false
