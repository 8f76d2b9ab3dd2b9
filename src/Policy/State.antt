-- ===== src/Policy/State.antt =====
-- domain/policy/service.ts: the state of `PolicyService`, and the helpers of its methods. A method
-- returns its result and the new state.
use dsh_assistant.Prelude.{
  ℕ, ◌+◌, String, Bool, true, false, ◌&&◌, Option, none, some, List, [], ◌∷◌, ◌++◌, length, find,
  select, ◌==◌, text_equality, ◌&◌, if◌then◌else◌,
}
use dsh_assistant.Prelude.Dict.{Dict, get, put}
use dsh_assistant.Prelude.Decimal.{show}
use dsh_assistant.Json.{Fields}
use dsh_assistant.Policy.Types.{
  TrustLevel, l0, l1, l2, ActionIntent, read, propose, execute, ConfirmationStatus, PolicyDenyCode,
  Verdict, PolicyConfig, ActionRequest, ConfirmationTicket, AuditRecord, PolicyOutcome, same_intent,
  is_l3,
}

-- `E` is the type of executors, the callbacks that plugins register.
pub record PolicyService (E : Type 0) : Type 0 where
  pub config : PolicyConfig
  pub tickets : Dict String ConfirmationTicket
  pub executors : Dict String E
  pub audit : List AuditRecord
  pub next_id : ℕ

-- What resumes after an executor: a claimed ticket as it was read before the call, or the decision
-- of an action without one.
pub data Continuation : Type 0 where
  claimed : ConfirmationTicket → Continuation
  unbound : TrustLevel → String → Option String → Continuation

pub data Progress (E : Type 0) : Type 0 where
  settled : PolicyOutcome → Progress E
  running : E → Fields → Continuation → Progress E

abbrev default_level : ActionIntent → TrustLevel
default_level read = l0
default_level propose = l1
default_level execute = l2

-- a text as a condition: the empty text is false
abbrev pub truthy : Option String → Option String
truthy none = none
truthy (some s) = if s == "" then none else some s

unfoldable pub executor_key : String → String → String
executor_key capability operation = capability & ":" & operation

abbrev fingerprint_or_none : Option ConfirmationTicket → String
fingerprint_or_none none = "none"
fingerprint_or_none (some ticket) = ticket.fingerprint

abbrev pub claimable : ConfirmationStatus → Bool
claimable ConfirmationStatus.pending = true
claimable ConfirmationStatus.approved = true
claimable _ = false

module _ {E : Type 0} where
  unfoldable pub new : PolicyConfig → PolicyService E
  new config = record { config = config; tickets = []; executors = []; audit = []; next_id = 1 }

  unfoldable pub level_for : PolicyService E → String → ActionIntent → TrustLevel
  level_for s capability intent =
      elim (find (λ rule. rule.capability == capability && same_intent rule.intent intent)
        s.config.rules) [ none ↦ default_level intent | some rule ↦ rule.level ]

  unfoldable pub register_executor : String → String → E → PolicyService E → PolicyService E
  register_executor capability operation executor s = record s {
    executors = put (executor_key capability operation) executor s.executors;
  }

  pub auto_execute_capabilities : PolicyService E → List String
  auto_execute_capabilities s =
      select (λ capability. is_l3 (level_for s capability execute)) s.config.auto_execute

  -- `this.record({ … })`
  unfoldable pub record_audit :
      Verdict
      → TrustLevel
      → String
      → String
      → Option String
      → String
      → String
      → PolicyService E
      → PolicyService E
  record_audit verdict level capability operation confirmation_id fingerprint reason s =
      let entry : AuditRecord = record {
        id = "audit-" & show (length s.audit + 1);
        verdict = verdict;
        level = level;
        capability = capability;
        operation = operation;
        confirmation_id = confirmation_id;
        fingerprint = fingerprint;
        reason = reason;
      } in
      record s { audit = s.audit ++ entry ∷ [] }

  unfoldable pub update_ticket : String → ConfirmationStatus → PolicyService E → PolicyService E
  update_ticket id status s = elim (get id s.tickets) [
    | none ↦ s
    | some ticket ↦ record s { tickets = put id (record ticket { status = status }) s.tickets }
  ]

  abbrev bound_fingerprint : PolicyService E → Option String → String
  bound_fingerprint s confirmation_id = elim (truthy confirmation_id) [
    | none ↦ "none"
    | some id ↦ fingerprint_or_none (get id s.tickets)
  ]

  unfoldable pub deny :
      String
      → String
      → PolicyDenyCode
      → String
      → TrustLevel
      → Option String
      → PolicyService E
      → PolicyOutcome × PolicyService E
  unfolding record_audit
  deny capability operation code reason level confirmation_id s = (
    PolicyOutcome.deny level reason code confirmation_id,
    record_audit Verdict.deny level capability operation confirmation_id
        (bound_fingerprint s confirmation_id) reason s,
  )

  unfoldable pub allow :
      ActionRequest
      → TrustLevel
      → String
      → String
      → Option String
      → PolicyService E
      → PolicyOutcome × PolicyService E
  unfolding record_audit
  allow request level reason fingerprint confirmation_id s = (
    PolicyOutcome.allow level reason confirmation_id none,
    record_audit Verdict.allow level request.capability request.operation confirmation_id
        fingerprint reason s,
  )

  -- `deny` with what a ticket holds
  unfoldable pub deny_ticket :
      ConfirmationTicket
      → PolicyDenyCode
      → String
      → PolicyService E
      → PolicyOutcome × PolicyService E
  unfolding deny
  deny_ticket ticket code reason s =
      deny ticket.capability ticket.operation code reason ticket.level (some ticket.id) s

  abbrev pub deny_for_status :
      ConfirmationTicket → ConfirmationStatus → PolicyService E → PolicyOutcome × PolicyService E
  deny_for_status ticket ConfirmationStatus.executing s =
      deny_ticket ticket PolicyDenyCode.in_flight "confirmation is already executing" s
  deny_for_status ticket ConfirmationStatus.failed s =
      deny_ticket ticket PolicyDenyCode.failed "confirmation already failed and cannot be retried" s
  deny_for_status ticket ConfirmationStatus.consumed s =
      deny_ticket ticket PolicyDenyCode.replay "confirmation was already consumed" s
  deny_for_status ticket ConfirmationStatus.denied s =
      deny_ticket ticket PolicyDenyCode.denied "confirmation was denied" s
  deny_for_status ticket ConfirmationStatus.cancelled s =
      deny_ticket ticket PolicyDenyCode.cancelled "confirmation was cancelled" s
  deny_for_status ticket _ s =
      deny_ticket ticket PolicyDenyCode.replay "confirmation is not available to execute" s

  unfoldable pub deny_for_ticket : String → PolicyService E → PolicyOutcome × PolicyService E
  unfolding deny deny_ticket
  deny_for_ticket id s = elim (get id s.tickets) [
    | none ↦
        deny "policy" "resolve" PolicyDenyCode.unavailable "confirmation id is unknown" l2 none s
    | some ticket ↦ deny_for_status ticket ticket.status s
  ]
