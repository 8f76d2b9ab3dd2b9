-- ===== src/Policy/Execution.antt =====
-- domain/policy/service.ts: `apply` and `resolve`, the methods that run executors. They are cut at
-- their `await`: they start an executor, and `settle` is what runs when that executor is done.
use dsh_assistant.Prelude.{
  String, Bool, true, false, Option, none, some, text_equality, ◌&◌, if◌then◌else◌,
}
use dsh_assistant.Prelude.Dict.{get}
use dsh_assistant.Json.{Json}
use dsh_assistant.Policy.Types.{
  TrustLevel, l2, ConfirmationStatus, PolicyDenyCode, Verdict, Decision, ActionRequest,
  ConfirmationTicket, PolicyOutcome, is_execute, is_pending,
}
use dsh_assistant.Policy.State.{
  PolicyService, Continuation, claimed, unbound, Progress, settled, running, truthy, executor_key,
  record_audit, update_ticket, deny, deny_ticket, deny_for_status, deny_for_ticket,
}
use dsh_assistant.Policy.Service.{try_claim, try_close, decide}

abbrev pub not_consumed : ConfirmationStatus → Bool
not_consumed ConfirmationStatus.consumed = false
not_consumed _ = true

module _ {E : Type 0} where
  -- `runClaimed`, up to its `await`
  unfoldable pub run_claimed : String → PolicyService E → Progress E × PolicyService E
  unfolding deny deny_ticket record_audit update_ticket executor_key
  run_claimed id s = elim (get id s.tickets) [
    | none ↦
        let (outcome, s') =
          deny "policy" "execute" PolicyDenyCode.unavailable "confirmation id is unknown" l2 none
            s in
        (settled outcome, s')
    | some ticket ↦
        let s' =
          record_audit Verdict.approved ticket.level ticket.capability ticket.operation
            (some ticket.id) ticket.fingerprint "confirmation claimed; executing bound action once"
            s in
        elim (get (executor_key ticket.capability ticket.operation) s.executors) [
          | none ↦
              let (outcome, s'') =
                deny_ticket ticket PolicyDenyCode.unavailable
                  ("no executor registered for " & ticket.capability & "." & ticket.operation)
                  (update_ticket ticket.id ConfirmationStatus.failed s') in
              (settled outcome, s'')
          | some executor ↦ (running executor ticket.payload (claimed ticket), s')
        ]
  ]

  abbrev pub claim_and_run : String → PolicyService E → Progress E × PolicyService E
  claim_and_run id s =
      let (granted, s') = try_claim id s in
      if granted
      then run_claimed id s'
      else (let (outcome, s'') = deny_for_ticket id s' in (settled outcome, s''))

  abbrev pub done : PolicyOutcome × PolicyService E → Progress E × PolicyService E
  done (outcome, s) = (settled outcome, s)

  -- `apply` on an allowed action of intent `execute`
  abbrev pub execute_allowed :
      ActionRequest
      → TrustLevel
      → String
      → Option String
      → PolicyService E
      → Progress E × PolicyService E
  execute_allowed request level reason confirmation_id s = elim (truthy confirmation_id) [
    | some id ↦ claim_and_run id s
    | none ↦ elim (get (executor_key request.capability request.operation) s.executors) [
      | none ↦ done (
          deny request.capability request.operation PolicyDenyCode.unavailable
            ("no executor registered for " & request.capability & "." & request.operation) level
            none s)
      | some executor ↦ (running executor request.payload (unbound level reason confirmation_id), s)
    ]
  ]

  abbrev pub apply_decision :
      ActionRequest → PolicyOutcome → PolicyService E → Progress E × PolicyService E
  apply_decision request (PolicyOutcome.allow level reason confirmation_id result) s =
      if is_execute request.intent
      then execute_allowed request level reason confirmation_id s
      else (settled (PolicyOutcome.allow level reason confirmation_id result), s)
  apply_decision request outcome s = (settled outcome, s)

  -- `tryClose` and what `resolve` makes of it
  abbrev pub close :
      ConfirmationTicket
      → ConfirmationStatus
      → Verdict
      → PolicyDenyCode
      → String
      → PolicyService E
      → Progress E × PolicyService E
  close ticket status verdict code reason s =
      let (granted, s') = try_close ticket.id status s in
      if granted
      then (
        settled (PolicyOutcome.deny ticket.level reason code (some ticket.id)),
        record_audit verdict ticket.level ticket.capability ticket.operation (some ticket.id)
            ticket.fingerprint reason s',
      )
      else done (deny_for_ticket ticket.id s')

  -- `apply`, up to its `await`
  unfoldable pub apply :
      (String → String) → ActionRequest → PolicyService E → Progress E × PolicyService E
  apply sha256 request s =
      let (decision, s') = decide sha256 request s in apply_decision request decision s'

  -- a ticket that can still be answered
  abbrev pub answer : ConfirmationTicket → Decision → PolicyService E → Progress E × PolicyService E
  answer ticket Decision.deny s =
      close ticket ConfirmationStatus.denied Verdict.deny PolicyDenyCode.denied
        "confirmation was denied" s
  answer ticket Decision.cancel s =
      close ticket ConfirmationStatus.cancelled Verdict.cancelled PolicyDenyCode.cancelled
        "confirmation was cancelled" s
  answer ticket Decision.approve s = claim_and_run ticket.id s

  -- the ladder of `resolve` on the ticket's status
  abbrev pub resolve_status :
      ConfirmationTicket
      → ConfirmationStatus
      → Decision
      → PolicyService E
      → Progress E × PolicyService E
  resolve_status ticket ConfirmationStatus.pending decision s = answer ticket decision s
  resolve_status ticket ConfirmationStatus.approved decision s = answer ticket decision s
  resolve_status ticket status decision s = done (deny_for_status ticket status s)

  -- `resolve`, up to its `await`; `aborted` is `signal?.aborted`
  unfoldable pub resolve : String → Decision → Bool → PolicyService E → Progress E × PolicyService E
  resolve id decision aborted s = elim (get id s.tickets) [
    | none ↦
        done (
          deny "policy" "resolve" PolicyDenyCode.unavailable "confirmation id is unknown" l2 none s)
    | some ticket ↦
        if aborted
        then done (
            deny_ticket ticket PolicyDenyCode.cancelled "confirmation was cancelled" (
              if is_pending ticket.status
              then update_ticket ticket.id ConfirmationStatus.cancelled s
              else s))
        else resolve_status ticket ticket.status decision s
  ]

  -- `consume`
  unfoldable pub consume : ConfirmationTicket → PolicyService E → PolicyService E
  unfolding update_ticket record_audit
  consume claim s = elim (get claim.id s.tickets) [
    | none ↦ s
    | some ticket ↦
        if not_consumed ticket.status
        then record_audit Verdict.consumed ticket.level claim.capability claim.operation
            (some claim.id) ticket.fingerprint "approved action executed once"
            (update_ticket claim.id ConfirmationStatus.consumed s)
        else s
  ]

  -- What follows the `await` of an executor; `none` for its result means that it threw. The outcome
  -- `none` is an exception that the caller sees.
  unfoldable pub settle :
      Continuation → Option Json → PolicyService E → Option PolicyOutcome × PolicyService E
  unfolding consume deny_ticket update_ticket
  settle (claimed ticket) (some result) s = (
    some (
        PolicyOutcome.allow ticket.level "approved action executed once" (some ticket.id)
          (some result)),
    consume ticket s,
  )
  settle (claimed ticket) none s =
      let (outcome, s') =
        deny_ticket ticket PolicyDenyCode.failed
          "executor failed after the confirmation was claimed; retry is not allowed"
          (update_ticket ticket.id ConfirmationStatus.failed s) in
      (some outcome, s')
  settle (unbound level reason confirmation_id) (some result) s =
      (some (PolicyOutcome.allow level reason confirmation_id (some result)), s)
  settle (unbound level reason confirmation_id) none s = (none, s)
