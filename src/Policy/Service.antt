-- ===== src/Policy/Service.antt =====
-- domain/policy/service.ts: `decide`, and how a ticket is claimed, closed or created.
use Prim.Native.Nat.{suc}
use dsh_assistant.Prelude.{
  String, Bool, true, false, not, ◌&&◌, Option, none, some, any, find, ◌==◌, text_equality, ◌&◌,
  if◌then◌else◌,
}
use dsh_assistant.Prelude.Dict.{get, put, values}
use dsh_assistant.Prelude.Decimal.{show}
use dsh_assistant.Policy.Fingerprint.{action_fingerprint}
use dsh_assistant.Policy.Types.{
  TrustLevel, ConfirmationStatus, PolicyDenyCode, Verdict, ActionRequest, ConfirmationTicket,
  PolicyOutcome, level_text, intent_text, is_execute, is_l3, is_pending,
}
use dsh_assistant.Policy.State.{
  PolicyService, truthy, claimable, level_for, record_audit, update_ticket, deny, allow,
}

abbrev confirmation_reason : TrustLevel → String
confirmation_reason level = level_text level & " requires confirmation bound to this exact action"

module _ {E : Type 0} where
  -- claims the ticket before any `await`
  unfoldable pub try_claim : String → PolicyService E → Bool × PolicyService E
  unfolding update_ticket
  try_claim id s = elim (get id s.tickets) [
    | none ↦ (false, s)
    | some ticket ↦
        if claimable ticket.status
        then (true, update_ticket id ConfirmationStatus.executing s)
        else (false, s)
  ]

  unfoldable pub try_close : String → ConfirmationStatus → PolicyService E → Bool × PolicyService E
  unfolding update_ticket
  try_close id status s = elim (get id s.tickets) [
    | none ↦ (false, s)
    | some ticket ↦
        if claimable ticket.status then (true, update_ticket id status s) else (false, s)
  ]

  unfoldable pub create_ticket :
      ActionRequest → TrustLevel → String → PolicyService E → ConfirmationTicket × PolicyService E
  create_ticket request level fingerprint s =
      let ticket : ConfirmationTicket = record {
        id = "conf-" & show s.next_id;
        fingerprint = fingerprint;
        capability = request.capability;
        operation = request.operation;
        payload = request.payload;
        level = level;
        status = ConfirmationStatus.pending;
      } in
      (ticket, record s { next_id = suc s.next_id; tickets = put ticket.id ticket s.tickets })

  -- the ladder of `decideExisting` below the comparison of fingerprints
  abbrev decide_status :
      ActionRequest
      → TrustLevel
      → String
      → ConfirmationTicket
      → ConfirmationStatus
      → PolicyService E
      → PolicyOutcome × PolicyService E
  decide_status request level fingerprint ticket ConfirmationStatus.denied s =
      deny request.capability request.operation PolicyDenyCode.denied "confirmation was denied"
        level (some ticket.id) s
  decide_status request level fingerprint ticket ConfirmationStatus.cancelled s =
      deny request.capability request.operation PolicyDenyCode.cancelled
        "confirmation was cancelled" level (some ticket.id) s
  decide_status request level fingerprint ticket ConfirmationStatus.consumed s =
      deny request.capability request.operation PolicyDenyCode.replay
        "confirmation was already consumed" level (some ticket.id) s
  decide_status request level fingerprint ticket ConfirmationStatus.executing s =
      deny request.capability request.operation PolicyDenyCode.in_flight
        "confirmation is already executing" level (some ticket.id) s
  decide_status request level fingerprint ticket ConfirmationStatus.failed s =
      deny request.capability request.operation PolicyDenyCode.failed
        "confirmation already failed and cannot be retried" level (some ticket.id) s
  decide_status request level fingerprint ticket ConfirmationStatus.approved s =
      allow request level "confirmation matches the bound action" fingerprint (some ticket.id) s
  decide_status request level fingerprint ticket ConfirmationStatus.pending s = (
    PolicyOutcome.pending_confirmation level "confirmation is still pending" ticket.id fingerprint,
    s,
  )

  unfoldable pub decide_existing :
      ActionRequest
      → String
      → TrustLevel
      → String
      → PolicyService E
      → PolicyOutcome × PolicyService E
  unfolding deny allow
  decide_existing request id level fingerprint s = elim (get id s.tickets) [
    | none ↦
        deny request.capability request.operation PolicyDenyCode.unavailable
          "confirmation id is unknown" level (some id) s
    | some ticket ↦
        if not (ticket.fingerprint == fingerprint)
        then deny request.capability request.operation PolicyDenyCode.mismatch
            "confirmation is bound to a different action" level (some ticket.id) s
        else decide_status request level fingerprint ticket ticket.status s
  ]

  -- the end of `decide`: a ticket that waits for the same action, or a new one
  abbrev ticket_for :
      ActionRequest
      → TrustLevel
      → String
      → Option ConfirmationTicket
      → PolicyService E
      → ConfirmationTicket × PolicyService E
  ticket_for request level fingerprint none s = create_ticket request level fingerprint s
  ticket_for request level fingerprint (some ticket) s = (ticket, s)

  unfoldable pub propose :
      ActionRequest → TrustLevel → String → PolicyService E → PolicyOutcome × PolicyService E
  unfolding record_audit
  propose request level fingerprint s =
      let existing =
        find (λ ticket. ticket.fingerprint == fingerprint && is_pending ticket.status)
          (values s.tickets) in
      let (ticket, s') = ticket_for request level fingerprint existing s in
      (
        PolicyOutcome.pending_confirmation level (confirmation_reason level) ticket.id fingerprint,
        record_audit Verdict.pending_confirmation level request.capability request.operation
            (some ticket.id) fingerprint (confirmation_reason level) s',
      )

  unfoldable pub decide :
      (String → String) → ActionRequest → PolicyService E → PolicyOutcome × PolicyService E
  decide sha256 request s =
      let level = level_for s request.capability request.intent in
      let fingerprint =
        action_fingerprint sha256 request.capability request.operation request.payload in
      if request.aborted
      then deny request.capability request.operation PolicyDenyCode.cancelled
          "request was cancelled" level none s
      else if not (is_execute request.intent)
      then allow request level (intent_text request.intent & " is permitted at " & level_text level)
          fingerprint none s
      else if is_l3 level
          && any (λ capability. capability == request.capability) s.config.auto_execute
      then allow request level "L3 auto-execute is enabled for this capability" fingerprint none s
      else elim (truthy request.confirmation_id) [
        | some id ↦ decide_existing request id level fingerprint s
        | none ↦ propose request level fingerprint s
      ]
