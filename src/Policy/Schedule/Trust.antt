-- ===== src/Policy/Schedule/Trust.antt =====
-- What has to happen before an executor starts.
use mathlib.Core.Path.{subst}
use dsh_assistant.Prelude.{
  sym, inl, inr, refl, ◌==◌, Option-cases, String, ◌≡◌, Bool, true, false, arith, List, any, Option,
  none, some, text_equality, not, Option-cases, inl, Bool-cases, eq_iff,
}
use dsh_assistant.Policy.Types.{
  l3, execute, ActionRequest, ConfirmationTicket, PolicyConfig, ConfirmationStatus, Decision,
  Verdict, pending, PolicyDenyCode, approve, executing, approved, denied, cancelled, cancel,
}
use dsh_assistant.Policy.Execution.{
  apply, run_claimed, claim_and_run, resolve, answer, resolve_status, close,
}
use dsh_assistant.Policy.State.{
  deny, deny as deny_request, deny_ticket, PolicyService, Progress, allow, deny, level_for, settled,
  running, truthy, executor_key, update_ticket,
}
use dsh_assistant.Policy.Service.{propose, decide, decide_existing, propose, try_claim}
use dsh_assistant.Policy.Schedule.Moves.{is_allow}
use dsh_assistant.Policy.Schedule.{Event, run, running, start, Fields, Decision, reached}
use dsh_assistant.Policy.Schedule.Ledger.{is_approved, IsGood}
use dsh_assistant.Prelude.Dict.{get}
use dsh_assistant.Policy.Schedule.Once.{run-IsSound, start-IsSound}
use dsh_assistant.Json.{Fields}
use dsh_assistant.Policy.Schedule.Effects.{get-try_claim}
use dsh_assistant.Policy.Fingerprint.{action_fingerprint}

abbrev is_unapproved : Option ConfirmationTicket → Bool
is_unapproved none = true
is_unapproved (some t) = not (is_approved t.status)

unapproved_of :
    (sha256 : String → String) (o : Option ConfirmationTicket)
    → ((t : ConfirmationTicket) → o ≡ some t → IsGood sha256 t)
    → is_unapproved o ≡ true
unapproved_of sha256 none good = refl
unapproved_of sha256 (some t) good = ground (arith, good t refl)

module _ {E : Type 0} where
  abbrev pub is_running : Progress E → Bool
  is_running (settled outcome) = false
  is_running (running executor payload continuation) = true

  -- a request that may run with no person asked
  abbrev pub IsAutomatic : PolicyService E → ActionRequest → Type 0
  IsAutomatic s request =
      (request.aborted ≡ false)
      × (request.intent ≡ execute)
      × (level_for s request.capability request.intent ≡ l3)
      × (any (λ capability. capability == request.capability) s.config.auto_execute ≡ true)

  module _ (sha256 : String → String) (request : ActionRequest) where
    -- `decide` allows an `execute` only on the automatic path, where no ticket is approved
    allowed_trusted :
        (s : PolicyService E)
        → ((id : String) → is_unapproved (get id s.tickets) ≡ true)
        → is_allow (decide sha256 request s).0 ≡ true
        → request.intent ≡ execute
        → IsAutomatic s request
    unfolding decide deny allow decide_existing propose
    allowed_trusted s unapproved allowed intent =
        elim (Option-cases (truthy request.confirmation_id)) [
          | inl missing ↦ ground arith
          | inr (id, given) ↦ ground (arith, unapproved id)
        ]

    apply_running :
        (s : PolicyService E)
        → is_running (apply sha256 request s).0 ≡ true
        → (is_allow (decide sha256 request s).0 ≡ true) × (request.intent ≡ execute)
    unfolding apply
    apply_running s started = ground arith

    -- In every reachable state, `apply` starts an executor only for an action of intent `execute`, not
    -- cancelled, whose capability is at level L3 and enabled for automatic execution. A confirmation
    -- id never makes `apply` start one.
    pub apply_trusted :
        (config : PolicyConfig) (events : List (Event E))
        → is_running (apply sha256 request (reached sha256 config events)).0 ≡ true
        → IsAutomatic (reached sha256 config events) request
    apply_trusted config events started =
        let w = run sha256 events (start config) in
        let sound = run-IsSound sha256 events (start config) (start-IsSound sha256 config) in
        let (allowed, intent) = apply_running w.policy started in
        allowed_trusted w.policy
          (λ id. unapproved_of sha256 (get id w.policy.tickets) (sound.good id)) allowed intent

  -- what `resolve` starts
  abbrev pub started_call : Progress E → Option (E × Fields)
  started_call (settled outcome) = none
  started_call (running executor payload continuation) = some (executor, payload)

  run_claimed_call :
      (id : String) (s : PolicyService E) (ticket : ConfirmationTicket) (e : E) (payload : Fields)
      → get id s.tickets ≡ some ticket
      → started_call (run_claimed id s).0 ≡ some (e, payload)
      → (payload ≡ ticket.payload)
        × (get (executor_key ticket.capability ticket.operation) s.executors ≡ some e)
  unfolding run_claimed
  run_claimed_call id s ticket e payload found started = ground arith

  executors-try_claim :
      (id : String) (s : PolicyService E) → (try_claim id s).1.executors ≡ s.executors
  unfolding try_claim update_ticket
  executors-try_claim id s = ground arith

  no_call-close :
      (ticket : ConfirmationTicket) (new : ConfirmationStatus) (verdict : Verdict)
      (code : PolicyDenyCode) (reason : String) (s : PolicyService E)
      → started_call (close ticket new verdict code reason s).0 ≡ none
  no_call-close ticket new verdict code reason s = ground arith

  claim_call :
      (id : String) (s : PolicyService E) (ticket : ConfirmationTicket) (e : E) (payload : Fields)
      → get id s.tickets ≡ some ticket
      → started_call (claim_and_run id s).0 ≡ some (e, payload)
      → (payload ≡ ticket.payload)
        × (get (executor_key ticket.capability ticket.operation) s.executors ≡ some e)
  claim_call id s ticket e payload found started = elim (Bool-cases (try_claim id s).0) [
    | inl granted ↦
        let s' = (try_claim id s).1 in
        let claim : ConfirmationTicket = record ticket { status = executing } in
        ground (
          arith,
          executors-try_claim id s,
          run_claimed_call id s' claim e payload
              (ground (arith, get-try_claim id id s, eq_iff id id)) (rw granted at started),
        )
    | inr refused ↦ ground arith
  ]

  answer_call :
      (ticket : ConfirmationTicket) (decision : Decision) (s : PolicyService E) (e : E)
      (payload : Fields)
      → get ticket.id s.tickets ≡ some ticket
      → started_call (answer ticket decision s).0 ≡ some (e, payload)
      → (decision ≡ approve)
        × (payload ≡ ticket.payload)
        × (get (executor_key ticket.capability ticket.operation) s.executors ≡ some e)
  answer_call ticket Decision.deny s e payload found started = ground (
    arith,
    no_call-close ticket denied Verdict.deny PolicyDenyCode.denied "confirmation was denied" s,
  )
  answer_call ticket cancel s e payload found started = ground (
    arith,
    no_call-close ticket cancelled Verdict.cancelled PolicyDenyCode.cancelled
        "confirmation was cancelled" s,
  )
  answer_call ticket approve s e payload found started =
      let (bound, known) = claim_call ticket.id s ticket e payload found started in
      (refl, bound, known)

  resolve_status_call :
      (ticket : ConfirmationTicket) (now : ConfirmationStatus) (decision : Decision)
      (s : PolicyService E) (e : E) (payload : Fields)
      → is_approved now ≡ false
      → get ticket.id s.tickets ≡ some ticket
      → started_call (resolve_status ticket now decision s).0 ≡ some (e, payload)
      → (now ≡ pending)
        × (decision ≡ approve)
        × (payload ≡ ticket.payload)
        × (get (executor_key ticket.capability ticket.operation) s.executors ≡ some e)
  resolve_status_call ticket pending decision s e payload ne found started =
      let (yes_approve, bound, known) = answer_call ticket decision s e payload found started in
      (refl, yes_approve, bound, known)
  resolve_status_call ticket approved decision s e payload ne found started = cc
  resolve_status_call ticket _ decision s e payload ne found started = cc

  resolve_call :
      (id : String) (decision : Decision) (aborted : Bool) (s : PolicyService E)
      (ticket : ConfirmationTicket) (e : E) (payload : Fields)
      → get id s.tickets ≡ some ticket
      → ticket.id ≡ id
      → is_approved ticket.status ≡ false
      → started_call (resolve id decision aborted s).0 ≡ some (e, payload)
      → (ticket.status ≡ pending)
        × (decision ≡ approve)
        × (aborted ≡ false)
        × (payload ≡ ticket.payload)
        × (get (executor_key ticket.capability ticket.operation) s.executors ≡ some e)
  unfolding resolve deny_request deny_ticket
  resolve_call id decision true s ticket e payload found own ne started = ground arith
  resolve_call id decision false s ticket e payload found own ne started = ground (
    arith,
    resolve_status_call ticket ticket.status decision s e payload ne
        (subst (λ i. get i s.tickets ≡ some ticket) (sym own) found),
  )

  -- In every reachable state, `resolve` starts an executor only when a person approves, without
  -- aborting, a ticket that is pending. The executor is the one registered for the ticket's action,
  -- it gets the ticket's own payload, and the ticket's fingerprint is that of this action.
  pub resolve_trusted :
      (sha256 : String → String) (config : PolicyConfig) (events : List (Event E)) (id : String)
      (decision : Decision) (aborted : Bool) (e : E) (payload : Fields)
      → started_call (resolve id decision aborted (reached sha256 config events)).0
        ≡ some (e, payload)
      → (ticket : ConfirmationTicket) × (get id (reached sha256 config events).tickets
          ≡ some ticket)
        × (ticket.status ≡ pending)
        × (decision ≡ approve)
        × (aborted ≡ false)
        × (payload ≡ ticket.payload)
        × (get
              (executor_key ticket.capability ticket.operation)
              (reached sha256 config events).executors
            ≡ some e)
        × (ticket.fingerprint
            ≡ action_fingerprint sha256 ticket.capability ticket.operation payload)
  unfolding resolve deny_request deny_ticket
  resolve_trusted sha256 config events id decision aborted e payload started =
      let w = run sha256 events (start config) in
      let sound = run-IsSound sha256 events (start config) (start-IsSound sha256 config) in
      elim (Option-cases (get id w.policy.tickets)) [
        | inl missing ↦ ground arith
        | inr (ticket, found) ↦
            let own = sound.keyed id ticket found in
            let (unapproved, bound) = sound.good id ticket found in
            let (waits, said, kept, same_payload, known) =
              resolve_call id decision aborted w.policy ticket e payload found own unapproved
                started in
            (ticket, found, waits, said, kept, same_payload, known, rw same_payload bound)
      ]
