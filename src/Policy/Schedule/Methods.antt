-- ===== src/Policy/Schedule/Methods.antt =====
-- The changes of status that `apply` and `resolve` make before they await an executor.
use dsh_assistant.Prelude.{
  String, ◌≡◌, refl, Bool, true, false, some, arith, text_equality, eq_iff, inl, inr, Option-cases,
  Bool-cases, if◌then◌else◌,
}
use mathlib.Core.Path.{subst₂}
use dsh_assistant.Prelude.Dict.{get}
use dsh_assistant.Policy.Types.{
  ConfirmationStatus, pending, approved, denied, cancelled, ConfirmationTicket, Decision, approve,
  deny, cancel, ActionRequest, PolicyOutcome, Verdict, PolicyDenyCode, is_pending,
}
use dsh_assistant.Policy.State.{
  PolicyService, Progress, truthy, deny as deny_request, deny_ticket, record_audit, update_ticket,
}
use dsh_assistant.Policy.Service.{decide, try_close}
use dsh_assistant.Policy.Execution.{apply, apply_decision, resolve, close, answer, resolve_status}
use dsh_assistant.Policy.Schedule.Effects.{
  KeyedAt, get-update_ticket, get-try_close, get-deny_for_ticket, runs, next_id-update_ticket,
  next_id-try_close, next_id-deny_for_ticket,
}
use dsh_assistant.Policy.Schedule.Moves.{
  Moves, is_allow, IsFresh, refl_Moves, claim_and_run_moves, decide_moves, allowed_keeps, Moved,
  open_ticket, shuts, next_id-allowed,
}

-- every ticket stands under its own id
abbrev pub IsKeyed : {E : Type 0} → PolicyService E → Type 0
IsKeyed s = (id : String) → KeyedAt id s

module _ {E : Type 0} (sha256 : String → String) (j : String) where
  abbrev pub Changes : PolicyService E → Progress E × PolicyService E → Type 0
  Changes s (progress, s') = Moved sha256 j s s' (runs j progress)

  execute_allowed_moves :
      (request : ActionRequest) (outcome : PolicyOutcome) (s : PolicyService E)
      → IsKeyed s
      → Changes s (apply_decision request outcome s)
  unfolding deny_request
  execute_allowed_moves request (PolicyOutcome.allow level reason cid result) s keyed =
      elim (Option-cases (truthy cid)) [
        | inl missing ↦
            ground (arith, refl_Moves sha256 j s.next_id s.next_id (get j s.tickets) (omega arith))
        | inr (id, given) ↦ ground (
          arith,
          refl_Moves sha256 j s.next_id s.next_id (get j s.tickets) (omega arith),
          claim_and_run_moves sha256 j id s (keyed id),
        )
      ]
  execute_allowed_moves request _ s keyed =
      refl_Moves sha256 j s.next_id s.next_id (get j s.tickets) (omega arith)

  refused_moves :
      (request : ActionRequest) (outcome : PolicyOutcome) (s s' : PolicyService E)
      → is_allow outcome ≡ false
      → Moved sha256 j s s' false
      → Changes s (apply_decision request outcome s')
  refused_moves request (PolicyOutcome.allow level reason cid result) s s' refused h = cc
  refused_moves request _ s s' refused h = h

  Moved-of_kept :
      (s s' t : PolicyService E) (called : Bool)
      → s'.next_id ≡ s.next_id
      → get j s'.tickets ≡ get j s.tickets
      → Moved sha256 j s' t called
      → Moved sha256 j s t called
  Moved-of_kept s s' t called =
      subst₂ (λ n o. Moves sha256 j n t.next_id o (get j t.tickets) called)

  pub apply_moves :
      (request : ActionRequest) (s : PolicyService E)
      → IsKeyed s
      → IsFresh s
      → Changes s (apply sha256 request s)
  unfolding apply
  apply_moves request s keyed fresh = elim (Bool-cases (is_allow (decide sha256 request s).0)) [
    | inl allowed ↦
        Moved-of_kept s (decide sha256 request s).1
          (apply_decision request (decide sha256 request s).0 (decide sha256 request s).1).1
          (runs j
            (apply_decision request (decide sha256 request s).0 (decide sha256 request s).1).0)
          (next_id-allowed sha256 j request s allowed) (allowed_keeps sha256 j request s allowed)
          (execute_allowed_moves request (decide sha256 request s).0 (decide sha256 request s).1
            (λ id ticket found.
              keyed id ticket (rw (← allowed_keeps sha256 id request s allowed) found)))
    | inr refused ↦
        refused_moves request (decide sha256 request s).0 s (decide sha256 request s).1 refused
          (decide_moves sha256 j request s fresh)
  ]

  granted_close_iff :
      (id : String) (new : ConfirmationStatus) (s : PolicyService E)
      → (try_close id new s).0 ≡ open_ticket (get id s.tickets)
  unfolding try_close
  granted_close_iff id new s = ground arith

  close_moves :
      (ticket : ConfirmationTicket) (new : ConfirmationStatus) (verdict : Verdict)
      (code : PolicyDenyCode) (reason : String) (s : PolicyService E)
      → shuts new ≡ true
      → Changes s (close ticket new verdict code reason s)
  unfolding record_audit
  close_moves ticket new verdict code reason s shut =
      elim (Bool-cases (try_close ticket.id new s).0) [
        | inl closed ↦ rw closed (
            ground (
              arith,
              eq_iff ticket.id j,
              get-try_close ticket.id j new s,
              next_id-try_close ticket.id new s,
              granted_close_iff ticket.id new s,
              refl_Moves sha256 j s.next_id s.next_id (get j s.tickets) (omega arith),
            ))
        | inr refused ↦ rw refused (
            ground (
              arith,
              get-try_close ticket.id j new s,
              next_id-try_close ticket.id new s,
              get-deny_for_ticket ticket.id j (try_close ticket.id new s).1,
              next_id-deny_for_ticket ticket.id (try_close ticket.id new s).1,
              refl_Moves sha256 j s.next_id s.next_id (get j s.tickets) (omega arith),
            ))
      ]

  answer_moves :
      (ticket : ConfirmationTicket) (decision : Decision) (s : PolicyService E)
      → IsKeyed s
      → Changes s (answer ticket decision s)
  answer_moves ticket deny s keyed = close_moves ticket denied _ _ _ s refl
  answer_moves ticket cancel s keyed = close_moves ticket cancelled _ _ _ s refl
  answer_moves ticket approve s keyed = claim_and_run_moves sha256 j ticket.id s (keyed ticket.id)

  resolve_status_moves :
      (ticket : ConfirmationTicket) (now : ConfirmationStatus) (decision : Decision)
      (s : PolicyService E)
      → IsKeyed s
      → Changes s (resolve_status ticket now decision s)
  unfolding deny_ticket
  resolve_status_moves ticket pending decision s keyed = answer_moves ticket decision s keyed
  resolve_status_moves ticket approved decision s keyed = answer_moves ticket decision s keyed
  resolve_status_moves ticket _ decision s keyed =
      refl_Moves sha256 j s.next_id s.next_id (get j s.tickets) (omega arith)

  abort_moves :
      (id : String) (ticket : ConfirmationTicket) (s : PolicyService E)
      → ticket.id ≡ id
      → get id s.tickets ≡ some ticket
      → Moved sha256 j s
          (if is_pending ticket.status then update_ticket ticket.id cancelled s else s)
          false
  abort_moves id ticket s own found = ground (
    arith,
    eq_iff ticket.id j,
    get-update_ticket ticket.id j cancelled s,
    next_id-update_ticket ticket.id cancelled s,
    refl_Moves sha256 j s.next_id s.next_id (get j s.tickets) (omega arith),
  )

  pub resolve_moves :
      (id : String) (decision : Decision) (aborted : Bool) (s : PolicyService E)
      → IsKeyed s
      → Changes s (resolve id decision aborted s)
  unfolding resolve deny_request deny_ticket
  resolve_moves id decision aborted s keyed = elim (Option-cases (get id s.tickets)) [
    | inl missing ↦
        ground (arith, refl_Moves sha256 j s.next_id s.next_id (get j s.tickets) (omega arith))
    | inr (ticket, found) ↦
        let own : ticket.id ≡ id = keyed id ticket found in
        ground (
          arith,
          resolve_status_moves ticket ticket.status decision s keyed,
          abort_moves id ticket s own found,
        )
  ]
