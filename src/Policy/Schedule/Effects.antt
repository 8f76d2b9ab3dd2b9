-- ===== src/Policy/Schedule/Effects.antt =====
-- What each method does to each ticket's status.
use dsh_assistant.Prelude.{
  refl, String, ◌≡◌, Bool, true, false, not, ◌&&◌, Option, none, some, arith, ◌==◌, number_equality,
  text_equality, eq_iff, inl, inr, Option-cases, if◌then◌else◌,
}
use dsh_assistant.Prelude.Dict.{get, get-put}
use dsh_assistant.Policy.Types.{ConfirmationStatus, executing, failed, ConfirmationTicket}
use dsh_assistant.Policy.State.{
  PolicyService, Progress, settled, running, update_ticket, deny_for_ticket, deny_ticket,
}
use dsh_assistant.Policy.Service.{try_claim, try_close}
use dsh_assistant.Policy.Execution.{run_claimed, settle}
use dsh_assistant.Policy.Schedule.{runs_ticket, Json, Continuation, claimed, unbound}

abbrev pub status_of : Option ConfirmationTicket → Option ConfirmationStatus
status_of none = none
status_of (some ticket) = some ticket.status

abbrev pub set_status : ConfirmationStatus → Option ConfirmationTicket → Option ConfirmationTicket
set_status new none = none
set_status new (some ticket) = some (record ticket { status = new })

-- the status in which a finished call leaves its ticket
abbrev pub outcome_status : Option Json → ConfirmationStatus
outcome_status none = failed
outcome_status (some result) = ConfirmationStatus.consumed

module _ {E : Type 0} where
  -- every ticket stands under its own id
  abbrev pub KeyedAt : String → PolicyService E → Type 0
  KeyedAt id s = (ticket : ConfirmationTicket) → get id s.tickets ≡ some ticket → ticket.id ≡ id

  pub get-update_ticket :
      (id j : String) (new : ConfirmationStatus) (s : PolicyService E)
      → get j (update_ticket id new s).tickets
        ≡ (if id == j then set_status new (get j s.tickets) else get j s.tickets)
  unfolding update_ticket
  get-update_ticket id j new s = elim (Option-cases (get id s.tickets)) [
    | inl missing ↦ ground (arith, eq_iff id j)
    | inr (ticket, found) ↦
        ground (arith, eq_iff id j, get-put id j (record ticket { status = new }) s.tickets)
  ]

  pub get-try_claim :
      (id j : String) (s : PolicyService E)
      → get j (try_claim id s).1.tickets ≡ (
          if id == j && (try_claim id s).0
          then set_status executing (get j s.tickets)
          else get j s.tickets)
  unfolding try_claim
  get-try_claim id j s = ground (arith, eq_iff id j, get-update_ticket id j executing s)

  pub get-try_close :
      (id j : String) (new : ConfirmationStatus) (s : PolicyService E)
      → get j (try_close id new s).1.tickets ≡ (
          if id == j && (try_close id new s).0
          then set_status new (get j s.tickets)
          else get j s.tickets)
  unfolding try_close
  get-try_close id j new s = ground (arith, eq_iff id j, get-update_ticket id j new s)

  pub get-deny_for_ticket :
      (id j : String) (s : PolicyService E)
      → get j (deny_for_ticket id s).1.tickets ≡ get j s.tickets
  unfolding deny_for_ticket
  get-deny_for_ticket id j s = ground arith

  -- the ticket that a method left running
  abbrev pub runs : String → Progress E → Bool
  runs id (settled outcome) = false
  runs id (running executor payload continuation) = runs_ticket id continuation

  pub get-run_claimed :
      (id j : String) (s : PolicyService E)
      → KeyedAt id s
      → get j (run_claimed id s).1.tickets ≡ (
          if id == j && not (runs j (run_claimed id s).0)
          then set_status failed (get j s.tickets)
          else get j s.tickets)
  unfolding run_claimed
  get-run_claimed id j s keyed = elim (Option-cases (get id s.tickets)) [
    | inl missing ↦ ground (arith, eq_iff id j)
    | inr (ticket, found) ↦
        let own : ticket.id ≡ id = keyed ticket found in
        ground (arith, eq_iff id j, eq_iff ticket.id j, get-update_ticket ticket.id j failed s)
  ]

  pub KeyedAt-try_claim :
      (id : String) (s : PolicyService E) → KeyedAt id s → KeyedAt id (try_claim id s).1
  KeyedAt-try_claim id s keyed ticket found = elim (Option-cases (get id s.tickets)) [
    | inl missing ↦ ground (arith, get-try_claim id id s)
    | inr (old, present) ↦ ground (arith, get-try_claim id id s, keyed old present)
  ]

  -- a claimed run is a run of the ticket that was claimed
  pub runs-run_claimed :
      (id j : String) (s : PolicyService E)
      → KeyedAt id s
      → runs j (run_claimed id s).0 ≡ true
      → id ≡ j
  unfolding run_claimed
  runs-run_claimed id j s keyed h = elim (Option-cases (get id s.tickets)) [
    | inl missing ↦ ground arith
    | inr (ticket, found) ↦ ground (arith, keyed ticket found, eq_iff ticket.id j)
  ]

  -- none of these opens a ticket
  pub next_id-try_claim :
      (id : String) (s : PolicyService E) → (try_claim id s).1.next_id ≡ s.next_id
  unfolding try_claim
  next_id-try_claim id s = ground arith

  pub next_id-try_close :
      (id : String) (new : ConfirmationStatus) (s : PolicyService E)
      → (try_close id new s).1.next_id ≡ s.next_id
  unfolding try_close
  next_id-try_close id new s = ground arith

  pub next_id-deny_for_ticket :
      (id : String) (s : PolicyService E) → (deny_for_ticket id s).1.next_id ≡ s.next_id
  unfolding deny_for_ticket
  next_id-deny_for_ticket id s = ground arith

  pub next_id-update_ticket :
      (id : String) (new : ConfirmationStatus) (s : PolicyService E)
      → (update_ticket id new s).next_id ≡ s.next_id
  unfolding update_ticket
  next_id-update_ticket id new s = ground arith

  pub next_id-run_claimed :
      (id : String) (s : PolicyService E) → (run_claimed id s).1.next_id ≡ s.next_id
  unfolding run_claimed
  next_id-run_claimed id s = ground arith

  pub get-settle :
      (j : String) (continuation : Continuation) (result : Option Json) (s : PolicyService E)
      → get j (settle continuation result s).1.tickets ≡ (
          if runs_ticket j continuation
          then set_status (outcome_status result) (get j s.tickets)
          else get j s.tickets)
  unfolding settle deny_ticket
  get-settle j (claimed ticket) none s =
      ground (arith, eq_iff ticket.id j, get-update_ticket ticket.id j failed s)
  get-settle j (claimed ticket) (some result) s = elim (Option-cases (get ticket.id s.tickets)) [
    | inl missing ↦ ground (arith, eq_iff ticket.id j)
    | inr (now, found) ↦
        ground
          (arith, eq_iff ticket.id j, get-update_ticket ticket.id j ConfirmationStatus.consumed s)
  ]
  get-settle j (unbound level reason confirmation_id) none s = refl
  get-settle j (unbound level reason confirmation_id) (some result) s = refl

  pub next_id-settle :
      (continuation : Continuation) (result : Option Json) (s : PolicyService E)
      → (settle continuation result s).1.next_id ≡ s.next_id
  unfolding settle deny_ticket
  next_id-settle (claimed ticket) none s = ground arith
  next_id-settle (claimed ticket) (some result) s = ground arith
  next_id-settle (unbound level reason confirmation_id) none s = refl
  next_id-settle (unbound level reason confirmation_id) (some result) s = refl
