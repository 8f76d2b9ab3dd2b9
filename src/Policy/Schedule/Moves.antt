-- ===== src/Policy/Schedule/Moves.antt =====
-- Which changes of a ticket's status the methods make, and when an executor starts for it.
use dsh_assistant.Prelude.{
  ℕ, suc, ◌≤◌, String, ◌≡◌, refl, Bool, true, false, ◌&&◌, ◌||◌, Option, none, some, arith, ◌==◌,
  text_equality, eq_iff, inl, inr, Option-cases, ◌&◌, Bool-cases, if◌then◌else◌,
}
use dsh_assistant.Prelude.Dict.{get, get-put}
use dsh_assistant.Prelude.Decimal.{show}
use dsh_assistant.Policy.Types.{
  ConfirmationStatus, pending, approved, executing, denied, cancelled, consumed, failed,
  ConfirmationTicket, ActionRequest, TrustLevel, PolicyOutcome,
}
use dsh_assistant.Policy.State.{PolicyService, deny, allow, truthy, level_for}
use dsh_assistant.Policy.Fingerprint.{action_fingerprint}
use dsh_assistant.Policy.Service.{create_ticket, propose, decide_existing, decide, try_claim}
use dsh_assistant.Policy.Execution.{claim_and_run}
use dsh_assistant.Policy.Schedule.Effects.{
  KeyedAt, get-try_claim, get-deny_for_ticket, runs, get-run_claimed, KeyedAt-try_claim,
  runs-run_claimed, next_id-try_claim, next_id-run_claimed, next_id-deny_for_ticket,
}

abbrev pub is_open : ConfirmationStatus → Bool
is_open pending = true
is_open approved = true
is_open _ = false

abbrev pub open_ticket : Option ConfirmationTicket → Bool
open_ticket none = false
open_ticket (some ticket) = is_open ticket.status

abbrev pub same : ConfirmationStatus → ConfirmationStatus → Bool
same pending pending = true
same approved approved = true
same executing executing = true
same denied denied = true
same cancelled cancelled = true
same consumed consumed = true
same failed failed = true
same _ _ = false

abbrev pub shuts : ConfirmationStatus → Bool
shuts denied = true
shuts cancelled = true
shuts failed = true
shuts _ = false

abbrev pub is_executing : ConfirmationStatus → Bool
is_executing executing = true
is_executing _ = false

-- A status may stay or leave an open state; an executor starts for the ticket exactly where an open
-- one becomes `executing`.
abbrev pub moves : (before after : ConfirmationStatus) → (called : Bool) → Bool
moves before after true = is_open before && is_executing after
moves before after false = same before after || is_open before && shuts after

abbrev pub SameAction : ConfirmationTicket → ConfirmationTicket → Type 0
SameAction t t' =
    (t'.id ≡ t.id)
    × (t'.fingerprint ≡ t.fingerprint)
    × (t'.capability ≡ t.capability)
    × (t'.operation ≡ t.operation)
    × (t'.payload ≡ t.payload)
    × (t'.level ≡ t.level)

-- A ticket's fingerprint is that of its action.
abbrev pub IsBound : (String → String) → ConfirmationTicket → Type 0
IsBound sha256 t = t.fingerprint ≡ action_fingerprint sha256 t.capability t.operation t.payload

-- What may happen to the ticket `j` while the next id goes from `n` to `n'`: it opens as `pending`
-- under the next id and bound to its action, or keeps its action and changes its status by `moves`.
abbrev pub Moves :
    (String → String)
    → String
    → (n n' : ℕ) → Option ConfirmationTicket
    → Option ConfirmationTicket
    → Bool
    → Type 0
Moves sha256 j n n' none none false = n ≤ n'
Moves sha256 j n n' none (some t) false =
    (t.id ≡ j) × (j ≡ "conf-" & show n) × (n' ≡ suc n) × (t.status ≡ pending) × IsBound sha256 t
Moves sha256 j n n' (some t) (some t') called =
    (n ≤ n') × SameAction t t' × (moves t.status t'.status called ≡ true)
Moves _ _ _ _ _ _ _ = ⊥

pub refl_Moves :
    (sha256 : String → String) (j : String) (n n' : ℕ) (o : Option ConfirmationTicket)
    → n ≤ n'
    → Moves sha256 j n n' o o false
refl_Moves sha256 j n n' none h = h
refl_Moves sha256 j n n' (some t) h = ground arith

abbrev pub is_allow : PolicyOutcome → Bool
is_allow (PolicyOutcome.allow level reason confirmation_id result) = true
is_allow _ = false

-- the next ticket's id is not in use
abbrev pub IsFresh : {E : Type 0} → PolicyService E → Type 0
IsFresh s = get ("conf-" & show s.next_id) s.tickets ≡ none

module _ {E : Type 0} (sha256 : String → String) (j : String) where
  abbrev pub Moved : PolicyService E → PolicyService E → Bool → Type 0
  Moved s s' called =
      Moves sha256 j s.next_id s'.next_id (get j s.tickets) (get j s'.tickets) called

  granted_iff :
      (id : String) (s : PolicyService E) → (try_claim id s).0 ≡ open_ticket (get id s.tickets)
  unfolding try_claim
  granted_iff id s = ground arith

  pub claim_and_run_moves :
      (id : String) (s : PolicyService E)
      → KeyedAt id s
      → Moved s (claim_and_run id s).1 (runs j (claim_and_run id s).0)
  claim_and_run_moves id s keyed = elim (Bool-cases (try_claim id s).0) [
    | inl granted ↦ rw granted (
        ground (
          arith,
          eq_iff id j,
          granted_iff id s,
          get-try_claim id j s,
          next_id-try_claim id s,
          next_id-run_claimed id (try_claim id s).1,
          get-run_claimed id j (try_claim id s).1 (KeyedAt-try_claim id s keyed),
          runs-run_claimed id j (try_claim id s).1 (KeyedAt-try_claim id s keyed),
        ))
    | inr refused ↦ rw refused (
        ground (
          arith,
          next_id-try_claim id s,
          next_id-deny_for_ticket id (try_claim id s).1,
          refl_Moves sha256 j s.next_id s.next_id (get j s.tickets),
          get-try_claim id j s,
          get-deny_for_ticket id j (try_claim id s).1,
        ))
  ]

  pub get-create_ticket :
      (request : ActionRequest) (level : TrustLevel) (fingerprint : String) (s : PolicyService E)
      → get j (create_ticket request level fingerprint s).1.tickets ≡ (
          if ("conf-" & show s.next_id) == j
          then some (create_ticket request level fingerprint s).0
          else get j s.tickets)
  unfolding create_ticket
  get-create_ticket request level fingerprint s = get-put _ j _ s.tickets

  IsBound-create_ticket :
      (request : ActionRequest) (level : TrustLevel) (fingerprint : String) (s : PolicyService E)
      → fingerprint ≡ action_fingerprint sha256 request.capability request.operation request.payload
      → ((create_ticket request level fingerprint s).0.id ≡ "conf-" & show s.next_id)
        × ((create_ticket request level fingerprint s).0.status ≡ pending)
        × IsBound sha256 (create_ticket request level fingerprint s).0
  unfolding create_ticket
  IsBound-create_ticket request level fingerprint s bound = (refl, refl, bound)

  next_id-create_ticket :
      (request : ActionRequest) (level : TrustLevel) (fingerprint : String) (s : PolicyService E)
      → (create_ticket request level fingerprint s).1.next_id ≡ suc s.next_id
  unfolding create_ticket
  next_id-create_ticket request level fingerprint s = refl

  next_id-decide_existing :
      (request : ActionRequest) (id : String) (level : TrustLevel) (fingerprint : String)
      (s : PolicyService E)
      → (decide_existing request id level fingerprint s).1.next_id ≡ s.next_id
  unfolding decide_existing
  next_id-decide_existing request id level fingerprint s = ground arith

  pub propose_moves :
      (request : ActionRequest) (level : TrustLevel) (fingerprint : String) (s : PolicyService E)
      → fingerprint ≡ action_fingerprint sha256 request.capability request.operation request.payload
      → IsFresh s
      → Moved s (propose request level fingerprint s).1 false
  unfolding propose
  propose_moves request level fingerprint s bound fresh = ground (
    arith,
    eq_iff ("conf-" & show s.next_id) j,
    get-create_ticket request level fingerprint s,
    IsBound-create_ticket request level fingerprint s bound,
    next_id-create_ticket request level fingerprint s,
    refl_Moves sha256 j s.next_id s.next_id (get j s.tickets),
  )

  pub not_allowed_propose :
      (request : ActionRequest) (level : TrustLevel) (fingerprint : String) (s : PolicyService E)
      → is_allow (propose request level fingerprint s).0 ≡ false
  unfolding propose
  not_allowed_propose request level fingerprint s = refl

  pub decide_existing_keeps :
      (request : ActionRequest) (id : String) (level : TrustLevel) (fingerprint : String)
      (s : PolicyService E)
      → get j (decide_existing request id level fingerprint s).1.tickets ≡ get j s.tickets
  unfolding decide_existing
  decide_existing_keeps request id level fingerprint s = ground arith

  pub decide_moves :
      (request : ActionRequest) (s : PolicyService E)
      → IsFresh s
      → Moved s (decide sha256 request s).1 false
  unfolding decide deny allow
  decide_moves request s fresh =
      let level = level_for s request.capability request.intent in
      let fingerprint =
        action_fingerprint sha256 request.capability request.operation request.payload in
      elim (Option-cases (truthy request.confirmation_id)) [
        | inl missing ↦ ground (
          arith,
          propose_moves request level fingerprint s refl fresh,
          refl_Moves sha256 j s.next_id s.next_id (get j s.tickets),
        )
        | inr (id, given) ↦ ground (
          arith,
          decide_existing_keeps request id level fingerprint s,
          next_id-decide_existing request id level fingerprint s,
          refl_Moves sha256 j s.next_id s.next_id (get j s.tickets),
        )
      ]

  pub next_id-allowed :
      (request : ActionRequest) (s : PolicyService E)
      → is_allow (decide sha256 request s).0 ≡ true
      → (decide sha256 request s).1.next_id ≡ s.next_id
  unfolding decide deny allow
  next_id-allowed request s allowed =
      let level = level_for s request.capability request.intent in
      let fingerprint =
        action_fingerprint sha256 request.capability request.operation request.payload in
      elim (Option-cases (truthy request.confirmation_id)) [
        | inl missing ↦ ground (arith, not_allowed_propose request level fingerprint s)
        | inr (id, given) ↦ ground (arith, next_id-decide_existing request id level fingerprint s)
      ]

  pub allowed_keeps :
      (request : ActionRequest) (s : PolicyService E)
      → is_allow (decide sha256 request s).0 ≡ true
      → get j (decide sha256 request s).1.tickets ≡ get j s.tickets
  unfolding decide deny allow
  allowed_keeps request s allowed =
      let level = level_for s request.capability request.intent in
      let fingerprint =
        action_fingerprint sha256 request.capability request.operation request.payload in
      elim (Option-cases (truthy request.confirmation_id)) [
        | inl missing ↦ ground (arith, not_allowed_propose request level fingerprint s)
        | inr (id, given) ↦ ground (arith, decide_existing_keeps request id level fingerprint s)
      ]
