-- ===== src/Approval/Broker/Steady.antt =====
-- The calls that hand out no promise keep those that wait, or settle them.
use dsh_assistant.Prelude.{
  leb, if◌then◌else◌, Bool-cases, Option-cases, count_if-append, text_equality, number_equality,
  ◌==◌, ◌+◌, String, ◌≡◌, refl, sym, ◌∙◌, ◌⊎◌, inl, inr, Bool, true, false, some, List, [], ◌∷◌,
  ◌++◌, arith,
}
use dsh_assistant.Prelude.Dict.{get, put, get-put, IsDistinct, put-IsDistinct}
use dsh_assistant.Approval.Broker.{
  resolve, settle, unavailable, is_pending, ApprovalOutcome, answered, DshApprovalDecision,
  DshApprovalTicket, DshApprovalBroker, size, prune, outcome_of, settle_all,
}
use mathlib.Core.Path.{subst}
use dsh_assistant.Approval.Broker.Pruned.{settled, waits, prune_loop-IsDistinct, prune_loop-waits}

-- From `s` to `t` no promise is handed out, and those that `s` has wait or are settled in `t`.
abbrev pub IsSteady : DshApprovalBroker → DshApprovalBroker → Type 0
IsSteady s t =
    ((id : String)
      → settled id t.answers + waits (get id t.records)
        ≡ settled id s.answers + waits (get id s.records))
    × IsDistinct t.records

pub IsSteady-IsSteady : (s t u : DshApprovalBroker) → IsSteady s t → IsSteady t u → IsSteady s u
IsSteady-IsSteady s t u h k = (λ id. k.0 id ∙ h.0 id, k.1)

pub prune-IsSteady : (s : DshApprovalBroker) → IsDistinct s.records → IsSteady s (prune s)
unfolding prune
prune-IsSteady s d = elim (Bool-cases (leb (size s.records) s.history_limit)) [
  | inl small ↦ rw small (λ id. refl, d)
  | inr large ↦ rw large (
    λ id. ground (arith, prune_loop-waits s.history_limit (size s.records) id s.records d),
    prune_loop-IsDistinct s.history_limit (size s.records) s.records d,
  )
]

abbrev answer :
    String → ApprovalOutcome → DshApprovalTicket × Bool → DshApprovalBroker → DshApprovalBroker
answer id outcome entry s = record s {
  records = put id (record (entry.0) { status = answered outcome }, false) s.records;
  answers = if entry.1 then s.answers ++ (id, outcome) ∷ [] else s.answers;
}

settle_cases :
    (id : String) (outcome : ApprovalOutcome) (s : DshApprovalBroker)
    → (settle id outcome s ≡ s)
      ⊎ ((entry : DshApprovalTicket × Bool) × (get id s.records ≡ some entry)
          × (is_pending entry.0.status ≡ true)
          × (settle id outcome s ≡ answer id outcome entry s))
unfolding settle
settle_cases id outcome s = elim (Option-cases (get id s.records)) [
  | inl nothing ↦ inl (rw (settle, nothing) refl)
  | inr there ↦ elim (Bool-cases (is_pending there.0.0.status)) [
    | inl still ↦ inr (there.0, there.1, still, rw (settle, there.1, still) refl)
    | inr over ↦ inl (rw (settle, there.1, over) refl)
  ]
]

answer-IsSteady :
    (id : String) (outcome : ApprovalOutcome) (entry : DshApprovalTicket × Bool)
    (s : DshApprovalBroker)
    → get id s.records ≡ some entry
    → is_pending entry.0.status ≡ true
    → IsDistinct s.records
    → IsSteady s (answer id outcome entry s)
answer-IsSteady id outcome entry s g p d = (
  λ k. ground (
    arith,
    g,
    p,
    text_equality.agrees id k,
    get-put id k (record (entry.0) { status = answered outcome }, false) s.records,
    count_if-append (λ a. a.0 == k) s.answers ((id, outcome) ∷ []),
  ),
  put-IsDistinct id (record (entry.0) { status = answered outcome }, false) s.records d,
)

pub settle-IsSteady :
    (id : String) (outcome : ApprovalOutcome) (s : DshApprovalBroker)
    → IsDistinct s.records
    → IsSteady s (settle id outcome s)
settle-IsSteady id outcome s d = elim (settle_cases id outcome s) [
  | inl same ↦ subst (IsSteady s) (sym same) (λ k. refl, d)
  | inr more ↦ subst (IsSteady s) (sym more.3) (answer-IsSteady id outcome more.0 s more.1 more.2 d)
]

pub settle_all-IsSteady :
    (ids : List String) (s : DshApprovalBroker)
    → IsDistinct s.records
    → IsSteady s (settle_all ids s)
unfolding settle_all
settle_all-IsSteady [] s d = (λ k. refl, d)
settle_all-IsSteady (id ∷ ids) s d =
    let here = settle-IsSteady id unavailable s d in
    IsSteady-IsSteady s (settle id unavailable s) (settle_all ids (settle id unavailable s)) here
      (settle_all-IsSteady ids (settle id unavailable s) here.1)

resolve_cases :
    (id : String) (decision : DshApprovalDecision) (s : DshApprovalBroker)
    → ((resolve id decision s).1 ≡ s)
      ⊎ ((resolve id decision s).1 ≡ settle id (outcome_of decision) s)
unfolding resolve
resolve_cases id decision s = elim (Option-cases (get id s.records)) [
  | inl nothing ↦ inl (rw (resolve, nothing) refl)
  | inr there ↦ elim (Bool-cases (is_pending there.0.0.status)) [
    | inl still ↦ inr (rw (resolve, there.1, still) refl)
    | inr over ↦ inl (rw (resolve, there.1, over) refl)
  ]
]

pub resolve-IsSteady :
    (id : String) (decision : DshApprovalDecision) (s : DshApprovalBroker)
    → IsDistinct s.records
    → IsSteady s (resolve id decision s).1
resolve-IsSteady id decision s d = elim (resolve_cases id decision s) [
  | inl same ↦ subst (IsSteady s) (sym same) (λ k. refl, d)
  | inr more ↦ subst (IsSteady s) (sym more) (settle-IsSteady id (outcome_of decision) s d)
]
