-- ===== src/Governance/Granted.antt =====
-- domain/governance/service.ts: where the approvals come from.
pub mod Runs
use dsh_assistant.Prelude.{
  if◌then◌else◌, Bool-cases, Option-cases, text_equality, number_equality, ◌==◌, ◌&◌, String, ◌≡◌,
  inl, inr, Bool, true, false, not, ◌&&◌, Option, none, some, arith, eq_iff,
}
use dsh_assistant.Prelude.Dict.{Dict, get, get-put, get-put_twice}
use dsh_assistant.Governance.Types.{
  is_approved, ApprovalDecision, approval_requested, superseded, recovery, ApprovalAuthority,
  ApprovalRecord, TrustedDecision, approve_exact_diff, reject, TrustedApprovalInput,
}
use dsh_assistant.Governance.State.{Governance, Outside, assert_credential}
use dsh_assistant.Governance.Approvals.{
  create_approval, kept_or_created, request_approval, decision_of, record_approval, supersede_exact,
  abandon_failed_activation,
}
use dsh_assistant.Governance.Keeps.{
  assert_mutation_idle-Keeps, assert_credential-Keeps, approvals_of, Frames-Keeps,
}
use dsh_assistant.Governance.Preserves.{
  Preserves, then-Preserves, ensure-Preserves, read-Preserves, Keeps-Preserves, ensure_lem,
}
use dsh_assistant.Governance.Schedule.{Call, record_decision}
use dsh_assistant.Prelude.Decimal.{show}
use dsh_assistant.Governance.Keeps.Gate.{request_eligibility-Keeps, with_facts-Keeps}

abbrev pub is_approve : TrustedDecision → Bool
is_approve approve_exact_diff = true
is_approve reject = false

-- a person approved this fingerprint of this candidate by the call
abbrev pub grants : Call → String → String → Bool
grants (record_decision o trusted authority input) id fingerprint =
    trusted
    && is_approve input.decision
    && (input.candidate_id == id && input.fingerprint == fingerprint)
grants _ id fingerprint = false

-- every approval in force is of what `given` says that a person approved
abbrev pub Recorded : (String → String → Bool) → Dict String ApprovalRecord → Type 0
Recorded given approvals =
    (id : String) (a : ApprovalRecord)
    → get id approvals ≡ some a
    → is_approved a.decision ≡ true
    → given id a.fingerprint ≡ true

created_lem :
    (id j fingerprint : String) (decision : ApprovalDecision) (authority : Option ApprovalAuthority)
    (s : Governance)
    → get j (create_approval id fingerprint decision authority s).1.approvals ≡ (
        if id == j
        then some (record {
          id = "apr-" & show s.next_approval;
          candidate_id = id;
          fingerprint = fingerprint;
          decision = decision;
          authority = authority;
        })
        else get j s.approvals)
created_lem id j fingerprint decision authority s = elim (Option-cases (get id s.approvals)) [
  | inl p ↦ rw p (get-put id j _ s.approvals)
  | inr (a, p) ↦ elim (Bool-cases (is_approved a.decision && not (a.fingerprint == fingerprint))) [
    | inl q ↦ rw (p, q) (get-put_twice id j _ _ s.approvals)
    | inr q ↦ rw (p, q) (get-put id j _ s.approvals)
  ]
]

create_approval-Recorded :
    (given given' : String → String → Bool) (id fingerprint : String) (decision : ApprovalDecision)
    (authority : Option ApprovalAuthority) (s : Governance)
    → Recorded given s.approvals
    → ((i f : String) → given i f ≡ true → given' i f ≡ true)
    → (is_approved decision ≡ true → given' id fingerprint ≡ true)
    → Recorded given' (create_approval id fingerprint decision authority s).1.approvals
create_approval-Recorded given given' id fingerprint decision authority s h wider fresh j a p q =
    ground (
      arith,
      created_lem id j fingerprint decision authority s,
      p,
      q,
      fresh,
      h j a,
      wider j a.fingerprint,
      eq_iff id j,
    )

supersede_exact-Recorded :
    (given : String → String → Bool) (id fingerprint : String) (s : Governance)
    → Recorded given s.approvals
    → Recorded given (supersede_exact id fingerprint (get id s.approvals) s).1.approvals
supersede_exact-Recorded given id fingerprint s h j a p q =
    elim (Option-cases (get id s.approvals)) [
      | inl e ↦ h j a (ground (arith, p, e)) q
      | inr (b, e) ↦
          ground
            (arith, p, e, q, h j a, get-put id j (record b { decision = superseded }) s.approvals)
    ]

kept_or_created-Recorded :
    (given : String → String → Bool) (id fingerprint : String) (found : Option ApprovalRecord)
    → Preserves (λ s. Recorded given s.approvals) (kept_or_created id fingerprint found)
unfolding Preserves
kept_or_created-Recorded given id fingerprint none s h =
    create_approval-Recorded given given id fingerprint approval_requested none s h (λ i f e. e)
      (λ e. cc)
kept_or_created-Recorded given id fingerprint (some a) s h =
    elim (Bool-cases (is_approved a.decision && a.fingerprint == fingerprint)) [
      | inl e ↦ rw e h
      | inr e ↦ rw e (
          create_approval-Recorded given given id fingerprint approval_requested none s h
            (λ i f e. e) (λ e. cc))
    ]

pub request_approval-Recorded :
    (given : String → String → Bool) (o : Outside) (id : String)
    → Preserves (λ s. Recorded given s.approvals) (request_approval o id)
unfolding request_approval Preserves
request_approval-Recorded given o id =
    let P : Governance → Type 0 = λ s. Recorded given s.approvals in
    then-Preserves P _ _
      (Keeps-Preserves (Recorded given) _ (request_eligibility-Keeps approvals_of o id))
      (λ gate. ensure-Preserves P _ _ _ (λ _.
        then-Preserves P _ _
          (Keeps-Preserves (Recorded given) _ (with_facts-Keeps approvals_of o id))
          (λ found.
            read-Preserves P _
              (λ s. kept_or_created-Recorded given id (found.1) (get id s.approvals) s))))

approving :
    (given : String → String → Bool) (o : Outside) (trusted : Bool) (authority : ApprovalAuthority)
    (input : TrustedApprovalInput) (fingerprint : String)
    → (grants (record_decision o trusted authority input) input.candidate_id fingerprint ≡ true
        → given input.candidate_id fingerprint ≡ true)
    → trusted ≡ true
    → (input.fingerprint == fingerprint) ≡ true
    → is_approved (decision_of input.decision) ≡ true
    → given input.candidate_id fingerprint ≡ true
approving given o trusted authority input fingerprint h credential same approved =
    ground (arith, h, eq_iff input.candidate_id input.candidate_id)

pub record_approval-Recorded :
    (given : String → String → Bool) (o : Outside) (trusted : Bool) (authority : ApprovalAuthority)
    (input : TrustedApprovalInput)
    → ((id fingerprint : String)
        → grants (record_decision o trusted authority input) id fingerprint ≡ true
        → given id fingerprint ≡ true)
    → Preserves (λ s. Recorded given s.approvals) (record_approval o trusted authority input)
unfolding record_approval assert_credential Preserves
record_approval-Recorded given o trusted authority input h =
    let P : Governance → Type 0 = λ s. Recorded given s.approvals in
    ensure-Preserves P _ _ _ (λ credential.
      then-Preserves P _ _
        (Keeps-Preserves (Recorded given) _ (with_facts-Keeps approvals_of o input.candidate_id))
        (λ found. ensure-Preserves P _ _ _ (λ same. λ s kept.
          create_approval-Recorded given given input.candidate_id (found.1)
            (decision_of input.decision) (some authority) s kept (λ i f e. e)
            (approving given o trusted authority input (found.1) (h input.candidate_id (found.1))
              credential same))))

pub abandon-Recorded :
    (given : String → String → Bool) (id fingerprint : String) (trusted : Bool)
    → Preserves (λ s. Recorded given s.approvals) (abandon_failed_activation id fingerprint trusted)
unfolding abandon_failed_activation
abandon-Recorded given id fingerprint trusted =
    let P : Governance → Type 0 = λ s. Recorded given s.approvals in
    then-Preserves P _ _
      (Keeps-Preserves (Recorded given) _ (assert_credential-Keeps approvals_of trusted))
      (λ _.
        then-Preserves P _ _
          (Keeps-Preserves (Recorded given) _ (assert_mutation_idle-Keeps approvals_of recovery))
          (λ _. read-Preserves P _ (λ s h.
            ensure_lem P _ _ _ s h
              (ensure_lem P _ _ _ s h (supersede_exact-Recorded given id fingerprint s h)))))
