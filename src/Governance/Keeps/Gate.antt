-- ===== src/Governance/Keeps/Gate.antt =====
-- domain/governance/service.ts: the tests before an approval or an activation only read.
use dsh_assistant.Governance.Keeps.{Keeps, keeps}
use dsh_assistant.Prelude.{
  Option-cases, text_equality, number_equality, String, refl, inl, inr, Option, none, some,
}
use dsh_assistant.Candidate.Types.{CandidateRecord}
use dsh_assistant.Governance.State.{Outside, Governance}
use dsh_assistant.Governance.Eligibility.{
  active_of, base_denials, compatibility_denials, candidate_denials, approval_request_denials,
  activation_denials, eligibility, request_eligibility,
}
use dsh_assistant.Governance.Approvals.{with_facts}
use dsh_assistant.Prelude.Dict.{get}

active_of-Keeps {ℓ} :
    {X : Type ℓ} (f : Governance → X) (o : Outside) (owner : String) → Keeps f (active_of o owner)
unfolding active_of
active_of-Keeps f o owner = search keeps

base_denials-Keeps {ℓ} :
    {X : Type ℓ} (f : Governance → X) (o : Outside) (c : CandidateRecord) (base : Option String)
    → Keeps f (base_denials o c base)
unfolding base_denials
base_denials-Keeps f o c none = search keeps
base_denials-Keeps f o c (some base) = search (keeps, active_of-Keeps)

pub candidate_denials-Keeps {ℓ} :
    {X : Type ℓ} (f : Governance → X) (o : Outside) (c : CandidateRecord)
    → Keeps f (candidate_denials o c)
unfolding candidate_denials compatibility_denials
candidate_denials-Keeps f o c = search (keeps, base_denials-Keeps, active_of-Keeps)

approval_request_denials-Keeps {ℓ} :
    {X : Type ℓ} (f : Governance → X) (o : Outside) (id : String)
    → Keeps f (approval_request_denials o id)
unfolding approval_request_denials
approval_request_denials-Keeps f o id = elim (Option-cases (get id o.candidates)) [
  | inl p ↦ rw (p, approval_request_denials) (search keeps)
  | inr (c, p) ↦ rw (p, approval_request_denials) (candidate_denials-Keeps f o c)
]

pub request_eligibility-Keeps {ℓ} :
    {X : Type ℓ} (f : Governance → X) (o : Outside) (id : String)
    → Keeps f (request_eligibility o id)
unfolding request_eligibility
request_eligibility-Keeps f o id = search (keeps, approval_request_denials-Keeps)

activation_denials-Keeps {ℓ} :
    {X : Type ℓ} (f : Governance → X) (o : Outside) (id : String)
    → Keeps f (activation_denials o id)
unfolding activation_denials
activation_denials-Keeps f o id = elim (Option-cases (get id o.candidates)) [
  | inl p ↦ rw (p, activation_denials) (search keeps)
  | inr (c, p) ↦ rw (p, activation_denials) (search (keeps, candidate_denials-Keeps))
]

pub eligibility-Keeps {ℓ} :
    {X : Type ℓ} (f : Governance → X) (o : Outside) (id : String) → Keeps f (eligibility o id)
unfolding eligibility
eligibility-Keeps f o id = search (keeps, activation_denials-Keeps)

pub with_facts-Keeps {ℓ} :
    {X : Type ℓ} (f : Governance → X) (o : Outside) (id : String) → Keeps f (with_facts o id)
unfolding Keeps
with_facts-Keeps f o id s = refl
