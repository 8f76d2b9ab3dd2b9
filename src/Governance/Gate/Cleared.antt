-- ===== src/Governance/Gate/Cleared.antt =====
-- domain/governance/service.ts: what `denials` leaves when it is empty.
use dsh_assistant.Governance.Gate.Denials.{
  Approved, digest_denials-[], review_denials-[], approval_denials-[], conflict_denials-[],
  Presentable, ok_injective, map-[],
}
use dsh_assistant.Prelude.{
  text_equality, number_equality, String, ◌≡◌, refl, false, not, ◌&&◌, some, [], arith,
  Option-cases, ◌||◌, inl, inr, sym, ◌++◌, ◌∙◌, ap,
}
use dsh_assistant.Prelude.Dict.{get}
use dsh_assistant.Prelude.Result.{ok}
use dsh_assistant.Candidate.Types.{CandidateRecord, is_validated}
use dsh_assistant.Governance.State.{
  ◌>>=◌, Outside, Governance, is_recovery_required, kind_text, origin_text, read, return,
}
use dsh_assistant.Governance.Eligibility.{
  approval_denials, candidate_denials, state_of_affairs, validation_passed, base_denials,
  compatibility_denials, activation_denials,
}
use dsh_assistant.Governance.Gate.{
  then_returned, append-[], deny_if-[], subst, read, then_read, read_lem,
}
use dsh_assistant.Governance.Trust.{requires_isolated_generated_runtime}
use dsh_assistant.Registry.Conflicts.{conflicts}
use dsh_assistant.Governance.Fingerprint.{facts, fingerprint_from_candidate}
use mathlib.Core.Path.{subst}
use dsh_assistant.Governance.Keeps.Gate.{candidate_denials-Keeps}

candidate_denials-[] :
    (o : Outside) (c : CandidateRecord) (s : Governance)
    → (candidate_denials o c s).0 ≡ ok []
    → Presentable o c
unfolding candidate_denials
candidate_denials-[] o c s h =
    let (base, p, q) = then_returned (base_denials o c c.base_version) _ s [] h in
    let (compatible, p', q') = then_returned (compatibility_denials o c) _ _ [] q in
    let (l5, compatible_none) = append-[] _ _ (ok_injective _ _ q') in
    let (l4, reviewed) = append-[] _ _ l5 in
    let (l3, base_none) = append-[] _ _ l4 in
    let (l2, digested) = append-[] _ _ l3 in
    let (unsealed, unvalidated) = append-[] _ _ l2 in
    let sealed : not c.sealed ≡ false = deny_if-[] _ _ _ unsealed in
    let validated : (not (is_validated c.lifecycle) || not (validation_passed c.validation))
        ≡ false =
      deny_if-[] _ _ _ unvalidated in
    (
      ground arith,
      ground arith,
      ground arith,
      digest_denials-[] o c c.digest digested,
      review_denials-[] o c o.review refl reviewed,
    )

state_of_affairs-[] :
    (o : Outside) (c : CandidateRecord) (s : Governance)
    → state_of_affairs o c s ≡ []
    → (is_recovery_required s ≡ false)
      × ((s.safe_mode
            && requires_isolated_generated_runtime c.owner
                (some (kind_text c.provenance.kind))
                (some (origin_text c.provenance.origin)))
          ≡ false)
      × (conflicts o.collate s.registry ≡ [])
unfolding state_of_affairs
state_of_affairs-[] o c s h =
    let (l2, safe) = append-[] _ _ h in
    let (none_disputed, recovered) = append-[] _ _ l2 in
    (
      deny_if-[] _ _ _ recovered,
      deny_if-[] _ _ _ safe,
      map-[] _ _ (conflict_denials-[] _ none_disputed),
    )

-- what `denials` guarantees where it is empty
abbrev pub Cleared : Outside → String → CandidateRecord → String → Governance → Type 0
Cleared o id c fingerprint s =
    (get id o.candidates ≡ some c)
    × Presentable o c
    × Approved id fingerprint s.approvals
    × (is_recovery_required s ≡ false)
    × ((s.safe_mode
          && requires_isolated_generated_runtime c.owner (some (kind_text c.provenance.kind))
              (some (origin_text c.provenance.origin)))
        ≡ false)
    × (conflicts o.collate s.registry ≡ [])

facts-found :
    (o : Outside) (id : String) (c : CandidateRecord) (found : CandidateRecord × String)
    → get id o.candidates ≡ some c
    → facts o id ≡ ok found
    → found.0 ≡ c
unfolding facts fingerprint_from_candidate
facts-found o id c found e h = elim (Option-cases (o.diff id)) [
  | inl p ↦ absurd (ground (arith, e, h, p))
  | inr (diff, p) ↦ ground (arith, e, h, p)
]

known :
    (o : Outside) (id : String) (s : Governance) (c : CandidateRecord)
    (found : CandidateRecord × String)
    → get id o.candidates ≡ some c
    → facts o id ≡ ok found
    → ((candidate_denials o c >>= λ request. read >>= λ s.
          return (
            request
            ++ approval_denials (get id s.approvals) (facts o id)
            ++ state_of_affairs o c s))
        s).0
      ≡ ok []
    → Cleared o id c (found.1) s
known o id s c found p e h =
    let (request, q, r) =
      then_read (candidate_denials o c) _ s [] (candidate_denials-Keeps (λ s. s) o c) h in
    let (l2, affairs) = append-[] _ _ (ok_injective _ _ (read_lem _ s [] r)) in
    let (presented, approved) = append-[] _ _ l2 in
    let (recovered, safe, agreed) = state_of_affairs-[] o c s affairs in
    (
      p,
      candidate_denials-[] o c s (q ∙ ap ok presented),
      approval_denials-[] id s.approvals (get id s.approvals) (found.0) (found.1) refl
          (subst (λ x. approval_denials (get id s.approvals) x ≡ []) e approved),
      recovered,
      safe,
      agreed,
    )

pub activation_denials-[] :
    (o : Outside) (id : String) (s : Governance) (found : CandidateRecord × String)
    → facts o id ≡ ok found
    → (activation_denials o id s).0 ≡ ok []
    → Cleared o id found.0 found.1 s
unfolding activation_denials
activation_denials-[] o id s found e h = elim (Option-cases (get id o.candidates)) [
  | inl p ↦ absurd (ground (arith, h, p))
  | inr (c, p) ↦
      subst (λ c. Cleared o id c found.1 s) (sym (facts-found o id c found p e))
        (known o id s c found p e (ground (arith, h, p)))
]
