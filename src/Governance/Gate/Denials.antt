-- ===== src/Governance/Gate/Denials.antt =====
-- domain/governance/service.ts: each list of denials, where it is empty.
use dsh_assistant.Prelude.{
  text_equality, number_equality, ◌==◌, String, ◌≡◌, refl, true, false, not, ◌&&◌, Option, none,
  some, List, [], ◌∷◌, arith, eq_iff, map,
}
use dsh_assistant.Prelude.Dict.{Dict, get}
use dsh_assistant.Prelude.Result.{ok, Result}
use dsh_assistant.Candidate.Types.{CandidateRecord, is_validated}
use dsh_assistant.Governance.Types.{
  approved_for_exact_diff, ApprovalRecord, EligibilityDenial, GovernanceError,
}
use dsh_assistant.Governance.State.{
  ReviewState, not_reviewed, reviewing, changes_required, review_complete, stale, ReviewReport,
  Outside,
}
use dsh_assistant.Governance.Eligibility.{
  has_text, validation_digest, digest_denials, review_policy_version, state_denials, review_denials,
  approval_denials, conflict_denials, validation_passed,
}

-- the digest is that of the validation, and of the files where they are there
abbrev pub Digested : Outside → CandidateRecord → Type 0
Digested o c =
    (digest : String) × (c.digest ≡ some digest)
    × (has_text digest (validation_digest c.validation) ≡ true)
    × ((o.root_exists c.workspace_root && not (o.live_digest c == digest)) ≡ false)

-- the last review is complete, and of this digest and policy, with no open blocker
abbrev pub Reviewed : Outside → CandidateRecord → Type 0
Reviewed o c =
    (review : (CandidateRecord → ReviewState) × (String → Option ReviewReport)) × (o.review
      ≡ some review)
    × ((review.0) c ≡ review_complete)
    × (last : ReviewReport) × ((review.1) c.id ≡ some last)
    × (has_text last.digest c.digest ≡ true)
    × ((last.policy_version == review_policy_version) ≡ true)
    × (last.open_blocker ≡ false)

-- an approval of the fingerprint is in force
abbrev pub Approved : String → String → Dict String ApprovalRecord → Type 0
Approved id fingerprint approvals =
    (a : ApprovalRecord) × (get id approvals ≡ some a)
    × (a.decision ≡ approved_for_exact_diff)
    × (a.fingerprint ≡ fingerprint)

pub digest_denials-[] :
    (o : Outside) (c : CandidateRecord) (digest : Option String)
    → digest_denials o c digest ≡ []
    → (d : String) × (digest ≡ some d)
      × (has_text d (validation_digest c.validation) ≡ true)
      × ((o.root_exists c.workspace_root && not (o.live_digest c == d)) ≡ false)
unfolding digest_denials
digest_denials-[] o c none h = absurd (ground (arith, h))
digest_denials-[] o c (some d) h = (d, refl, ground (arith, h), ground (arith, h))

state_denials-[] :
    (state : ReviewState) (digest : Option String) (last : Option ReviewReport)
    → state_denials state digest last ≡ []
    → (state ≡ review_complete)
      × (r : ReviewReport) × (last ≡ some r)
      × (has_text r.digest digest ≡ true)
      × ((r.policy_version == review_policy_version) ≡ true)
      × (r.open_blocker ≡ false)
state_denials-[] not_reviewed digest last h = absurd (ground (arith, h))
state_denials-[] reviewing digest last h = absurd (ground (arith, h))
state_denials-[] changes_required digest last h = absurd (ground (arith, h))
state_denials-[] stale digest last h = absurd (ground (arith, h))
state_denials-[] review_complete digest none h = absurd (ground (arith, h))
state_denials-[] review_complete digest (some r) h =
    (refl, r, refl, ground (arith, h), ground (arith, h), ground (arith, h))

pub review_denials-[] :
    (o : Outside) (c : CandidateRecord)
    (review : Option ((CandidateRecord → ReviewState) × (String → Option ReviewReport)))
    → o.review ≡ review
    → review_denials c review ≡ []
    → Reviewed o c
unfolding review_denials
review_denials-[] o c none e h = absurd (ground (arith, h))
review_denials-[] o c (some review) e h =
    let (complete, last, found, same, pinned, open_blocker) =
      state_denials-[] (review.0 c) c.digest (review.1 c.id) h in
    (review, e, complete, last, found, same, pinned, open_blocker)

pub approval_denials-[] :
    (id : String) (approvals : Dict String ApprovalRecord) (found : Option ApprovalRecord)
    (c : CandidateRecord) (fingerprint : String)
    → get id approvals ≡ found
    → approval_denials found (ok (c, fingerprint)) ≡ []
    → Approved id fingerprint approvals
approval_denials-[] id approvals none c fingerprint e h = absurd (ground (arith, h))
approval_denials-[] id approvals (some a) c fingerprint e h =
    (a, e, ground (arith, h), ground (arith, h, eq_iff a.fingerprint fingerprint))

pub conflict_denials-[] : (names : List String) → conflict_denials names ≡ [] → names ≡ []
conflict_denials-[] [] h = refl
conflict_denials-[] (n ∷ ns) h = absurd (ground (arith, h))

-- what must hold of a candidate before it may be approved
abbrev pub Presentable : Outside → CandidateRecord → Type 0
Presentable o c =
    (c.sealed ≡ true)
    × (is_validated c.lifecycle ≡ true)
    × (validation_passed c.validation ≡ true)
    × Digested o c
    × Reviewed o c

pub ok_injective :
    (xs ys : List EligibilityDenial)
    → ◌≡◌ {A = Result GovernanceError (List EligibilityDenial)} (ok xs) (ok ys)
    → xs ≡ ys
ok_injective xs ys h = cc

pub map-[] {ℓ κ} : {A : Type ℓ} {B : Type κ} (f : A → B) (xs : List A) → map f xs ≡ [] → xs ≡ []
map-[] f [] h = refl
map-[] f (x ∷ xs) h = absurd (ground (arith, h))
