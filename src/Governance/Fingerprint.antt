-- ===== src/Governance/Fingerprint.antt =====
-- domain/governance/fingerprint.ts: the digest that an approval binds to.
use dsh_assistant.Prelude.{text_equality, number_equality, String, Option, none, some}
use dsh_assistant.Prelude.Dict.{get}
use dsh_assistant.Prelude.Result.{Result, ok, raise}
use dsh_assistant.Json.{Json, str, num, obj, field, end, stringify}
use dsh_assistant.Policy.Fingerprint.{canonicalize}
use dsh_assistant.Candidate.Types.{CandidateRecord}
use dsh_assistant.Governance.Types.{GovernanceError, failed}
use dsh_assistant.Governance.State.{Outside}

-- every object with its keys sorted, at every depth
unfoldable pub stable : Json → String
stable value = stringify (canonicalize value)

-- a missing value is printed as `undefined`
abbrev pub or_undefined : Option String → Json
or_undefined none = num "undefined"
or_undefined (some s) = str s

abbrev pub approval_input : CandidateRecord → String → Json → Json
approval_input c digest diff = obj (
    field "candidateId" (str c.id) (
      field "owner" (str c.owner) (
        field "version" (str c.version) (
          field "digest" (str digest)
            (field "baseVersion" (or_undefined c.base_version) (field "diff" diff end))))))

unfoldable pub fingerprint_from_candidate :
    (String → String) → CandidateRecord → Json → Result GovernanceError String
unfolding stable
fingerprint_from_candidate sha256 c diff = elim c.digest [
  | none ↦ raise (failed "candidate digest is required for approval fingerprint")
  | some digest ↦ ok (sha256 (stable (approval_input c digest diff)))
]

abbrev pub with_diff :
    (String → String)
    → CandidateRecord
    → Option Json
    → Result GovernanceError (CandidateRecord × String)
with_diff sha256 c none = raise (failed "no diff")
with_diff sha256 c (some diff) = elim (fingerprint_from_candidate sha256 c diff) [
  | raise e ↦ raise e
  | ok fingerprint ↦ ok (c, fingerprint)
]

-- `facts` of service.ts: a candidate, and its fingerprint as it is now
unfoldable pub facts : Outside → String → Result GovernanceError (CandidateRecord × String)
facts o id = elim (get id o.candidates) [
  | none ↦ raise (failed "unknown candidate")
  | some c ↦ with_diff o.sha256 c (o.diff id)
]
