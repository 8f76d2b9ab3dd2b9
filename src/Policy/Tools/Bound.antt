-- ===== src/Policy/Tools/Bound.antt =====
-- The confirmation id that a tool call carries is no part of the action that it binds to.
use dsh_assistant.Prelude.{
  Bool-cases, any, all, text_equality, number_equality, ◌==◌, String, ◌≡◌, refl, sym, ap, ◌∙◌, inl,
  inr, Bool, true, false, not, some, List, [], ◌∷◌, arith,
}
use dsh_assistant.Prelude.Dict.{all-get, get, values}
use dsh_assistant.Json.{Json, Fields, field}
use dsh_assistant.Policy.Types.{ActionRequest}
use dsh_assistant.Policy.Fingerprint.{action_fingerprint}
use dsh_assistant.Policy.Tools.{
  ToolActionSpec, argument, pick, tool_actions, Classified, unlisted, inherited, listed,
  classify_tool, text_of, Requested, requested, request_from_tool, request_of,
}

names_id : ToolActionSpec → Bool
names_id spec = any (λ key. "confirmationId" == key) spec.keys

no_tool_picks_id : all (λ spec. not (names_id spec)) (values tool_actions) ≡ true
unfolding names_id
no_tool_picks_id = refl

listed_get :
    (name : String) (spec : ToolActionSpec)
    → classify_tool name ≡ listed spec
    → get name tool_actions ≡ some spec
unfolding classify_tool
listed_get name spec h = ground (arith, h)

pick_other :
    (key : String) (v : Json) (args : Fields) (keys : List String)
    → any (λ k. key == k) keys ≡ false
    → pick (field key v args) keys ≡ pick args keys
unfolding pick argument
pick_other key v args [] h = refl
pick_other key v args (k ∷ keys) h = elim (Bool-cases (key == k)) [
  | inl same ↦ absurd (ground (arith, same, h))
  | inr other ↦ rw (other, pick_other key v args keys (ground (arith, other, h))) refl
]

-- the fingerprint that `decide` computes
pub request_fingerprint : (String → String) → ActionRequest → String
request_fingerprint sha256 r = action_fingerprint sha256 r.capability r.operation r.payload

listed_pick :
    (name : String) (spec : ToolActionSpec) (v : Json) (args : Fields)
    → classify_tool name ≡ listed spec
    → pick (field "confirmationId" v args) spec.keys ≡ pick args spec.keys
unfolding names_id
listed_pick name spec v args h = pick_other "confirmationId" v args spec.keys (
    ground (
      arith,
      all-get (λ s. not (names_id s)) name tool_actions spec no_tool_picks_id
          (listed_get name spec h),
    ))

abbrev pub IsRepeat : (String → String) → Json → Requested → ActionRequest → Type 0
IsRepeat sha256 v result r =
    (r' : ActionRequest) × (result ≡ requested r')
    × (request_fingerprint sha256 r' ≡ request_fingerprint sha256 r)
    × (r'.intent ≡ r.intent)
    × (r'.confirmation_id ≡ text_of (some v))

listed_request :
    (name : String) (spec : ToolActionSpec) (args : Fields) (aborted : Bool)
    → classify_tool name ≡ listed spec
    → request_from_tool name args aborted ≡ requested (request_of spec args aborted)
unfolding request_from_tool
listed_request name spec args aborted e = rw (request_from_tool, e) refl

requested_injective : (r q : ActionRequest) → requested r ≡ requested q → r ≡ q
requested_injective r q h = ground (arith, h)

repeated :
    (sha256 : String → String) (name : String) (args : Fields) (v : Json) (aborted : Bool)
    (r : ActionRequest) (c : Classified)
    → classify_tool name ≡ c
    → request_from_tool name args aborted ≡ requested r
    → IsRepeat sha256 v (request_from_tool name (field "confirmationId" v args) aborted) r
unfolding request_from_tool argument request_fingerprint
repeated sha256 name args v aborted r unlisted e h = absurd (ground (arith, e, h))
repeated sha256 name args v aborted r inherited e h = absurd (ground (arith, e, h))
repeated sha256 name args v aborted r (listed spec) e h =
    let q =
      requested_injective r (request_of spec args aborted)
        (sym h ∙ listed_request name spec args aborted e) in
    (
      request_of spec (field "confirmationId" v args) aborted,
      listed_request name spec (field "confirmationId" v args) aborted e,
      rw (listed_pick name spec v args e) (ap (request_fingerprint sha256) (sym q)),
      ap (λ x. x.intent) (sym q),
      refl,
    )

-- A tool call that is repeated with another `confirmationId` asks for an action with the same
-- fingerprint and the same intent, for every digest function and every tool.
pub confirmation_free :
    (sha256 : String → String) (name : String) (args : Fields) (v : Json) (aborted : Bool)
    (r : ActionRequest)
    → request_from_tool name args aborted ≡ requested r
    → IsRepeat sha256 v (request_from_tool name (field "confirmationId" v args) aborted) r
confirmation_free sha256 name args v aborted r h =
    repeated sha256 name args v aborted r (classify_tool name) refl h
