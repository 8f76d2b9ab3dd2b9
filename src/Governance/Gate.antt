-- ===== src/Governance/Gate.antt =====
-- domain/governance/service.ts: what has been checked when an activation begins.
pub mod Denials
pub mod Cleared
pub mod Starts
use dsh_assistant.Prelude.{
  text_equality, number_equality, String, ◌≡◌, refl, sym, ap, ◌∙◌, inl, inr, Bool, true, false,
  none, some, List, [], ◌∷◌, ◌++◌, arith,
}
use dsh_assistant.Prelude.Result.{ok, Result-cases}
use dsh_assistant.Candidate.Types.{CandidateRecord}
use dsh_assistant.Governance.Types.{
  LifecycleMutation, activation, EligibilityDenial, EligibilityResult, ActivationSnapshot,
  GovernanceError, activation_denied,
}
use dsh_assistant.Governance.State.{
  read, Governance, Outside, M, ◌>>=◌, ensure, lifecycle_busy, assert_mutation_idle,
  assert_credential,
}
use dsh_assistant.Governance.Fingerprint.{facts}
use dsh_assistant.Governance.Eligibility.{
  deny_if, activation_denials, is_ok, eligibility_result, eligibility,
}
use dsh_assistant.Governance.Approvals.{with_facts}
use dsh_assistant.Governance.Running.{Progress, Activating, starting}
use dsh_assistant.Governance.Activation.{good_or_captured, update, begin_activation}
use dsh_assistant.Governance.Keeps.{Keeps, assert_mutation_idle-Keeps, assert_credential-Keeps}
use mathlib.Core.Path.{subst}

-- what a chain that returned went through
pub then_returned {ℓ κ} :
    {A : Type ℓ} {B : Type κ} (m : M A) (f : A → M B) (s : Governance) (b : B)
    → ((m >>= f) s).0 ≡ ok b
    → (a : A) × ((m s).0 ≡ ok a) × ((f a (m s).1).0 ≡ ok b)
unfolding ◌>>=◌
then_returned m f s b h = elim (Result-cases (m s).0) [
  | inl (e, p) ↦ absurd (ground (arith, h, p))
  | inr (a, p) ↦ (a, p, ground (arith, h, p))
]

-- the same for a part that leaves the state as it is
pub then_read {ℓ κ} :
    {A : Type ℓ} {B : Type κ} (m : M A) (f : A → M B) (s : Governance) (b : B)
    → Keeps (λ s. s) m
    → ((m >>= f) s).0 ≡ ok b
    → (a : A) × ((m s).0 ≡ ok a) × ((f a s).0 ≡ ok b)
unfolding Keeps
then_read m f s b still h =
    let (a, p, q) = then_returned m f s b h in (a, p, subst (λ t. (f a t).0 ≡ ok b) (still s) q)

pub read_lem {ℓ} :
    {B : Type ℓ} (f : Governance → M B) (s : Governance) (b : B)
    → ((read >>= f) s).0 ≡ ok b
    → (f s s).0 ≡ ok b
unfolding ◌>>=◌
read_lem f s b h = h

ensured :
    (b : Bool) (e : GovernanceError) (s : Governance) (u : Unit {0})
    → (ensure b e s).0 ≡ ok u
    → b ≡ true
ensured true e s u h = refl
ensured false e s u h = cc

idle_lem :
    (kind : LifecycleMutation) (s : Governance) (u : Unit {0})
    → (assert_mutation_idle kind s).0 ≡ ok u
    → lifecycle_busy s ≡ none
unfolding assert_mutation_idle
idle_lem kind s u h = ground (arith, h)

pub append-[] {ℓ} : {A : Type ℓ} (xs ys : List A) → (xs ++ ys) ≡ [] → (xs ≡ []) × (ys ≡ [])
append-[] [] ys h = (refl, h)
append-[] (x ∷ xs) ys h = absurd (ground (arith, h))

pub deny_if-[] : (b : Bool) (reason detail : String) → deny_if b reason detail ≡ [] → b ≡ false
deny_if-[] true reason detail h = cc
deny_if-[] false reason detail h = refl

is_ok-[] : (denials : List EligibilityDenial) → is_ok denials ≡ true → denials ≡ []
is_ok-[] [] h = refl
is_ok-[] (d ∷ ds) h = cc

-- what held when `activate` came to its first await
abbrev pub Passed : Outside → String → Bool → Governance → Progress → Type 0
Passed o id trusted s progress =
    (trusted ≡ true)
    × (lifecycle_busy s ≡ none)
    × ((activation_denials o id s).0 ≡ ok [])
    × (found : CandidateRecord × String) × (facts o id ≡ ok found)
    × (previous : ActivationSnapshot) × (progress
        ≡ some (starting found.0 previous Activating.held))

eligible :
    (o : Outside) (id : String) (s : Governance) (gate : EligibilityResult)
    → (eligibility o id s).0 ≡ ok gate
    → gate.ok ≡ true
    → (activation_denials o id s).0 ≡ ok []
unfolding eligibility
eligible o id s gate h passed =
    let (denials, p, q) = then_returned (activation_denials o id) _ s gate h in
    let e : eligibility_result o id denials ≡ gate = cc in
    let n : denials ≡ [] = is_ok-[] denials (ap (λ (g : EligibilityResult). g.ok) e ∙ passed) in
    p ∙ ap ok n

pub begin_activation-Passed :
    (o : Outside) (id : String) (trusted : Bool) (s : Governance) (progress : Progress)
    → (begin_activation o id trusted s).0 ≡ ok progress
    → Passed o id trusted s progress
unfolding begin_activation assert_credential
begin_activation-Passed o id trusted s progress h =
    let (u, p, q) =
      then_read (assert_credential trusted) _ s progress (assert_credential-Keeps (λ s. s) trusted)
        h in
    let (u', p', q') =
      then_read (assert_mutation_idle activation) _ s progress
        (assert_mutation_idle-Keeps (λ s. s) activation) q in
    let (gate, e, r) = then_returned (eligibility o id) _ s progress q' in
    let (u'', e', r') =
      then_returned (ensure gate.ok (activation_denied gate.denials)) _ _ progress r in
    let (found, e'', r'') = then_returned (with_facts o id) _ _ progress r' in
    let (a3, e3, r3) = then_returned (update _) _ _ progress r'' in
    let (a4, e4, r4) = then_returned read _ _ progress r3 in
    let (previous, e5, r5) =
      then_returned (good_or_captured o a4.last_known_good) _ _ progress r4 in
    let (a6, e6, r6) = then_returned (update _) _ _ progress r5 in
    let passed : gate.ok ≡ true = ensured gate.ok _ _ u'' e' in
    (
      ensured trusted _ s u p,
      idle_lem activation s u' p',
      eligible o id s gate e passed,
      found,
      e'',
      previous,
      cc,
    )
