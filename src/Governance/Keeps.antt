-- ===== src/Governance/Keeps.antt =====
-- domain/governance/service.ts: the parts that leave one aspect of the state alone.
pub mod Gate
pub mod Methods
pub mod Others
use dsh_assistant.Prelude.{
  if◌then◌else◌, Option-cases, text_equality, number_equality, String, ◌≡◌, refl, ap, ◌∙◌, inl, inr,
  Bool, true, false,
}
use dsh_assistant.Prelude.Result.{Result-cases, Result}
use dsh_assistant.Governance.Types.{LifecycleMutation, ApprovalRecord, GovernanceError}
use dsh_assistant.Governance.State.{
  read, Governance, M, ◌>>=◌, return, throw, ensure, lifecycle_busy, assert_mutation_idle,
  assert_credential, ask_registry,
}
use dsh_assistant.Governance.Activation.{update}
use dsh_assistant.Governance.Frame.{Frames}
use dsh_assistant.Prelude.Dict.{Dict}
use dsh_assistant.Registry.Service.{Registry}
use dsh_assistant.Registry.Types.{RegistryError}

-- the part leaves what `f` reads of the state, an error included
unfoldable pub Keeps {ℓ κ} : {X : Type ℓ} {A : Type κ} → (Governance → X) → M A → Type ℓ
Keeps f m = (s : Governance) → f (m s).1 ≡ f s

pub then-Keeps {ℓ κ μ} :
    {X : Type ℓ} {A : Type κ} {B : Type μ} (f : Governance → X) (m : M A) (k : A → M B)
    → Keeps f m
    → ((a : A) → Keeps f (k a))
    → Keeps f (m >>= k)
unfolding ◌>>=◌ Keeps
then-Keeps f m k h next s = elim (Result-cases (m s).0) [
  | inl (e, p) ↦ rw p (h s)
  | inr (a, p) ↦ rw p (next a (m s).1 ∙ h s)
]

pub return-Keeps {ℓ κ} : {X : Type ℓ} {A : Type κ} (f : Governance → X) (a : A) → Keeps f (return a)
unfolding Keeps
return-Keeps f a s = refl

pub throw-Keeps {ℓ κ} :
    {X : Type ℓ} (A : Type κ) (f : Governance → X) (e : GovernanceError) → Keeps f (throw {A = A} e)
unfolding Keeps
throw-Keeps A f e s = refl

pub read-Keeps {ℓ} : {X : Type ℓ} (f : Governance → X) → Keeps f read
unfolding Keeps
read-Keeps f s = refl

pub if-Keeps {ℓ κ} :
    {X : Type ℓ} {A : Type κ} (f : Governance → X) (b : Bool) (m n : M A)
    → Keeps f m
    → Keeps f n
    → Keeps f (if b then m else n)
if-Keeps f true m n h k = h
if-Keeps f false m n h k = k

pub ask_registry-Keeps {ℓ κ} :
    {X : Type ℓ} {A : Type κ} (f : Governance → X) (g : Registry → Result RegistryError A)
    → Keeps f (ask_registry g)
unfolding Keeps ask_registry
ask_registry-Keeps f g s = refl

pub ensure-Keeps {ℓ} :
    {X : Type ℓ} (f : Governance → X) (b : Bool) (e : GovernanceError) → Keeps f (ensure b e)
unfolding Keeps
ensure-Keeps f true e s = refl
ensure-Keeps f false e s = refl

pub assert_mutation_idle-Keeps {ℓ} :
    {X : Type ℓ} (f : Governance → X) (kind : LifecycleMutation)
    → Keeps f (assert_mutation_idle kind)
unfolding Keeps assert_mutation_idle
assert_mutation_idle-Keeps f kind s = elim (Option-cases (lifecycle_busy s)) [
  | inl p ↦ rw (p, assert_mutation_idle) refl
  | inr (busy, p) ↦ rw (p, assert_mutation_idle) refl
]

pub assert_credential-Keeps {ℓ} :
    {X : Type ℓ} (f : Governance → X) (trusted : Bool) → Keeps f (assert_credential trusted)
unfolding assert_credential
assert_credential-Keeps f trusted = ensure-Keeps f trusted _

-- the approvals
abbrev pub approvals_of : Governance → Dict String ApprovalRecord
approvals_of s = s.approvals

pub Frames-Keeps {ℓ} : {A : Type ℓ} (m : M A) → Frames m → Keeps approvals_of m
unfolding Frames Keeps
Frames-Keeps m h s = ap approvals_of (h s)

pub update-Keeps :
    (g : Governance → Governance)
    → ((s : Governance) → (g s).approvals ≡ s.approvals)
    → Keeps approvals_of (update g)
unfolding Keeps
update-Keeps g h s = h s

pub ruleset keeps = (
  then-Keeps, return-Keeps, throw-Keeps, read-Keeps, if-Keeps, ensure-Keeps,
  assert_mutation_idle-Keeps, assert_credential-Keeps, ask_registry-Keeps,
)
