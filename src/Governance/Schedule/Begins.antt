-- ===== src/Governance/Schedule/Begins.antt =====
-- domain/governance/service.ts: the methods that begin a lifecycle change, and what is left waiting.
use dsh_assistant.Governance.Schedule.Held.{kind_of, Waits, Held, mutation_of, holding}
use dsh_assistant.Governance.Schedule.Held.Others.{resume-Held}
use dsh_assistant.Prelude.{
  text_equality, number_equality, ℕ, zero, suc, String, ◌≡◌, refl, inl, inr, Bool, Option, none,
  some, List, [], ◌∷◌,
}
use dsh_assistant.Prelude.Result.{Result, ok, raise, Result-cases}
use dsh_assistant.Governance.Types.{
  ApprovalDecision, approval_requested, LifecycleMutation, activation, recovery, ApprovalAuthority,
  ApprovalRecord, GovernanceError,
}
use dsh_assistant.Governance.State.{Governance, Outside, M, ◌>>=◌, ◌>>◌}
use dsh_assistant.Governance.Approvals.{create_approval, kept_or_created}
use dsh_assistant.Governance.Running.{Progress, Answer, Running}
use dsh_assistant.Governance.Activation.{update, begin_activation}
use dsh_assistant.Governance.SafeMode.{released, withhold_isolated, begin_safe_mode}
use dsh_assistant.Governance.Removal.{begin_disable, begin_uninstall}
use dsh_assistant.Governance.Frame.Helpers.{disable_isolated-Frames, good_or_captured-Frames}
use dsh_assistant.Governance.Keeps.{Keeps, keeps}
use dsh_assistant.Governance.Schedule.{joined, resume, running_at, resumed}

-- a method that begins: where it waits, its kind of change is in progress
unfoldable pub Begins : LifecycleMutation → M Progress → Type 0
Begins kind m = (s : Governance) → Waits kind (m s)

then-Begins {ℓ} :
    {A : Type ℓ} (kind : LifecycleMutation) (m : M A) (k : A → M Progress)
    → ((a : A) → Begins kind (k a))
    → Begins kind (m >>= k)
unfolding ◌>>=◌ Begins
then-Begins kind m k next s = elim (Result-cases (m s).0) [
  | inl (error, p) ↦ rw p tt
  | inr (a, p) ↦ rw p (next a (m s).1)
]

sets-Begins :
    (kind : LifecycleMutation) (g : Governance → Governance) (k : M Progress)
    → ((s : Governance) → (g s).mutation ≡ some kind)
    → Held kind k
    → Begins kind (update g >> k)
unfolding ◌>>=◌ Begins Held
sets-Begins kind g k h keeps s = keeps (g s) (h s)

pub begin_activation-Begins :
    (o : Outside) (id : String) (trusted : Bool) → Begins activation (begin_activation o id trusted)
unfolding begin_activation
begin_activation-Begins o id trusted = then-Begins _ _ _ (λ _. then-Begins _ _ _ (λ _.
    then-Begins _ _ _ (λ gate. then-Begins _ _ _ (λ _. then-Begins _ _ _ (λ found.
      sets-Begins _ _ _ (λ s. refl) (search (holding, good_or_captured-Frames) depth 12))))))

pub begin_disable-Begins :
    (o : Outside) (trusted : Bool) (owner version : String)
    → Begins LifecycleMutation.disable (begin_disable o trusted owner version)
unfolding begin_disable
begin_disable-Begins o trusted owner version = then-Begins _ _ _ (λ _. then-Begins _ _ _ (λ _.
    then-Begins _ _ _ (λ found.
      then-Begins _ _ _
        (λ _. then-Begins _ _ _ (λ s. sets-Begins _ _ _ (λ s. refl) (search holding))))))

pub begin_uninstall-Begins :
    (o : Outside) (trusted : Bool) (owner version : String) (acknowledged : Bool)
    → Begins LifecycleMutation.uninstall (begin_uninstall o trusted owner version acknowledged)
unfolding begin_uninstall
begin_uninstall-Begins o trusted owner version acknowledged = then-Begins _ _ _ (λ _.
    then-Begins _ _ _ (λ _. then-Begins _ _ _ (λ found. then-Begins _ _ _ (λ _.
      then-Begins _ _ _
        (λ _. then-Begins _ _ _ (λ s. sets-Begins _ _ _ (λ s. refl) (search holding)))))))

withhold_isolated-Held : (o : Outside) → Held recovery (withhold_isolated o)
unfolding withhold_isolated
withhold_isolated-Held o = search (holding, disable_isolated-Frames) depth 12

released-Waits :
    (kind : LifecycleMutation) (out : Result GovernanceError Progress × Governance)
    → Waits kind out
    → Waits kind (released out)
released-Waits kind (ok none, s) h = tt
released-Waits kind (ok (some r), s) h = h
released-Waits kind (raise e, s) h = tt

released-Held :
    (kind : LifecycleMutation) (m : M Progress) → Held kind m → Held kind (λ s. released (m s))
unfolding Held
released-Held kind m h s e = released-Waits kind (m s) (h s e)

pub begin_safe_mode-Begins :
    (o : Outside) (trusted : Bool) → Begins recovery (begin_safe_mode o trusted)
unfolding begin_safe_mode
begin_safe_mode-Begins o trusted = then-Begins _ _ _ (λ _.
    then-Begins _ _ _
      (λ _. sets-Begins _ _ _ (λ s. refl) (released-Held recovery _ (withhold_isolated-Held o))))

-- no method waits, or one does and its kind of change is in progress
abbrev pub IsSingle : List Running → Option LifecycleMutation → Type 0
IsSingle [] mutation = Unit
IsSingle (r ∷ []) mutation = mutation ≡ some (kind_of r)
IsSingle (r ∷ r' ∷ rs) mutation = ⊥

pub begun-IsSingle :
    (kind : LifecycleMutation) (out : Result GovernanceError Progress × Governance)
    → Waits kind out
    → IsSingle (joined out.0 []) out.1.mutation
begun-IsSingle kind (ok (some r), s) (same, e) = rw same e
begun-IsSingle kind (ok none, s) h = tt
begun-IsSingle kind (raise e, s) h = tt

pub resumed-IsSingle :
    (i : ℕ) (o : Outside) (answer : Answer) (s : Governance) (running : List Running)
    → IsSingle running s.mutation
    → IsSingle
        (resumed i o answer
          (running_at i running)
          (record { governance = s; running = running })).running
        (resumed i o answer
          (running_at i running)
          (record { governance = s; running = running })).governance.mutation
unfolding Held
resumed-IsSingle i o answer s [] h = tt
resumed-IsSingle zero o answer s (r ∷ []) h =
    begun-IsSingle (kind_of r) (resume o r answer s) (resume-Held o r answer s h)
resumed-IsSingle (suc i) o answer s (r ∷ []) h = h
resumed-IsSingle i o answer s (r ∷ r' ∷ rs) h = absurd h

pub create_approval-mutation :
    (id fingerprint : String) (decision : ApprovalDecision) (authority : Option ApprovalAuthority)
    → Keeps mutation_of (create_approval id fingerprint decision authority)
unfolding Keeps
create_approval-mutation id fingerprint decision authority s = refl

pub kept_or_created-mutation :
    (id fingerprint : String) (found : Option ApprovalRecord)
    → Keeps mutation_of (kept_or_created id fingerprint found)
kept_or_created-mutation id fingerprint none =
    create_approval-mutation id fingerprint approval_requested none
kept_or_created-mutation id fingerprint (some a) = search (keeps, create_approval-mutation)
