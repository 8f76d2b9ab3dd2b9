-- ===== src/Governance/Preserves.antt =====
-- domain/governance/service.ts: the parts that preserve a predicate of the state.
use dsh_assistant.Prelude.{
  text_equality, number_equality, String, ◌≡◌, refl, sym, inl, inr, Bool, true, false,
}
use dsh_assistant.Prelude.Result.{Result-cases}
use dsh_assistant.Governance.Types.{ApprovalRecord, GovernanceError}
use dsh_assistant.Governance.State.{read, Governance, M, ◌>>=◌, ◌>>◌, ensure}
use mathlib.Core.Path.{subst}
use dsh_assistant.Governance.Keeps.{Keeps, approvals_of}
use dsh_assistant.Prelude.Dict.{Dict}

-- the predicate holds after the part where it held before, an error included
unfoldable pub Preserves {ℓ} : {A : Type ℓ} → (Governance → Type 0) → M A → Type 0
Preserves P m = (s : Governance) → P s → P (m s).1

module _ (P : Governance → Type 0) where
  pub then-Preserves {ℓ κ} :
      {A : Type ℓ} {B : Type κ} (m : M A) (k : A → M B)
      → Preserves P m
      → ((a : A) → Preserves P (k a))
      → Preserves P (m >>= k)
  unfolding ◌>>=◌ Preserves
  then-Preserves m k h next s p = elim (Result-cases (m s).0) [
    | inl (e, q) ↦ rw q (h s p)
    | inr (a, q) ↦ rw q (next a (m s).1 (h s p))
  ]

  -- what follows a test may use it
  pub ensure-Preserves {ℓ} :
      {B : Type ℓ} (b : Bool) (e : GovernanceError) (k : M B)
      → (b ≡ true → Preserves P k)
      → Preserves P (ensure b e >> k)
  unfolding ◌>>=◌ Preserves
  ensure-Preserves true e k next s p = next refl s p
  ensure-Preserves false e k next s p = p

  pub ensure_lem {ℓ} :
      {B : Type ℓ} (b : Bool) (e : GovernanceError) (k : M B) (s : Governance)
      → P s
      → P (k s).1
      → P ((ensure b e >> k) s).1
  unfolding ◌>>=◌
  ensure_lem true e k s p next = next
  ensure_lem false e k s p next = p

  -- what follows a read may use that the state is the one read
  pub read-Preserves {ℓ} :
      {B : Type ℓ} (k : Governance → M B)
      → ((s : Governance) → P s → P (k s s).1)
      → Preserves P (read >>= k)
  unfolding ◌>>=◌ Preserves
  read-Preserves k next s p = next s p

-- a predicate of the approvals alone
pub Keeps-Preserves {ℓ} :
    {A : Type ℓ} (P : Dict String ApprovalRecord → Type 0) (m : M A)
    → Keeps approvals_of m
    → Preserves (λ s. P s.approvals) m
unfolding Keeps Preserves
Keeps-Preserves P m h s p = subst P (sym (h s)) p
