-- ===== src/Reliability/Classify.antt =====
-- domain/reliability/classify.ts
use dsh_assistant.Prelude.{
  if◌then◌else◌, any, text_equality, number_equality, ◌==◌, ℕ, String, Bool, true, false, not, ◌&&◌,
  ◌||◌, List, [], ◌∷◌,
}
use dsh_assistant.Registry.Identity.{starts_with}
use dsh_assistant.Reliability.Types.{RiskClass, r0, r1, r2, r3, r4, GateManifest}

-- `s.includes(part)`
unfoldable pub includes : String → String → Bool
includes part String.[] = starts_with part ""
includes part (String.◌∷◌ c s) = starts_with part (String.◌∷◌ c s) || includes part s

abbrev pub risk_rank : RiskClass → ℕ
risk_rank r0 = 0
risk_rank r1 = 1
risk_rank r2 = 2
risk_rank r3 = 3
risk_rank r4 = 4

-- `/^(governance|recovery|approval)\./`
unfoldable pub is_control : String → Bool
is_control item =
    starts_with "governance." item || starts_with "recovery." item || starts_with "approval." item

abbrev pub has_any {ℓ} : {A : Type ℓ} → List A → Bool
has_any [] = false
has_any (x ∷ xs) = true

unfoldable pub controls : GateManifest → Bool
controls manifest =
    any is_control manifest.capabilities
    || any
        (λ item.
          includes "recovery." item
          || includes "approval.authority" item
          || item == "recovery-root")
        manifest.permissions
    || includes "recovery" manifest.owner

abbrev pub is_credentialed : GateManifest → Bool
is_credentialed manifest = has_any manifest.secrets || has_any manifest.effects.secrets

abbrev pub is_external : GateManifest → Bool
is_external manifest = has_any manifest.effects.network || is_credentialed manifest

unfoldable pub derive_risk_class : GateManifest → RiskClass
derive_risk_class manifest =
    if controls manifest
    then r4
    else if has_any manifest.effects.process
        || (is_external manifest && not manifest.effects.remote_read_only)
    then r3
    else if has_any manifest.effects.filesystem
    then r2
    else if is_external manifest
    then r1
    else r0
