-- ===== src/Reliability/Passed.antt =====
-- domain/reliability/gate.ts: what a passed gate means.
use dsh_assistant.Prelude.{
  text_equality, number_equality, ◌≡◌, Bool, true, false, not, ◌&&◌, none, arith, Option, refl,
  List, ◌||◌, all, ◌∷◌, [], if◌then◌else◌, select, some, ◌==◌, Bool-cases, inl, inr, String, ◌≤◌,
}
use dsh_assistant.Reliability.Types.{
  RiskClass, r0, r1, r2, r3, r4, RiskModel, GateManifest, ReliabilityCheck,
}
use dsh_assistant.Reliability.Types.{r0, r1, r2, r3, r4}
use dsh_assistant.Reliability.Classify.{derive_risk_class, has_any, is_credentialed, risk_rank}
use dsh_assistant.Reliability.Defaults.{
  synthesize_local, covered_or_omitted, adversarial_scenarios, r3_failures,
}
use dsh_assistant.Reliability.Gate.{
  is_r4, is_generated, is_blind, needs_model, evaluate_checks, is_r2, evaluate_with,
  evaluate_reliability, model_or_synthesized, effective_class, is_none, is_required, required_for,
  has_real_contract_evidence, has_mode,
}
use mathlib.Core.Path.{subst}

synthesized_lem :
    (manifest : GateManifest) (derived : RiskClass)
    → (evaluate_with manifest derived (synthesize_local (is_r2 derived)) true).passed
      ≡ not (needs_model derived)
unfolding evaluate_with evaluate_checks synthesize_local
synthesized_lem manifest r0 = ground arith
synthesized_lem manifest r1 = ground arith
synthesized_lem manifest r2 = ground arith
synthesized_lem manifest r3 = ground arith
synthesized_lem manifest r4 = ground arith

model_lem :
    (manifest : GateManifest) (derived : RiskClass) (found : Option RiskModel)
    → found ≡ none
    → (evaluate_with manifest derived (model_or_synthesized found derived) (is_none found)).passed
      ≡ not (needs_model derived)
model_lem manifest derived none e = synthesized_lem manifest derived
model_lem manifest derived (some model) e = cc

-- A candidate without a risk model passes exactly when its derived class is R0 or R2: the model made
-- up for it then passes every check that the class requires.
pub no_model_passes :
    (manifest : GateManifest)
    → manifest.risk_model ≡ none
    → (evaluate_reliability manifest).passed ≡ not (needs_model (derive_risk_class manifest))
unfolding evaluate_reliability
no_model_passes manifest e = model_lem manifest (derive_risk_class manifest) manifest.risk_model e

-- every check that is required passes
abbrev Pass : (ReliabilityCheck → Bool) → List ReliabilityCheck → Type 0
Pass required [] = Unit
Pass required (c ∷ cs) = (required c ≡ true → c.passed ≡ true) × Pass required cs

select-Pass :
    (required : ReliabilityCheck → Bool) (cs : List ReliabilityCheck)
    → all (λ item. item.passed) (select required cs) ≡ true
    → Pass required cs
select-Pass required [] h = tt
select-Pass required (c ∷ cs) h = elim (Bool-cases (required c)) [
  | inl e ↦ ((λ e'. ground (arith, h, e)), select-Pass required cs (ground (arith, h, e)))
  | inr e ↦ ((λ e'. ground (arith, e, e')), select-Pass required cs (ground (arith, h, e)))
]

and_left : (a b : Bool) → (a && b) ≡ true → a ≡ true
and_left true b h = refl
and_left false b h = cc

-- nothing, or a class that is not below the derived one
abbrev pub NotBelow : RiskClass → Option RiskClass → Type 0
NotBelow derived none = Unit
NotBelow derived (some declared) = risk_rank derived ≤ risk_rank declared

abbrev pub is_trusted : String → Bool
is_trusted authority = authority == "recovery-root" || authority == "host"

-- whether a candidate of this class may go without a model of its own
abbrev pub may_lack_model : RiskClass → Bool
may_lack_model derived = risk_rank derived == 0 || risk_rank derived == 2

-- What a passed gate means for a class and a model, and whether the model was made up.
abbrev pub Upheld : GateManifest → RiskClass → RiskModel → Bool → Type 0
Upheld manifest derived model made_up =
    ((not made_up || may_lack_model derived) ≡ true)
    × NotBelow derived model.declared_class
    × ((is_generated manifest.provenance_kind && is_r4 derived) ≡ false)
    × (is_trusted model.trust_boundaries.approval_authority ≡ true)
    × (is_trusted model.trust_boundaries.activation_authority ≡ true)
    × (is_trusted model.trust_boundaries.recovery_authority ≡ true)
    × (is_blind model.write_retries ≡ false)

r3_class :
    (declared : Option RiskClass)
    → (if is_r4 (effective_class declared r3) then r3 else effective_class declared r3) ≡ r3
r3_class none = refl
r3_class (some r0) = refl
r3_class (some r1) = refl
r3_class (some r2) = refl
r3_class (some r3) = refl
r3_class (some r4) = refl

r3_checks :
    (manifest : GateManifest) (model : RiskModel) (synthesized : Bool)
    → (evaluate_with manifest r3 model synthesized).passed ≡ true
    → Pass (is_required (required_for r3)) (evaluate_checks manifest r3 model synthesized)
unfolding evaluate_with
r3_checks manifest model synthesized h =
    let class =
      if is_r4 (effective_class model.declared_class r3)
      then r3
      else effective_class model.declared_class r3 in
    let checks = evaluate_checks manifest r3 model synthesized in
    let passes : Pass (is_required (required_for class)) checks =
      select-Pass (is_required (required_for class)) checks (
        and_left (all (λ item. item.passed) (select (is_required (required_for class)) checks))
          (not (synthesized && needs_model r3)) h) in
    subst (λ c. Pass (is_required (required_for c)) checks) (r3_class model.declared_class) passes

-- What a passed gate guarantees of a model for class R3.
abbrev pub Guarded : GateManifest → RiskModel → Type 0
Guarded manifest model =
    (has_real_contract_evidence model ≡ true)
    × (is_blind model.write_retries ≡ false)
    × (model.reconciliation.independent_context ≡ true)
    × (model.reconciliation.cancelled_context_reuse ≡ false)
    × (covered_or_omitted model adversarial_scenarios ≡ [])
    × (select (λ item. not (has_mode item model.failure_modes)) r3_failures ≡ [])
    × ((is_credentialed manifest && not (model.trust_boundaries.credential_owner == "host"))
        ≡ false)

none-has_any {ℓ} : {A : Type ℓ} (xs : List A) → not (has_any xs) ≡ true → xs ≡ []
none-has_any [] h = refl
none-has_any (x ∷ xs) h = absurd (ground (arith, h))

r3_safely :
    (manifest : GateManifest) (model : RiskModel) (synthesized : Bool)
    → (evaluate_with manifest r3 model synthesized).passed ≡ true
    → Guarded manifest model
unfolding evaluate_checks
r3_safely manifest model synthesized h =
    let passes = r3_checks manifest model synthesized h in
    let context = passes.1.1.1.1.1.1.1.1.0 refl in
    let secrets = passes.1.1.1.1.1.1.1.1.1.1.0 refl in
    let retries = passes.1.1.1.1.1.1.1.0 refl in
    (
      passes.1.1.1.1.1.1.0 refl,
      ground (arith, retries),
      ground (arith, context),
      ground (arith, context),
      none-has_any _ (passes.1.1.1.1.1.1.1.1.1.0 refl),
      none-has_any _ (passes.1.1.1.1.1.0 refl),
      ground (arith, secrets),
    )

-- Where a candidate with a risk model derives class R3 and the gate passes, its model has evidence of
-- the real contract, no blind retry of writes, reconciliation in a context of its own that is never
-- the cancelled one, every mandatory failure mode, and every adversarial scenario listed as validated or
-- as omitted; its credentials, where the candidate has any, belong to the host.
-- Declaring another class does not change this.
pub r3_passes_safely :
    (manifest : GateManifest) (model : RiskModel)
    → manifest.risk_model ≡ some model
    → derive_risk_class manifest ≡ r3
    → (evaluate_reliability manifest).passed ≡ true
    → Guarded manifest model
unfolding evaluate_reliability
r3_passes_safely manifest model e d h =
    let derived = derive_risk_class manifest in
    r3_safely manifest model false (
      subst (λ c. (evaluate_with manifest c model false).passed ≡ true) d
        (subst
          (λ found.
            (evaluate_with manifest derived (model_or_synthesized found derived)
              (is_none found)).passed
            ≡ true)
          e h))
