-- ===== src/Governance/Schedule/Alone.antt =====
-- domain/governance/service.ts: a lifecycle change excludes every other one.
use dsh_assistant.Prelude.{
  Option-cases, text_equality, number_equality, ◌≡◌, refl, inl, inr, Bool, true, false, Option,
  none, some, arith, ap,
}
use dsh_assistant.Prelude.Result.{raise}
use dsh_assistant.Governance.Types.{
  LifecycleMutation, activation, uninstall, disable, recovery, GovernanceError,
}
use dsh_assistant.Governance.State.{
  Governance, M, ◌>>=◌, ◌>>◌, lifecycle_busy, busy_error, assert_mutation_idle, assert_credential,
}
use dsh_assistant.Governance.Approvals.{abandon_failed_activation}
use dsh_assistant.Governance.Activation.{begin_activation}
use dsh_assistant.Governance.SafeMode.{begin_safe_mode, exit_safe_mode}
use dsh_assistant.Governance.Removal.{begin_disable, begin_uninstall}
use dsh_assistant.Governance.Schedule.{
  Call, World, step, request, record_decision, activate, abandon, enter_safe_mode, leave_safe_mode,
  disable_plugin, uninstall_plugin, answered, Progress, returned, begun,
}

-- the call begins or ends a lifecycle change, an answer left aside
abbrev pub is_lifecycle : Call → Bool
is_lifecycle (request o id) = false
is_lifecycle (record_decision o trusted authority input) = false
is_lifecycle (answered i o answer) = false
is_lifecycle _ = true

abbrev pub is_busy : Option LifecycleMutation → Bool
is_busy none = false
is_busy (some kind) = true

stopped {ℓ} :
    {B : Type ℓ} (trusted : Bool) (kind : LifecycleMutation) (s : Governance) (k : M B)
    → is_busy (lifecycle_busy s) ≡ true
    → (e : GovernanceError) × ((assert_credential trusted >> (assert_mutation_idle kind >> k)) s
        ≡ (raise e, s))
unfolding ◌>>=◌ assert_credential assert_mutation_idle lifecycle_busy
stopped false kind s k h = (_, refl)
stopped true kind s k h = elim (Option-cases (lifecycle_busy s)) [
  | inl p ↦ absurd (ground (arith, h, p))
  | inr (busy, p) ↦ (busy_error busy kind, rw p refl)
]

not_begun :
    (trusted : Bool) (kind : LifecycleMutation) (k : M Progress) (w : World)
    → is_busy (lifecycle_busy w.governance) ≡ true
    → begun ((assert_credential trusted >> (assert_mutation_idle kind >> k)) w.governance) w.running
      ≡ w
not_begun trusted kind k w h =
    let (e, p) = stopped trusted kind w.governance k h in ap (λ x. begun x w.running) p

not_done {ℓ} :
    {A : Type ℓ} (trusted : Bool) (kind : LifecycleMutation) (k : M A) (w : World)
    → is_busy (lifecycle_busy w.governance) ≡ true
    → returned
        ((assert_credential trusted >> (assert_mutation_idle kind >> k)) w.governance)
        w.running
      ≡ w
not_done trusted kind k w h =
    let (e, p) = stopped trusted kind w.governance k h in ap (λ x. returned x w.running) p

-- While a lifecycle change is in progress, a call that would begin another one, leave Safe Mode or
-- abandon a failed activation changes neither the state nor what waits.
pub busy_refuses :
    (call : Call) (w : World)
    → is_lifecycle call ≡ true
    → is_busy (lifecycle_busy w.governance) ≡ true
    → step call w ≡ w
unfolding step begin_activation abandon_failed_activation begin_safe_mode exit_safe_mode
    begin_disable begin_uninstall
busy_refuses (request o id) w l h = cc
busy_refuses (record_decision o trusted authority input) w l h = cc
busy_refuses (answered i o answer) w l h = cc
busy_refuses (activate o id trusted) w l h = not_begun trusted activation _ w h
busy_refuses (abandon id fingerprint trusted) w l h = not_done trusted recovery _ w h
busy_refuses (enter_safe_mode o trusted) w l h = not_begun trusted recovery _ w h
busy_refuses (leave_safe_mode o trusted) w l h = not_done trusted recovery _ w h
busy_refuses (disable_plugin o trusted owner version) w l h = not_begun trusted disable _ w h
busy_refuses (uninstall_plugin o trusted owner version acknowledged) w l h =
    not_begun trusted uninstall _ w h
