-- ===== src/Governance/Schedule/Single.antt =====
-- domain/governance/service.ts: at most one method of a service waits at a time.
use dsh_assistant.Governance.Schedule.Begins.{
  Begins, begin_activation-Begins, begin_disable-Begins, begin_uninstall-Begins,
  begin_safe_mode-Begins, IsSingle, begun-IsSingle, resumed-IsSingle, create_approval-mutation,
  kept_or_created-mutation,
}
use dsh_assistant.Governance.Schedule.Held.{kind_of, mutation_of}
use dsh_assistant.Governance.Schedule.Alone.{is_lifecycle, is_busy, busy_refuses}
use dsh_assistant.Prelude.{
  text_equality, number_equality, String, ◌≡◌, refl, sym, Bool, true, some, List, [], ◌∷◌, arith,
}
use dsh_assistant.Registry.Service.{Registry}
use dsh_assistant.Governance.Types.{
  LifecycleMutation, activation, recovery, ApprovalAuthority, TrustedApprovalInput,
}
use dsh_assistant.Governance.State.{Governance, Outside, lifecycle_busy}
use dsh_assistant.Governance.Approvals.{request_approval, record_approval}
use dsh_assistant.Governance.Running.{Running}
use dsh_assistant.Governance.Keeps.Gate.{request_eligibility-Keeps, with_facts-Keeps}
use mathlib.Core.Path.{subst}
use dsh_assistant.Governance.Keeps.{Keeps, keeps}
use dsh_assistant.Governance.Schedule.{
  Call, run, World, step, request, record_decision, activate, abandon, enter_safe_mode,
  leave_safe_mode, disable_plugin, uninstall_plugin, answered, new_world,
}

request_approval-mutation : (o : Outside) (id : String) → Keeps mutation_of (request_approval o id)
unfolding request_approval
request_approval-mutation o id =
    search (keeps, request_eligibility-Keeps, with_facts-Keeps, kept_or_created-mutation) depth 12

record_approval-mutation :
    (o : Outside) (trusted : Bool) (authority : ApprovalAuthority) (input : TrustedApprovalInput)
    → Keeps mutation_of (record_approval o trusted authority input)
unfolding record_approval
record_approval-mutation o trusted authority input =
    search (keeps, with_facts-Keeps, create_approval-mutation) depth 12

-- a call on a world where nothing waits
alone-IsSingle :
    (call : Call) (s : Governance)
    → is_lifecycle call ≡ true
    → IsSingle
        (step call (record { governance = s; running = [] })).running
        (step call (record { governance = s; running = [] })).governance.mutation
unfolding step Begins
alone-IsSingle (activate o id trusted) s h =
    begun-IsSingle activation _ (begin_activation-Begins o id trusted s)
alone-IsSingle (abandon id fingerprint trusted) s h = tt
alone-IsSingle (enter_safe_mode o trusted) s h =
    begun-IsSingle recovery _ (begin_safe_mode-Begins o trusted s)
alone-IsSingle (leave_safe_mode o trusted) s h = tt
alone-IsSingle (disable_plugin o trusted owner version) s h =
    begun-IsSingle LifecycleMutation.disable _ (begin_disable-Begins o trusted owner version s)
alone-IsSingle (uninstall_plugin o trusted owner version acknowledged) s h =
    begun-IsSingle LifecycleMutation.uninstall _
      (begin_uninstall-Begins o trusted owner version acknowledged s)
alone-IsSingle (request o id) s h = cc
alone-IsSingle (record_decision o trusted authority input) s h = cc
alone-IsSingle (answered i o answer) s h = cc

busy_lem :
    (s : Governance) (kind : LifecycleMutation)
    → s.mutation ≡ some kind
    → is_busy (lifecycle_busy s) ≡ true
unfolding lifecycle_busy
busy_lem s kind e = ground (arith, e)

lifecycle-IsSingle :
    (call : Call) (s : Governance) (running : List Running)
    → is_lifecycle call ≡ true
    → IsSingle running s.mutation
    → IsSingle
        (step call (record { governance = s; running = running })).running
        (step call (record { governance = s; running = running })).governance.mutation
lifecycle-IsSingle call s [] l h = alone-IsSingle call s l
lifecycle-IsSingle call s (r ∷ []) l h =
    let w : World = record { governance = s; running = r ∷ [] } in
    subst (λ (v : World). IsSingle v.running v.governance.mutation)
      (sym (busy_refuses call w l (busy_lem s (kind_of r) h))) h
lifecycle-IsSingle call s (r ∷ r' ∷ rs) l h = absurd h

step-IsSingle :
    (call : Call) (w : World)
    → IsSingle w.running w.governance.mutation
    → IsSingle (step call w).running (step call w).governance.mutation
unfolding step Keeps
step-IsSingle (request o id) w h =
    subst (IsSingle w.running) (sym (request_approval-mutation o id w.governance)) h
step-IsSingle (record_decision o trusted authority input) w h =
    subst (IsSingle w.running)
      (sym (record_approval-mutation o trusted authority input w.governance)) h
step-IsSingle (answered i o answer) w h = resumed-IsSingle i o answer w.governance w.running h
step-IsSingle (activate o id trusted) w h =
    lifecycle-IsSingle (activate o id trusted) w.governance w.running refl h
step-IsSingle (abandon id fingerprint trusted) w h =
    lifecycle-IsSingle (abandon id fingerprint trusted) w.governance w.running refl h
step-IsSingle (enter_safe_mode o trusted) w h =
    lifecycle-IsSingle (enter_safe_mode o trusted) w.governance w.running refl h
step-IsSingle (leave_safe_mode o trusted) w h =
    lifecycle-IsSingle (leave_safe_mode o trusted) w.governance w.running refl h
step-IsSingle (disable_plugin o trusted owner version) w h =
    lifecycle-IsSingle (disable_plugin o trusted owner version) w.governance w.running refl h
step-IsSingle (uninstall_plugin o trusted owner version acknowledged) w h =
    lifecycle-IsSingle (uninstall_plugin o trusted owner version acknowledged) w.governance
      w.running refl h

run-IsSingle :
    (calls : List Call) (w : World)
    → IsSingle w.running w.governance.mutation
    → IsSingle (run calls w).running (run calls w).governance.mutation
unfolding run
run-IsSingle [] w h = h
run-IsSingle (call ∷ calls) w h = run-IsSingle calls (step call w) (step-IsSingle call w h)

new_world-IsSingle :
    (built : Outside) (registry : Registry)
    → IsSingle (new_world built registry).running (new_world built registry).governance.mutation
unfolding new_world
new_world-IsSingle built registry = tt

-- After any calls to a new service, and answers in any order, at most one activation, removal or
-- entry into Safe Mode waits; where one does, its kind of change is the one in progress.
pub one_change_at_a_time :
    (built : Outside) (registry : Registry) (calls : List Call)
    → IsSingle
        (run calls (new_world built registry)).running
        (run calls (new_world built registry)).governance.mutation
one_change_at_a_time built registry calls =
    run-IsSingle calls (new_world built registry) (new_world-IsSingle built registry)
