-- ===== src/Governance/Schedule/Tests.antt =====
-- Governance at a concrete candidate.
use dsh_assistant.Prelude.{
  text_equality, number_equality, ◌≡◌, refl, true, false, none, some, List, [], ◌∷◌, String, any,
  ◌++◌,
}
use dsh_assistant.Prelude.Dict.{get, put}
use dsh_assistant.Json.{Json}
use dsh_assistant.Registry.Types.{
  generated, assistant, RegistryRecord, LifecycleStatus, verified, ApprovalState,
}
use dsh_assistant.Candidate.Types.{validated, CandidateRecord}
use dsh_assistant.Governance.Types.{
  approved_for_exact_diff, application_ui, ApprovalRecord, approve_exact_diff, activation,
  activating,
}
use dsh_assistant.Governance.State.{
  review_complete, Outside, ◌>>=◌, assert_credential, ask_registry, assert_mutation_idle,
  lifecycle_busy, Governance, capture_snapshot, owners_from_registry, is_recovery_required,
}
use dsh_assistant.Governance.Schedule.{
  Call, run, request, record_decision, new_world, step, new_governance, Progress, World,
  enter_safe_mode, activate, answered,
}
use dsh_assistant.Governance.Approvals.{request_approval, record_approval}
use dsh_assistant.Governance.Fingerprint.{facts, fingerprint_from_candidate, stable}
use dsh_assistant.Governance.Eligibility.{
  request_eligibility, approval_request_denials, candidate_denials, digest_denials, base_denials,
  review_denials, compatibility_denials, active_of, eligibility, activation_denials,
  state_of_affairs,
}
use dsh_assistant.Registry.Queries.{list_records}
use dsh_assistant.Governance.Compatibility.{
  evaluate_activation_compatibility, is_isolated, is_host_owned_irreplaceable,
  host_owned_irreplaceable_owners, uses_host_product, is_host_product_capability,
}
use dsh_assistant.Governance.Activation.{begin_activation}
use dsh_assistant.Governance.Schedule.Single.{one_change_at_a_time}
use dsh_assistant.Governance.Schedule.Begins.{IsSingle}
use dsh_assistant.Governance.Schedule.Alone.{is_busy, busy_refuses}
use dsh_assistant.Governance.Running.{Progress, starting, Activating, resolves}
use dsh_assistant.Prelude.Result.{ok}
use dsh_assistant.Governance.Granted.{grants}
use dsh_assistant.Governance.Trust.{requires_isolated_generated_runtime}
use dsh_assistant.Registry.Identity.{starts_with}
use dsh_assistant.Governance.Granted.Runs.{in_force_was_granted}
use dsh_assistant.Governance.Gate.Cleared.{Cleared}
use dsh_assistant.Governance.Gate.Starts.{started_was_granted, started_was_cleared}
use dsh_assistant.Prelude.Decimal.{show}
use dsh_assistant.Registry.Conflicts.{conflicts, active_conflicts}

abbrev pub notes : CandidateRecord
notes = record {
  id = "cand-1";
  owner = "generated/notes";
  version = "1.0.0";
  base_version = none;
  provenance = record { kind = generated; origin = assistant };
  lifecycle = validated;
  workspace_root = "/candidates/cand-1";
  manifest = record {
    resolution_capability = "notes.read";
    capabilities = "notes.read" ∷ [];
    permissions = [];
    runtime_seams = [];
    tools = [];
    services = [];
    providers = [];
    runtime_contract_version = none;
    plugin_dependencies = none;
  };
  digest = some "d1";
  validation = some (record { passed = true; digest = some "d1" });
  sealed = true;
}

abbrev pub surroundings : Outside
surroundings = record {
  candidates = ("cand-1", notes) ∷ [];
  diff = λ id. some Json.null;
  root_exists = λ root. true;
  live_digest = λ c. "d1";
  review = some (
    (λ c. review_complete),
    (λ id. some (record { digest = "d1"; policy_version = "m4.1"; open_blocker = false })),
  );
  mounted = [];
  profile_identity = "host";
  sha256 = λ text. "f1";
  collate = λ s t. true;
}

abbrev approving_calls : List Call
approving_calls =
    request surroundings "cand-1"
    ∷ record_decision surroundings true application_ui
        (record { candidate_id = "cand-1"; fingerprint = "f1"; decision = approve_exact_diff })
    ∷ []

abbrev approval : ApprovalRecord
approval = record {
  id = "apr-2";
  candidate_id = "cand-1";
  fingerprint = "f1";
  decision = approved_for_exact_diff;
  authority = some application_ui;
}

approved_evaluated :
    get "cand-1" (run approving_calls (new_world surroundings [])).governance.approvals
    ≡ some approval
unfolding run step new_world new_governance get put request_approval record_approval ◌>>=◌
    assert_credential facts fingerprint_from_candidate stable request_eligibility
    approval_request_denials candidate_denials digest_denials base_denials review_denials
    compatibility_denials active_of ask_registry list_records evaluate_activation_compatibility
    is_isolated requires_isolated_generated_runtime starts_with is_host_owned_irreplaceable
    host_owned_irreplaceable_owners uses_host_product is_host_product_capability show
    capture_snapshot owners_from_registry
approved_evaluated = refl

activated_evaluated :
    (begin_activation surroundings "cand-1" true
      (run approving_calls (new_world surroundings [])).governance).0
    ≡ ok (
        some (
          starting notes
            (record { generation = 1; owners = []; profile_identity = "host"; mounted = [] })
            Activating.held))
unfolding run step new_world new_governance get put request_approval record_approval ◌>>=◌
    assert_credential facts fingerprint_from_candidate stable request_eligibility
    approval_request_denials candidate_denials digest_denials base_denials review_denials
    compatibility_denials active_of ask_registry list_records evaluate_activation_compatibility
    is_isolated requires_isolated_generated_runtime starts_with is_host_owned_irreplaceable
    host_owned_irreplaceable_owners uses_host_product is_host_product_capability show
    begin_activation assert_mutation_idle lifecycle_busy eligibility activation_denials
    state_of_affairs capture_snapshot owners_from_registry is_recovery_required conflicts
    active_conflicts
activated_evaluated = refl

abbrev started : Progress
started = some (
    starting notes (record { generation = 1; owners = []; profile_identity = "host"; mounted = [] })
      Activating.held)

in_force_was_granted_example :
    any (λ call. grants call "cand-1" approval.fingerprint) approving_calls ≡ true
in_force_was_granted_example =
    in_force_was_granted surroundings [] approving_calls "cand-1" approval approved_evaluated refl

abbrev approved_state : Governance
approved_state = (run approving_calls (new_world surroundings [])).governance

started_was_cleared_example :
    (true ≡ true)
    × (lifecycle_busy approved_state ≡ none)
    × (found : CandidateRecord × String) × (facts surroundings "cand-1" ≡ ok found)
    × Cleared surroundings "cand-1" found.0 found.1 approved_state
started_was_cleared_example =
    started_was_cleared surroundings "cand-1" true approved_state started activated_evaluated

started_was_granted_example :
    (found : CandidateRecord × String) × (facts surroundings "cand-1" ≡ ok found)
    × (any (λ call. grants call "cand-1" found.1) approving_calls ≡ true)
started_was_granted_example =
    started_was_granted surroundings [] approving_calls surroundings "cand-1" true started
      activated_evaluated

abbrev activating_world : World
activating_world = record {
  governance = record (new_governance surroundings []) {
    mutation = some activation;
    state = activating;
  };
  running =
      starting notes
        (record { generation = 1; owners = []; profile_identity = "host"; mounted = [] })
        Activating.preparing
      ∷ [];
}

busy_evaluated : is_busy (lifecycle_busy activating_world.governance) ≡ true
unfolding lifecycle_busy new_governance capture_snapshot owners_from_registry ask_registry
    list_records ◌>>=◌
busy_evaluated = refl

busy_refuses_example : step (enter_safe_mode surroundings true) activating_world ≡ activating_world
busy_refuses_example =
    busy_refuses (enter_safe_mode surroundings true) activating_world refl busy_evaluated

abbrev calls_of_a_life : List Call
calls_of_a_life =
    approving_calls ++ (activate surroundings "cand-1" true ∷ answered 0 surroundings resolves ∷ [])

one_change_at_a_time_example :
    IsSingle
      (run calls_of_a_life (new_world surroundings [])).running
      (run calls_of_a_life (new_world surroundings [])).governance.mutation
one_change_at_a_time_example = one_change_at_a_time surroundings [] calls_of_a_life

abbrev pub disabled_notes : RegistryRecord
disabled_notes = record {
  owner = "generated/notes";
  version = "1.0.0";
  provenance = record { kind = generated; origin = assistant };
  status = LifecycleStatus.disabled;
  evidence = verified;
  approval = ApprovalState.unreviewed;
  capabilities = [];
  permissions = [];
  runtime_seams = [];
  provider = none;
  tools = [];
  services = [];
  providers = [];
  plugin_dependencies = [];
}
