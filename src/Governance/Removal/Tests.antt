-- ===== src/Governance/Removal/Tests.antt =====
-- A removal of a concrete plugin that fails.
use dsh_assistant.Governance.Types.{ActivationSnapshot}
use dsh_assistant.Governance.Schedule.Tests.{surroundings, disabled_notes}
use dsh_assistant.Registry.Identity.{parse_owner_id, parse_version, record_key}
use dsh_assistant.Registry.Service.{
  assert_no_active_conflict, assert_claims, get_record, transition_status,
}
use dsh_assistant.Prelude.{text_equality, number_equality, ◌≡◌, refl, true, some, [], ◌∷◌}
use dsh_assistant.Prelude.Dict.{get, put}
use dsh_assistant.Registry.Types.{RegistryRecord, LifecycleStatus}
use dsh_assistant.Governance.State.{
  ◌>>=◌, assert_credential, ask_registry, assert_mutation_idle, lifecycle_busy, Governance,
  change_registry, capture_snapshot, owners_from_registry,
}
use dsh_assistant.Governance.Schedule.{new_governance}
use dsh_assistant.Governance.Running.{Prior, disabling, unloading, Removing, rejects}
use dsh_assistant.Prelude.Result.{ok}
use dsh_assistant.Governance.Removal.{begin_disable, resume_disable, fail_removal, end_removal}
use dsh_assistant.Registry.Queries.{list_records}

abbrev with_disabled : Governance
with_disabled = new_governance surroundings (("generated/notes@1.0.0", disabled_notes) ∷ [])

abbrev nothing_active : ActivationSnapshot
nothing_active = record { generation = 1; owners = []; profile_identity = "host"; mounted = [] }

abbrev disabling_notes : Prior
disabling_notes = record {
  owner = "generated/notes";
  version = "1.0.0";
  has_candidate = true;
  current = some nothing_active;
  last_known_good = some nothing_active;
}

disable_evaluated :
    (begin_disable surroundings true "generated/notes" "1.0.0" with_disabled).0
    ≡ ok (some (disabling disabling_notes Removing.held))
unfolding begin_disable ◌>>=◌ assert_credential assert_mutation_idle lifecycle_busy new_governance
    ask_registry get_record get parse_owner_id parse_version record_key capture_snapshot
    owners_from_registry list_records
disable_evaluated = refl

abbrev active_notes : RegistryRecord
active_notes = record disabled_notes { status = LifecycleStatus.active }

-- the plugin was disabled before the call, and is active after its failure
reactivated_evaluated :
    (resume_disable surroundings disabling_notes unloading
      (rejects "the child process hangs")
      with_disabled).1.registry
    ≡ ("generated/notes@1.0.0", active_notes) ∷ []
unfolding resume_disable fail_removal ◌>>=◌ ask_registry change_registry end_removal get_record
    transition_status get put new_governance parse_owner_id parse_version record_key
    assert_no_active_conflict assert_claims capture_snapshot owners_from_registry list_records
reactivated_evaluated = refl
