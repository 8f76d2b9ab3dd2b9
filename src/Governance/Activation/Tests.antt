-- ===== src/Governance/Activation/Tests.antt =====
-- An activation of a concrete candidate that fails.
use dsh_assistant.Prelude.{
  text_equality, number_equality, ◌≡◌, refl, true, none, some, [], ◌∷◌, false,
}
use dsh_assistant.Prelude.Result.{ok}
use dsh_assistant.Governance.Types.{prepare, LifecycleMutation, ActivationSnapshot, SnapshotOwner}
use dsh_assistant.Registry.Types.{LifecycleStatus}
use dsh_assistant.Registry.Service.{
  transition_status, assert_no_active_conflict, assert_claims, get_record,
}
use dsh_assistant.Registry.Identity.{parse_owner_id, parse_version, record_key}
use dsh_assistant.Prelude.Dict.{get, put}
use dsh_assistant.Governance.State.{
  change_registry, Governance, ◌>>=◌, ask_registry, owners_from_registry, capture_snapshot,
  disable_unwanted, enable_wanted, apply_registry_owners,
}
use dsh_assistant.Governance.Running.{rejects, Activating, resolves}
use dsh_assistant.Governance.Activation.{
  release_activation, end_failed, restore_owners, resume_activation, activating,
}
use dsh_assistant.Governance.Activation.Failed.{failed_activation_ends, Undone, is_restored}
use dsh_assistant.Registry.Queries.{list_records}
use dsh_assistant.Governance.Schedule.{new_governance}
use dsh_assistant.Governance.Schedule.Tests.{disabled_notes, notes, surroundings}

abbrev notes_owner : SnapshotOwner
notes_owner = record {
  owner = "generated/notes";
  version = "1.0.0";
  status = LifecycleStatus.active;
  capabilities = [];
}

abbrev notes_active : ActivationSnapshot
notes_active = record {
  generation = 1;
  owners = notes_owner ∷ [];
  profile_identity = "host";
  mounted = [];
}

abbrev failing : Governance
failing = record (new_governance surroundings (("generated/notes@1.0.0", disabled_notes) ∷ [])) {
  state = activating;
  mutation = some LifecycleMutation.activation;
}

abbrev undoing : Activating
undoing = Activating.restoring prepare "prepare failed" []

undone_evaluated :
    ((resume_activation surroundings notes notes_active undoing resolves failing).0 ≡ ok none)
    × (is_restored surroundings notes_active resolves failing ≡ true)
    × (is_restored surroundings notes_active (rejects "gone") failing ≡ false)
unfolding resume_activation ◌>>=◌ restore_owners apply_registry_owners end_failed capture_snapshot
    owners_from_registry release_activation ask_registry list_records disable_unwanted enable_wanted
    new_governance change_registry get_record transition_status get put parse_owner_id parse_version
    record_key assert_no_active_conflict assert_claims
undone_evaluated = (refl, refl, refl)

failed_activation_ends_example :
    Undone notes_active failing.safe_mode
      (is_restored surroundings notes_active resolves failing)
      (resume_activation surroundings notes notes_active undoing resolves failing).1
failed_activation_ends_example =
    failed_activation_ends surroundings notes notes_active prepare "prepare failed" [] resolves
      failing undone_evaluated.0
