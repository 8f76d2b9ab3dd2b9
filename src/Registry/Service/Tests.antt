-- ===== src/Registry/Service/Tests.antt =====
-- The registry at concrete records.
use dsh_assistant.Prelude.{
  text_equality, number_equality, String, ◌≡◌, refl, true, none, some, List, [], ◌∷◌,
}
use dsh_assistant.Prelude.Result.{ok, raise}
use dsh_assistant.Prelude.Dict.{get, put, has}
use dsh_assistant.Registry.Types.{
  verified, LifecycleStatus, candidate, active, unreviewed, managed, generated, human, assistant,
  ExtensionProvenance, RegistryRecord, ActiveOwnerResolution, RegistryRegisterInput,
  ownership_conflict,
}
use dsh_assistant.Registry.Service.{
  claims_capability, rivals, assert_claims, assert_no_active_conflict, register, transition_status,
  resolve_active_owner,
}
use dsh_assistant.Registry.Service.Calls.{Call, run, registering, transitioning, invoke}
use dsh_assistant.Registry.Service.Resolve.{sole_owner}
use dsh_assistant.Registry.Normalize.{normalize_register_input}
use dsh_assistant.Registry.Identity.{
  parse_owner_id, parse_version, parse_capability_id, parse_token, parse_name, strict_semver,
  starts_with, record_key,
}

abbrev reader_input : String → ExtensionProvenance → LifecycleStatus → RegistryRegisterInput
reader_input name provenance status = record {
  owner = name;
  version = "1.0.0";
  provenance = provenance;
  status = some status;
  evidence = verified;
  capabilities = record { id = "mail.read"; permissions = [] } ∷ [];
  permissions = none;
  runtime_seams = [];
  provider = none;
  tools = none;
  services = none;
  providers = none;
  plugin_dependencies = none;
}

abbrev mail_record : RegistryRecord
mail_record = record {
  owner = "managed/mail";
  version = "1.0.0";
  provenance = record { kind = managed; origin = human };
  status = active;
  evidence = verified;
  approval = unreviewed;
  capabilities = record { id = "mail.read"; permissions = [] } ∷ [];
  permissions = [];
  runtime_seams = [];
  provider = none;
  tools = [];
  services = [];
  providers = [];
  plugin_dependencies = [];
}

abbrev two_readers : List Call
two_readers =
    registering (reader_input "managed/mail" (record { kind = managed; origin = human }) active)
    ∷ registering
        (reader_input "generated/mail" (record { kind = generated; origin = assistant }) candidate)
    ∷ transitioning "generated/mail" "1.0.0" active
    ∷ []

readers_evaluated :
    (get "managed/mail@1.0.0" (run two_readers []) ≡ some mail_record)
    × (parse_capability_id "mail.read" ≡ ok "mail.read")
    × (claims_capability mail_record "mail.read" ≡ true)
    × (transition_status "generated/mail" "1.0.0" active (run two_readers [])
        ≡ raise (
            ownership_conflict "mail.read"
              (("managed/mail", "1.0.0") ∷ ("generated/mail", "1.0.0") ∷ [])))
unfolding run invoke register transition_status normalize_register_input parse_owner_id
    parse_version parse_capability_id parse_token parse_name strict_semver starts_with record_key
    get put has assert_no_active_conflict assert_claims rivals claims_capability
readers_evaluated = (refl, refl, refl, refl)

sole_owner_example :
    resolve_active_owner "mail.read" (run two_readers [])
    ≡ ok (ActiveOwnerResolution.owned "mail.read" mail_record)
sole_owner_example =
    sole_owner two_readers "managed/mail@1.0.0" mail_record "mail.read" readers_evaluated.0 refl
      readers_evaluated.2 readers_evaluated.1
