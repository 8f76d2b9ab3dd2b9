-- ===== src/Registry/Normalize/Kept.antt =====
-- A record that passes the checks has the owner and the version that were asked for.
use dsh_assistant.Prelude.{String, ◌≡◌, arith}
use dsh_assistant.Prelude.Result.{ok}
use dsh_assistant.Registry.Types.{RegistryRecord, RegistryRegisterInput}
use dsh_assistant.Registry.Identity.{parse_owner_id, parse_version}
use dsh_assistant.Registry.Normalize.{normalize_register_input}

pub parse_owner_id_lem : (raw owner : String) → parse_owner_id raw ≡ ok owner → owner ≡ raw
unfolding parse_owner_id
parse_owner_id_lem raw owner h = ground (arith, h)

pub parse_version_lem : (raw version : String) → parse_version raw ≡ ok version → version ≡ raw
unfolding parse_version
parse_version_lem raw version h = ground (arith, h)

pub normalize_register_input_lem :
    (input : RegistryRegisterInput) (r : RegistryRecord)
    → normalize_register_input input ≡ ok r
    → (r.owner ≡ input.owner) × (r.version ≡ input.version)
unfolding normalize_register_input
normalize_register_input_lem input r h =
    ground
      (arith, h, parse_owner_id_lem input.owner r.owner, parse_version_lem input.version r.version)
