-- ===== src/Governance/Removal/Failed.antt =====
-- domain/governance/service.ts: the `catch` block of `disable` and `uninstall`.
use dsh_assistant.Prelude.{text_equality, number_equality, String, ◌≡◌, false, some, true, ◌⊎◌}
use dsh_assistant.Prelude.Result.{Result, ok, went_through}
use dsh_assistant.Registry.Types.{is_active as registry_active, RegistryRecord, LifecycleStatus}
use dsh_assistant.Registry.Service.{Registry, get_record, transition_status}
use dsh_assistant.Governance.State.{Governance}
use dsh_assistant.Governance.Running.{Running}
use dsh_assistant.Governance.Removal.{safe_mode}

-- what the end of the `catch` block leaves alone
abbrev Settled : Governance → Governance → Type 0
Settled s t = (t.registry ≡ s.registry) × (t.safe_mode ≡ s.safe_mode) × (t.state ≡ s.state)

-- the plugin is active and Safe Mode as it was, or the registry refused and Safe Mode is on
abbrev pub Retried : String → String → RegistryRecord → Governance → Governance → Type 0
Retried owner version r s t =
    ((get_record owner version t.registry
        ≡ ok (some (record r { status = LifecycleStatus.active })))
      × (t.safe_mode ≡ s.safe_mode)
      × (t.state ≡ s.state))
    ⊎ ((went_through (transition_status owner version LifecycleStatus.active s.registry) ≡ false)
        × (registry_active r.status ≡ false)
        × (t.registry ≡ s.registry)
        × (t.safe_mode ≡ true)
        × (t.state ≡ safe_mode))
