-- ===== src/Registry/Service/Calls.antt =====
-- Sequences of calls on one `RegistryService`.
use dsh_assistant.Prelude.{text_equality, number_equality, String, List, [], ◌∷◌}
use dsh_assistant.Prelude.Result.{Result, ok, raise}
use dsh_assistant.Registry.Types.{
  LifecycleStatus, RegistryRecord, RegistryRevisePatch, RegistryRegisterInput, RegistryError,
}
use dsh_assistant.Registry.Service.{Registry, register, transition_status, revise}

pub data Call : Type 0 where
  registering : RegistryRegisterInput → Call
  transitioning : String → String → LifecycleStatus → Call
  revising : String → String → RegistryRevisePatch → Call

unfoldable pub invoke : Call → Registry → Result RegistryError (RegistryRecord × Registry)
invoke (registering input) s = register input s
invoke (transitioning owner version status) s = transition_status owner version status s
invoke (revising owner version patch) s = revise owner version patch s

-- a call that throws leaves the records alone
abbrev pub after : Registry → Result RegistryError (RegistryRecord × Registry) → Registry
after s (ok out) = out.1
after s (raise e) = s

unfoldable pub run : List Call → Registry → Registry
unfolding invoke
run [] s = s
run (call ∷ calls) s = run calls (after s (invoke call s))
