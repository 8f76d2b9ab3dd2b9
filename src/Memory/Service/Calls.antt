-- ===== src/Memory/Service/Calls.antt =====
-- Sequences of calls on one `MemoryService`, each with what `this.id()` and `this.now()` return in it.
use dsh_assistant.Prelude.{
  text_equality, number_equality, ◌==◌, String, Bool, true, not, List, [], ◌∷◌,
}
use dsh_assistant.Memory.Types.{MemoryWriteInput, MemoryReplaceInput, Provenance}
use dsh_assistant.Memory.Service.{MemoryService, write, replace, delete_record}

pub data Call : Type 0 where
  writing : (session : Bool) (input : MemoryWriteInput) (id at : String) → Call
  replacing : (id : String) (input : MemoryReplaceInput) (fresh at : String) → Call
  deleting : (id : String) (provenance : Provenance) (at : String) → Call

unfoldable pub invoke : (String → String) → Call → MemoryService → MemoryService
invoke lower (writing session input id at) s = (write lower session input id at s).1
invoke lower (replacing id input fresh at) s = (replace id input fresh at s).1
invoke lower (deleting id provenance at) s = (delete_record id provenance at s).1

unfoldable pub run : (String → String) → List Call → MemoryService → MemoryService
run lower [] s = s
run lower (call ∷ calls) s = run lower calls (invoke lower call s)

-- no call draws this id for a new record
abbrev pub avoids : String → Call → Bool
avoids k (writing session input id at) = not (id == k)
avoids k (replacing id input fresh at) = not (fresh == k)
avoids k (deleting id provenance at) = true
