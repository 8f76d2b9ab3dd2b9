-- ===== src/Memory/Service.antt =====
-- domain/memory/service.ts: the writes of `MemoryService`. The state is the map of records, and what
-- the persistence port was last given. `id` and `at` are what `this.id()` and `this.now()` return in
-- the call; `clone` copies immutable values and is left out.
pub mod Calls
pub mod Marks
pub mod Advance
pub mod Lifecycle
pub mod Terminal
pub mod Topic
mod Tests
use dsh_assistant.Prelude.{
  if◌then◌else◌, select, text_equality, number_equality, ◌==◌, ◌&◌, String, Bool, ◌&&◌, Option,
  none, some, List, [], ◌∷◌, map,
}
use dsh_assistant.Prelude.Result.{Result, ok, raise}
use dsh_assistant.Prelude.Dict.{Dict, get, put, values}
use dsh_assistant.Memory.Types.{
  active, superseded, deleted, is_active, is_deleted, Provenance, MemoryRecord, MemoryWriteInput,
  MemoryReplaceInput, WriteResult, ConflictPolicy, keep_both, supersede_topic,
}
use dsh_assistant.Memory.Normalize.{normalize_statement, normalize_write_input}
use dsh_assistant.Memory.Conflicts.{topic_conflicts}

pub record MemoryService : Type 0 where
  pub records : Dict String MemoryRecord
  pub saved : List MemoryRecord

-- the constructor, over what the port loads
pub load : List MemoryRecord → Dict String MemoryRecord → Dict String MemoryRecord
load [] records = records
load (r ∷ rs) records = load rs (put r.id r records)

unfoldable pub flush : MemoryService → MemoryService
flush s = record s { saved = values s.records }

unfoldable pub mark_superseded :
    String → String → String → Dict String MemoryRecord → Dict String MemoryRecord
mark_superseded id successor at records = elim (get id records) [
  | none ↦ records
  | some existing ↦
      put id
        (record existing { status = superseded; superseded_by = some successor; updated_at = at })
        records
]

unfoldable pub mark_all :
    List String → String → String → Dict String MemoryRecord → Dict String MemoryRecord
mark_all [] successor at records = records
mark_all (id ∷ ids) successor at records =
    mark_all ids successor at (mark_superseded id successor at records)

-- the ids that a write supersedes
abbrev pub outdated : ConflictPolicy → String → Dict String MemoryRecord → List String
outdated keep_both topic records = []
outdated supersede_topic topic records =
    map (λ r. r.id) (select (λ r. r.topic_key == topic && is_active r.status) (values records))

abbrev pub written : MemoryWriteInput → String → String → MemoryRecord
written input id at = record {
  id = id;
  category = input.category;
  topic_key = input.topic_key;
  statement = input.statement;
  polarity = input.polarity;
  confidence = input.confidence;
  provenance = input.provenance;
  created_at = at;
  updated_at = at;
  status = active;
  superseded_by = none;
  deleted_at = none;
  visibility = input.visibility;
}

-- a write whose input is normalized
unfoldable pub store :
    MemoryWriteInput → String → String → MemoryService → WriteResult × MemoryService
store input id at s =
    let ids = outdated input.conflict_policy input.topic_key s.records in
    let stored = written input id at in
    let records = put id stored (mark_all ids id at s.records) in
    (
      record {
        stored = stored;
        superseded_ids = ids;
        conflicts = topic_conflicts input.topic_key (values records);
      },
      flush (record s { records = records }),
    )

-- `session` is `isSessionHistoryRef(input)`
unfoldable pub write :
    (String → String)
    → Bool
    → MemoryWriteInput
    → String
    → String
    → MemoryService
    → Result String WriteResult × MemoryService
write lower session input id at s =
    if session
    then (raise "session history is not durable memory and must not be written", s)
    else elim (normalize_write_input lower input) [
      | raise e ↦ (raise e, s)
      | ok normalized ↦ let (result, s') = store normalized id at s in (ok result, s')
    ]

abbrev pub or_existing {ℓ} : {A : Type ℓ} → Option A → A → A
or_existing none existing = existing
or_existing (some new) existing = new

abbrev pub replaced_statement : Option String → String → Result String String
replaced_statement none existing = ok existing
replaced_statement (some statement) existing = normalize_statement statement

abbrev pub replacement : MemoryReplaceInput → String → String → String → MemoryRecord → MemoryRecord
replacement input statement id at existing = record {
  id = id;
  category = existing.category;
  topic_key = existing.topic_key;
  statement = statement;
  polarity = or_existing input.polarity existing.polarity;
  confidence = or_existing input.confidence existing.confidence;
  provenance = input.provenance;
  created_at = existing.created_at;
  updated_at = at;
  status = active;
  superseded_by = none;
  deleted_at = none;
  visibility = or_existing input.visibility existing.visibility;
}

-- `replace` of a record that is there and not deleted: the record is marked before the new statement
-- is checked
unfoldable pub replace_existing :
    String
    → MemoryReplaceInput
    → String
    → String
    → MemoryRecord
    → MemoryService
    → Result String WriteResult × MemoryService
replace_existing id input fresh at existing s =
    let marked = mark_superseded id fresh at s.records in
    elim (replaced_statement input.statement existing.statement) [
      | raise e ↦ (raise e, record s { records = marked })
      | ok statement ↦
          let stored = replacement input statement fresh at existing in
          let records = put fresh stored marked in
          (
            ok (record {
              stored = stored;
              superseded_ids = id ∷ [];
              conflicts = topic_conflicts stored.topic_key (values records);
            }),
            flush (record s { records = records }),
          )
    ]

unfoldable pub replace :
    String
    → MemoryReplaceInput
    → String
    → String
    → MemoryService
    → Result String WriteResult × MemoryService
replace id input fresh at s = elim (get id s.records) [
  | none ↦ (raise ("memory not found: " & id), s)
  | some existing ↦
      if is_deleted existing.status
      then (raise ("cannot replace deleted memory: " & id), s)
      else replace_existing id input fresh at existing s
]

unfoldable pub delete_record :
    String → Provenance → String → MemoryService → Result String MemoryRecord × MemoryService
delete_record id provenance at s = elim (get id s.records) [
  | none ↦ (raise ("memory not found: " & id), s)
  | some existing ↦
      let gone = record existing {
        status = deleted;
        deleted_at = some at;
        updated_at = at;
        provenance = provenance;
      } in
      (ok gone, flush (record s { records = put id gone s.records }))
]
