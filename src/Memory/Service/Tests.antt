-- ===== src/Memory/Service/Tests.antt =====
-- The memory at concrete records.
use dsh_assistant.Prelude.{
  text_equality, number_equality, String, ◌≡◌, refl, false, none, some, List, [], ◌∷◌,
}
use dsh_assistant.Prelude.Result.{raise, ok}
use dsh_assistant.Prelude.Dict.{get, put, has}
use dsh_assistant.Memory.Types.{
  active, preference, is_true, model, user, explicit_write, Provenance, fraction, score,
  MemoryRecord, ConflictPolicy, keep_both, supersede_topic, MemoryWriteInput, MemoryReplaceInput,
}
use dsh_assistant.Memory.Normalize.{
  trim, assert_confidence, assert_provenance, normalize_topic_key, normalize_statement,
  normalize_write_input, iso_instant,
}
use dsh_assistant.Memory.Service.{MemoryService, flush, mark_all, store, write, replace}
use dsh_assistant.Memory.Service.Calls.{Call, invoke, run, writing, deleting}
use dsh_assistant.Memory.Service.Marks.{IsKeyed}
use dsh_assistant.Memory.Service.Advance.{Keeps}
use dsh_assistant.Memory.Service.Topic.{write_supersedes, active_of}
use dsh_assistant.Memory.Service.Terminal.{
  status_advances, IsHalfDone, failed_replacement_supersedes,
}

abbrev told : Provenance
told = record {
  actor = user;
  mechanism = explicit_write;
  evidence_ids = [];
  recorded_at = "2026-01-02T03:04:05Z";
}

abbrev drinks : String → ConflictPolicy → MemoryWriteInput
drinks statement policy = record {
  category = preference;
  topic_key = "  coffee ";
  statement = statement;
  polarity = is_true;
  confidence = score (fraction false 9 10);
  provenance = told;
  visibility = model;
  conflict_policy = policy;
}

abbrev lower : String → String
lower s = s

abbrev nothing_stored : MemoryService
nothing_stored = record { records = []; saved = [] }

abbrev black : MemoryRecord
black = record {
  id = "m1";
  category = preference;
  topic_key = "coffee";
  statement = "black";
  polarity = is_true;
  confidence = score (fraction false 9 10);
  provenance = told;
  created_at = "t1";
  updated_at = "t1";
  status = active;
  superseded_by = none;
  deleted_at = none;
  visibility = model;
}

abbrev one_stored : MemoryService
one_stored = record { records = ("m1", black) ∷ []; saved = black ∷ [] }

abbrev later_calls : List Call
later_calls =
    writing false (drinks "with milk" supersede_topic) "m2" "t2" ∷ deleting "m1" told "t3" ∷ []

blank : MemoryReplaceInput
blank = record {
  statement = some "  ";
  polarity = none;
  confidence = none;
  provenance = told;
  visibility = none;
}

writes_evaluated :
    (run lower (writing false (drinks " black" keep_both) "m1" "t1" ∷ []) nothing_stored
      ≡ one_stored)
    × (get "m1" one_stored.records ≡ some black)
    × (get "m2" one_stored.records ≡ none)
    × (normalize_statement "  " ≡ raise "statement must be non-empty")
    × (blank.statement ≡ some "  ")
    × (write lower false (drinks " " keep_both) "m1" "t1" nothing_stored
        ≡ (raise "statement must be non-empty", nothing_stored))
unfolding iso_instant run invoke write store flush normalize_write_input normalize_topic_key
    normalize_statement trim assert_provenance assert_confidence mark_all get put blank
writes_evaluated = (refl, refl, refl, refl, refl, refl)

one_stored-HasKeys : IsKeyed one_stored.records
unfolding has
one_stored-HasKeys = (refl, refl, tt)

status_advances_example : Keeps "m1" black (run lower later_calls one_stored).records
status_advances_example =
    status_advances lower later_calls "m1" black one_stored one_stored-HasKeys writes_evaluated.1
      refl

failed_replacement_supersedes_example :
    IsHalfDone "m1" "m2" "t2" "statement must be non-empty" black one_stored
      (replace "m1" blank "m2" "t2" one_stored)
failed_replacement_supersedes_example =
    failed_replacement_supersedes "m1" "m2" "t2" "  " "statement must be non-empty" blank black
      one_stored writes_evaluated.1 refl writes_evaluated.4 writes_evaluated.3 writes_evaluated.2

abbrev white : MemoryRecord
white = record black { id = "m2"; statement = "with milk"; created_at = "t2"; updated_at = "t2" }

abbrev milk : MemoryWriteInput
milk = drinks "with milk" supersede_topic

abbrev milk_input : MemoryWriteInput
milk_input = record milk { topic_key = "coffee" }

topic_evaluated : normalize_write_input lower milk ≡ ok milk_input
unfolding iso_instant normalize_write_input normalize_topic_key normalize_statement trim
    assert_provenance assert_confidence
topic_evaluated = refl

-- the new record is the active one
write_supersedes_example :
    active_of "coffee" (get "m2" (write lower false milk "m2" "t2" one_stored).1.records)
    ≡ some white
write_supersedes_example =
    write_supersedes lower milk milk_input "m2" "t2" "m2" one_stored one_stored-HasKeys
      topic_evaluated refl
