-- ===== src/Memory/Conflicts.antt =====
-- domain/memory/service.ts: the groups of active records of one topic that contradict each other.
use dsh_assistant.Prelude.{
  if◌then◌else◌, any, select, text_equality, number_equality, ◌==◌, String, Bool, ◌&&◌, Option,
  none, some, List, [], ◌∷◌, ◌++◌,
}
use dsh_assistant.Prelude.Dict.{Dict, get, put}
use dsh_assistant.Memory.Types.{MemoryRecord, ConflictGroup, is_active}
use dsh_assistant.Memory.Normalize.{statements_conflict}

-- `conflicted.add(id)`: a set keeps the order of insertion
unfoldable pub add_id : String → List String → List String
add_id id ids = if any (λ x. x == id) ids then ids else ids ++ id ∷ []

unfoldable pub contradict : MemoryRecord → MemoryRecord → Bool
contradict left right =
    statements_conflict left.statement left.polarity right.statement right.polarity

-- the inner loop, over `j`
conflicted_with : MemoryRecord → List MemoryRecord → List String → List String
conflicted_with left [] ids = ids
conflicted_with left (right ∷ rest) ids =
    conflicted_with left rest
      (if contradict left right then add_id right.id (add_id left.id ids) else ids)

-- the outer loop, over `i`
unfoldable pub conflicted : List MemoryRecord → List String → List String
unfolding conflicted_with
conflicted [] ids = ids
conflicted (left ∷ rest) ids = conflicted rest (conflicted_with left rest ids)

abbrev or_none : Option (List MemoryRecord) → List MemoryRecord
or_none none = []
or_none (some rs) = rs

by_topic : List MemoryRecord → Dict String (List MemoryRecord) → Dict String (List MemoryRecord)
by_topic [] groups = groups
by_topic (r ∷ rs) groups =
    by_topic rs (put r.topic_key (or_none (get r.topic_key groups) ++ r ∷ []) groups)

abbrev push_group : String → List String → List ConflictGroup → List ConflictGroup
push_group topic [] groups = groups
push_group topic (id ∷ ids) groups = record { topic_key = topic; record_ids = id ∷ ids } ∷ groups

groups_of : Dict String (List MemoryRecord) → List ConflictGroup
groups_of [] = []
groups_of ((topic, group) ∷ groups) = push_group topic (conflicted group []) (groups_of groups)

unfoldable pub conflicts_among : List MemoryRecord → List ConflictGroup
unfolding groups_of by_topic
conflicts_among rs = groups_of (by_topic rs [])

unfoldable pub topic_conflicts : String → List MemoryRecord → List ConflictGroup
topic_conflicts topic rs =
    conflicts_among (select (λ r. r.topic_key == topic && is_active r.status) rs)
