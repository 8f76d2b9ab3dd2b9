-- ===== src/Memory/Types.antt =====
-- domain/memory/types.ts.
use dsh_assistant.Prelude.{
  true, false, text_equality, number_equality, ℕ, String, Bool, Option, List,
}

pub data MemoryCategory : Type 0 where
  fact preference relationship project behavioral_preference episodic_summary : MemoryCategory

pub data Polarity : Type 0 where
  is_true is_false unknown : Polarity

pub data MemoryStatus : Type 0 where
  active superseded deleted : MemoryStatus

pub data MemoryVisibility : Type 0 where
  model internal : MemoryVisibility

pub data MemoryActor : Type 0 where
  user assistant imported : MemoryActor

pub data MemoryMechanism : Type 0 where
  explicit_write user_confirmed imported : MemoryMechanism

pub record Provenance : Type 0 where
  pub actor : MemoryActor
  pub mechanism : MemoryMechanism
  pub evidence_ids : List String
  pub recorded_at : String

-- A number: one that is not finite, or a fraction of two natural numbers with its sign; every double is
-- one or the other.
pub data Number : Type 0 where
  not_finite : Number
  fraction : (negative : Bool) (numerator denominator : ℕ) → Number

pub data Confidence : Type 0 where
  unknown : Confidence
  score : Number → Confidence

pub record MemoryRecord : Type 0 where
  pub id : String
  pub category : MemoryCategory
  pub topic_key : String
  pub statement : String
  pub polarity : Polarity
  pub confidence : Confidence
  pub provenance : Provenance
  pub created_at : String
  pub updated_at : String
  pub status : MemoryStatus
  pub superseded_by : Option String
  pub deleted_at : Option String
  pub visibility : MemoryVisibility

pub record MemoryQuery : Type 0 where
  pub category : Option MemoryCategory
  pub topic_key : Option String
  pub include_deleted : Bool
  pub include_superseded : Bool
  -- `none` is `'any'` or nothing
  pub visibility : Option MemoryVisibility

pub data ConflictPolicy : Type 0 where
  keep_both supersede_topic : ConflictPolicy

pub record MemoryWriteInput : Type 0 where
  pub category : MemoryCategory
  pub topic_key : String
  pub statement : String
  pub polarity : Polarity
  pub confidence : Confidence
  pub provenance : Provenance
  pub visibility : MemoryVisibility
  pub conflict_policy : ConflictPolicy

pub record MemoryReplaceInput : Type 0 where
  pub statement : Option String
  pub polarity : Option Polarity
  pub confidence : Option Confidence
  pub provenance : Provenance
  pub visibility : Option MemoryVisibility

pub record ConflictGroup : Type 0 where
  pub topic_key : String
  pub record_ids : List String

pub record SelectionReason : Type 0 where
  pub record_id : String
  pub reasons : List String

pub record RetrievalTrace : Type 0 where
  pub query : MemoryQuery
  pub record_ids : List String
  pub conflict_topic_keys : List String
  pub selections : List SelectionReason
  pub why : String

pub record QueryResult : Type 0 where
  pub records : List MemoryRecord
  pub conflicts : List ConflictGroup
  pub trace : RetrievalTrace

pub record WriteResult : Type 0 where
  pub stored : MemoryRecord
  pub superseded_ids : List String
  pub conflicts : List ConflictGroup

abbrev pub is_active : MemoryStatus → Bool
is_active active = true
is_active _ = false

abbrev pub is_superseded : MemoryStatus → Bool
is_superseded superseded = true
is_superseded _ = false

abbrev pub is_deleted : MemoryStatus → Bool
is_deleted deleted = true
is_deleted _ = false

abbrev pub same_polarity : Polarity → Polarity → Bool
same_polarity is_true is_true = true
same_polarity is_false is_false = true
same_polarity unknown unknown = true
same_polarity _ _ = false

abbrev pub is_unknown : Polarity → Bool
is_unknown unknown = true
is_unknown _ = false

abbrev pub same_visibility : MemoryVisibility → MemoryVisibility → Bool
same_visibility model model = true
same_visibility internal internal = true
same_visibility _ _ = false

abbrev pub category_text : MemoryCategory → String
category_text fact = "fact"
category_text preference = "preference"
category_text relationship = "relationship"
category_text project = "project"
category_text behavioral_preference = "behavioral_preference"
category_text episodic_summary = "episodic_summary"

abbrev pub status_text : MemoryStatus → String
status_text active = "active"
status_text superseded = "superseded"
status_text deleted = "deleted"

abbrev pub visibility_text : MemoryVisibility → String
visibility_text model = "model"
visibility_text internal = "internal"
