-- ===== src/Memory/Render.antt =====
-- domain/memory/service.ts: `renderModelVisibleMemory`, the text that a model is shown.
pub mod Visible
use dsh_assistant.Prelude.{
  if◌then◌else◌, length, any, find, text_equality, number_equality, ◌==◌, ◌&◌, String, false,
  Option, none, some, List, [], ◌∷◌, map,
}
use dsh_assistant.Prelude.Decimal.{show}
use dsh_assistant.Memory.Types.{
  Polarity, is_true, is_false, model, MemoryRecord, MemoryQuery, SelectionReason, RetrievalTrace,
  QueryResult, category_text,
}
use dsh_assistant.Memory.Query.{join, query_records}

abbrev polarity_text : Polarity → String
polarity_text is_true = "true"
polarity_text is_false = "false"
polarity_text Polarity.unknown = "unknown"

abbrev pub model_query : MemoryQuery
model_query = record {
  category = none;
  topic_key = none;
  include_deleted = false;
  include_superseded = false;
  visibility = some model;
}

abbrev reasons_of : Option SelectionReason → String
reasons_of none = ""
reasons_of (some item) = join ", " item.reasons

render_line : QueryResult → MemoryRecord → String
render_line result r =
    let in_conflict = any (λ group. any (λ id. id == r.id) group.record_ids) result.conflicts in
    let reasons = reasons_of (find (λ item. item.record_id == r.id) result.trace.selections) in
    "- ("
    & category_text r.category
    & "/"
    & polarity_text r.polarity
    & (if in_conflict then " [conflict]" else "")
    & ") "
    & r.topic_key
    & ": "
    & r.statement
    & " ["
    & r.id
    & "; "
    & reasons
    & "]"

render_result : QueryResult → List MemoryRecord → String
unfolding render_line
render_result result [] = ""
render_result result (r ∷ rs) = join "\n" (
    "Durable personal memory (not session history):"
    ∷ ("Selected " & show (length result.trace.record_ids) & " record(s): " & result.trace.why)
    ∷ map (render_line result) (r ∷ rs))

unfoldable pub render_model_visible_memory : List MemoryRecord → String × RetrievalTrace
unfolding render_result
render_model_visible_memory stored =
    let result = query_records model_query stored in
    (render_result result result.records, result.trace)
