-- ===== src/Memory/Query/Tests.antt =====
-- Queries at concrete records.
use dsh_assistant.Prelude.{
  select, text_equality, number_equality, String, ◌≡◌, refl, true, false, none, some, List, [], ◌∷◌,
  map,
}
use dsh_assistant.Memory.Types.{
  active, preference, is_true, MemoryStatus, superseded, deleted, model, user, explicit_write,
  Confidence, MemoryRecord, MemoryQuery,
}
use dsh_assistant.Memory.Render.{render_model_visible_memory}
use dsh_assistant.Memory.Render.Visible.{shown_alone}
use dsh_assistant.Memory.Query.{matches_query, select_matches, query_records}
use dsh_assistant.Memory.Query.Selection.{is_wanted, query_selects}

abbrev entry : String → String → MemoryStatus → MemoryRecord
entry id statement status = record {
  id = id;
  category = preference;
  topic_key = "coffee";
  statement = statement;
  polarity = is_true;
  confidence = Confidence.unknown;
  provenance = record {
    actor = user;
    mechanism = explicit_write;
    evidence_ids = [];
    recorded_at = "t";
  };
  created_at = "t";
  updated_at = "t";
  status = status;
  superseded_by = none;
  deleted_at = none;
  visibility = model;
}

abbrev stored : List MemoryRecord
stored = entry "m1" "black" superseded ∷ entry "m2" "white" active ∷ entry "m3" "none" deleted ∷ []

abbrev about_coffee : MemoryQuery
about_coffee = record {
  category = none;
  topic_key = some "coffee";
  include_deleted = false;
  include_superseded = true;
  visibility = some model;
}

found_evaluated :
    ((query_records about_coffee stored).trace.record_ids ≡ "m1" ∷ "m2" ∷ [])
    × (matches_query (entry "m2" "white" active) about_coffee
        ≡ some ("status=active" ∷ "topicKey=coffee" ∷ "visibility=model" ∷ []))
unfolding query_records select_matches matches_query
found_evaluated = (refl, refl)

query_selects_example :
    ((query_records about_coffee stored).records ≡ select (is_wanted about_coffee) stored)
    × ((query_records about_coffee stored).trace.record_ids
        ≡ map (λ r. r.id) (select (is_wanted about_coffee) stored))
    × (map (λ x. x.record_id) (query_records about_coffee stored).trace.selections
        ≡ map (λ r. r.id) (select (is_wanted about_coffee) stored))
query_selects_example = query_selects about_coffee stored

shown_alone_example :
    render_model_visible_memory stored
    ≡ render_model_visible_memory (entry "m2" "white" active ∷ [])
shown_alone_example = shown_alone stored (entry "m2" "white" active ∷ []) refl
