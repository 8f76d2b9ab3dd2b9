-- ===== src/Memory/Render/Visible.antt =====
-- What a model can learn from the text that it is shown.
use dsh_assistant.Prelude.{
  select, text_equality, number_equality, ◌≡◌, refl, sym, ap, ◌∙◌, Bool, ◌&&◌, List, [], ◌∷◌, arith,
}
use dsh_assistant.Memory.Types.{is_active, model, MemoryRecord, QueryResult, same_visibility}
use dsh_assistant.Memory.Query.{query_records}
use dsh_assistant.Memory.Query.Selection.{is_wanted, select_matches-select}
use dsh_assistant.Memory.Render.{model_query, render_model_visible_memory, render_result}

-- an active record that is meant for the model
abbrev pub is_shown : MemoryRecord → Bool
is_shown r = is_active r.status && same_visibility r.visibility model

shown_wanted : (r : MemoryRecord) → is_wanted model_query r ≡ is_shown r
shown_wanted r = ground arith

select_cong :
    (p q : MemoryRecord → Bool) (rs : List MemoryRecord)
    → ((r : MemoryRecord) → p r ≡ q r)
    → select p rs ≡ select q rs
select_cong p q [] h = refl
select_cong p q (r ∷ rs) h = ground (arith, h r, select_cong p q rs h)

records_shown :
    (stored : List MemoryRecord)
    → query_records model_query (select (is_wanted model_query) stored)
      ≡ query_records model_query stored
unfolding query_records
records_shown stored = rw (select_matches-select model_query stored) refl

-- The text that a model is shown, and its trace, are those of the active records with visibility
-- `model` alone: two memories with the same such records, in the same order, look alike to it.
pub shown_alone :
    (stored other : List MemoryRecord)
    → select is_shown stored ≡ select is_shown other
    → render_model_visible_memory stored ≡ render_model_visible_memory other
unfolding render_model_visible_memory
shown_alone stored other h =
    let same : select (is_wanted model_query) stored ≡ select (is_wanted model_query) other =
      select_cong (is_wanted model_query) is_shown stored shown_wanted
      ∙ h
      ∙ sym (select_cong (is_wanted model_query) is_shown other shown_wanted) in
    let found : query_records model_query stored ≡ query_records model_query other =
      sym (records_shown stored) ∙ ap (query_records model_query) same ∙ records_shown other in
    ap (λ (result : QueryResult). (render_result result result.records, result.trace)) found
