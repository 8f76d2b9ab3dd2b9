-- ===== src/Memory/Query.antt =====
-- domain/memory/service.ts: `query`, with the trace that tells why each record was chosen.
pub mod Selection
mod Tests
use dsh_assistant.Prelude.{
  ltb, leb, nat_beq, if◌then◌else◌, nat_beq_iff, Bool-cases, Option-cases, length, any, all, find,
  select, count_if, first, length-append, count_if-append, All, All-append, Equality, text_equality,
  number_equality, ◌==◌, ==_refl, ◌&◌, ℕ, zero, suc, ◌+◌, ◌-◌, ◌*◌, ◌≤◌, ◌<◌, String, ◌≡◌, refl,
  sym, ap, ap₂, ◌∙◌, ◌≢◌, ◌↔◌, ◌⊎◌, inl, inr, Bool, true, false, not, ◌&&◌, ◌||◌, Option, none,
  some, List, [], ◌∷◌, ◌++◌, map, arith, eq_iff,
}
use dsh_assistant.Prelude.Decimal.{show}
use dsh_assistant.Memory.Types.{
  unknown, active, assistant, imported, is_active, MemoryCategory, fact, preference, relationship,
  project, behavioral_preference, episodic_summary, Polarity, is_true, is_false, MemoryStatus,
  superseded, deleted, MemoryVisibility, model, internal, MemoryActor, user, MemoryMechanism,
  explicit_write, user_confirmed, Provenance, Number, not_finite, fraction, Confidence, score,
  MemoryRecord, MemoryQuery, ConflictPolicy, keep_both, supersede_topic, MemoryWriteInput,
  MemoryReplaceInput, ConflictGroup, SelectionReason, RetrievalTrace, QueryResult, WriteResult,
  is_superseded, is_deleted, same_polarity, is_unknown, same_visibility, category_text, status_text,
  visibility_text,
}
use dsh_assistant.Memory.Conflicts.{conflicts_among}

-- `texts.join(separator)`
unfoldable pub join : String → List String → String
join separator [] = ""
join separator (s ∷ []) = s
join separator (s ∷ t ∷ rest) = s & separator & join separator (t ∷ rest)

abbrev pub non_empty : Option String → Option String
non_empty none = none
non_empty (some s) = if s == "" then none else some s

-- Each test gives the reasons that it adds, or turns the record away.
abbrev pub by_category : Option MemoryCategory → MemoryCategory → Option (List String)
by_category none category = some []
by_category (some wanted) category =
    if category_text category == category_text wanted
    then some (("category=" & category_text wanted) ∷ [])
    else none

abbrev pub by_topic_key : Option String → String → Option (List String)
by_topic_key none topic_key = some []
by_topic_key (some wanted) topic_key =
    if topic_key == wanted then some (("topicKey=" & wanted) ∷ []) else none

abbrev pub by_status : Bool → Bool → MemoryStatus → Option (List String)
by_status include_deleted include_superseded status =
    if not include_deleted && is_deleted status
    then none
    else if not include_superseded && is_superseded status
    then none
    else some (
        if is_active status && not include_deleted && not include_superseded
        then "default-excludes-deleted-and-superseded" ∷ []
        else [])

abbrev pub by_visibility : Option MemoryVisibility → MemoryVisibility → Option (List String)
by_visibility none visibility = some ("visibility=any" ∷ [])
by_visibility (some wanted) visibility =
    if same_visibility visibility wanted
    then some (("visibility=" & visibility_text wanted) ∷ [])
    else none

abbrev pub and_also : Option (List String) → Option (List String) → Option (List String)
and_also none later = none
and_also (some xs) none = none
and_also (some xs) (some ys) = some (xs ++ ys)

unfoldable pub matches_query : MemoryRecord → MemoryQuery → Option (List String)
matches_query r query = and_also (some (("status=" & status_text r.status) ∷ [])) (
    and_also (by_category query.category r.category) (
      and_also (by_topic_key (non_empty query.topic_key) r.topic_key) (
        and_also (by_status query.include_deleted query.include_superseded r.status)
          (by_visibility query.visibility r.visibility))))

abbrev pub add_match :
    MemoryRecord
    → Option (List String)
    → List MemoryRecord × List SelectionReason
    → List MemoryRecord × List SelectionReason
add_match r none found = found
add_match r (some reasons) found =
    (r ∷ found.0, record { record_id = r.id; reasons = reasons } ∷ found.1)

-- the loop of `query`
unfoldable pub select_matches :
    MemoryQuery → List MemoryRecord → List MemoryRecord × List SelectionReason
unfolding matches_query
select_matches query [] = ([], [])
select_matches query (r ∷ rs) = add_match r (matches_query r query) (select_matches query rs)

abbrev map_text {ℓ} : {A : Type ℓ} → (A → String) → Option A → Option String
map_text f none = none
map_text f (some a) = some (f a)

abbrev filter_text : String → Option String → List String
filter_text name none = []
filter_text name (some s) = (name & "=" & s) ∷ []

abbrev when : Bool → String → List String
when true s = s ∷ []
when false s = []

abbrev some_filters : List String → String
some_filters [] = "no extra filters"
some_filters (f ∷ fs) = join ", " (f ∷ fs)

pub summarize_trace : MemoryQuery → ℕ → ℕ → String
summarize_trace query selected conflict_count =
    let filters =
      filter_text "category" (map_text category_text query.category)
      ++ filter_text "topicKey" (non_empty query.topic_key)
      ++ filter_text "visibility" (map_text visibility_text query.visibility)
      ++ when (not query.include_deleted) "exclude-deleted"
      ++ when (not query.include_superseded) "exclude-superseded" in
    show selected
    & " selected by "
    & some_filters filters
    & "; "
    & show conflict_count
    & " conflict group(s)"

unfoldable pub query_records : MemoryQuery → List MemoryRecord → QueryResult
query_records query stored =
    let found = select_matches query stored in
    let conflicts = conflicts_among (select (λ r. is_active r.status) (found.0)) in
    record {
      records = found.0;
      conflicts = conflicts;
      trace = record {
        query = query;
        record_ids = map (λ r. r.id) (found.0);
        conflict_topic_keys = map (λ group. group.topic_key) conflicts;
        selections = found.1;
        why = summarize_trace query (length (found.1)) (length conflicts);
      };
    }
