-- ===== src/Memory/Query/Selection.antt =====
-- Which records a query chooses.
use dsh_assistant.Prelude.{
  Option-cases, select, text_equality, number_equality, ◌==◌, ◌&◌, String, ◌≡◌, refl, sym, ap, ◌∙◌,
  inl, inr, Bool, true, false, not, ◌&&◌, ◌||◌, Option, none, some, List, [], ◌∷◌, map, arith,
}
use dsh_assistant.Memory.Types.{
  MemoryCategory, MemoryStatus, MemoryVisibility, MemoryRecord, MemoryQuery, is_superseded,
  is_deleted, same_visibility, category_text, status_text,
}
use dsh_assistant.Memory.Query.{
  non_empty, by_category, by_topic_key, by_status, by_visibility, and_also, matches_query,
  select_matches, query_records,
}

abbrev pub agrees_with {ℓ} : {A : Type ℓ} → (A → Bool) → Option A → Bool
agrees_with p none = true
agrees_with p (some wanted) = p wanted

-- what a query asks for, as one condition
abbrev pub is_wanted : MemoryQuery → MemoryRecord → Bool
is_wanted query r =
    agrees_with (λ wanted. category_text r.category == category_text wanted) query.category
    && agrees_with (λ wanted. r.topic_key == wanted) (non_empty query.topic_key)
    && (query.include_deleted || not (is_deleted r.status))
    && (query.include_superseded || not (is_superseded r.status))
    && agrees_with (λ wanted. same_visibility r.visibility wanted) query.visibility

abbrev is_match : Option (List String) → Bool
is_match none = false
is_match (some reasons) = true

is_match-and_also :
    (a b : Option (List String)) → is_match (and_also a b) ≡ (is_match a && is_match b)
is_match-and_also none b = refl
is_match-and_also (some xs) none = refl
is_match-and_also (some xs) (some ys) = refl

category_match :
    (wanted : Option MemoryCategory) (c : MemoryCategory)
    → is_match (by_category wanted c) ≡ agrees_with (λ w. category_text c == category_text w) wanted
category_match none c = refl
category_match (some w) c = ground arith

topic_match :
    (wanted : Option String) (t : String)
    → is_match (by_topic_key wanted t) ≡ agrees_with (λ w. t == w) wanted
topic_match none t = refl
topic_match (some w) t = ground arith

status_match :
    (d s : Bool) (status : MemoryStatus)
    → is_match (by_status d s status)
      ≡ ((d || not (is_deleted status)) && (s || not (is_superseded status)))
status_match d s status = ground arith

visibility_match :
    (wanted : Option MemoryVisibility) (v : MemoryVisibility)
    → is_match (by_visibility wanted v) ≡ agrees_with (λ w. same_visibility v w) wanted
visibility_match none v = refl
visibility_match (some w) v = ground arith

matches_wanted :
    (r : MemoryRecord) (query : MemoryQuery) → is_match (matches_query r query) ≡ is_wanted query r
unfolding matches_query
matches_wanted r query =
    let topic = by_topic_key (non_empty query.topic_key) r.topic_key in
    let status = by_status query.include_deleted query.include_superseded r.status in
    let seen = by_visibility query.visibility r.visibility in
    ground (
      arith,
      is_match-and_also (some (("status=" & status_text r.status) ∷ [])) (
          and_also (by_category query.category r.category) (and_also topic (and_also status seen))),
      is_match-and_also (by_category query.category r.category)
          (and_also topic (and_also status seen)),
      is_match-and_also topic (and_also status seen),
      is_match-and_also status seen,
      category_match query.category r.category,
      topic_match (non_empty query.topic_key) r.topic_key,
      status_match query.include_deleted query.include_superseded r.status,
      visibility_match query.visibility r.visibility,
    )

matches_select :
    (query : MemoryQuery) (stored : List MemoryRecord)
    → ((select_matches query stored).0 ≡ select (is_wanted query) stored)
      × (map (λ x. x.record_id) (select_matches query stored).1
          ≡ map (λ r. r.id) (select (is_wanted query) stored))
unfolding select_matches
matches_select query [] = (refl, refl)
matches_select query (r ∷ rs) =
    let later = matches_select query rs in
    elim (Option-cases (matches_query r query)) [
      | inl away ↦
          let off : is_wanted query r ≡ false = sym (matches_wanted r query) ∙ ap is_match away in
          rw (select_matches, away, off) later
      | inr chosen ↦
          let on : is_wanted query r ≡ true = sym (matches_wanted r query) ∙ ap is_match chosen.1 in
          rw (select_matches, chosen.1, on)
            (ap (λ xs. r ∷ xs) later.0, ap (λ xs. r.id ∷ xs) later.1)
    ]

pub select_matches-select :
    (query : MemoryQuery) (stored : List MemoryRecord)
    → select_matches query (select (is_wanted query) stored) ≡ select_matches query stored
unfolding select_matches
select_matches-select query [] = refl
select_matches-select query (r ∷ rs) =
    let later = select_matches-select query rs in
    elim (Option-cases (matches_query r query)) [
      | inl away ↦
          let off : is_wanted query r ≡ false = sym (matches_wanted r query) ∙ ap is_match away in
          ground (arith, off, away, later)
      | inr chosen ↦
          let on : is_wanted query r ≡ true = sym (matches_wanted r query) ∙ ap is_match chosen.1 in
          ground (arith, on, chosen.1, later)
    ]

-- The records of a query are the stored ones that agree with each of its fields, deleted or superseded
-- ones only where they are asked for, in the order in which they are stored; the trace names the same
-- records, in that order, once in its ids and once in its reasons.
pub query_selects :
    (query : MemoryQuery) (stored : List MemoryRecord)
    → ((query_records query stored).records ≡ select (is_wanted query) stored)
      × ((query_records query stored).trace.record_ids
          ≡ map (λ r. r.id) (select (is_wanted query) stored))
      × (map (λ x. x.record_id) (query_records query stored).trace.selections
          ≡ map (λ r. r.id) (select (is_wanted query) stored))
unfolding query_records
query_selects query stored =
    let found = matches_select query stored in (found.0, ap (map (λ r. r.id)) found.0, found.1)
