-- ===== src/Memory/Service/Topic.antt =====
-- What a write that supersedes its topic leaves active.
use dsh_assistant.Prelude.{
  if◌then◌else◌, Bool-cases, any, select, text_equality, number_equality, ◌==◌, String, ◌≡◌, refl,
  sym, ap, ◌∙◌, inl, inr, Bool, true, false, ◌&&◌, Option, none, some, [], ◌∷◌, map, arith,
  Option-cases, ==_refl,
}
use dsh_assistant.Prelude.Result.{ok}
use dsh_assistant.Prelude.Dict.{get, get-put, values}
use dsh_assistant.Memory.Types.{is_active, MemoryRecord, MemoryWriteInput, supersede_topic}
use dsh_assistant.Memory.Normalize.{normalize_write_input}
use dsh_assistant.Memory.Service.{MemoryService, flush, mark_all, outdated, written, store, write}
use dsh_assistant.Memory.Service.Marks.{IsKeyed, Records, mark_maybe, get-mark_all}
use dsh_assistant.Memory.Service.Advance.{write_stores}
use dsh_assistant.Memory.Service.Lifecycle.{HasKeys}
use mathlib.Core.Path.{subst}

get-chosen :
    (p : MemoryRecord → Bool) (k : String) (b : MemoryRecord) (m : Records)
    → IsKeyed m
    → get k m ≡ some b
    → p b ≡ true
    → any (λ id. id == k) (map (λ r. r.id) (select p (values m))) ≡ true
unfolding get
get-chosen p k b [] v g h = absurd (ground (arith, g))
get-chosen p k b ((j, r) ∷ m) v g h = elim (Bool-cases (j == k)) [
  | inl here ↦
      let q : r ≡ b = ground (arith, g, here) in
      let pr : p r ≡ true = ap p q ∙ h in
      ground (arith, pr, v.0, here, text_equality.agrees r.id k, text_equality.agrees j k)
  | inr later ↦ ground (arith, get-chosen p k b m v.2 (ground (arith, g, later)) h)
]

marked_inactive :
    (k successor at : String) (b : MemoryRecord) (o : Option MemoryRecord)
    → mark_maybe successor at o ≡ some b
    → is_active b.status ≡ false
marked_inactive k successor at b none h = absurd (ground (arith, h))
marked_inactive k successor at b (some r) h = ground (arith, h)

left_active :
    (topic k successor at : String) (b : MemoryRecord) (m : Records)
    → IsKeyed m
    → get k (mark_all (outdated supersede_topic topic m) successor at m) ≡ some b
    → b.topic_key ≡ topic
    → is_active b.status ≡ false
left_active topic k successor at b m v g t =
    let p : MemoryRecord → Bool = λ r. r.topic_key == topic && is_active r.status in
    let ids = outdated supersede_topic topic m in
    let there = get-mark_all k successor at ids m in
    elim (Bool-cases (any (λ id. id == k) ids)) [
      | inl chosen ↦ marked_inactive k successor at b (get k m) (ground (arith, chosen, there, g))
      | inr spared ↦ elim (Bool-cases (is_active b.status)) [
        | inl on ↦
            let old : get k m ≡ some b = ground (arith, spared, there, g) in
            absurd (
              ground (
                arith,
                spared,
                get-chosen p k b m v old
                    (ground (arith, on, t, text_equality.agrees b.topic_key topic)),
              ))
        | inr off ↦ off
      ]
    ]

stored_get :
    (n : MemoryWriteInput) (id at k : String) (s : MemoryService)
    → get k (store n id at s).1.records ≡ (
        if id == k
        then some (written n id at)
        else get k (mark_all (outdated n.conflict_policy n.topic_key s.records) id at s.records))
unfolding store flush
stored_get n id at k s =
    get-put id k (written n id at)
      (mark_all (outdated n.conflict_policy n.topic_key s.records) id at s.records)

-- the record, if it is active and of this topic
abbrev pub active_of : String → Option MemoryRecord → Option MemoryRecord
active_of topic none = none
active_of topic (some r) = if r.topic_key == topic && is_active r.status then some r else none

none_left :
    (topic k successor at : String) (m : Records)
    → IsKeyed m
    → active_of topic (get k (mark_all (outdated supersede_topic topic m) successor at m)) ≡ none
none_left topic k successor at m v =
    let marks = mark_all (outdated supersede_topic topic m) successor at m in
    elim (Option-cases (get k marks)) [
      | inl nothing ↦ rw nothing refl
      | inr (b, g) ↦ elim (Bool-cases (b.topic_key == topic)) [
        | inl same ↦
            let off =
              left_active topic k successor at b m v g
                ((text_equality.agrees b.topic_key topic).0 same) in
            ground (arith, g, off)
        | inr other ↦ ground (arith, g, other)
      ]
    ]

-- After a write that is accepted and supersedes its topic, over records that stand under their own ids:
-- under the id drawn for the new record stands the record that was written, active and of the
-- normalized topic, and under no other id stands an active record of that topic.
pub write_supersedes :
    (lower : String → String) (input n : MemoryWriteInput) (id at k : String) (s : MemoryService)
    → HasKeys s
    → normalize_write_input lower input ≡ ok n
    → n.conflict_policy ≡ supersede_topic
    → active_of n.topic_key (get k (write lower false input id at s).1.records)
      ≡ (if id == k then some (written n id at) else none)
write_supersedes lower input n id at k s v e c =
    let left =
      subst
        (λ policy.
          active_of n.topic_key
            (get k (mark_all (outdated policy n.topic_key s.records) id at s.records))
          ≡ none)
        (sym c) (none_left n.topic_key k id at s.records v) in
    let there = stored_get n id at k s in
    subst
      (λ x.
        active_of n.topic_key (get k x.records)
        ≡ (if id == k then some (written n id at) else none))
      (sym (write_stores lower input n id at s e))
      (elim (Bool-cases (id == k)) [
        | inl here ↦ ground (arith, here, there, ==_refl n.topic_key)
        | inr other ↦ ground (arith, other, there, left)
      ])
