-- ===== src/Memory/Service/Advance.antt =====
-- What a record keeps through later calls: its content, and how far its status has come.
use dsh_assistant.Prelude.{
  Bool-cases, any, select, text_equality, number_equality, ◌==◌, ℕ, ◌≤◌, String, ◌≡◌, refl, sym, ap,
  ◌∙◌, inl, inr, Bool, true, false, not, ◌&&◌, some, map, arith, ◌⊎◌,
}
use dsh_assistant.Prelude.Result.{ok, raise, Result-cases}
use dsh_assistant.Prelude.Dict.{get, put, get-put, values}
use dsh_assistant.Memory.Types.{
  MemoryStatus, active, superseded, deleted, is_active, is_deleted, MemoryRecord, MemoryWriteInput,
  MemoryReplaceInput, ConflictPolicy, keep_both, supersede_topic,
}
use dsh_assistant.Memory.Normalize.{normalize_write_input}
use dsh_assistant.Memory.Service.{
  MemoryService, flush, mark_superseded, mark_all, outdated, written, store, write,
  replaced_statement, replacement, replace_existing,
}
use dsh_assistant.Memory.Service.Marks.{
  IsKeyed, Records, marked, get-mark_superseded, get-mark_all, chosen_get,
}
use mathlib.Core.Path.{subst}

abbrev pub rank : MemoryStatus → ℕ
rank active = 0
rank superseded = 1
rank deleted = 2

-- `b` is `a` at a later time; only a deletion writes another provenance
abbrev pub IsLater : MemoryRecord → MemoryRecord → Type 0
IsLater a b =
    (rank a.status ≤ rank b.status)
    × (b.statement ≡ a.statement)
    × (b.topic_key ≡ a.topic_key)
    × (b.category ≡ a.category)
    × (b.created_at ≡ a.created_at)
    × (b.id ≡ a.id)
    × (b.polarity ≡ a.polarity)
    × (b.confidence ≡ a.confidence)
    × (b.visibility ≡ a.visibility)
    × ((b.provenance ≡ a.provenance) ⊎ (b.status ≡ deleted))

abbrev pub Keeps : String → MemoryRecord → Records → Type 0
Keeps k a m = (b : MemoryRecord) × (get k m ≡ some b) × IsLater a b

pub same-IsLater : (a : MemoryRecord) → IsLater a a
same-IsLater a = (omega arith, refl, refl, refl, refl, refl, refl, refl, refl, inl refl)

marked-IsLater :
    (successor at : String) (a : MemoryRecord)
    → is_deleted a.status ≡ false
    → IsLater a (marked successor at a)
marked-IsLater successor at a h =
    (ground (arith, h), refl, refl, refl, refl, refl, refl, refl, refl, inl refl)

pub put_other :
    (id k : String) (a r : MemoryRecord) (m : Records)
    → not (id == k) ≡ true
    → Keeps k a m
    → Keeps k a (put id r m)
put_other id k a r m h kept = (kept.0, ground (arith, h, kept.1, get-put id k r m), kept.2)

marks-Keeps :
    (topic k successor at : String) (a : MemoryRecord) (m : Records)
    → IsKeyed m
    → get k m ≡ some a
    → Keeps k a (
        mark_all
          (map (λ r. r.id) (select (λ r. r.topic_key == topic && is_active r.status) (values m)))
          successor
          at
          m)
marks-Keeps topic k successor at a m v g =
    let p : MemoryRecord → Bool = λ r. r.topic_key == topic && is_active r.status in
    let ids = map (λ r. r.id) (select p (values m)) in
    elim (Bool-cases (any (λ id. id == k) ids)) [
      | inl chosen ↦
          let (b, gb, pb) = chosen_get p k m v chosen in
          let young : is_deleted a.status ≡ false = ground (arith, g, gb, pb) in
          (
            marked successor at a,
            ground (arith, chosen, g, get-mark_all k successor at ids m),
            marked-IsLater successor at a young,
          )
      | inr spared ↦
          (a, ground (arith, spared, g, get-mark_all k successor at ids m), same-IsLater a)
    ]

outdated-Keeps :
    (policy : ConflictPolicy) (topic k successor at : String) (a : MemoryRecord) (m : Records)
    → IsKeyed m
    → get k m ≡ some a
    → Keeps k a (mark_all (outdated policy topic m) successor at m)
unfolding mark_all
outdated-Keeps keep_both topic k successor at a m v g = (a, g, same-IsLater a)
outdated-Keeps supersede_topic topic k successor at a m v g =
    marks-Keeps topic k successor at a m v g

store-Keeps :
    (input : MemoryWriteInput) (id at k : String) (a : MemoryRecord) (s : MemoryService)
    → IsKeyed s.records
    → get k s.records ≡ some a
    → not (id == k) ≡ true
    → Keeps k a (store input id at s).1.records
unfolding store flush
store-Keeps input id at k a s v g h =
    put_other id k a (written input id at)
      (mark_all (outdated input.conflict_policy input.topic_key s.records) id at s.records) h
      (outdated-Keeps input.conflict_policy input.topic_key k id at a s.records v g)

pub write_stores :
    (lower : String → String) (input n : MemoryWriteInput) (id at : String) (s : MemoryService)
    → normalize_write_input lower input ≡ ok n
    → (write lower false input id at s).1 ≡ (store n id at s).1
unfolding write
write_stores lower input n id at s h = rw (write, h) refl

pub write_refuses :
    (lower : String → String) (input : MemoryWriteInput) (e : String) (id at : String)
    (s : MemoryService)
    → normalize_write_input lower input ≡ raise e
    → (write lower false input id at s).1 ≡ s
unfolding write
write_refuses lower input e id at s h = rw (write, h) refl

pub write-Keeps :
    (lower : String → String) (session : Bool) (input : MemoryWriteInput) (id at k : String)
    (a : MemoryRecord) (s : MemoryService)
    → IsKeyed s.records
    → get k s.records ≡ some a
    → not (id == k) ≡ true
    → Keeps k a (write lower session input id at s).1.records
unfolding write
write-Keeps lower true input id at k a s v g h = (a, g, same-IsLater a)
write-Keeps lower false input id at k a s v g h =
    elim (Result-cases (normalize_write_input lower input)) [
      | inl bad ↦
          subst (λ x. Keeps k a x.records) (sym (write_refuses lower input bad.0 id at s bad.1))
            (a, g, same-IsLater a)
      | inr good ↦
          subst (λ x. Keeps k a x.records) (sym (write_stores lower input good.0 id at s good.1))
            (store-Keeps good.0 id at k a s v g h)
    ]

mark-Keeps :
    (id k successor at : String) (existing a : MemoryRecord) (m : Records)
    → get id m ≡ some existing
    → is_deleted existing.status ≡ false
    → get k m ≡ some a
    → Keeps k a (mark_superseded id successor at m)
mark-Keeps id k successor at existing a m f d g = elim (Bool-cases (id == k)) [
  | inl same ↦
      let q : existing ≡ a = ground (arith, f, g, same, text_equality.agrees id k) in
      (
        marked successor at a,
        ground (arith, same, g, get-mark_superseded k id successor at m),
        marked-IsLater successor at a (sym (ap (λ x. is_deleted x.status) q) ∙ d),
      )
  | inr other ↦
      (a, ground (arith, other, g, get-mark_superseded k id successor at m), same-IsLater a)
]

pub existing_fails :
    (id : String) (input : MemoryReplaceInput) (fresh at : String) (existing : MemoryRecord)
    (s : MemoryService) (e : String)
    → replaced_statement input.statement existing.statement ≡ raise e
    → (replace_existing id input fresh at existing s).1.records
      ≡ mark_superseded id fresh at s.records
unfolding replace_existing
existing_fails id input fresh at existing s e h = rw (replace_existing, h) refl

pub existing_stores :
    (id : String) (input : MemoryReplaceInput) (fresh at : String) (existing : MemoryRecord)
    (s : MemoryService) (statement : String)
    → replaced_statement input.statement existing.statement ≡ ok statement
    → (replace_existing id input fresh at existing s).1.records
      ≡ put fresh
          (replacement input statement fresh at existing)
          (mark_superseded id fresh at s.records)
unfolding replace_existing flush
existing_stores id input fresh at existing s statement h = rw (replace_existing, h) refl

pub existing-Keeps :
    (id : String) (input : MemoryReplaceInput) (fresh at k : String) (existing a : MemoryRecord)
    (s : MemoryService)
    → get id s.records ≡ some existing
    → is_deleted existing.status ≡ false
    → get k s.records ≡ some a
    → not (fresh == k) ≡ true
    → Keeps k a (replace_existing id input fresh at existing s).1.records
existing-Keeps id input fresh at k existing a s f d g h =
    let kept = mark-Keeps id k fresh at existing a s.records f d g in
    elim (Result-cases (replaced_statement input.statement existing.statement)) [
      | inl bad ↦
          subst (Keeps k a) (sym (existing_fails id input fresh at existing s bad.0 bad.1)) kept
      | inr good ↦
          subst (Keeps k a) (sym (existing_stores id input fresh at existing s good.0 good.1)) (
            put_other fresh k a (replacement input good.0 fresh at existing)
              (mark_superseded id fresh at s.records) h kept)
    ]
