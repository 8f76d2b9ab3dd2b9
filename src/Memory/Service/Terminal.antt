-- ===== src/Memory/Service/Terminal.antt =====
-- A record's status and content through any sequence of calls.
use dsh_assistant.Prelude.{
  Option-cases, all, text_equality, number_equality, ==_refl, String, ◌≡◌, refl, sym, ◌∙◌, inl, inr,
  Bool, true, false, none, some, List, [], ◌∷◌, arith, ◌≤◌,
}
use dsh_assistant.Prelude.Result.{Result, raise, Result-cases}
use dsh_assistant.Prelude.Dict.{get, put}
use dsh_assistant.Memory.Types.{
  MemoryRecord, MemoryWriteInput, MemoryReplaceInput, Provenance, is_deleted, WriteResult, deleted,
  MemoryStatus, active, superseded,
}
use dsh_assistant.Memory.Normalize.{normalize_write_input, normalize_statement}
use dsh_assistant.Memory.Service.{
  MemoryService, flush, mark_superseded, mark_all, outdated, written, store, write,
  replaced_statement, replacement, replace_existing, replace, delete_record,
}
use dsh_assistant.Memory.Service.Calls.{Call, invoke, run, writing, replacing, deleting, avoids}
use dsh_assistant.Memory.Service.Marks.{
  IsKeyed, marked, get-mark_superseded, put-IsKeyed, get_keyed, mark_superseded-IsKeyed,
  mark_all-IsKeyed,
}
use dsh_assistant.Memory.Service.Advance.{
  IsLater, Keeps, same-IsLater, write_stores, write_refuses, existing_fails, existing_stores, rank,
}
use dsh_assistant.Memory.Service.Lifecycle.{
  HasKeys, replace_by, gone, delete_unknown, delete_known, invoke-Keeps, replace_known,
}
use mathlib.Core.Path.{subst}

store-HasKeys :
    (input : MemoryWriteInput) (id at : String) (s : MemoryService)
    → HasKeys s
    → HasKeys (store input id at s).1
unfolding store flush
store-HasKeys input id at s v =
    put-IsKeyed (written input id at)
      (mark_all (outdated input.conflict_policy input.topic_key s.records) id at s.records)
      (mark_all-IsKeyed (outdated input.conflict_policy input.topic_key s.records) id at s.records
        v)

write-HasKeys :
    (lower : String → String) (session : Bool) (input : MemoryWriteInput) (id at : String)
    (s : MemoryService)
    → HasKeys s
    → HasKeys (write lower session input id at s).1
unfolding write
write-HasKeys lower true input id at s v = v
write-HasKeys lower false input id at s v =
    elim (Result-cases (normalize_write_input lower input)) [
      | inl bad ↦ subst HasKeys (sym (write_refuses lower input bad.0 id at s bad.1)) v
      | inr good ↦
          subst HasKeys (sym (write_stores lower input good.0 id at s good.1))
            (store-HasKeys good.0 id at s v)
    ]

existing-HasKeys :
    (id : String) (input : MemoryReplaceInput) (fresh at : String) (r : MemoryRecord)
    (s : MemoryService)
    → HasKeys s
    → HasKeys (replace_existing id input fresh at r s).1
existing-HasKeys id input fresh at r s v =
    let marks = mark_superseded-IsKeyed id fresh at s.records v in
    elim (Result-cases (replaced_statement input.statement r.statement)) [
      | inl bad ↦ subst IsKeyed (sym (existing_fails id input fresh at r s bad.0 bad.1)) marks
      | inr good ↦ subst IsKeyed (sym (existing_stores id input fresh at r s good.0 good.1)) (
          put-IsKeyed (replacement input good.0 fresh at r) (mark_superseded id fresh at s.records)
            marks)
    ]

delete-HasKeys :
    (id : String) (provenance : Provenance) (at : String) (s : MemoryService)
    → HasKeys s
    → HasKeys (delete_record id provenance at s).1
delete-HasKeys id provenance at s v = elim (Option-cases (get id s.records)) [
  | inl nothing ↦ subst HasKeys (sym (delete_unknown id provenance at s nothing)) v
  | inr there ↦ subst IsKeyed (sym (delete_known id provenance at s there.0 there.1)) (
      subst (λ k. IsKeyed (put k (gone there.0 provenance at) s.records))
        (get_keyed id there.0 s.records v there.1)
        (put-IsKeyed (gone there.0 provenance at) s.records v))
]

invoke-HasKeys :
    (lower : String → String) (call : Call) (s : MemoryService)
    → HasKeys s
    → HasKeys (invoke lower call s)
unfolding invoke
invoke-HasKeys lower (writing session input id at) s v = write-HasKeys lower session input id at s v
invoke-HasKeys lower (replacing id input fresh at) s v =
    replace_by HasKeys id input fresh at s v (λ r _ _. existing-HasKeys id input fresh at r s v)
invoke-HasKeys lower (deleting id provenance at) s v = delete-HasKeys id provenance at s v

deleted_stays :
    (b c : MemoryRecord) → rank b.status ≤ rank c.status → b.status ≡ deleted → c.status ≡ deleted
deleted_stays b c h e = last c.status (subst (λ x. rank x ≤ rank c.status) e h)
  where
    last : (x : MemoryStatus) → rank deleted ≤ rank x → x ≡ deleted
    last active h = absurd (omega (arith, h))
    last superseded h = absurd (omega (arith, h))
    last deleted h = refl

IsLater-IsLater : (a b c : MemoryRecord) → IsLater a b → IsLater b c → IsLater a c
IsLater-IsLater a b c (r, s, t, g, d, i, p, f, v, o) (r', s', t', g', d', i', p', f', v', o') = (
  omega (arith, r, r'),
  s' ∙ s,
  t' ∙ t,
  g' ∙ g,
  d' ∙ d,
  i' ∙ i,
  p' ∙ p,
  f' ∙ f,
  v' ∙ v,
  elim o' [
    | inr ends ↦ inr ends
    | inl same ↦ elim o [
      | inl before ↦ inl (same ∙ before)
      | inr ended ↦ inr (deleted_stays b c r' ended)
    ]
  ],
)

-- From a state where every record stands under its own id, through any calls of which none draws the
-- id of a given record for a new one: the record is still there, its status has not gone back in the
-- order active, superseded, deleted, its statement, topic, category, polarity, confidence, visibility
-- and creation time are unchanged, and so is its provenance unless it has been deleted.
pub status_advances :
    (lower : String → String) (calls : List Call) (k : String) (a : MemoryRecord)
    (s : MemoryService)
    → HasKeys s
    → get k s.records ≡ some a
    → all (avoids k) calls ≡ true
    → Keeps k a (run lower calls s).records
unfolding run
status_advances lower [] k a s v g h = (a, g, same-IsLater a)
status_advances lower (call ∷ calls) k a s v g h =
    let (b, gb, ab) = invoke-Keeps lower call k a s v g (ground (arith, h)) in
    let (c, gc, bc) =
      status_advances lower calls k b (invoke lower call s) (invoke-HasKeys lower call s v) gb
        (ground (arith, h)) in
    (c, gc, IsLater-IsLater a b c ab bc)

failed_existing :
    (id : String) (input : MemoryReplaceInput) (fresh at : String) (r : MemoryRecord)
    (s : MemoryService) (e : String)
    → replaced_statement input.statement r.statement ≡ raise e
    → replace_existing id input fresh at r s
      ≡ (raise e, record s { records = mark_superseded id fresh at s.records })
unfolding replace_existing
failed_existing id input fresh at r s e h = rw (replace_existing, h) refl

-- what `replace` returns and leaves behind
abbrev pub IsHalfDone :
    String
    → String
    → String
    → String
    → MemoryRecord
    → MemoryService
    → Result String WriteResult × MemoryService
    → Type 0
IsHalfDone id fresh at e r s out =
    (out.0 ≡ raise e)
    × (get id out.1.records ≡ some (marked fresh at r))
    × (get fresh out.1.records ≡ none)
    × (out.1.saved ≡ s.saved)

-- A replacement whose new statement is refused is an error, and yet the record, which is there and not
-- deleted, is superseded afterwards, by a fresh id that no record has; what was saved is not touched.
pub failed_replacement_supersedes :
    (id fresh at statement e : String) (input : MemoryReplaceInput) (r : MemoryRecord)
    (s : MemoryService)
    → get id s.records ≡ some r
    → is_deleted r.status ≡ false
    → input.statement ≡ some statement
    → normalize_statement statement ≡ raise e
    → get fresh s.records ≡ none
    → IsHalfDone id fresh at e r s (replace id input fresh at s)
failed_replacement_supersedes id fresh at statement e input r s g d i n f =
    let refused : replaced_statement input.statement r.statement ≡ raise e =
      subst (λ o. replaced_statement o r.statement ≡ raise e) (sym i) n in
    subst (IsHalfDone id fresh at e r s)
      (sym
        (replace_known id input fresh at s r g d ∙ failed_existing id input fresh at r s e refused))
      (
        refl,
        ground (arith, g, ==_refl id, get-mark_superseded id id fresh at s.records),
        ground (arith, f, get-mark_superseded fresh id fresh at s.records),
        refl,
      )
