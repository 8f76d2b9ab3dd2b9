-- ===== src/Memory/Service/Lifecycle.antt =====
-- Records through any sequence of calls.
use dsh_assistant.Prelude.{
  Bool-cases, Option-cases, text_equality, number_equality, ◌==◌, String, ◌≡◌, refl, sym, inl, inr,
  true, false, none, some, arith,
}
use dsh_assistant.Prelude.Dict.{get, put, get-put}
use dsh_assistant.Memory.Types.{is_deleted, deleted, MemoryRecord, MemoryReplaceInput, Provenance}
use dsh_assistant.Memory.Service.{MemoryService, flush, replace_existing, replace, delete_record}
use dsh_assistant.Memory.Service.Calls.{Call, invoke, writing, replacing, deleting, avoids}
use dsh_assistant.Memory.Service.Marks.{IsKeyed}
use dsh_assistant.Memory.Service.Advance.{Keeps, same-IsLater, write-Keeps, existing-Keeps}
use mathlib.Core.Path.{subst}

abbrev pub HasKeys : MemoryService → Type 0
HasKeys s = IsKeyed s.records

replace_unknown :
    (id : String) (input : MemoryReplaceInput) (fresh at : String) (s : MemoryService)
    → get id s.records ≡ none
    → (replace id input fresh at s).1 ≡ s
unfolding replace
replace_unknown id input fresh at s h = rw (replace, h) refl

replace_deleted :
    (id : String) (input : MemoryReplaceInput) (fresh at : String) (s : MemoryService)
    (r : MemoryRecord)
    → get id s.records ≡ some r
    → is_deleted r.status ≡ true
    → (replace id input fresh at s).1 ≡ s
unfolding replace
replace_deleted id input fresh at s r h d = rw (replace, h, d) refl

pub replace_known :
    (id : String) (input : MemoryReplaceInput) (fresh at : String) (s : MemoryService)
    (r : MemoryRecord)
    → get id s.records ≡ some r
    → is_deleted r.status ≡ false
    → replace id input fresh at s ≡ replace_existing id input fresh at r s
unfolding replace
replace_known id input fresh at s r h d = rw (replace, h, d) refl

-- a property of states that `replace` has on each of its branches
pub replace_by {ℓ} :
    (P : MemoryService → Type ℓ) (id : String) (input : MemoryReplaceInput) (fresh at : String)
    (s : MemoryService)
    → P s
    → ((r : MemoryRecord)
        → get id s.records ≡ some r
        → is_deleted r.status ≡ false
        → P (replace_existing id input fresh at r s).1)
    → P (replace id input fresh at s).1
replace_by P id input fresh at s same other = elim (Option-cases (get id s.records)) [
  | inl nothing ↦ subst P (sym (replace_unknown id input fresh at s nothing)) same
  | inr there ↦ elim (Bool-cases (is_deleted there.0.status)) [
    | inl gone ↦ subst P (sym (replace_deleted id input fresh at s there.0 there.1 gone)) same
    | inr live ↦
        subst (λ x. P x.1) (sym (replace_known id input fresh at s there.0 there.1 live))
          (other there.0 there.1 live)
  ]
]

abbrev pub gone : MemoryRecord → Provenance → String → MemoryRecord
gone r provenance at = record r {
  status = deleted;
  deleted_at = some at;
  updated_at = at;
  provenance = provenance;
}

pub delete_unknown :
    (id : String) (provenance : Provenance) (at : String) (s : MemoryService)
    → get id s.records ≡ none
    → (delete_record id provenance at s).1 ≡ s
unfolding delete_record
delete_unknown id provenance at s h = rw (delete_record, h) refl

pub delete_known :
    (id : String) (provenance : Provenance) (at : String) (s : MemoryService) (r : MemoryRecord)
    → get id s.records ≡ some r
    → (delete_record id provenance at s).1.records ≡ put id (gone r provenance at) s.records
unfolding delete_record flush
delete_known id provenance at s r h = rw (delete_record, h) refl

delete-Keeps :
    (id : String) (provenance : Provenance) (at k : String) (a : MemoryRecord) (s : MemoryService)
    → get k s.records ≡ some a
    → Keeps k a (delete_record id provenance at s).1.records
delete-Keeps id provenance at k a s g = elim (Option-cases (get id s.records)) [
  | inl nothing ↦
      subst (λ x. Keeps k a x.records) (sym (delete_unknown id provenance at s nothing))
        (a, g, same-IsLater a)
  | inr there ↦
      subst (Keeps k a) (sym (delete_known id provenance at s there.0 there.1))
        (elim (Bool-cases (id == k)) [
          | inl same ↦
              let q : there.0 ≡ a = ground (arith, there.1, g, same, text_equality.agrees id k) in
              (
                gone a provenance at,
                ground (arith, same, q, get-put id k (gone there.0 provenance at) s.records),
                (ground arith, refl, refl, refl, refl, refl, refl, refl, refl, inr refl),
              )
          | inr other ↦ (
            a,
            ground (arith, other, g, get-put id k (gone there.0 provenance at) s.records),
            same-IsLater a,
          )
        ])
]

pub invoke-Keeps :
    (lower : String → String) (call : Call) (k : String) (a : MemoryRecord) (s : MemoryService)
    → HasKeys s
    → get k s.records ≡ some a
    → avoids k call ≡ true
    → Keeps k a (invoke lower call s).records
unfolding invoke
invoke-Keeps lower (writing session input id at) k a s v g h =
    write-Keeps lower session input id at k a s v g h
invoke-Keeps lower (replacing id input fresh at) k a s v g h =
    replace_by (λ x. Keeps k a x.records) id input fresh at s (a, g, same-IsLater a)
      (λ r f d. existing-Keeps id input fresh at k r a s f d g h)
invoke-Keeps lower (deleting id provenance at) k a s v g h = delete-Keeps id provenance at k a s g
