-- ===== src/Memory/Service/Marks.antt =====
-- What the marks of a write change, and whose they are.
use dsh_assistant.Prelude.{
  if◌then◌else◌, Bool-cases, Option-cases, any, select, text_equality, number_equality, ◌==◌,
  String, ◌≡◌, refl, sym, inl, inr, Bool, true, false, ◌&&◌, Option, none, some, List, [], ◌∷◌, map,
  arith,
}
use dsh_assistant.Prelude.Dict.{Dict, get, put, has, get-put, values, has-put}
use dsh_assistant.Prelude.Dict.Sole.{get_later, get_first}
use dsh_assistant.Memory.Types.{superseded, MemoryRecord}
use dsh_assistant.Memory.Service.{mark_superseded, mark_all}
use mathlib.Core.Path.{subst}

abbrev pub Records : Type 0
Records = Dict String MemoryRecord

-- every record stands under its own id, and no id twice
abbrev pub IsKeyed : Records → Type 0
IsKeyed [] = Unit
IsKeyed ((k, r) ∷ m) = (r.id ≡ k) × (has k m ≡ false) × IsKeyed m

abbrev pub marked : String → String → MemoryRecord → MemoryRecord
marked successor at r = record r {
  status = superseded;
  superseded_by = some successor;
  updated_at = at;
}

abbrev pub mark_maybe : String → String → Option MemoryRecord → Option MemoryRecord
mark_maybe successor at none = none
mark_maybe successor at (some r) = some (marked successor at r)

mark_missing :
    (id successor at : String) (m : Records)
    → get id m ≡ none
    → mark_superseded id successor at m ≡ m
unfolding mark_superseded
mark_missing id successor at m h = rw (mark_superseded, h) refl

mark_there :
    (id successor at : String) (r : MemoryRecord) (m : Records)
    → get id m ≡ some r
    → mark_superseded id successor at m ≡ put id (marked successor at r) m
unfolding mark_superseded
mark_there id successor at r m h = rw (mark_superseded, h) refl

pub get-mark_superseded :
    (k id successor at : String) (m : Records)
    → get k (mark_superseded id successor at m)
      ≡ (if id == k then mark_maybe successor at (get k m) else get k m)
get-mark_superseded k id successor at m = elim (Option-cases (get id m)) [
  | inl nothing ↦
      ground (arith, text_equality.agrees id k, nothing, mark_missing id successor at m nothing)
  | inr there ↦
      let (r, g) = there in
      ground (
        arith,
        text_equality.agrees id k,
        g,
        mark_there id successor at r m g,
        get-put id k (marked successor at r) m,
      )
]

mark_twice :
    (successor at : String) (o : Option MemoryRecord)
    → mark_maybe successor at (mark_maybe successor at o) ≡ mark_maybe successor at o
mark_twice successor at none = refl
mark_twice successor at (some r) = refl

pub get-mark_all :
    (k successor at : String) (ids : List String) (m : Records)
    → get k (mark_all ids successor at m)
      ≡ (if any (λ id. id == k) ids then mark_maybe successor at (get k m) else get k m)
unfolding mark_all
get-mark_all k successor at [] m = refl
get-mark_all k successor at (id ∷ ids) m = ground (
  arith,
  get-mark_all k successor at ids (mark_superseded id successor at m),
  get-mark_superseded k id successor at m,
  mark_twice successor at (get k m),
)

pub put-IsKeyed : (r : MemoryRecord) (m : Records) → IsKeyed m → IsKeyed (put r.id r m)
unfolding put has
put-IsKeyed r [] h = (refl, refl, tt)
put-IsKeyed r ((k, x) ∷ m) h = elim (Bool-cases (k == r.id)) [
  | inl same ↦ rw same (sym ((text_equality.agrees k r.id).0 same), h.1, h.2)
  | inr other ↦ rw other (
    h.0,
    ground (
      arith,
      other,
      h.1,
      has-put r.id k r m,
      text_equality.agrees r.id k,
      text_equality.agrees k r.id,
    ),
    put-IsKeyed r m h.2,
  )
]

pub get_keyed :
    (k : String) (r : MemoryRecord) (m : Records) → IsKeyed m → get k m ≡ some r → r.id ≡ k
unfolding get
get_keyed k r [] h g = absurd (ground (arith, g))
get_keyed k r ((j, x) ∷ m) h g =
    ground (arith, g, h.0, text_equality.agrees j k, get_keyed k r m h.2)

pub mark_superseded-IsKeyed :
    (id successor at : String) (m : Records)
    → IsKeyed m
    → IsKeyed (mark_superseded id successor at m)
mark_superseded-IsKeyed id successor at m h = elim (Option-cases (get id m)) [
  | inl nothing ↦ subst IsKeyed (sym (mark_missing id successor at m nothing)) h
  | inr there ↦
      let (r, g) = there in
      subst IsKeyed (sym (mark_there id successor at r m g)) (
        subst (λ x. IsKeyed (put x (marked successor at r) m)) (get_keyed id r m h g)
          (put-IsKeyed (marked successor at r) m h))
]

pub mark_all-IsKeyed :
    (ids : List String) (successor at : String) (m : Records)
    → IsKeyed m
    → IsKeyed (mark_all ids successor at m)
unfolding mark_all
mark_all-IsKeyed [] successor at m h = h
mark_all-IsKeyed (id ∷ ids) successor at m h =
    mark_all-IsKeyed ids successor at (mark_superseded id successor at m)
      (mark_superseded-IsKeyed id successor at m h)

pub chosen_get :
    (p : MemoryRecord → Bool) (k : String) (m : Records)
    → IsKeyed m
    → any (λ id. id == k) (map (λ r. r.id) (select p (values m))) ≡ true
    → (a : MemoryRecord) × (get k m ≡ some a) × (p a ≡ true)
chosen_get p k [] h c = absurd (ground (arith, c))
chosen_get p k ((j, r) ∷ m) h c = elim (Bool-cases (p r && r.id == k)) [
  | inl here ↦
      let q : j ≡ k = ground (arith, here, h.0, text_equality.agrees r.id k) in
      (
        r,
        subst (λ x. get x ((j, r) ∷ m) ≡ some r) q (get_first (λ _. true) j r m),
        ground (arith, here),
      )
  | inr other ↦
      let (a, g, pa) = chosen_get p k m h.2 (ground (arith, other, c)) in
      (a, get_later (λ _. true) j k r a m h.1 g, pa)
]
