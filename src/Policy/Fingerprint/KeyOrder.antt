-- ===== src/Policy/Fingerprint/KeyOrder.antt =====
-- The fingerprint does not depend on the order in which an object's keys were written.
use dsh_assistant.Prelude.{String, ◌≡◌, refl, ap, ap₂, ◌∙◌, ◌≢◌, arith}
use dsh_assistant.Json.{Json, arr, obj, Items, nil, cons, Fields, end, field}
use dsh_assistant.Json.Order.{text_leb_total, text_leb_trans, text_leb_antisymm}
use dsh_assistant.Policy.Fingerprint.{
  insert_field, canonicalize, canonicalize_items, canonicalize_fields, action_fingerprint,
}

-- The same value up to the order of keys, at every depth.
mutual
  pub data SameValue : Json → Json → Type 0 where
    same : (v : Json) → SameValue v v
    arrays : {xs ys : Items} → SameItems xs ys → SameValue (arr xs) (arr ys)
    objects : {fs gs : Fields} → SameFields fs gs → SameValue (obj fs) (obj gs)

  pub data SameItems : Items → Items → Type 0 where
    no_items : SameItems nil nil
    items :
        {v w : Json} {xs ys : Items}
        → SameValue v w
        → SameItems xs ys
        → SameItems (cons v xs) (cons w ys)

  pub data SameFields : Fields → Fields → Type 0 where
    no_fields : SameFields end end
    under :
        {v w : Json} {fs gs : Fields} (k : String)
        → SameValue v w
        → SameFields fs gs
        → SameFields (field k v fs) (field k w gs)
    swap :
        (k j : String) (v w : Json) (fs : Fields)
        → k ≢ j
        → SameFields (field k v (field j w fs)) (field j w (field k v fs))
    through : {fs gs hs : Fields} → SameFields fs gs → SameFields gs hs → SameFields fs hs

insert_field_comm :
    (k j : String) (v w : Json) (fs : Fields)
    → k ≢ j
    → insert_field k v (insert_field j w fs) ≡ insert_field j w (insert_field k v fs)
unfolding insert_field
insert_field_comm k j v w end h = ground (arith, text_leb_total k j, text_leb_antisymm k j)
insert_field_comm k j v w (field i u fs) h = ground (
  arith,
  text_leb_total k j,
  text_leb_antisymm k j,
  text_leb_trans k j i,
  text_leb_trans j k i,
  insert_field_comm k j v w fs h,
)

mutual
  unfolding canonicalize

  same_value : {v w : Json} → SameValue v w → canonicalize v ≡ canonicalize w
  same_value (same v) = refl
  same_value (arrays h) = ap arr (same_items h)
  same_value (objects h) = ap obj (same_fields h)

  same_items : {xs ys : Items} → SameItems xs ys → canonicalize_items xs ≡ canonicalize_items ys
  same_items no_items = refl
  same_items (items h t) = ap₂ cons (same_value h) (same_items t)

  same_fields :
      {fs gs : Fields} → SameFields fs gs → canonicalize_fields fs ≡ canonicalize_fields gs
  same_fields no_fields = refl
  same_fields (under k h t) = ap₂ (insert_field k) (same_value h) (same_fields t)
  same_fields (swap k j v w fs h) =
      insert_field_comm k j (canonicalize v) (canonicalize w) (canonicalize_fields fs) h
  same_fields (through h t) = same_fields h ∙ same_fields t

-- Two payloads that differ only in the order of keys, at any depth, have one fingerprint.
pub fingerprint_of_SameFields :
    (sha256 : String → String) (capability operation : String) (p q : Fields)
    → SameFields p q
    → action_fingerprint sha256 capability operation p
      ≡ action_fingerprint sha256 capability operation q
unfolding action_fingerprint
fingerprint_of_SameFields sha256 capability operation p q h = rw (same_fields h)
