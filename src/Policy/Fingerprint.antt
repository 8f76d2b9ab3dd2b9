-- ===== src/Policy/Fingerprint.antt =====
-- domain/policy/fingerprint.ts: the digest of a concrete action. `sha256` stands for
-- `createHash('sha256')` of node:crypto.
pub mod KeyOrder
mod Tests
use dsh_assistant.Prelude.{String, Bool, if◌then◌else◌}
use dsh_assistant.Json.{Json, arr, obj, Items, nil, cons, Fields, end, field, stringify}
use dsh_assistant.Json.Order.{text_leb}

-- `Object.keys(value).sort()` with each key's value, as an insertion sort; keys are distinct
pub insert_field : String → Json → Fields → Fields
insert_field k v end = field k v end
insert_field k v (field j w fs) =
    let rest = insert_field k v fs in
    if text_leb k j then field k v (field j w fs) else field j w rest

unfoldable mutual
  unfolding insert_field

  pub canonicalize : Json → Json
  canonicalize (arr xs) = arr (canonicalize_items xs)
  canonicalize (obj fs) = obj (canonicalize_fields fs)
  canonicalize v = v

  pub canonicalize_items : Items → Items
  canonicalize_items nil = nil
  canonicalize_items (cons v vs) = cons (canonicalize v) (canonicalize_items vs)

  -- in the order of `sort()`, also for keys that are array indices, which JavaScript moves to the front
  pub canonicalize_fields : Fields → Fields
  canonicalize_fields end = end
  canonicalize_fields (field k v fs) = insert_field k (canonicalize v) (canonicalize_fields fs)

-- `{ capability, operation, payload }`
abbrev pub action_value : String → String → Fields → Json
action_value capability operation payload = obj (
    field "capability" (Json.str capability)
      (field "operation" (Json.str operation) (field "payload" (obj payload) end)))

unfoldable pub action_fingerprint : (String → String) → String → String → Fields → String
unfolding canonicalize stringify
action_fingerprint sha256 capability operation payload =
    sha256 (stringify (canonicalize (action_value capability operation payload)))
