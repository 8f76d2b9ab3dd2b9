-- ===== src/Policy/Tools.antt =====
-- domain/policy/classify.ts: the tools that the policy owns, and the action that a call of one asks
-- for.
pub mod Bound
mod Tests
use dsh_assistant.Prelude.{
  ltb, leb, nat_beq, if◌then◌else◌, nat_beq_iff, Bool-cases, Option-cases, length, any, all, find,
  select, count_if, first, length-append, count_if-append, All, All-append, Equality, text_equality,
  number_equality, ◌==◌, ==_refl, ◌&◌, ℕ, zero, suc, ◌+◌, ◌-◌, ◌*◌, ◌≤◌, ◌<◌, String, ◌≡◌, refl,
  sym, ap, ap₂, ◌∙◌, ◌≢◌, ◌↔◌, ◌⊎◌, inl, inr, Bool, true, false, not, ◌&&◌, ◌||◌, Option, none,
  some, List, [], ◌∷◌, ◌++◌, map, arith, eq_iff,
}
use dsh_assistant.Prelude.Dict.{Dict, get, values}
use dsh_assistant.Json.{Json, str, Fields, end, field}
use dsh_assistant.Policy.Types.{ActionIntent, read, propose, execute, ActionRequest}

-- `keys` are the arguments that `payload` picks
pub record ToolActionSpec : Type 0 where
  pub capability : String
  pub operation : String
  pub intent : ActionIntent
  pub keys : List String

-- `args[key]`
unfoldable pub argument : Fields → String → Option Json
argument end key = none
argument (field k v fs) key = if k == key then some v else argument fs key

abbrev pub pick_one : String → Option Json → Fields → Fields
pick_one key none fs = fs
pick_one key (some v) fs = field key v fs

unfoldable pub pick : Fields → List String → Fields
pick args [] = end
pick args (key ∷ keys) = pick_one key (argument args key) (pick args keys)

abbrev tool : String → String → ActionIntent → List String → ToolActionSpec
tool capability operation intent keys = record {
  capability = capability;
  operation = operation;
  intent = intent;
  keys = keys;
}

abbrev pub tool_actions : Dict String ToolActionSpec
tool_actions =
    (
      "calendar_list_events",
      tool "calendar" "list_events" read ("from" ∷ "to" ∷ "limit" ∷ "cursor" ∷ []),
    )
    ∷ (
      "calendar_propose_event",
      tool "calendar" "propose_event" propose (
          "title" ∷ "start" ∷ "end" ∷ "timeZone" ∷ "calendarId" ∷ "description" ∷ "attendees"
          ∷ "allDay" ∷ []),
    )
    ∷ ("calendar_get_event", tool "calendar" "get_event" read ("id" ∷ []))
    ∷ (
      "calendar_freebusy",
      tool "calendar" "freebusy" read ("from" ∷ "to" ∷ "timeZone" ∷ "limit" ∷ "cursor" ∷ []),
    )
    ∷ (
      "calendar_create_event",
      tool "calendar" "create_event" execute (
          "title" ∷ "start" ∷ "end" ∷ "timeZone" ∷ "calendarId" ∷ "description" ∷ "attendees"
          ∷ "allDay" ∷ "idempotencyKey" ∷ []),
    )
    ∷ ("mail_list_messages", tool "mail" "list_messages" read ("query" ∷ "limit" ∷ "cursor" ∷ []))
    ∷ ("mail_get_message", tool "mail" "get_message" read ("id" ∷ []))
    ∷ ("contacts_search", tool "contacts" "search" read ("query" ∷ "limit" ∷ "cursor" ∷ []))
    ∷ ("tasks_propose_create", tool "tasks" "propose_create" propose ("title" ∷ []))
    ∷ ("tasks_create", tool "tasks" "create" execute ("title" ∷ []))
    ∷ ("files_list", tool "files" "list" read ("path" ∷ "limit" ∷ "cursor" ∷ []))
    ∷ ("files_read", tool "files" "read" read ("path" ∷ []))
    ∷ ("files_write", tool "files" "write" execute ("path" ∷ "content" ∷ []))
    ∷ ("files_delete", tool "files" "delete" execute ("id" ∷ []))
    ∷ (
      "obsidian_propose_create_note",
      tool "obsidian" "propose_create_note" propose ("path" ∷ "content" ∷ []),
    )
    ∷ (
      "obsidian_propose_append_note",
      tool "obsidian" "propose_append_note" propose ("path" ∷ "content" ∷ []),
    )
    ∷ ("obsidian_create_note", tool "obsidian" "create_note" execute ("path" ∷ "content" ∷ []))
    ∷ (
      "obsidian_append_note",
      tool "obsidian" "append_note" execute ("path" ∷ "content" ∷ "expectedDigest" ∷ []),
    )
    ∷ []

-- What a property read of an object literal finds: an own property, nothing, or a member of
-- `Object.prototype`, which is no specification.
pub data Classified : Type 0 where
  unlisted inherited : Classified
  listed : ToolActionSpec → Classified

abbrev pub object_members : List String
object_members =
    "constructor" ∷ "toString" ∷ "toLocaleString" ∷ "valueOf" ∷ "hasOwnProperty" ∷ "isPrototypeOf"
    ∷ "propertyIsEnumerable" ∷ "__proto__" ∷ "__defineGetter__" ∷ "__defineSetter__"
    ∷ "__lookupGetter__" ∷ "__lookupSetter__" ∷ []

unfoldable pub classify_tool : String → Classified
classify_tool name = elim (get name tool_actions) [
  | some found ↦ listed found
  | none ↦ if any (λ member. member == name) object_members then inherited else unlisted
]

abbrev pub text_of : Option Json → Option String
text_of (some (str s)) = some s
text_of _ = none

-- `thrown`: the call of `spec.payload` on something that has none
pub data Requested : Type 0 where
  no_request thrown : Requested
  requested : ActionRequest → Requested

-- `aborted` is `signal?.aborted`
abbrev pub request_of : ToolActionSpec → Fields → Bool → ActionRequest
request_of spec args aborted = record {
  capability = spec.capability;
  operation = spec.operation;
  intent = spec.intent;
  payload = pick args spec.keys;
  confirmation_id = text_of (argument args "confirmationId");
  aborted = aborted;
}

unfoldable pub request_from_tool : String → Fields → Bool → Requested
request_from_tool name args aborted = elim (classify_tool name) [
  | unlisted ↦ no_request
  | inherited ↦ thrown
  | listed spec ↦ requested (request_of spec args aborted)
]
