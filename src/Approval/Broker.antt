-- ===== src/Approval/Broker.antt =====
-- domain/approval/dsh-bridge.ts: `DshApprovalBroker`. A promise that `open` returns is in `waiting` until
-- it is settled, and then in `answers`, in the order of the answers. The time of creation is left out;
-- so are the listeners on the abort signal: `abort` is the call of one.
pub mod Calls
pub mod Pruned
pub mod Steady
pub mod Once
mod Tests
use dsh_assistant.Prelude.{
  ltb, leb, nat_beq, if◌then◌else◌, nat_beq_iff, Bool-cases, Option-cases, length, any, all, find,
  select, count_if, first, length-append, count_if-append, All, All-append, Equality, text_equality,
  number_equality, ◌==◌, ==_refl, ◌&◌, ℕ, zero, suc, ◌+◌, ◌-◌, ◌*◌, ◌≤◌, ◌<◌, String, ◌≡◌, refl,
  sym, ap, ap₂, ◌∙◌, ◌≢◌, ◌↔◌, ◌⊎◌, inl, inr, Bool, true, false, not, ◌&&◌, ◌||◌, Option, none,
  some, List, [], ◌∷◌, ◌++◌, map, arith, eq_iff,
}
use dsh_assistant.Prelude.Result.{
  Result, ok, raise, ◌>>=◌, ◌>>◌, require, each, Result-cases, >>=-ok,
}
use dsh_assistant.Prelude.Dict.{
  Dict, get, put, has, delete, get-put, get-delete, values, all-get, IsDistinct, has-put,
  put-IsDistinct, get-has,
}
use dsh_assistant.Json.{Json, str, Fields, end, field}
use dsh_assistant.Policy.Fingerprint.{action_fingerprint}

pub data ApprovalOutcome : Type 0 where
  allowed_once rejected cancelled unavailable : ApprovalOutcome

pub data DshApprovalStatus : Type 0 where
  pending : DshApprovalStatus
  answered : ApprovalOutcome → DshApprovalStatus

pub data DshApprovalDecision : Type 0 where
  approve deny cancel : DshApprovalDecision

pub record OpenDshApproval : Type 0 where
  pub request_id : String
  pub tool_name : String
  pub call_id : Option String
  pub reason : Option String
  pub arguments : Option Json
  pub session_id : String
  -- `signal?.aborted` at the time of the call
  pub aborted : Bool

pub record DshApprovalTicket : Type 0 where
  pub id : String
  pub payload : Fields
  pub fingerprint : String
  pub status : DshApprovalStatus

pub record DshApprovalBroker : Type 0 where
  pub history_limit : ℕ
  -- a ticket, and whether its promise still waits
  pub records : Dict String (DshApprovalTicket × Bool)
  -- promises that were settled, by ticket
  pub answers : List (String × ApprovalOutcome)

abbrev pub card_id : String → String
card_id request_id = "dsh:" & request_id

abbrev pub is_pending : DshApprovalStatus → Bool
is_pending pending = true
is_pending (answered outcome) = false

abbrev optional_text : String → Option String → Fields → Fields
optional_text key none rest = rest
optional_text key (some s) rest = if s == "" then rest else field key (str s) rest

abbrev optional_value : String → Option Json → Fields → Fields
optional_value key none rest = rest
optional_value key (some v) rest = field key v rest

abbrev pub payload_of : OpenDshApproval → Fields
payload_of input = field "requestId" (str input.request_id) (
    field "toolName" (str input.tool_name) (
      optional_text "callId" input.call_id (
        optional_text "reason" input.reason (
          optional_value "arguments" input.arguments
            (field "sessionId" (str input.session_id) end)))))

abbrev pub pending_ticket : (String → String) → OpenDshApproval → DshApprovalTicket
pending_ticket sha256 input = record {
  id = card_id input.request_id;
  payload = payload_of input;
  fingerprint = action_fingerprint sha256 "dsh-tool" input.tool_name (payload_of input);
  status = pending;
}

-- `this.records.size`
abbrev pub size : Dict String (DshApprovalTicket × Bool) → ℕ
size records = length records

-- the loop of `prune`, over a map of more than `limit` entries: how many are there yet
unfoldable pub prune_loop :
    ℕ → ℕ → Dict String (DshApprovalTicket × Bool) → Dict String (DshApprovalTicket × Bool)
prune_loop limit count [] = []
prune_loop limit count ((id, entry) ∷ records) = elim (is_pending entry.0.status) [
  | true ↦ (id, entry) ∷ prune_loop limit count records
  | false ↦ elim (leb (count - 1) limit) [
    | true ↦ records
    | false ↦ prune_loop limit (count - 1) records
  ]
]

unfoldable pub prune : DshApprovalBroker → DshApprovalBroker
unfolding prune_loop
prune s =
    if leb (size s.records) s.history_limit
    then s
    else record s { records = prune_loop s.history_limit (size s.records) s.records }

-- `settle` of a record that is in the map
unfoldable pub settle : String → ApprovalOutcome → DshApprovalBroker → DshApprovalBroker
settle id outcome s = elim (get id s.records) [
  | none ↦ s
  | some entry ↦
      if is_pending entry.0.status
      then record s {
        records = put id (record (entry.0) { status = answered outcome }, false) s.records;
        answers = if entry.1 then s.answers ++ (id, outcome) ∷ [] else s.answers;
      }
      else s
]

-- What `open` returns: a promise that is resolved, or one that waits.
pub data Opened : Type 0 where
  resolved : ApprovalOutcome → Opened
  waiting : Opened

-- `record.settle = resolve`
unfoldable pub wait_for : String → DshApprovalBroker → DshApprovalBroker
wait_for id s = elim (get id s.records) [
  | none ↦ s
  | some entry ↦ record s { records = put id (entry.0, true) s.records }
]

unfoldable pub open_approval :
    (String → String) → OpenDshApproval → DshApprovalBroker → Opened × DshApprovalBroker
unfolding prune settle wait_for
open_approval sha256 input s =
    let id = card_id input.request_id in
    if has id s.records
    then (resolved unavailable, s)
    else (let pruned =
          prune (record s { records = put id (pending_ticket sha256 input, false) s.records }) in
        if input.aborted
        then (resolved cancelled, settle id cancelled pruned)
        else (waiting, wait_for id pruned))

abbrev pub outcome_of : DshApprovalDecision → ApprovalOutcome
outcome_of approve = allowed_once
outcome_of deny = rejected
outcome_of cancel = cancelled

unfoldable pub resolve :
    String → DshApprovalDecision → DshApprovalBroker → Result String (Unit {0}) × DshApprovalBroker
unfolding settle
resolve id decision s = elim (get id s.records) [
  | none ↦ (raise "unknown DSH approval", s)
  | some entry ↦
      if is_pending entry.0.status
      then (ok tt, settle id (outcome_of decision) s)
      else (raise "stale DSH approval", s)
]

-- the listener that `open` adds to the signal
unfoldable pub abort : String → DshApprovalBroker → DshApprovalBroker
unfolding settle
abort id s = settle id cancelled s

unfoldable pub settle_all : List String → DshApprovalBroker → DshApprovalBroker
unfolding settle
settle_all [] s = s
settle_all (id ∷ ids) s = settle_all ids (settle id unavailable s)

abbrev pub ids_of : Dict String (DshApprovalTicket × Bool) → List String
ids_of records = map (λ entry. entry.0) records

unfoldable pub dispose : DshApprovalBroker → DshApprovalBroker
unfolding settle_all
dispose s = settle_all (ids_of s.records) s
