-- ===== src/Approval/Broker/Calls.antt =====
-- Sequences of calls on one `DshApprovalBroker`, with the promises that were handed out.
use dsh_assistant.Prelude.{text_equality, number_equality, ℕ, String, List, [], ◌∷◌, ◌++◌}
use dsh_assistant.Approval.Broker.{
  resolve, resolved, DshApprovalDecision, OpenDshApproval, DshApprovalBroker, card_id, Opened,
  waiting, open_approval, abort, dispose,
}

pub data Call : Type 0 where
  opening : OpenDshApproval → Call
  resolving : String → DshApprovalDecision → Call
  aborting : String → Call
  disposing : Call

-- `promises` are the ids under which `open` returned a promise that waits
pub record World : Type 0 where
  pub broker : DshApprovalBroker
  pub promises : List String

abbrev pub hand_out : String → Opened × DshApprovalBroker → World → World
hand_out id (resolved outcome, s) w = record w { broker = s }
hand_out id (waiting, s) w = record { broker = s; promises = w.promises ++ id ∷ [] }

unfoldable pub step : (String → String) → Call → World → World
step sha256 (opening input) w =
    hand_out (card_id input.request_id) (open_approval sha256 input w.broker) w
step sha256 (resolving id decision) w = record w { broker = (resolve id decision w.broker).1 }
step sha256 (aborting id) w = record w { broker = abort id w.broker }
step sha256 disposing w = record w { broker = dispose w.broker }

unfoldable pub run : (String → String) → List Call → World → World
run sha256 [] w = w
run sha256 (call ∷ calls) w = run sha256 calls (step sha256 call w)

abbrev pub start : ℕ → World
start limit = record {
  broker = record { history_limit = limit; records = []; answers = [] };
  promises = [];
}
