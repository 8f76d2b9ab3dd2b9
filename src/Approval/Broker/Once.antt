-- ===== src/Approval/Broker/Once.antt =====
-- No promise is lost, and none is settled twice.
use dsh_assistant.Prelude.{
  leb, Bool-cases, count_if-append, text_equality, number_equality, ◌==◌, ℕ, ◌+◌, String, ◌≡◌, refl,
  sym, ◌∙◌, inl, inr, Bool, true, false, some, List, [], ◌∷◌, ◌++◌, arith,
}
use dsh_assistant.Prelude.Dict.{get, put, has, get-put, IsDistinct, put-IsDistinct}
use dsh_assistant.Approval.Broker.{
  resolve, settle, cancelled, unavailable, is_pending, resolved, OpenDshApproval, DshApprovalTicket,
  DshApprovalBroker, card_id, pending_ticket, size, prune, waiting, wait_for, open_approval, abort,
  ids_of, dispose, Opened,
}
use dsh_assistant.Approval.Broker.Calls.{
  Call, run, World, start, step, opening, resolving, aborting, disposing, hand_out,
}
use dsh_assistant.Approval.Broker.Pruned.{settled, waits, promised, has-get, prune_loop-get}
use dsh_assistant.Approval.Broker.Steady.{
  IsSteady, settle-IsSteady, settle_all-IsSteady, resolve-IsSteady, IsSteady-IsSteady,
  prune-IsSteady,
}
use mathlib.Core.Path.{subst}

-- What every state of the broker has.
pub record IsFair (w : World) : Type 0 where
  pub distinct : IsDistinct w.broker.records
  pub balanced :
      (id : String)
      → promised id w.promises ≡ settled id w.broker.answers + waits (get id w.broker.records)

IsSteady-IsFair :
    (s : DshApprovalBroker) (w : World)
    → IsFair w
    → IsSteady w.broker s
    → IsFair (record w { broker = s })
IsSteady-IsFair s w v h = record { distinct = h.1; balanced = λ id. v.balanced id ∙ sym (h.0 id) }

added-IsSteady :
    (id : String) (ticket : DshApprovalTicket) (s : DshApprovalBroker)
    → has id s.records ≡ false
    → IsDistinct s.records
    → IsSteady s (record s { records = put id (ticket, false) s.records })
added-IsSteady id ticket s h d = (
  λ k. ground (
    arith,
    text_equality.agrees id k,
    has-get id s.records h,
    get-put id k (ticket, false) s.records,
  ),
  put-IsDistinct id (ticket, false) s.records d,
)

pruned_get :
    (id : String) (entry : DshApprovalTicket × Bool) (s : DshApprovalBroker)
    → get id s.records ≡ some entry
    → is_pending entry.0.status ≡ true
    → get id (prune s).records ≡ some entry
unfolding prune
pruned_get id entry s g p = elim (Bool-cases (leb (size s.records) s.history_limit)) [
  | inl small ↦ rw (prune, small) g
  | inr large ↦
      rw (prune, large) (prune_loop-get s.history_limit (size s.records) id entry s.records g p)
]

waiting_state :
    (id : String) (ticket : DshApprovalTicket) (s : DshApprovalBroker)
    → get id s.records ≡ some (ticket, false)
    → wait_for id s ≡ record s { records = put id (ticket, true) s.records }
unfolding wait_for
waiting_state id ticket s g = rw (wait_for, g) refl

-- a record that is pending and has no promise gets one
wait_for-IsFair :
    (id : String) (ticket : DshApprovalTicket) (s : DshApprovalBroker) (w : World)
    → IsFair w
    → IsSteady w.broker s
    → get id s.records ≡ some (ticket, false)
    → is_pending ticket.status ≡ true
    → IsFair (record { broker = wait_for id s; promises = w.promises ++ id ∷ [] })
wait_for-IsFair id ticket s w v h g p =
    subst (λ t. IsFair (record { broker = t; promises = w.promises ++ id ∷ [] }))
      (sym (waiting_state id ticket s g))
      (record {
        distinct = put-IsDistinct id (ticket, true) s.records h.1;
        balanced = λ k. ground (
          arith,
          g,
          p,
          text_equality.agrees id k,
          get-put id k (ticket, true) s.records,
          count_if-append (λ x. x == k) w.promises (id ∷ []),
          v.balanced k,
          h.0 k,
        );
      })

open_taken :
    (sha256 : String → String) (input : OpenDshApproval) (s : DshApprovalBroker)
    → has (card_id input.request_id) s.records ≡ true
    → open_approval sha256 input s ≡ (resolved unavailable, s)
unfolding open_approval
open_taken sha256 input s h = rw (open_approval, h) refl

abbrev added : (String → String) → OpenDshApproval → DshApprovalBroker → DshApprovalBroker
added sha256 input s = record s {
  records = put (card_id input.request_id) (pending_ticket sha256 input, false) s.records;
}

open_aborted :
    (sha256 : String → String) (input : OpenDshApproval) (s : DshApprovalBroker)
    → has (card_id input.request_id) s.records ≡ false
    → input.aborted ≡ true
    → open_approval sha256 input s ≡ (
      resolved cancelled,
      settle (card_id input.request_id) cancelled (prune (added sha256 input s)),
    )
unfolding open_approval
open_aborted sha256 input s h a = rw (open_approval, h, a) refl

open_waiting :
    (sha256 : String → String) (input : OpenDshApproval) (s : DshApprovalBroker)
    → has (card_id input.request_id) s.records ≡ false
    → input.aborted ≡ false
    → open_approval sha256 input s
      ≡ (waiting, wait_for (card_id input.request_id) (prune (added sha256 input s)))
unfolding open_approval
open_waiting sha256 input s h a = rw (open_approval, h, a) refl

fresh-IsSteady :
    (sha256 : String → String) (input : OpenDshApproval) (s : DshApprovalBroker)
    → has (card_id input.request_id) s.records ≡ false
    → IsDistinct s.records
    → IsSteady s (prune (added sha256 input s))
fresh-IsSteady sha256 input s h d =
    let put_in = added-IsSteady (card_id input.request_id) (pending_ticket sha256 input) s h d in
    IsSteady-IsSteady s (added sha256 input s) (prune (added sha256 input s)) put_in
      (prune-IsSteady (added sha256 input s) put_in.1)

open-IsFair :
    (sha256 : String → String) (input : OpenDshApproval) (w : World)
    → IsFair w
    → IsFair (hand_out (card_id input.request_id) (open_approval sha256 input w.broker) w)
open-IsFair sha256 input w v =
    let id = card_id input.request_id in
    let s = w.broker in
    let out : Opened × DshApprovalBroker → Type 0 = λ o. IsFair (hand_out id o w) in
    elim (Bool-cases (has id s.records)) [
      | inl taken ↦ subst out (sym (open_taken sha256 input s taken)) v
      | inr free ↦
          let ready = fresh-IsSteady sha256 input s free v.distinct in
          let t = prune (added sha256 input s) in
          elim (Bool-cases input.aborted) [
            | inl over ↦ subst out (sym (open_aborted sha256 input s free over)) (
                IsSteady-IsFair (settle id cancelled t) w v (
                  IsSteady-IsSteady s t (settle id cancelled t) ready
                    (settle-IsSteady id cancelled t ready.1)))
            | inr alive ↦ subst out (sym (open_waiting sha256 input s free alive)) (
                wait_for-IsFair id (pending_ticket sha256 input) t w v ready
                  (pruned_get id (pending_ticket sha256 input, false) (added sha256 input s)
                    (ground (
                      arith,
                      text_equality.agrees id id,
                      get-put id id (pending_ticket sha256 input, false) s.records,
                    ))
                    refl)
                  refl)
          ]
    ]

step-IsFair :
    (sha256 : String → String) (call : Call) (w : World) → IsFair w → IsFair (step sha256 call w)
unfolding step abort dispose
step-IsFair sha256 (opening input) w v = open-IsFair sha256 input w v
step-IsFair sha256 (resolving id decision) w v =
    IsSteady-IsFair (resolve id decision w.broker).1 w v
      (resolve-IsSteady id decision w.broker v.distinct)
step-IsFair sha256 (aborting id) w v =
    IsSteady-IsFair (abort id w.broker) w v (settle-IsSteady id cancelled w.broker v.distinct)
step-IsFair sha256 disposing w v =
    IsSteady-IsFair (dispose w.broker) w v
      (settle_all-IsSteady (ids_of w.broker.records) w.broker v.distinct)

run-IsFair :
    (sha256 : String → String) (calls : List Call) (w : World)
    → IsFair w
    → IsFair (run sha256 calls w)
unfolding run
run-IsFair sha256 [] w v = v
run-IsFair sha256 (call ∷ calls) w v =
    run-IsFair sha256 calls (step sha256 call w) (step-IsFair sha256 call w v)

start-IsFair : (limit : ℕ) → IsFair (start limit)
unfolding get
start-IsFair limit = record { distinct = tt; balanced = λ id. refl }

-- After any calls on a broker that starts empty, and for every id: the promises that `open` handed out
-- under it are as many as those that were settled and the one, if any, that waits. So a promise is
-- settled at most once, and none is lost when old records are pruned.
pub promises_balanced :
    (sha256 : String → String) (limit : ℕ) (calls : List Call) (id : String)
    → promised id (run sha256 calls (start limit)).promises
      ≡ settled id (run sha256 calls (start limit)).broker.answers
        + waits (get id (run sha256 calls (start limit)).broker.records)
promises_balanced sha256 limit calls id =
    (run-IsFair sha256 calls (start limit) (start-IsFair limit)).balanced id
