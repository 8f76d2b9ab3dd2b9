-- ===== src/Approval/Broker/Pruned.antt =====
-- What pruning leaves of the records.
use dsh_assistant.Prelude.{
  leb, Bool-cases, count_if, text_equality, number_equality, ◌==◌, ℕ, ◌-◌, String, ◌≡◌, refl, inl,
  inr, Bool, true, false, Option, none, some, List, [], ◌∷◌, arith,
}
use dsh_assistant.Prelude.Dict.{Dict, get, has, IsDistinct}
use dsh_assistant.Approval.Broker.{
  pending, is_pending, ApprovalOutcome, DshApprovalStatus, DshApprovalTicket, prune_loop,
}

abbrev pub Entries : Type 0
Entries = Dict String (DshApprovalTicket × Bool)

abbrev pub waits_one : DshApprovalStatus → Bool → ℕ
waits_one pending true = 1
waits_one _ _ = 0

-- the promises that wait under an id
abbrev pub waits : Option (DshApprovalTicket × Bool) → ℕ
waits none = 0
waits (some entry) = waits_one entry.0.status entry.1

abbrev pub promised : String → List String → ℕ
promised id ids = count_if (λ x. x == id) ids

abbrev pub settled : String → List (String × ApprovalOutcome) → ℕ
settled id answers = count_if (λ a. a.0 == id) answers

pub has-get : {V : Type 0} (id : String) (m : Dict String V) → has id m ≡ false → get id m ≡ none
unfolding has get
has-get id [] h = refl
has-get id ((k, v) ∷ m) h = ground (arith, h, has-get id m)

prune_loop-has :
    (limit count : ℕ) (id : String) (m : Entries)
    → has id m ≡ false
    → has id (prune_loop limit count m) ≡ false
unfolding prune_loop has
prune_loop-has limit count id [] h = refl
prune_loop-has limit count id ((k, entry) ∷ m) h = elim (Bool-cases (is_pending entry.0.status)) [
  | inl still ↦ rw (prune_loop, still) (ground (arith, h, prune_loop-has limit count id m))
  | inr over ↦
      rw (prune_loop, over)
        (elim (Bool-cases (leb (count - 1) limit)) [
          | inl stop ↦ rw stop (ground (arith, h))
          | inr more ↦ rw more (ground (arith, h, prune_loop-has limit (count - 1) id m))
        ])
]

pub prune_loop-IsDistinct :
    (limit count : ℕ) (m : Entries) → IsDistinct m → IsDistinct (prune_loop limit count m)
unfolding prune_loop has
prune_loop-IsDistinct limit count [] d = tt
prune_loop-IsDistinct limit count ((k, entry) ∷ m) d =
    elim (Bool-cases (is_pending entry.0.status)) [
      | inl still ↦
          rw (prune_loop, still)
            (prune_loop-has limit count k m d.0, prune_loop-IsDistinct limit count m d.1)
      | inr over ↦
          rw (prune_loop, over)
            (elim (Bool-cases (leb (count - 1) limit)) [
              | inl stop ↦ rw stop d.1
              | inr more ↦ rw more (prune_loop-IsDistinct limit (count - 1) m d.1)
            ])
    ]

pub prune_loop-waits :
    (limit count : ℕ) (id : String) (m : Entries)
    → IsDistinct m
    → waits (get id (prune_loop limit count m)) ≡ waits (get id m)
unfolding prune_loop get
prune_loop-waits limit count id [] d = refl
prune_loop-waits limit count id ((k, entry) ∷ m) d = elim (Bool-cases (is_pending entry.0.status)) [
  | inl still ↦ rw (prune_loop, still) (ground (arith, prune_loop-waits limit count id m d.1))
  | inr over ↦
      rw (prune_loop, over)
        (elim (Bool-cases (leb (count - 1) limit)) [
          | inl stop ↦
              rw stop (ground (arith, over, d.0, text_equality.agrees k id, has-get k m d.0))
          | inr more ↦ rw more (
              ground (
                arith,
                over,
                d.0,
                text_equality.agrees k id,
                has-get k m d.0,
                prune_loop-waits limit (count - 1) id m d.1,
              ))
        ])
]

pub prune_loop-get :
    (limit count : ℕ) (id : String) (entry : DshApprovalTicket × Bool) (m : Entries)
    → get id m ≡ some entry
    → is_pending entry.0.status ≡ true
    → get id (prune_loop limit count m) ≡ some entry
unfolding prune_loop get
prune_loop-get limit count id entry [] g p = absurd (ground (arith, g))
prune_loop-get limit count id entry ((k, e) ∷ m) g p = elim (Bool-cases (is_pending e.0.status)) [
  | inl still ↦ rw (prune_loop, still) (ground (arith, g, prune_loop-get limit count id entry m))
  | inr over ↦
      rw (prune_loop, over)
        (elim (Bool-cases (leb (count - 1) limit)) [
          | inl stop ↦ rw stop (ground (arith, g, p, over))
          | inr more ↦
              rw more (ground (arith, g, p, over, prune_loop-get limit (count - 1) id entry m))
        ])
]
