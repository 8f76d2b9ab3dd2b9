-- ===== src/Policy/Schedule/Ledger.antt =====
-- What a ticket's status says of its runs, and how the methods change it.
use dsh_assistant.Prelude.{
  ℕ, ◌+◌, ◌≤◌, String, ◌≡◌, refl, Bool, true, false, Option, none, some, arith, text_equality, ◌&◌,
  if◌then◌else◌,
}
use dsh_assistant.Prelude.Decimal.{show, show_injective}
use native.Mathlib.Nat.{le_trans}
use dsh_assistant.Policy.Types.{
  ConfirmationStatus, executing, consumed, failed, ConfirmationTicket, approved,
}
use dsh_assistant.Policy.Schedule.{Json}
use dsh_assistant.Policy.Schedule.Moves.{Moves, IsBound}
use dsh_assistant.Policy.Schedule.Effects.{outcome_status, set_status}

abbrev pub spent_by : ConfirmationStatus → ℕ
spent_by executing = 1
spent_by consumed = 1
spent_by failed = 1
spent_by _ = 0

-- how often a ticket may have been run, and how many of its runs may be under way
abbrev pub spent : Option ConfirmationTicket → ℕ
spent none = 0
spent (some ticket) = spent_by ticket.status

abbrev pub active_by : ConfirmationStatus → ℕ
active_by executing = 1
active_by _ = 0

abbrev pub active : Option ConfirmationTicket → ℕ
active none = 0
active (some ticket) = active_by ticket.status

abbrev pub as_count : Bool → ℕ
as_count true = 1
as_count false = 0

pub ended-counts :
    (o : Option ConfirmationTicket) (called : Bool) (result : Option Json) (waiting : ℕ)
    → waiting + as_count called ≤ active o
    → (spent o ≤ spent (if called then set_status (outcome_status result) o else o))
      × (waiting ≤ active (if called then set_status (outcome_status result) o else o))
ended-counts o called none waiting h = ground arith
ended-counts o called (some result) waiting h = ground arith

pub set_status-id :
    (o : Option ConfirmationTicket) (called : Bool) (new : ConfirmationStatus) (j : String)
    (t : ConfirmationTicket)
    → (if called then set_status new o else o) ≡ some t
    → ((t : ConfirmationTicket) → o ≡ some t → t.id ≡ j)
    → t.id ≡ j
set_status-id none called new j t e keyed = ground arith
set_status-id (some u) called new j t e keyed = ground (arith, keyed u refl)

pub set_status-none :
    (o : Option ConfirmationTicket) (called : Bool) (new : ConfirmationStatus)
    → o ≡ none
    → (if called then set_status new o else o) ≡ none
set_status-none o called new e = ground arith

abbrev pub is_approved : ConfirmationStatus → Bool
is_approved approved = true
is_approved _ = false

-- A ticket's fingerprint is that of its action; nothing ever sets the status `approved`.
abbrev pub IsGood : (String → String) → ConfirmationTicket → Type 0
IsGood sha256 t = (is_approved t.status ≡ false) × IsBound sha256 t

pub unapproved_outcome : (result : Option Json) → is_approved (outcome_status result) ≡ false
unapproved_outcome none = refl
unapproved_outcome (some result) = refl

pub set_status-IsGood :
    (sha256 : String → String) (o : Option ConfirmationTicket) (called : Bool)
    (new : ConfirmationStatus) (t : ConfirmationTicket)
    → is_approved new ≡ false
    → (if called then set_status new o else o) ≡ some t
    → ((t : ConfirmationTicket) → o ≡ some t → IsGood sha256 t)
    → IsGood sha256 t
set_status-IsGood sha256 none called new t ne e good = ground arith
set_status-IsGood sha256 (some u) called new t ne e good = ground (arith, good u refl)

module _ (sha256 : String → String) (j : String) (n n' : ℕ) where
  pub Moves-IsGood :
      (o : Option ConfirmationTicket) (t' : ConfirmationTicket) (called : Bool)
      → Moves sha256 j n n' o (some t') called
      → ((t : ConfirmationTicket) → o ≡ some t → IsGood sha256 t)
      → IsGood sha256 t'
  Moves-IsGood none t' false h good = ground arith
  Moves-IsGood none t' true h good = absurd h
  Moves-IsGood (some t) t' true h good = ground (arith, good t refl)
  Moves-IsGood (some t) t' false h good = ground (arith, good t refl)

  pub Moves-counts :
      (o o' : Option ConfirmationTicket) (called : Bool)
      → Moves sha256 j n n' o o' called
      → (spent o + as_count called ≤ spent o') × (active o + as_count called ≤ active o')
  Moves-counts none none false h = ground arith
  Moves-counts none (some t) false h = ground arith
  Moves-counts (some t) (some t') true h = ground arith
  Moves-counts (some t) (some t') false h = ground arith
  Moves-counts none none true h = absurd h
  Moves-counts none (some t) true h = absurd h
  Moves-counts (some t) none true h = absurd h
  Moves-counts (some t) none false h = absurd h

  -- `j` has a ticket after a change only if it had one, or was the next id
  pub Moves-id :
      (o : Option ConfirmationTicket) (t' : ConfirmationTicket) (called : Bool)
      → Moves sha256 j n n' o (some t') called
      → ((t : ConfirmationTicket) → o ≡ some t → t.id ≡ j)
      → t'.id ≡ j
  Moves-id none t' false h keyed = h.0
  Moves-id none t' true h keyed = absurd h
  Moves-id (some t) t' true h keyed = ground (arith, keyed t refl)
  Moves-id (some t) t' false h keyed = ground (arith, keyed t refl)

  pub Moves-le :
      (o o' : Option ConfirmationTicket) (called : Bool) → Moves sha256 j n n' o o' called → n ≤ n'
  Moves-le none none false h = h
  Moves-le none (some t) false h = omega arith
  Moves-le (some t) (some t') true h = h.0
  Moves-le (some t) (some t') false h = h.0
  Moves-le none none true h = absurd h
  Moves-le none (some t) true h = absurd h
  Moves-le (some t) none true h = absurd h
  Moves-le (some t) none false h = absurd h

pub Moves-fresh :
    (sha256 : String → String) (m n n' : ℕ) (o o' : Option ConfirmationTicket) (called : Bool)
    → Moves sha256 ("conf-" & show m) n n' o o' called
    → n' ≤ m
    → (n ≤ m → o ≡ none)
    → o' ≡ none
Moves-fresh sha256 m n n' none none called h le fresh = refl
Moves-fresh sha256 m n n' none (some t) false h le fresh =
    absurd (omega (arith, show_injective "conf-" m n h.1))
Moves-fresh sha256 m n n' none (some t) true h le fresh = absurd h
Moves-fresh sha256 m n n' (some t) o' called h le fresh =
    cc (fresh (le_trans (Moves-le sha256 ("conf-" & show m) n n' (some t) o' called h) le))

pub spent-le-one : (o : Option ConfirmationTicket) → spent o ≤ 1
spent-le-one o = ground arith
