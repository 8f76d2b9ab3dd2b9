-- ===== src/Policy/Schedule.antt =====
-- Every interleaving of the policy service's methods: callers start methods in any order, and an
-- executor that was started may finish at any later point, with a result or by throwing.
pub mod Effects
pub mod Moves
pub mod Methods
pub mod Ledger
pub mod Once
pub mod Trust
pub mod Closed
mod Tests
use dsh_assistant.Prelude.{
  ℕ, zero, suc, String, Bool, true, false, Option, none, some, List, [], ◌∷◌, ◌++◌, ◌==◌,
  text_equality,
}
use dsh_assistant.Json.{Json, Fields}
use dsh_assistant.Policy.Types.{PolicyConfig, Decision, ActionRequest}
use dsh_assistant.Policy.State.{
  PolicyService, Continuation, claimed, unbound, Progress, settled, running, new, register_executor,
}
use dsh_assistant.Policy.Service.{decide}
use dsh_assistant.Policy.Execution.{apply, resolve, settle}

-- one start of an executor
pub record Call (E : Type 0) : Type 0 where
  pub executor : E
  pub payload : Fields
  pub continuation : Continuation

-- `awaiting` are the calls that have not finished; `invoked` are all calls ever made.
pub record World (E : Type 0) : Type 0 where
  pub policy : PolicyService E
  pub awaiting : List (Call E)
  pub invoked : List (Call E)

pub data Event (E : Type 0) : Type 0 where
  register : (capability operation : String) → E → Event E
  decided : ActionRequest → Event E
  applied : ActionRequest → Event E
  resolved : (id : String) → Decision → (aborted : Bool) → Event E
  finished : (index : ℕ) → (result : Option Json) → Event E

module _ {E : Type 0} where
  pub start : PolicyConfig → World E
  unfolding new
  start config = record { policy = new config; awaiting = []; invoked = [] }

  -- the state and the calls after a method that stopped at an `await`, or did not
  abbrev pub progressed : Progress E × PolicyService E → World E → World E
  progressed (settled outcome, s) w = record w { policy = s }
  progressed (running executor payload continuation, s) w =
      let call : Call E = record {
        executor = executor;
        payload = payload;
        continuation = continuation;
      } in
      record { policy = s; awaiting = call ∷ w.awaiting; invoked = call ∷ w.invoked }

  abbrev pub call_at : ℕ → List (Call E) → Option (Call E)
  call_at i [] = none
  call_at zero (c ∷ cs) = some c
  call_at (suc i) (c ∷ cs) = call_at i cs

  abbrev pub without_call : ℕ → List (Call E) → List (Call E)
  without_call i [] = []
  without_call zero (c ∷ cs) = cs
  without_call (suc i) (c ∷ cs) = c ∷ without_call i cs

  abbrev pub finish_call : ℕ → Option Json → Option (Call E) → World E → World E
  finish_call i result none w = w
  finish_call i result (some call) w = record w {
    policy = (settle call.continuation result w.policy).1;
    awaiting = without_call i w.awaiting;
  }

  module _ (sha256 : String → String) where
    pub step : Event E → World E → World E
    step (register capability operation executor) w = record w {
      policy = register_executor capability operation executor w.policy;
    }
    step (decided request) w = record w { policy = (decide sha256 request w.policy).1 }
    step (applied request) w = progressed (apply sha256 request w.policy) w
    step (resolved id decision aborted) w = progressed (resolve id decision aborted w.policy) w
    step (finished index result) w = finish_call index result (call_at index w.awaiting) w

    pub run : List (Event E) → World E → World E
    unfolding step
    run [] w = w
    run (e ∷ es) w = run es (step e w)

-- the service after these events, from its construction
abbrev pub reached :
    {E : Type 0} → (String → String) → PolicyConfig → List (Event E) → PolicyService E
reached sha256 config events = (run sha256 events (start config)).policy

-- whether a call runs the ticket `id`
abbrev pub runs_ticket : String → Continuation → Bool
runs_ticket id (claimed ticket) = ticket.id == id
runs_ticket id (unbound level reason confirmation_id) = false
