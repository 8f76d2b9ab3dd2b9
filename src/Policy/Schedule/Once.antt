-- ===== src/Policy/Schedule/Once.antt =====
-- No confirmation runs its action twice, in any interleaving.
use dsh_assistant.Prelude.{
  ℕ, ◌+◌, ◌≤◌, String, ◌≡◌, refl, Bool, false, Option, none, some, List, arith, text_equality,
  count_if, ◌&◌, [], zero,
}
use dsh_assistant.Prelude.Dict.{get}
use dsh_assistant.Prelude.Decimal.{show}
use native.Mathlib.Nat.{le_trans}
use mathlib.Core.Path.{subst}
use dsh_assistant.Policy.Types.{ConfirmationTicket}
use dsh_assistant.Policy.State.{PolicyService, Progress, settled, running, register_executor}
use dsh_assistant.Policy.Schedule.{
  Call, World, progressed, runs_ticket, Json, PolicyConfig, call_at, run, start, step, Event,
  finish_call, without_call, register, ◌∷◌, decided, suc, applied, apply, resolved, resolve,
  finished, register_executor,
}
use dsh_assistant.Policy.Schedule.Moves.{Moves, Moved, decide_moves}
use dsh_assistant.Policy.Schedule.Methods.{IsKeyed, Changes, apply_moves, resolve_moves}
use dsh_assistant.Policy.Schedule.Effects.{outcome_status, get-settle, next_id-settle}
use dsh_assistant.Policy.Execution.{resolve}
use dsh_assistant.Policy.Schedule.Ledger.{
  IsGood, as_count, ended-counts, spent-le-one, Moves-id, set_status-id, spent, Moves-IsGood,
  active, set_status-IsGood, Moves-fresh, unapproved_outcome, Moves-counts, set_status-none,
}

module _ {E : Type 0} where
  -- how many of these calls run the ticket `id`
  abbrev pub runs_of : String → List (Call E) → ℕ
  runs_of id = count_if (λ call. runs_ticket id call.continuation)

  pub record IsSound (sha256 : String → String) (w : World E) : Type 0 where
    pub keyed : IsKeyed w.policy
    pub good :
        (id : String) (t : ConfirmationTicket) → get id w.policy.tickets ≡ some t → IsGood sha256 t
    pub fresh : (n : ℕ) → w.policy.next_id ≤ n → get ("conf-" & show n) w.policy.tickets ≡ none
    pub once : (id : String) → runs_of id w.invoked ≤ spent (get id w.policy.tickets)
    pub live : (id : String) → runs_of id w.awaiting ≤ active (get id w.policy.tickets)

  changes-IsSound :
      (sha256 : String → String) (w w' : World E) (called : String → Bool)
      → IsSound sha256 w
      → ((j : String) → Moved sha256 j w.policy w'.policy (called j))
      → ((j : String) → runs_of j w'.invoked ≡ runs_of j w.invoked + as_count (called j))
      → ((j : String) → runs_of j w'.awaiting ≡ runs_of j w.awaiting + as_count (called j))
      → IsSound sha256 w'
  changes-IsSound sha256 w w' called h moved started waits =
      let o = λ (j : String). get j w.policy.tickets in
      let o' = λ (j : String). get j w'.policy.tickets in
      let n = w.policy.next_id in
      let n' = w'.policy.next_id in
      record {
        keyed = λ j t found.
            Moves-id sha256 j n n' (o j) t (called j)
              (subst (λ x. Moves sha256 j n n' (o j) x (called j)) found (moved j)) (h.keyed j);
        good = λ j t found.
            Moves-IsGood sha256 j n n' (o j) t (called j)
              (subst (λ x. Moves sha256 j n n' (o j) x (called j)) found (moved j)) (h.good j);
        fresh = λ m le.
            let j = "conf-" & show m in
            Moves-fresh sha256 m n n' (o j) (o' j) (called j) (moved j) le (h.fresh m);
        once = λ j. omega (
          arith,
          h.once j,
          started j,
          Moves-counts sha256 j n n' (o j) (o' j) (called j) (moved j),
        );
        live = λ j. omega (
          arith,
          h.live j,
          waits j,
          Moves-counts sha256 j n n' (o j) (o' j) (called j) (moved j),
        );
      }

  progressed-IsSound :
      (sha256 : String → String) (w : World E) (progress : Progress E) (s' : PolicyService E)
      → IsSound sha256 w
      → ((j : String) → Changes sha256 j w.policy (progress, s'))
      → IsSound sha256 (progressed (progress, s') w)
  progressed-IsSound sha256 w (settled outcome) s' h moved =
      changes-IsSound sha256 w (progressed (settled outcome, s') w) (λ j. false) h moved
        (λ j. omega arith) (λ j. omega arith)
  progressed-IsSound sha256 w (running executor payload continuation) s' h moved =
      changes-IsSound sha256 w (progressed (running executor payload continuation, s') w)
        (λ j. runs_ticket j continuation) h moved (λ j. ground arith) (λ j. ground arith)

  pub runs_of-without_call :
      (j : String) (i : ℕ) (calls : List (Call E)) (call : Call E)
      → call_at i calls ≡ some call
      → runs_of j (without_call i calls) + as_count (runs_ticket j call.continuation)
        ≡ runs_of j calls
  runs_of-without_call j i [] call e = ground arith
  runs_of-without_call j zero (c ∷ cs) call e = ground arith
  runs_of-without_call j (suc i) (c ∷ cs) call e =
      ground (arith, runs_of-without_call j i cs call e)

  finish_call-IsSound :
      (sha256 : String → String) (w : World E) (i : ℕ) (result : Option Json) (call : Call E)
      → call_at i w.awaiting ≡ some call
      → IsSound sha256 w
      → IsSound sha256 (finish_call i result (some call) w)
  finish_call-IsSound sha256 w i result call e h =
      let c = call.continuation in
      let o = λ (j : String). get j w.policy.tickets in
      let ended = λ (j : String).
        ended-counts (o j) (runs_ticket j c) result (runs_of j (without_call i w.awaiting))
          (omega (arith, h.live j, runs_of-without_call j i w.awaiting call e)) in
      record {
        keyed = λ j t found.
            set_status-id (o j) (runs_ticket j c) (outcome_status result) j t
              (rw get-settle at found) (h.keyed j);
        good = λ j t found.
            set_status-IsGood sha256 (o j) (runs_ticket j c) (outcome_status result) t
              (unapproved_outcome result) (rw get-settle at found) (h.good j);
        fresh = λ m le. rw get-settle (
            set_status-none (o ("conf-" & show m)) (runs_ticket ("conf-" & show m) c)
              (outcome_status result) (h.fresh m (rw next_id-settle at le)));
        once = λ j. rw get-settle (le_trans (h.once j) (ended j).0);
        live = λ j. rw get-settle (ended j).1;
      }

  finished-IsSound :
      (sha256 : String → String) (w : World E) (i : ℕ) (result : Option Json)
      (found : Option (Call E))
      → call_at i w.awaiting ≡ found
      → IsSound sha256 w
      → IsSound sha256 (finish_call i result found w)
  finished-IsSound sha256 w i result none e h = h
  finished-IsSound sha256 w i result (some call) e h =
      finish_call-IsSound sha256 w i result call e h

  module _ (sha256 : String → String) where
    pub step-IsSound :
        (event : Event E) (w : World E) → IsSound sha256 w → IsSound sha256 (step sha256 event w)
    unfolding step register_executor
    step-IsSound (register capability operation executor) w h = record {
      keyed = h.keyed;
      good = h.good;
      fresh = h.fresh;
      once = h.once;
      live = h.live;
    }
    step-IsSound (decided request) w h =
        changes-IsSound sha256 w (step sha256 (decided request) w) (λ j. false) h
          (λ j. decide_moves sha256 j request w.policy (h.fresh _ (omega arith))) (λ j. omega arith)
          (λ j. omega arith)
    step-IsSound (applied request) w h =
        let (progress, s') = apply sha256 request w.policy in
        progressed-IsSound sha256 w progress s' h
          (λ j. apply_moves sha256 j request w.policy h.keyed (h.fresh _ (omega arith)))
    step-IsSound (resolved id decision aborted) w h =
        let (progress, s') = resolve id decision aborted w.policy in
        progressed-IsSound sha256 w progress s' h
          (λ j. resolve_moves sha256 j id decision aborted w.policy h.keyed)
    step-IsSound (finished index result) w h =
        finished-IsSound sha256 w index result (call_at index w.awaiting) refl h

    pub run-IsSound :
        (events : List (Event E)) (w : World E)
        → IsSound sha256 w
        → IsSound sha256 (run sha256 events w)
    unfolding run
    run-IsSound [] w h = h
    run-IsSound (e ∷ es) w h = run-IsSound es (step sha256 e w) (step-IsSound e w h)

  pub start-IsSound :
      (sha256 : String → String) (config : PolicyConfig) → IsSound sha256 (start {E = E} config)
  unfolding start get
  start-IsSound sha256 config = record {
    keyed = λ j t found. ground arith;
    good = λ j t found. ground arith;
    fresh = λ m le. refl;
    once = λ j. omega arith;
    live = λ j. omega arith;
  }

  -- However methods and executors interleave, and whatever the executors return or throw, each
  -- confirmation starts its action at most once.
  pub at_most_once :
      (sha256 : String → String) (config : PolicyConfig) (events : List (Event E)) (id : String)
      → runs_of id (run sha256 events (start config)).invoked ≤ 1
  at_most_once sha256 config events id =
      le_trans ((run-IsSound sha256 events (start config) (start-IsSound sha256 config)).once id)
        (spent-le-one _)
