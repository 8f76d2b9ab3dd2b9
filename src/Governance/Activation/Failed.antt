-- ===== src/Governance/Activation/Failed.antt =====
-- domain/governance/service.ts: how an activation that fails ends.
use dsh_assistant.Prelude.{
  text_equality, number_equality, String, ◌≡◌, refl, ap, inl, inr, Bool, true, false, not, ◌||◌,
  none, some, List, arith, all, ◌&&◌, sym,
}
use dsh_assistant.Prelude.Result.{ok, Result-cases, went_through}
use dsh_assistant.Candidate.Types.{CandidateRecord}
use dsh_assistant.Governance.Frame.{Frames}
use dsh_assistant.Governance.Frame.Helpers.{capture_snapshot-Frames, restore_owners-Frames}
use dsh_assistant.Governance.Types.{ActivationPhase, SnapshotOwner, ActivationSnapshot}
use dsh_assistant.Governance.State.{
  Governance, Outside, ◌>>=◌, capture_snapshot, failure_needs_safe_mode, failure_rolled_back,
  apply_registry_owners, owners_from_registry, ask_registry, active_query,
}
use dsh_assistant.Governance.Running.{Answer, resolves, crashes, refuses, rejects, Activating}
use dsh_assistant.Governance.Activation.{
  release_activation, end_failed, restore_owners, resume_activation, activation_failed,
}
use mathlib.Core.Path.{subst}
use dsh_assistant.Registry.Service.{Registry}
use dsh_assistant.Governance.Activation.InForce.{applied-AreInForce, is_in_force}
use dsh_assistant.Registry.Queries.{list_records}

abbrev pub needs_safe_mode : Governance → Bool
needs_safe_mode s = failure_needs_safe_mode s.last_failure

abbrev pub rolled_back_failure : Governance → Bool
rolled_back_failure s = failure_rolled_back s.last_failure

-- the state after a failed activation, from a state with this Safe Mode
abbrev pub Ended : ActivationSnapshot → Bool → Bool → Governance → Type 0
Ended previous safe restored s =
    (s.state ≡ activation_failed)
    × (s.last_known_good ≡ some previous)
    × (s.mutation ≡ none)
    × (rolled_back_failure s ≡ restored)
    × (needs_safe_mode s ≡ not restored)
    × (s.safe_mode ≡ (safe || not restored))

-- whether every owner of the snapshot that the registry has a record of is active in it
abbrev pub are_in_force : ActivationSnapshot → Governance → Bool
are_in_force previous s = all (is_in_force s.registry) previous.owners

-- and the owners of the snapshot are active where they were restored
abbrev pub Undone : ActivationSnapshot → Bool → Bool → Governance → Type 0
Undone previous safe restored s =
    ((not restored || are_in_force previous s) ≡ true) × Ended previous safe restored s

capture_safe : (o : Outside) (s : Governance) → (capture_snapshot o s).1.safe_mode ≡ s.safe_mode
unfolding Frames
capture_safe o s = ap (λ (t : Governance). t.safe_mode) (capture_snapshot-Frames o s)

capture_registry : (o : Outside) (s : Governance) → (capture_snapshot o s).1.registry ≡ s.registry
unfolding capture_snapshot ◌>>=◌ owners_from_registry ask_registry
capture_registry o s = elim (Result-cases (list_records o.collate active_query s.registry)) [
  | inl (e, p) ↦ rw p refl
  | inr (a, p) ↦ rw p refl
]

end_failed_registry :
    (o : Outside) (c : CandidateRecord) (previous : ActivationSnapshot) (phase : ActivationPhase)
    (diagnostics : String) (restored : Bool) (s : Governance)
    → (end_failed o c previous phase diagnostics restored s).0 ≡ ok none
    → (end_failed o c previous phase diagnostics restored s).1.registry ≡ s.registry
unfolding end_failed release_activation ◌>>=◌
end_failed_registry o c previous phase diagnostics restored s h =
    elim (Result-cases (capture_snapshot o s).0) [
      | inl (e, p) ↦ absurd (ground (arith, h, p))
      | inr (a, p) ↦ rw p (capture_registry o s)
    ]

end_failed_lem :
    (o : Outside) (c : CandidateRecord) (previous : ActivationSnapshot) (phase : ActivationPhase)
    (diagnostics : String) (restored : Bool) (s : Governance)
    → (end_failed o c previous phase diagnostics restored s).0 ≡ ok none
    → Ended previous s.safe_mode restored (end_failed o c previous phase diagnostics restored s).1
unfolding end_failed release_activation ◌>>=◌
end_failed_lem o c previous phase diagnostics true s h =
    elim (Result-cases (capture_snapshot o s).0) [
      | inl (e, p) ↦ absurd (ground (arith, h, p))
      | inr (a, p) ↦ rw p (refl, refl, refl, refl, refl, ground (arith, capture_safe o s))
    ]
end_failed_lem o c previous phase diagnostics false s h =
    elim (Result-cases (capture_snapshot o s).0) [
      | inl (e, p) ↦ absurd (ground (arith, h, p))
      | inr (a, p) ↦ rw p (refl, refl, refl, refl, refl, ground arith)
    ]

abbrev pub is_resolved : Answer → Bool
is_resolved resolves = true
is_resolved _ = false

restore_safe :
    (o : Outside) (previous : ActivationSnapshot) (prior : List SnapshotOwner) (answer : Answer)
    (s : Governance)
    → (restore_owners o previous prior answer s).1.safe_mode ≡ s.safe_mode
unfolding Frames
restore_safe o previous prior answer s =
    ap (λ (t : Governance). t.safe_mode) (restore_owners-Frames o previous prior answer s)

-- whether the runtime resolved and the registry accepted the owners of the snapshot
abbrev pub is_restored : Outside → ActivationSnapshot → Answer → Governance → Bool
is_restored o previous answer s =
    is_resolved answer && went_through (apply_registry_owners o previous.owners s).0

restored_lem :
    (o : Outside) (previous : ActivationSnapshot) (prior : List SnapshotOwner) (answer : Answer)
    (s : Governance) (restored : Bool)
    → (restore_owners o previous prior answer s).0 ≡ ok restored
    → restored ≡ is_restored o previous answer s
unfolding restore_owners
restored_lem o previous prior resolves s restored h =
    elim (Result-cases (apply_registry_owners o previous.owners s).0) [
      | inl (e, p) ↦ ground (arith, h, p)
      | inr (a, p) ↦ ground (arith, h, p)
    ]
restored_lem o previous prior crashes s restored h = ground (arith, h)
restored_lem o previous prior (refuses d) s restored h = ground (arith, h)
restored_lem o previous prior (rejects d) s restored h = ground (arith, h)

in_force_lem :
    (o : Outside) (previous : ActivationSnapshot) (prior : List SnapshotOwner) (answer : Answer)
    (s : Governance) (restored : Bool)
    → (restore_owners o previous prior answer s).0 ≡ ok restored
    → (not restored || are_in_force previous (restore_owners o previous prior answer s).1) ≡ true
unfolding restore_owners
in_force_lem o previous prior resolves s restored h =
    elim (Result-cases (apply_registry_owners o previous.owners s).0) [
      | inl (e, p) ↦ ground (arith, h, p)
      | inr (a, p) ↦ ground (arith, h, p, applied-AreInForce o previous.owners s p)
    ]
in_force_lem o previous prior crashes s restored h = ground (arith, h)
in_force_lem o previous prior (refuses d) s restored h = ground (arith, h)
in_force_lem o previous prior (rejects d) s restored h = ground (arith, h)

-- When an activation that failed has been undone as far as it could be, its state is
-- `activation-failed`, no lifecycle change is in progress, and the last known good snapshot is the
-- one from before. The failure says whether the owners of that snapshot were restored: they were
-- exactly where the runtime resolved and the registry accepted every change, and then each of them
-- that the registry has a record of is active in it. The failure requires Safe Mode exactly where
-- they were not restored, and Safe Mode is on exactly where it was on before or is required.
pub failed_activation_ends :
    (o : Outside) (c : CandidateRecord) (previous : ActivationSnapshot) (phase : ActivationPhase)
    (diagnostics : String) (prior : List SnapshotOwner) (answer : Answer) (s : Governance)
    → (resume_activation o c previous (Activating.restoring phase diagnostics prior) answer s).0
      ≡ ok none
    → Undone previous s.safe_mode
        (is_restored o previous answer s)
        (resume_activation o c previous (Activating.restoring phase diagnostics prior) answer s).1
unfolding resume_activation ◌>>=◌
failed_activation_ends o c previous phase diagnostics prior answer s h =
    let t : Governance = (restore_owners o previous prior answer s).1 in
    elim (Result-cases (restore_owners o previous prior answer s).0) [
      | inl (e, p) ↦ absurd (ground (arith, h, p))
      | inr (restored, p) ↦
          let out : Governance = (end_failed o c previous phase diagnostics restored t).1 in
          let goes : (end_failed o c previous phase diagnostics restored t).0 ≡ ok none =
            ground (arith, h, p) in
          let kept = end_failed_registry o c previous phase diagnostics restored t goes in
          rw p (
            subst (λ b. Undone previous s.safe_mode b out)
              (restored_lem o previous prior answer s restored p)
              (
                subst
                    (λ (r : Registry). (not restored || all (is_in_force r) previous.owners) ≡ true)
                    (sym kept) (in_force_lem o previous prior answer s restored p),
                subst (λ safe. Ended previous safe restored out)
                    (restore_safe o previous prior answer s)
                    (end_failed_lem o c previous phase diagnostics restored t goes),
              ))
    ]
