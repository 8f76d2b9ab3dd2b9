-- ===== src/Governance/Frame/Helpers.antt =====
-- domain/governance/service.ts: the helpers that change the registry, and nothing else but the counter.
use dsh_assistant.Governance.Frame.{
  Framed, Framed-trans, Frames, owners_from_registry-Frames, frame,
}
use dsh_assistant.Prelude.{
  text_equality, number_equality, ◌+◌, inl, inr, Option, none, some, List, [], ◌∷◌,
}
use dsh_assistant.Prelude.Result.{Result-cases}
use dsh_assistant.Registry.Types.{RegistryRecord}
use dsh_assistant.Candidate.Types.{CandidateRecord}
use dsh_assistant.Registry.Types.{RegistryRecord}
use dsh_assistant.Governance.Types.{SnapshotOwner, ActivationSnapshot}
use dsh_assistant.Governance.State.{
  Governance, Outside, M, ◌>>=◌, owners_from_registry, capture_snapshot, disable_unwanted,
  enable_found, enable_wanted, apply_registry_owners, retire_previous, commit_existing,
  commit_registry,
}
use dsh_assistant.Governance.Running.{Answer, resolves, crashes, refuses, rejects}
use dsh_assistant.Governance.Activation.{restored_or_not, restore_owners, good_or_captured}
use dsh_assistant.Governance.SafeMode.{disable_isolated}

pub capture_snapshot-Frames : (o : Outside) → Frames (capture_snapshot o)
unfolding capture_snapshot ◌>>=◌ Frames
capture_snapshot-Frames o s =
    let t : Governance = record s { generation = s.generation + 1 } in
    let h : Framed s (owners_from_registry o t).1 = owners_from_registry-Frames o t in
    elim (Result-cases (owners_from_registry o t).0) [ inl (e, p) ↦ rw p h | inr (a, p) ↦ rw p h ]

pub disable_unwanted-Frames :
    (owners : List SnapshotOwner) (rs : List RegistryRecord) → Frames (disable_unwanted owners rs)
unfolding disable_unwanted
disable_unwanted-Frames owners [] = search frame
disable_unwanted-Frames owners (r ∷ rs) = search (frame, disable_unwanted-Frames owners rs)

enable_found-Frames :
    (owner : SnapshotOwner) (found : Option RegistryRecord) → Frames (enable_found owner found)
enable_found-Frames owner none = search frame
enable_found-Frames owner (some r) = search frame

pub enable_wanted-Frames : (owners : List SnapshotOwner) → Frames (enable_wanted owners)
unfolding enable_wanted
enable_wanted-Frames [] = search frame
enable_wanted-Frames (owner ∷ owners) =
    search (frame, enable_found-Frames, enable_wanted-Frames owners)

pub apply_registry_owners-Frames :
    (o : Outside) (owners : List SnapshotOwner) → Frames (apply_registry_owners o owners)
unfolding apply_registry_owners
apply_registry_owners-Frames o owners =
    search (frame, disable_unwanted-Frames, enable_wanted-Frames)

pub disable_isolated-Frames : (rs : List RegistryRecord) → Frames (disable_isolated rs)
unfolding disable_isolated
disable_isolated-Frames [] = search frame
disable_isolated-Frames (r ∷ rs) = search (frame, disable_isolated-Frames rs)

retire_previous-Frames :
    (c : CandidateRecord) (found : List RegistryRecord) → Frames (retire_previous c found)
retire_previous-Frames c [] = search frame
retire_previous-Frames c (r ∷ rs) = search frame

commit_existing-Frames :
    (c : CandidateRecord) (found : Option RegistryRecord) → Frames (commit_existing c found)
commit_existing-Frames c none = search frame
commit_existing-Frames c (some r) = search frame

pub commit_registry-Frames : (o : Outside) (c : CandidateRecord) → Frames (commit_registry o c)
unfolding commit_registry
commit_registry-Frames o c = search (frame, retire_previous-Frames, commit_existing-Frames)

restored_or_not-Frames :
    (o : Outside) (prior : List SnapshotOwner) (m : M (Unit {0}))
    → Frames m
    → Frames (λ s. restored_or_not o prior (m s))
unfolding Frames
restored_or_not-Frames o prior m h s = elim (Result-cases (m s).0) [
  | inl (e, p) ↦ rw p (
      Framed-trans s (m s).1 _ (h s)
        (unfold Frames in apply_registry_owners-Frames o prior (m s).1))
  | inr (a, p) ↦ rw p (h s)
]

pub restore_owners-Frames :
    (o : Outside) (snapshot : ActivationSnapshot) (prior : List SnapshotOwner) (answer : Answer)
    → Frames (restore_owners o snapshot prior answer)
unfolding restore_owners Frames
restore_owners-Frames o snapshot prior resolves s =
    restored_or_not-Frames o prior (apply_registry_owners o snapshot.owners)
      (apply_registry_owners-Frames o snapshot.owners) s
restore_owners-Frames o snapshot prior crashes s = apply_registry_owners-Frames o prior s
restore_owners-Frames o snapshot prior (refuses d) s = apply_registry_owners-Frames o prior s
restore_owners-Frames o snapshot prior (rejects d) s = apply_registry_owners-Frames o prior s

pub good_or_captured-Frames :
    (o : Outside) (good : Option ActivationSnapshot) → Frames (good_or_captured o good)
good_or_captured-Frames o none = capture_snapshot-Frames o
good_or_captured-Frames o (some snapshot) = search frame
