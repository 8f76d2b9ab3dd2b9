-- ===== src/Governance/Activation/InForce.antt =====
-- domain/governance/service.ts: what `applyRegistryOwners` leaves active.
use dsh_assistant.Prelude.{
  if◌then◌else◌, Option-cases, all, text_equality, number_equality, String, ◌≡◌, refl, sym, ◌∙◌,
  inl, inr, Bool, true, false, Option, none, some, arith, List, [], ◌∷◌, ap,
}
use dsh_assistant.Prelude.Result.{Result, ok, raise, Result-cases}
use dsh_assistant.Prelude.Dict.{get}
use dsh_assistant.Registry.Types.{
  is_active as registry_active, RegistryRecord, RegistryError, LifecycleStatus,
}
use dsh_assistant.Registry.Service.{Registry, get_record, transition_status, key_for}
use dsh_assistant.Registry.Service.Transition.{
  get_record-key_for, get-transition_status, get_record-transition_status,
}
use dsh_assistant.Governance.Types.{SnapshotOwner}
use dsh_assistant.Governance.State.{
  Governance, Outside, M, ◌>>=◌, ask_registry, change_registry, enable_found, enable_wanted,
  apply_registry_owners, disable_unwanted, return, active_query,
}
use mathlib.Core.Path.{subst}
use dsh_assistant.Registry.Queries.{list_records}

abbrev none_idle : Option RegistryRecord → Bool
none_idle none = true
none_idle (some r) = registry_active r.status

abbrev found_in_force : Result RegistryError (Option RegistryRecord) → Bool
found_in_force (ok found) = none_idle found
found_in_force (raise e) = false

-- whether the owner is active in the registry, if the registry has a record of it
abbrev pub is_in_force : Registry → SnapshotOwner → Bool
is_in_force s owner = found_in_force (get_record owner.owner owner.version s)

activated-IsInForce :
    (owner version : String) (x : SnapshotOwner) (s : Registry) (out : RegistryRecord × Registry)
    → transition_status owner version LifecycleStatus.active s ≡ ok out
    → is_in_force s x ≡ true
    → is_in_force out.1 x ≡ true
activated-IsInForce owner version x s out h v =
    let before = get_record-key_for x.owner x.version s in
    let after = get_record-key_for x.owner x.version out.1 in
    elim (Result-cases (key_for x.owner x.version)) [
      | inl bad ↦ absurd (ground (arith, v, before, bad.1))
      | inr (k, e) ↦
          let (key, e', there) =
            get-transition_status owner version LifecycleStatus.active k s out h in
          elim (Option-cases (get k s)) [
            | inl nothing ↦ ground (arith, after, e, there, nothing)
            | inr (r, g) ↦ ground (arith, v, before, after, e, there, g)
          ]
    ]

changed_ok :
    (f : Registry → Result RegistryError (RegistryRecord × Registry)) (s : Governance)
    → (change_registry f s).0 ≡ ok tt
    → (out : RegistryRecord × Registry) × (f s.registry ≡ ok out)
      × ((change_registry f s).1.registry ≡ out.1)
unfolding change_registry
changed_ok f s h = elim (Result-cases (f s.registry)) [
  | inl (e, p) ↦ absurd (ground (arith, h, p))
  | inr (out, p) ↦ (out, p, rw p refl)
]

abbrev activate : SnapshotOwner → M (Unit {0})
activate owner =
    change_registry (transition_status owner.owner owner.version LifecycleStatus.active)

maybe_activated-IsInForce :
    (skip : Bool) (owner x : SnapshotOwner) (s : Governance)
    → ((if skip then return tt else activate owner) s).0 ≡ ok tt
    → is_in_force s.registry x ≡ true
    → is_in_force ((if skip then return tt else activate owner) s).1.registry x ≡ true
maybe_activated-IsInForce true owner x s h v = v
maybe_activated-IsInForce false owner x s h v =
    let (out, e, q) =
      changed_ok (transition_status owner.owner owner.version LifecycleStatus.active) s h in
    subst (λ t. is_in_force t x ≡ true) (sym q)
      (activated-IsInForce owner.owner owner.version x s.registry out e v)

enable_found-IsInForce :
    (owner x : SnapshotOwner) (found : Option RegistryRecord) (s : Governance)
    → (enable_found owner found s).0 ≡ ok tt
    → is_in_force s.registry x ≡ true
    → is_in_force (enable_found owner found s).1.registry x ≡ true
enable_found-IsInForce owner x none s h v = v
enable_found-IsInForce owner x (some r) s h v =
    maybe_activated-IsInForce (registry_active r.status) owner x s h v

activates :
    (skip : Bool) (owner : SnapshotOwner) (r : RegistryRecord) (s : Governance)
    → get_record owner.owner owner.version s.registry ≡ ok (some r)
    → registry_active r.status ≡ skip
    → ((if skip then return tt else activate owner) s).0 ≡ ok tt
    → is_in_force ((if skip then return tt else activate owner) s).1.registry owner ≡ true
activates true owner r s g on h = ground (arith, g, on)
activates false owner r s g off h =
    let (out, e, q) =
      changed_ok (transition_status owner.owner owner.version LifecycleStatus.active) s h in
    let there =
      get_record-transition_status owner.owner owner.version LifecycleStatus.active r s.registry out
        g e in
    subst (λ t. is_in_force t owner ≡ true) (sym q) (ground (arith, there))

enables :
    (owner : SnapshotOwner) (found : Option RegistryRecord) (s : Governance)
    → get_record owner.owner owner.version s.registry ≡ ok found
    → (enable_found owner found s).0 ≡ ok tt
    → is_in_force (enable_found owner found s).1.registry owner ≡ true
enables owner none s g h = ground (arith, g)
enables owner (some r) s g h = activates (registry_active r.status) owner r s g refl h

-- a successful step of the loop over the wanted owners
wanted_step :
    (owner : SnapshotOwner) (owners : List SnapshotOwner) (s : Governance)
    → (enable_wanted (owner ∷ owners) s).0 ≡ ok tt
    → (found : Option RegistryRecord) × (get_record owner.owner owner.version s.registry ≡ ok found)
      × ((enable_found owner found s).0 ≡ ok tt)
      × (enable_wanted (owner ∷ owners) s ≡ enable_wanted owners (enable_found owner found s).1)
unfolding enable_wanted ◌>>=◌ ask_registry
wanted_step owner owners s h =
    elim (Result-cases (get_record owner.owner owner.version s.registry)) [
      | inl (e, p) ↦ absurd (ground (arith, h, p))
      | inr (found, p) ↦ elim (Result-cases (enable_found owner found s).0) [
        | inl (e, q) ↦ absurd (ground (arith, h, p, q))
        | inr (u, q) ↦ (found, p, q, rw p (rw q refl))
      ]
    ]

wanted-IsInForce :
    (owners : List SnapshotOwner) (x : SnapshotOwner) (s : Governance)
    → (enable_wanted owners s).0 ≡ ok tt
    → is_in_force s.registry x ≡ true
    → is_in_force (enable_wanted owners s).1.registry x ≡ true
unfolding enable_wanted
wanted-IsInForce [] x s h v = v
wanted-IsInForce (owner ∷ owners) x s h v =
    let (found, g, e, q) = wanted_step owner owners s h in
    let t : Governance = (enable_found owner found s).1 in
    subst (λ out. is_in_force out.1.registry x ≡ true) (sym q)
      (wanted-IsInForce owners x t (sym (ap (λ out. out.0) q) ∙ h)
        (enable_found-IsInForce owner x found s e v))

all_wanted :
    (owners : List SnapshotOwner) (s : Governance)
    → (enable_wanted owners s).0 ≡ ok tt
    → all (is_in_force (enable_wanted owners s).1.registry) owners ≡ true
unfolding enable_wanted
all_wanted [] s h = refl
all_wanted (owner ∷ owners) s h =
    let (found, g, e, q) = wanted_step owner owners s h in
    let t : Governance = (enable_found owner found s).1 in
    let goes : (enable_wanted owners t).0 ≡ ok tt = sym (ap (λ out. out.0) q) ∙ h in
    subst (λ out. all (is_in_force out.1.registry) (owner ∷ owners) ≡ true) (sym q)
      (ground (
        arith,
        all_wanted owners t goes,
        wanted-IsInForce owners owner t goes (enables owner found s g e),
      ))

-- Where the registry accepts all of it, every owner that it has a record of is active.
pub applied-AreInForce :
    (o : Outside) (owners : List SnapshotOwner) (s : Governance)
    → (apply_registry_owners o owners s).0 ≡ ok tt
    → all (is_in_force (apply_registry_owners o owners s).1.registry) owners ≡ true
unfolding apply_registry_owners ◌>>=◌ ask_registry
applied-AreInForce o owners s h =
    elim (Result-cases (list_records o.collate active_query s.registry)) [
      | inl (e, p) ↦ absurd (ground (arith, h, p))
      | inr (found, p) ↦ elim (Result-cases (disable_unwanted owners found s).0) [
        | inl (e, q) ↦ absurd (ground (arith, h, p, q))
        | inr (u, q) ↦
            let t : Governance = (disable_unwanted owners found s).1 in
            rw p (rw q (all_wanted owners t (ground (arith, h, p, q))))
      ]
    ]
