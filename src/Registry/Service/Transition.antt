-- ===== src/Registry/Service/Transition.antt =====
-- domain/registry/service.ts: what `get` finds after `transitionStatus`.
use dsh_assistant.Prelude.{
  if◌then◌else◌, Bool-cases, Option-cases, text_equality, number_equality, ◌==◌, String, ◌≡◌, refl,
  inl, inr, Option, none, some, arith, ==_refl,
}
use dsh_assistant.Prelude.Result.{ok, ◌>>=◌, Result-cases}
use dsh_assistant.Prelude.Dict.{get, put, get-put}
use dsh_assistant.Registry.Types.{RegistryRecord, LifecycleStatus}
use dsh_assistant.Registry.Identity.{parse_owner_id, parse_version}
use dsh_assistant.Registry.Service.{
  Registry, assert_no_active_conflict, get_record, transition_status, key_for,
}

pub get_record-key_for :
    (owner version : String) (s : Registry)
    → get_record owner version s ≡ (do key ← key_for owner version; ok (get key s))
unfolding get_record
get_record-key_for owner version s = elim (Result-cases (parse_owner_id owner)) [
  | inl (e, p) ↦ rw p refl
  | inr (a, p) ↦ rw p (elim (Result-cases (parse_version version)) [
    | inl (e, q) ↦ rw q refl
    | inr (b, q) ↦ rw q refl
  ])
]

abbrev pub with_status : LifecycleStatus → Option RegistryRecord → Option RegistryRecord
with_status status none = none
with_status status (some r) = some (record r { status = status })

-- a transition that goes through changes the status of one record, and nothing else
pub get-transition_status :
    (owner version : String) (status : LifecycleStatus) (k : String) (s : Registry)
    (out : RegistryRecord × Registry)
    → transition_status owner version status s ≡ ok out
    → (key : String) × (key_for owner version ≡ ok key)
      × (get k out.1 ≡ (if key == k then with_status status (get k s) else get k s))
unfolding transition_status
get-transition_status owner version status k s out h = elim (Result-cases (key_for owner version)) [
  | inl bad ↦ absurd (ground (arith, h, bad.1))
  | inr (key, e) ↦ elim (Option-cases (get key s)) [
    | inl nothing ↦ absurd (ground (arith, h, e, nothing))
    | inr (r, g) ↦
        elim (Result-cases (assert_no_active_conflict (record r { status = status }) key s)) [
          | inl bad ↦ absurd (ground (arith, h, e, g, bad.1))
          | inr fine ↦
              let next : RegistryRecord = record r { status = status } in
              let q : put key next s ≡ out.1 = ground (arith, h, e, g, fine.1) in
              (
                key,
                e,
                elim (Bool-cases (key == k)) [
                  | inl same ↦
                      ground (arith, q, g, same, get-put key k next s, text_equality.agrees key k)
                  | inr other ↦ ground (arith, q, g, other, get-put key k next s)
                ],
              )
        ]
  ]
]

pub get_record-transition_status :
    (owner version : String) (status : LifecycleStatus) (r : RegistryRecord) (s : Registry)
    (out : RegistryRecord × Registry)
    → get_record owner version s ≡ ok (some r)
    → transition_status owner version status s ≡ ok out
    → get_record owner version out.1 ≡ ok (some (record r { status = status }))
get_record-transition_status owner version status r s out g h =
    elim (Result-cases (key_for owner version)) [
      | inl bad ↦ absurd (ground (arith, g, get_record-key_for owner version s, bad.1))
      | inr (key, e) ↦
          let (key', e', there) = get-transition_status owner version status key s out h in
          let same : key' ≡ key = ground (arith, e, e') in
          ground (
            arith,
            g,
            e,
            same,
            there,
            ==_refl key,
            get_record-key_for owner version s,
            get_record-key_for owner version out.1,
          )
    ]
