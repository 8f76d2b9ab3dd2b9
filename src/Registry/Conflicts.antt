-- ===== src/Registry/Conflicts.antt =====
-- domain/registry/service.ts: `conflicts`, the capabilities that more than one active record claims.
use dsh_assistant.Prelude.{
  if◌then◌else◌, text_equality, number_equality, String, Bool, Option, none, some, List, [], ◌∷◌,
  ◌++◌,
}
use dsh_assistant.Prelude.Dict.{Dict, get, put, values}
use dsh_assistant.Registry.Types.{RegistryRecord, CapabilityClaim, is_active}
use dsh_assistant.Registry.Service.{Registry}

pub record OwnershipConflict : Type 0 where
  pub capability : String
  pub records : List RegistryRecord

abbrev pub Groups : Type 0
Groups = Dict String (List RegistryRecord)

abbrev pub or_nobody : Option (List RegistryRecord) → List RegistryRecord
or_nobody none = []
or_nobody (some rs) = rs

unfoldable pub group_claims : RegistryRecord → List CapabilityClaim → Groups → Groups
group_claims r [] groups = groups
group_claims r (claim ∷ claims) groups =
    group_claims r claims (put claim.id (or_nobody (get claim.id groups) ++ r ∷ []) groups)

unfoldable pub group_active : List RegistryRecord → Groups → Groups
group_active [] groups = groups
group_active (r ∷ rs) groups =
    group_active rs (if is_active r.status then group_claims r r.capabilities groups else groups)

abbrev pub add_conflict :
    String → List RegistryRecord → List OwnershipConflict → List OwnershipConflict
add_conflict capability (a ∷ b ∷ rest) later =
    record { capability = capability; records = a ∷ b ∷ rest } ∷ later
add_conflict capability _ later = later

unfoldable pub disputed : Groups → List OwnershipConflict
disputed [] = []
disputed ((capability, claimants) ∷ groups) = add_conflict capability claimants (disputed groups)

unfoldable pub active_conflicts : List RegistryRecord → List OwnershipConflict
unfolding disputed group_active group_claims
active_conflicts rs = disputed (group_active rs [])

unfoldable pub insert_conflict :
    (String → String → Bool) → OwnershipConflict → List OwnershipConflict → List OwnershipConflict
insert_conflict collate c [] = c ∷ []
insert_conflict collate c (x ∷ xs) =
    let rest = insert_conflict collate c xs in
    if collate c.capability x.capability then c ∷ x ∷ xs else x ∷ rest

unfoldable pub sort_conflicts :
    (String → String → Bool) → List OwnershipConflict → List OwnershipConflict
unfolding insert_conflict
sort_conflicts collate [] = []
sort_conflicts collate (c ∷ cs) = insert_conflict collate c (sort_conflicts collate cs)

unfoldable pub conflicts : (String → String → Bool) → Registry → List OwnershipConflict
unfolding sort_conflicts
conflicts collate s = sort_conflicts collate (active_conflicts (values s))
