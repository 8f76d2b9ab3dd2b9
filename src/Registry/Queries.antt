-- ===== src/Registry/Queries.antt =====
-- domain/registry/service.ts: `list`. `collate` stands for `localeCompare`, as "not greater".
use dsh_assistant.Prelude.{
  if◌then◌else◌, text_equality, number_equality, ◌==◌, String, Bool, true, ◌&&◌, Option, none, some,
  List, [], ◌∷◌,
}
use dsh_assistant.Prelude.Result.{Result, ok, ◌>>=◌}
use dsh_assistant.Prelude.Dict.{values}
use dsh_assistant.Registry.Types.{
  RegistryRecord, RegistryQuery, RegistryError, same_status, same_kind,
}
use dsh_assistant.Registry.Identity.{parse_capability_id, parse_owner_id}
use dsh_assistant.Registry.Service.{Registry, claims_capability, key_of}

abbrev agrees_on {ℓ} : {A : Type ℓ} → (A → A → Bool) → Option A → A → Bool
agrees_on same none field = true
agrees_on same (some wanted) field = same field wanted

-- the test on `query.owner`, which parses it for every record
abbrev pub owner_matches : Option String → RegistryRecord → Result RegistryError Bool
owner_matches none r = ok true
owner_matches (some owner) r = do parsed ← parse_owner_id owner; ok (r.owner == parsed)

abbrev claims_maybe : Option String → RegistryRecord → Bool
claims_maybe none r = true
claims_maybe (some capability) r = claims_capability r capability

abbrev pub query_matches : RegistryQuery → Option String → RegistryRecord → Bool
query_matches query capability r =
    agrees_on same_status query.status r.status
    && agrees_on same_kind query.provenance_kind r.provenance.kind
    && claims_maybe capability r

unfoldable pub filter_records :
    RegistryQuery → Option String → List RegistryRecord → Result RegistryError (List RegistryRecord)
filter_records query capability [] = ok []
filter_records query capability (r ∷ rs) = do
  by_owner ← owner_matches query.owner r
  rest ← filter_records query capability rs
  ok (if by_owner && query_matches query capability r then r ∷ rest else rest)

abbrev pub parse_maybe : Option String → Result RegistryError (Option String)
parse_maybe none = ok none
parse_maybe (some capability) = do id ← parse_capability_id capability; ok (some id)

-- `sort` is stable: a record goes before those that follow it and are not smaller
unfoldable pub insert_record :
    (String → String → Bool) → RegistryRecord → List RegistryRecord → List RegistryRecord
insert_record collate r [] = r ∷ []
insert_record collate r (x ∷ xs) =
    let rest = insert_record collate r xs in
    if collate (key_of r) (key_of x) then r ∷ x ∷ xs else x ∷ rest

unfoldable pub sort_records : (String → String → Bool) → List RegistryRecord → List RegistryRecord
unfolding insert_record
sort_records collate [] = []
sort_records collate (r ∷ rs) = insert_record collate r (sort_records collate rs)

unfoldable pub list_records :
    (String → String → Bool) → RegistryQuery → Registry → Result RegistryError (List RegistryRecord)
unfolding sort_records filter_records
list_records collate query s = do
  capability ← parse_maybe query.capability
  found ← filter_records query capability (values s)
  ok (sort_records collate found)
