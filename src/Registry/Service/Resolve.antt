-- ===== src/Registry/Service/Resolve.antt =====
-- Whom a capability resolves to, after any calls.
use dsh_assistant.Prelude.{
  select, text_equality, number_equality, String, ◌≡◌, refl, ap, ◌∙◌, Bool, true, ◌&&◌, some, List,
  [], ◌∷◌, arith,
}
use dsh_assistant.Prelude.Result.{ok}
use dsh_assistant.Prelude.Dict.{get, values}
use dsh_assistant.Prelude.Dict.Sole.{select-select, IsSole, select_sole}
use dsh_assistant.Registry.Types.{is_active, RegistryRecord, ActiveOwnerResolution}
use dsh_assistant.Registry.Identity.{parse_capability_id}
use dsh_assistant.Registry.Service.{Registry, claims_capability, resolution, resolve_active_owner}
use dsh_assistant.Registry.Service.Calls.{Call, run}
use dsh_assistant.Registry.Service.Owners.{IsOwned, empty-IsOwned, run-IsOwned}

abbrev holds : String → RegistryRecord → Bool
holds capability r = claims_capability r capability && is_active r.status

holders-IsSole : (s : Registry) (capability : String) → IsOwned s → IsSole (holds capability) s
holders-IsSole s capability v i j a b gi gj pa pb =
    v.sole i j a b capability gi gj (ground (arith, pa)) (ground (arith, pb)) (ground (arith, pa))
      (ground (arith, pb))

resolved :
    (capability : String) (s : Registry)
    → parse_capability_id capability ≡ ok capability
    → resolve_active_owner capability s
      ≡ ok (
          let mentioned = select (λ x. claims_capability x capability) (values s) in
          resolution capability mentioned (select (λ x. is_active x.status) mentioned))
unfolding resolve_active_owner
resolved capability s p = rw (resolve_active_owner, p) refl

resolution_sole :
    (id : String) (mentioned : List RegistryRecord) (r : RegistryRecord)
    → select (λ x. is_active x.status) mentioned ≡ r ∷ []
    → resolution id mentioned (select (λ x. is_active x.status) mentioned)
      ≡ ActiveOwnerResolution.owned id r
resolution_sole id [] r h = absurd (ground (arith, h))
resolution_sole id (m ∷ mentioned) r h = rw h refl

-- After any calls on a registry that starts empty, an active record that claims a capability is the
-- one owner that the capability resolves to, for every capability identity that is well formed.
pub sole_owner :
    (calls : List Call) (key : String) (r : RegistryRecord) (capability : String)
    → get key (run calls []) ≡ some r
    → is_active r.status ≡ true
    → claims_capability r capability ≡ true
    → parse_capability_id capability ≡ ok capability
    → resolve_active_owner capability (run calls []) ≡ ok (ActiveOwnerResolution.owned capability r)
sole_owner calls key r capability g a c p =
    let s = run calls [] in
    let v = run-IsOwned calls [] empty-IsOwned in
    let q =
      select-select (λ x. claims_capability x capability) (λ x. is_active x.status) (values s)
      ∙ select_sole (holds capability) s key r v.distinct (holders-IsSole s capability v) g
          (ground (arith, a, c)) in
    resolved capability s p
    ∙ ap ok
        (resolution_sole capability (select (λ x. claims_capability x capability) (values s)) r q)
