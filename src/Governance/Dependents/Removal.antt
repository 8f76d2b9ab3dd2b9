-- ===== src/Governance/Dependents/Removal.antt =====
-- A plugin without dependents is needed by nothing that is active.
use dsh_assistant.Prelude.{
  Bool-cases, Option-cases, any, text_equality, number_equality, ◌==◌, String, ◌≡◌, refl, inl, inr,
  Bool, true, false, not, ◌&&◌, ◌||◌, Option, none, some, List, [], ◌∷◌, ◌++◌, arith,
}
use dsh_assistant.Governance.Dependents.{
  Severity, PluginDependent, Declared, Row, kind_of, named, declared_dependent, append_maybe,
  declared_loop, row_dependents, is_self, is_nameless, registry_loop, is_hard, is_optional,
  severity_of, analyze_plugin_dependents,
}
use mathlib.Core.Path.{subst}

-- a declaration on one of these capabilities, of whatever strength
abbrev pub provides : List String → Option String → Bool
provides provided none = false
provides provided (some capability) = any (λ c. c == capability) provided

abbrev pub declared_of : Option (List Declared) → List Declared
declared_of none = []
declared_of (some items) = items

-- an active record, other than the plugin, that declares a dependency on what the plugin provides
abbrev pub needs : String → String → List String → Row → Bool
needs owner version provided row =
    not (is_self owner version row)
    && row.status == "active"
    && any (λ item. provides provided item.capability) (declared_of row.plugin_dependencies)

abbrev live : PluginDependent → Bool
live d = is_hard d || is_optional d

any-append :
    (p : PluginDependent → Bool) (xs ys : List PluginDependent)
    → any p (xs ++ ys) ≡ (any p xs || any p ys)
any-append p [] ys = refl
any-append p (x ∷ xs) ys = ground (arith, any-append p xs ys)

append_maybe_lem :
    (a b : Option (List PluginDependent)) (ds : List PluginDependent)
    → append_maybe a b ≡ some ds
    → any live ds ≡ false
    → (xs ys : List PluginDependent) × (a ≡ some xs)
      × (b ≡ some ys)
      × (any live xs ≡ false)
      × (any live ys ≡ false)
append_maybe_lem none b ds h q = absurd (ground (arith, h))
append_maybe_lem (some xs) none ds h q = absurd (ground (arith, h))
append_maybe_lem (some xs) (some ys) ds h q = (
  xs,
  ys,
  refl,
  refl,
  ground (arith, h, q, any-append live xs ys),
  ground (arith, h, q, any-append live xs ys),
)

active_dependent :
    (provided : List String) (row : Row) (capability strength : Option String)
    (ds : List PluginDependent)
    → declared_dependent provided row (named capability) (kind_of strength) ≡ some ds
    → any live ds ≡ false
    → (row.status == "active") ≡ true
    → provides provided capability ≡ false
active_dependent provided row none strength ds h q a = refl
active_dependent provided row (some c) none ds h q a = absurd (ground (arith, h))
active_dependent provided row (some c) (some s) ds h q a = ground (arith, h, q, a)

declared_dependent_lem :
    (provided : List String) (row : Row) (item : Declared) (ds : List PluginDependent)
    → declared_dependent provided row (named item.capability) (kind_of item.strength) ≡ some ds
    → any live ds ≡ false
    → (row.status == "active") ≡ true
    → provides provided item.capability ≡ false
declared_dependent_lem provided row item ds h q a =
    active_dependent provided row item.capability item.strength ds h q a

declared_loop_lem :
    (provided : List String) (row : Row) (items : List Declared) (ds : List PluginDependent)
    → declared_loop provided row items ≡ some ds
    → any live ds ≡ false
    → (row.status == "active") ≡ true
    → any (λ item. provides provided item.capability) items ≡ false
unfolding declared_loop
declared_loop_lem provided row [] ds h q a = refl
declared_loop_lem provided row (item ∷ items) ds h q a =
    let parts =
      append_maybe_lem
        (declared_dependent provided row (named item.capability) (kind_of item.strength))
        (declared_loop provided row items) ds h q in
    ground (
      arith,
      declared_dependent_lem provided row item parts.0 parts.2 parts.4 a,
      declared_loop_lem provided row items parts.1 parts.3 parts.5 a,
    )

row_dependents_lem :
    (provided : List String) (row : Row) (ds : List PluginDependent)
    → row_dependents provided row row.plugin_dependencies ≡ some ds
    → any live ds ≡ false
    → (row.status == "active"
        && any (λ item. provides provided item.capability) (declared_of row.plugin_dependencies))
      ≡ false
row_dependents_lem provided row ds h q = elim (Option-cases row.plugin_dependencies) [
  | inl nothing_declared ↦ ground (arith, nothing_declared)
  | inr there ↦
      let (items, e) = there in
      elim (Bool-cases (row.status == "active")) [
        | inl a ↦
            let here : declared_loop provided row items ≡ some ds =
              subst (λ o. row_dependents provided row o ≡ some ds) e h in
            ground (arith, e, declared_loop_lem provided row items ds here q a)
        | inr off ↦ ground (arith, off)
      ]
]

registry_loop_lem :
    (owner version : String) (provided : List String) (rows : List Row) (ds : List PluginDependent)
    → registry_loop owner version provided rows ≡ some ds
    → any live ds ≡ false
    → any (needs owner version provided) rows ≡ false
unfolding registry_loop
registry_loop_lem owner version provided [] ds h q = refl
registry_loop_lem owner version provided (row ∷ rows) ds h q =
    elim (Bool-cases (is_self owner version row)) [
      | inl same ↦ ground (arith, same, h, registry_loop_lem owner version provided rows ds)
      | inr other ↦ elim (Bool-cases (is_nameless row.owner row.version)) [
        | inl bad ↦ absurd (ground (arith, other, bad, h))
        | inr fine ↦
            let parts =
              append_maybe_lem (row_dependents provided row row.plugin_dependencies)
                (registry_loop owner version provided rows) ds (ground (arith, other, fine, h)) q in
            ground (
              arith,
              other,
              row_dependents_lem provided row parts.0 parts.2 parts.4,
              registry_loop_lem owner version provided rows parts.1 parts.3 parts.5,
            )
      ]
    ]

any-live : (ds : List PluginDependent) → any live ds ≡ (any is_hard ds || any is_optional ds)
any-live [] = refl
any-live (d ∷ ds) = ground (arith, any-live ds)

severity_lem : (ds : List PluginDependent) → severity_of ds ≡ Severity.nothing → any live ds ≡ false
severity_lem ds h = ground (arith, h, any-live ds)

-- Where the analysis finds no dependents of a plugin, no active record other than the plugin declares a
-- dependency, hard or optional, on a capability that the plugin provides.
pub nothing_needs :
    (owner version : String) (capabilities : List String) (registry : List Row)
    → (analyze_plugin_dependents owner version capabilities registry).severity ≡ Severity.nothing
    → any (needs owner version capabilities) registry ≡ false
unfolding analyze_plugin_dependents
nothing_needs owner version capabilities registry h =
    elim (Bool-cases (is_nameless owner version)) [
      | inl bad ↦ absurd (ground (arith, bad, h))
      | inr fine ↦ elim (Option-cases (registry_loop owner version capabilities registry)) [
        | inl broken ↦ absurd (ground (arith, fine, broken, h))
        | inr found ↦
            registry_loop_lem owner version capabilities registry found.0 found.1
              (severity_lem found.0 (ground (arith, fine, found.1, h)))
      ]
    ]
