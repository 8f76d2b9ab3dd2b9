-- ===== src/Governance/Dependents.antt =====
-- domain/governance/dependents.ts: what depends on a plugin that is to be removed.
pub mod Removal
use dsh_assistant.Prelude.{
  none, ltb, leb, nat_beq, if◌then◌else◌, nat_beq_iff, Bool-cases, Option-cases, length, any, all,
  find, select, count_if, first, length-append, count_if-append, All, All-append, Equality,
  text_equality, number_equality, ◌==◌, ==_refl, ◌&◌, ℕ, zero, suc, ◌+◌, ◌-◌, ◌*◌, ◌≤◌, ◌<◌, String,
  ◌≡◌, refl, sym, ap, ap₂, ◌∙◌, ◌≢◌, ◌↔◌, ◌⊎◌, inl, inr, Bool, true, false, not, ◌&&◌, ◌||◌, Option,
  some, List, [], ◌∷◌, ◌++◌, map, arith, eq_iff,
}

pub data PluginDependentKind : Type 0 where
  hard optional historical : PluginDependentKind

pub data Severity : Type 0 where
  nothing hard optional unresolved : Severity

pub record PluginDependent : Type 0 where
  pub owner : String
  pub version : String
  pub required_capability : String
  pub kind : PluginDependentKind

pub record PluginDependencyResult : Type 0 where
  pub severity : Severity
  pub dependents : List PluginDependent

pub record Declared : Type 0 where
  pub capability : Option String
  pub strength : Option String

pub record Row : Type 0 where
  pub owner : String
  pub version : String
  pub status : String
  pub plugin_dependencies : Option (List Declared)

-- `'hard'` or `'optional'`, or a strength that cannot be resolved
abbrev pub kind_of : Option String → Option PluginDependentKind
kind_of none = none
kind_of (some strength) =
    if strength == "hard"
    then some PluginDependentKind.hard
    else if strength == "optional"
    then some PluginDependentKind.optional
    else none

abbrev pub named : Option String → Option String
named none = none
named (some capability) = if capability == "" then none else some capability

abbrev pub dependent : Row → String → PluginDependentKind → PluginDependent
dependent row capability kind = record {
  owner = row.owner;
  version = row.version;
  required_capability = capability;
  kind = if row.status == "active" then kind else historical;
}

-- one declaration of a row: `none` is the early return of an unresolved graph
abbrev pub declared_dependent :
    List String → Row → Option String → Option PluginDependentKind → Option (List PluginDependent)
declared_dependent provided row none kind = none
declared_dependent provided row (some capability) none = none
declared_dependent provided row (some capability) (some kind) =
    some (if any (λ c. c == capability) provided then dependent row capability kind ∷ [] else [])

abbrev pub append_maybe :
    Option (List PluginDependent) → Option (List PluginDependent) → Option (List PluginDependent)
append_maybe none later = none
append_maybe (some xs) none = none
append_maybe (some xs) (some ys) = some (xs ++ ys)

unfoldable pub declared_loop : List String → Row → List Declared → Option (List PluginDependent)
declared_loop provided row [] = some []
declared_loop provided row (item ∷ items) =
    append_maybe (declared_dependent provided row (named item.capability) (kind_of item.strength))
      (declared_loop provided row items)

abbrev pub row_dependents :
    List String → Row → Option (List Declared) → Option (List PluginDependent)
row_dependents provided row none = some []
row_dependents provided row (some items) = declared_loop provided row items

abbrev pub is_self : String → String → Row → Bool
is_self owner version row = row.owner == owner && row.version == version

abbrev pub is_nameless : String → String → Bool
is_nameless owner version = owner == "" || version == ""

unfoldable pub registry_loop :
    String → String → List String → List Row → Option (List PluginDependent)
registry_loop owner version provided [] = some []
registry_loop owner version provided (row ∷ rows) =
    let later = registry_loop owner version provided rows in
    if is_self owner version row
    then later
    else if is_nameless row.owner row.version
    then none
    else append_maybe (row_dependents provided row row.plugin_dependencies) later

abbrev pub is_hard : PluginDependent → Bool
is_hard d = elim d.kind [ PluginDependentKind.hard ↦ true | _ ↦ false ]

abbrev pub is_optional : PluginDependent → Bool
is_optional d = elim d.kind [ PluginDependentKind.optional ↦ true | _ ↦ false ]

abbrev pub severity_of : List PluginDependent → Severity
severity_of dependents =
    if any is_hard dependents
    then Severity.hard
    else if any is_optional dependents
    then Severity.optional
    else Severity.nothing

abbrev pub result_of : Option (List PluginDependent) → PluginDependencyResult
result_of none = record { severity = unresolved; dependents = [] }
result_of (some dependents) = record { severity = severity_of dependents; dependents = dependents }

unfoldable pub analyze_plugin_dependents :
    String → String → List String → List Row → PluginDependencyResult
analyze_plugin_dependents owner version capabilities registry =
    if is_nameless owner version
    then record { severity = unresolved; dependents = [] }
    else result_of (registry_loop owner version capabilities registry)
