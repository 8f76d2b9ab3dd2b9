-- ===== src/Registry/Types.antt =====
-- domain/registry/types.ts. Enumerations are data types here, so that the tests of `parseEnum`, which
-- guard callers outside the type checker, always pass.
use dsh_assistant.Prelude.{text_equality, number_equality, String, Bool, true, false, Option, List}

pub data EvidenceLevel : Type 0 where
  designed implemented verified experimental unknown unsupported : EvidenceLevel

pub data LifecycleStatus : Type 0 where
  candidate active disabled retired : LifecycleStatus

pub data ApprovalState : Type 0 where
  unreviewed rejected approved_for_this_diff : ApprovalState

pub data ProvenanceKind : Type 0 where
  managed generated third_party : ProvenanceKind

pub data ProvenanceOrigin : Type 0 where
  human assistant imported : ProvenanceOrigin

pub data Strength : Type 0 where
  hard optional : Strength

pub record ExtensionProvenance : Type 0 where
  pub kind : ProvenanceKind
  pub origin : ProvenanceOrigin

pub record CapabilityClaim : Type 0 where
  pub id : String
  pub permissions : List String

pub record PluginDependency : Type 0 where
  pub capability : String
  pub strength : Strength

pub record RegistryRecord : Type 0 where
  pub owner : String
  pub version : String
  pub provenance : ExtensionProvenance
  pub status : LifecycleStatus
  pub evidence : EvidenceLevel
  pub approval : ApprovalState
  pub capabilities : List CapabilityClaim
  pub permissions : List String
  pub runtime_seams : List String
  pub provider : Option String
  pub tools : List String
  pub services : List String
  pub providers : List String
  pub plugin_dependencies : List PluginDependency

pub record RegistryQuery : Type 0 where
  pub owner : Option String
  pub status : Option LifecycleStatus
  pub capability : Option String
  pub provenance_kind : Option ProvenanceKind

pub data ActiveOwnerResolution : Type 0 where
  unknown : String → ActiveOwnerResolution
  inactive : String → List RegistryRecord → ActiveOwnerResolution
  owned : String → RegistryRecord → ActiveOwnerResolution
  conflict : String → List RegistryRecord → ActiveOwnerResolution

pub record RegistryRevisePatch : Type 0 where
  pub capabilities : Option (List CapabilityClaim)
  pub permissions : Option (List String)
  pub provider : Option String
  pub providers : Option (List String)

pub record RegistryRegisterInput : Type 0 where
  pub owner : String
  pub version : String
  pub provenance : ExtensionProvenance
  pub status : Option LifecycleStatus
  pub evidence : EvidenceLevel
  pub capabilities : List CapabilityClaim
  pub permissions : Option (List String)
  pub runtime_seams : List String
  pub provider : Option String
  pub tools : Option (List String)
  pub services : Option (List String)
  pub providers : Option (List String)
  pub plugin_dependencies : Option (List PluginDependency)

pub data RegistryError : Type 0 where
  contract : String → RegistryError
  -- `OwnershipConflictError`: the capability and the owners that claim it
  ownership_conflict : String → List (String × String) → RegistryError

abbrev pub is_active : LifecycleStatus → Bool
is_active active = true
is_active _ = false

abbrev pub same_status : LifecycleStatus → LifecycleStatus → Bool
same_status candidate candidate = true
same_status active active = true
same_status disabled disabled = true
same_status retired retired = true
same_status _ _ = false

abbrev pub same_kind : ProvenanceKind → ProvenanceKind → Bool
same_kind managed managed = true
same_kind generated generated = true
same_kind third_party third_party = true
same_kind _ _ = false

abbrev pub is_import : ProvenanceOrigin → Bool
is_import imported = true
is_import _ = false
