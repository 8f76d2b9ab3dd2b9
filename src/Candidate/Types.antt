-- ===== src/Candidate/Types.antt =====
-- domain/candidate/types.ts: the fields of a candidate that governance reads.
use dsh_assistant.Prelude.{text_equality, number_equality, String, Bool, true, false, Option, List}
use dsh_assistant.Registry.Types.{ExtensionProvenance, PluginDependency}

pub data CandidateLifecycle : Type 0 where
  planned developing validation_pending validated validation_failed validation_incomplete :
      CandidateLifecycle

pub record CandidateManifest : Type 0 where
  pub resolution_capability : String
  pub capabilities : List String
  pub permissions : List String
  pub runtime_seams : List String
  pub tools : List String
  pub services : List String
  pub providers : List String
  pub runtime_contract_version : Option String
  pub plugin_dependencies : Option (List PluginDependency)

pub record ValidationReport : Type 0 where
  pub passed : Bool
  pub digest : Option String

pub record CandidateRecord : Type 0 where
  pub id : String
  pub owner : String
  pub version : String
  pub base_version : Option String
  pub provenance : ExtensionProvenance
  pub lifecycle : CandidateLifecycle
  pub workspace_root : String
  pub manifest : CandidateManifest
  pub digest : Option String
  pub validation : Option ValidationReport
  pub sealed : Bool

abbrev pub is_validated : CandidateLifecycle → Bool
is_validated validated = true
is_validated _ = false

abbrev pub lifecycle_text : CandidateLifecycle → String
lifecycle_text planned = "planned"
lifecycle_text developing = "developing"
lifecycle_text validation_pending = "validation-pending"
lifecycle_text validated = "validated"
lifecycle_text validation_failed = "validation-failed"
lifecycle_text validation_incomplete = "validation-incomplete"
