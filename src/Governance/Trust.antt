-- ===== src/Governance/Trust.antt =====
-- domain/generated-runtime/trust.ts: which code has to run isolated.
use dsh_assistant.Prelude.{
  none, if◌then◌else◌, text_equality, number_equality, ◌==◌, String, Bool, true, false, ◌||◌,
  Option, some,
}
use dsh_assistant.Registry.Identity.{starts_with}

-- `field === text` where the field may be missing
abbrev pub is_text : String → Option String → Bool
is_text text none = false
is_text text (some s) = s == text

unfoldable pub requires_isolated_generated_runtime : String → Option String → Option String → Bool
requires_isolated_generated_runtime owner provenance_kind origin =
    if starts_with "generated/" owner || starts_with "third-party/" owner
    then true
    else if is_text "generated" provenance_kind || is_text "third-party" provenance_kind
    then true
    else if is_text "assistant" origin || is_text "import" origin
    then true
    else false

unfoldable pub is_imported_third_party : Option String → Option String → Option String → Bool
is_imported_third_party none provenance_kind origin =
    is_text "third-party" provenance_kind || is_text "import" origin
is_imported_third_party (some owner) provenance_kind origin =
    starts_with "third-party/" owner
    || is_text "third-party" provenance_kind
    || is_text "import" origin
