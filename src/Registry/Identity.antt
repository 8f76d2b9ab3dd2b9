-- ===== src/Registry/Identity.antt =====
-- domain/registry/normalize.ts: the regular expressions of identities, as matchers, and `recordKey`.
use Prim.Native.Char.{Char, code}
use dsh_assistant.Prelude.{
  leb, if◌then◌else◌, text_equality, number_equality, ◌==◌, ◌&◌, ℕ, suc, String, Bool, true, false,
  ◌&&◌, ◌||◌, Option, none, some, ◌≡◌, refl,
}
use dsh_assistant.Prelude.Result.{Result, ok, raise}
use dsh_assistant.Json.{quote}
use dsh_assistant.Registry.Types.{RegistryError, contract}

abbrev within : ℕ → ℕ → Char → Bool
within low high c = leb low (code c) && leb (code c) high

-- `[a-z]`, `[A-Za-z]`, `[0-9]`
abbrev is_lower : Char → Bool
is_lower = within 97 122

abbrev is_letter : Char → Bool
is_letter c = is_lower c || within 65 90 c

abbrev is_digit : Char → Bool
is_digit = within 48 57

-- `[a-z0-9-]` and `[A-Za-z0-9._-]`
abbrev is_slug : Char → Bool
is_slug c = is_lower c || is_digit c || code c == 45

abbrev is_word : Char → Bool
is_word c = is_letter c || is_digit c || code c == 46 || code c == 95 || code c == 45

every : (Char → Bool) → String → Bool
every p String.[] = true
every p (String.◌∷◌ c s) = p c && every p s

-- a first character of one class, and the rest of another
starting : (Char → Bool) → (Char → Bool) → String → Bool
unfolding every
starting p q String.[] = false
starting p q (String.◌∷◌ c s) = p c && every q s

-- the text after a prefix
strip : String → String → Option String
strip String.[] s = some s
strip (String.◌∷◌ c p) String.[] = none
strip (String.◌∷◌ c p) (String.◌∷◌ d s) = if code c == code d then strip p s else none

abbrev or_else : Option String → Option String → Option String
or_else (some s) other = some s
or_else none other = other

-- `s.startsWith(prefix)`
unfoldable pub starts_with : String → String → Bool
unfolding strip
starts_with prefix s = elim (strip prefix s) [ none ↦ false | some rest ↦ true ]

-- `^(managed|generated|third-party)\/[a-z][a-z0-9-]*$`
owner_id : String → Bool
unfolding strip starting
owner_id s =
    elim (or_else (strip "managed/" s) (or_else (strip "generated/" s) (strip "third-party/" s))) [
      | none ↦ false
      | some name ↦ starting is_lower is_slug name
    ]

-- How far a text of segments `[a-z][a-z0-9-]*` with a dot between two of them is read: a segment is
-- to begin, or the segment of this number is under way.
pub data Dotted : Type 0 where
  broken : Dotted
  beginning inside : ℕ → Dotted

abbrev dotted_step : Dotted → Char → Dotted
dotted_step broken c = broken
dotted_step (beginning n) c = if is_lower c then inside (suc n) else broken
dotted_step (inside n) c =
    if is_slug c then inside n else if code c == 46 then beginning n else broken

dotted : Dotted → String → Dotted
dotted at String.[] = at
dotted at (String.◌∷◌ c s) = dotted (dotted_step at c) s

-- at least so many whole segments
abbrev has_segments : ℕ → Dotted → Bool
has_segments least (inside n) = leb least n
has_segments least _ = false

-- `^[a-z][a-z0-9-]*(?:\.[a-z][a-z0-9-]*)*$`, and with `+` for the last `*`
token : String → Bool
unfolding dotted
token s = has_segments 1 (dotted (beginning 0) s)

capability_id : String → Bool
unfolding dotted
capability_id s = has_segments 2 (dotted (beginning 0) s)

-- how far a text of numerals `0|[1-9]\d*` with a dot between two of them is read: after so many dots,
-- a numeral is to begin, is the digit 0, or is under way
pub data Versioned : Type 0 where
  malformed : Versioned
  empty nought digits : ℕ → Versioned

abbrev versioned_step : Versioned → Char → Versioned
versioned_step malformed c = malformed
versioned_step (empty n) c =
    if is_digit c then (if code c == 48 then nought n else digits n) else malformed
versioned_step (nought n) c = if code c == 46 then empty (suc n) else malformed
versioned_step (digits n) c =
    if is_digit c then digits n else if code c == 46 then empty (suc n) else malformed

versioned : Versioned → String → Versioned
versioned at String.[] = at
versioned at (String.◌∷◌ c s) = versioned (versioned_step at c) s

abbrev after_two_dots : Versioned → Bool
after_two_dots (nought n) = n == 2
after_two_dots (digits n) = n == 2
after_two_dots _ = false

-- `^(0|[1-9]\d*)\.(0|[1-9]\d*)\.(0|[1-9]\d*)$`
unfoldable pub strict_semver : String → Bool
unfolding versioned
strict_semver s = after_two_dots (versioned (empty 0) s)

abbrev checked : Bool → String → String → Result RegistryError String
checked valid label raw =
    if valid then ok raw else raise (contract ("malformed " & label & ": " & quote raw))

unfoldable pub parse_capability_id : String → Result RegistryError String
unfolding capability_id
parse_capability_id raw = checked (capability_id raw) "capability identity" raw

unfoldable pub parse_owner_id : String → Result RegistryError String
unfolding owner_id
parse_owner_id raw = checked (owner_id raw) "owner id" raw

unfoldable pub parse_version : String → Result RegistryError String
unfolding starting
parse_version raw = checked (starting (λ c. is_letter c || is_digit c) is_word raw) "version" raw

unfoldable pub parse_token : String → String → Result RegistryError String
unfolding token
parse_token label raw = checked (token raw) label raw

unfoldable pub parse_name : String → String → Result RegistryError String
unfolding starting
parse_name label raw = checked (starting is_letter is_word raw) label raw

unfoldable pub record_key : String → String → String
record_key owner version = owner & "@" & version

identities_evaluated :
    (parse_capability_id "mail.read-1" ≡ ok "mail.read-1")
    × (capability_id "mail" ≡ false)
    × (parse_owner_id "third-party/a1" ≡ ok "third-party/a1")
    × (strict_semver "1.20.0" ≡ true)
    × (strict_semver "1.02.0" ≡ false)
unfolding parse_capability_id parse_owner_id strict_semver versioned dotted token capability_id
    owner_id
identities_evaluated = (refl, refl, refl, refl, refl)
