-- ===== src/Memory/Normalize.antt =====
-- domain/memory/normalize.ts: the checks of what is written. `lower` stands for `toLowerCase`. The
-- tests of enumerations, and of `evidenceIds` as an array, guard callers outside the type checker and
-- always pass here.
use Prim.Native.Char.{Char, code}
use dsh_assistant.Prelude.{
  true, false, leb, if◌then◌else◌, text_equality, number_equality, ◌==◌, ◌&◌, ℕ, String, Bool, not,
  ◌&&◌, ◌||◌,
}
use dsh_assistant.Prelude.Result.{Result, ok, raise, ◌>>=◌, ◌>>◌, require}
use dsh_assistant.Memory.Types.{
  Number, not_finite, fraction, Confidence, score, Provenance, MemoryWriteInput, Polarity,
  same_polarity, is_unknown,
}

abbrev between : ℕ → ℕ → ℕ → Bool
between low high n = leb low n && leb n high

-- white space and line terminators, by code point
abbrev is_space : Char → Bool
is_space c =
    let n = code c in
    between 9 13 n
    || n == 32
    || n == 160
    || n == 5760
    || between 8192 8202 n
    || n == 8232
    || n == 8233
    || n == 8239
    || n == 8287
    || n == 12288
    || n == 65279

trim_start : String → String
trim_start String.[] = ""
trim_start (String.◌∷◌ c s) = if is_space c then trim_start s else String.◌∷◌ c s

-- a text that begins with other than space keeps that character, whatever follows
abbrev join_end : Char → String → String
join_end c String.[] = if is_space c then "" else String.◌∷◌ c String.[]
join_end c (String.◌∷◌ d s) = String.◌∷◌ c (String.◌∷◌ d s)

trim_end : String → String
trim_end String.[] = ""
trim_end (String.◌∷◌ c s) = join_end c (trim_end s)

unfoldable pub trim : String → String
unfolding trim_start trim_end
trim s = trim_end (trim_start s)

-- One character of the shape `dddd-dd-ddTdd:dd:dd`, where `d` is any digit.
abbrev fits : Char → Char → Bool
fits shape c = if code shape == 100 then between 48 57 (code c) else code shape == code c

-- after the seconds: `(?:\.\d+)?Z`
pub data Tail : Type 0 where
  seconds point decimals done wrong : Tail

abbrev tail_step : Tail → Char → Tail
tail_step seconds c = if code c == 90 then done else if code c == 46 then point else wrong
tail_step point c = if between 48 57 (code c) then decimals else wrong
tail_step decimals c =
    if between 48 57 (code c) then decimals else if code c == 90 then done else wrong
tail_step _ c = wrong

tail : Tail → String → Tail
tail at String.[] = at
tail at (String.◌∷◌ c s) = tail (tail_step at c) s

abbrev is_done : Tail → Bool
is_done done = true
is_done _ = false

instant_from : String → String → Bool
unfolding tail
instant_from String.[] s = is_done (tail seconds s)
instant_from (String.◌∷◌ shape p) String.[] = false
instant_from (String.◌∷◌ shape p) (String.◌∷◌ c s) = fits shape c && instant_from p s

-- `ISO_INSTANT`
unfoldable pub iso_instant : String → Bool
unfolding instant_from
iso_instant s = instant_from "dddd-dd-ddTdd:dd:dd" s

-- `!Number.isFinite(v) || v < 0 || v > 1`, negated
abbrev in_unit : Number → Bool
in_unit not_finite = false
in_unit (fraction negative numerator denominator) =
    if negative then numerator == 0 else leb numerator denominator

unfoldable pub assert_confidence : Confidence → Result String (Unit {0})
assert_confidence (score value) =
    require (in_unit value) "confidence score must be a finite number in [0, 1]"
assert_confidence _ = ok tt

unfoldable pub assert_provenance : Provenance → Result String (Unit {0})
assert_provenance provenance =
    require (iso_instant provenance.recorded_at)
      "provenance.recordedAt must be a UTC ISO-8601 instant"

abbrev non_empty : String → String → Result String String
non_empty what s = if s == "" then raise (what & " must be non-empty") else ok s

unfoldable pub normalize_topic_key : (String → String) → String → Result String String
normalize_topic_key lower topic_key = non_empty "topicKey" (lower (trim topic_key))

unfoldable pub normalize_statement : String → Result String String
normalize_statement statement = non_empty "statement" (trim statement)

unfoldable pub normalize_write_input :
    (String → String) → MemoryWriteInput → Result String MemoryWriteInput
unfolding assert_confidence assert_provenance normalize_topic_key normalize_statement
normalize_write_input lower input = do
  assert_confidence input.confidence
  assert_provenance input.provenance
  topic_key ← normalize_topic_key lower input.topic_key
  statement ← normalize_statement input.statement
  ok (record input { topic_key = topic_key; statement = statement })

unfoldable pub statements_conflict : String → Polarity → String → Polarity → Bool
statements_conflict s p s' p' =
    if s == s' && same_polarity p p'
    then false
    else if is_unknown p || is_unknown p'
    then not (s == s') || not (same_polarity p p')
    else not (s == s') || not (same_polarity p p')
