-- ===== src/Diagnostics.antt =====
-- crates/tn-diagnostics/src/lib.rs: condition identifiers, source positions and diagnostics.
use typenative.Prelude.{
  ℕ, ◌+◌, ◌-◌, ◌^◌, Bool, true, false, ◌&&◌, ◌||◌, not, List, [], ◌∷◌, String, length, take, drop,
  ◌==◌, ltb, if◌then◌else◌,
}
use Prim.Native.Char.{code}
use Prim.Native.String.{[] as empty, ◌∷◌ as ◌then◌}

-- The bytes of an ASCII text. A text that the compiler computes, and source text, is the list of its bytes.
unfoldable pub codes : String → List ℕ
codes empty = []
codes (c then s) = code c ∷ codes s

abbrev pub within : ℕ → ℕ → ℕ → Bool
within low b high = not (ltb b low) && not (ltb high b)

abbrev pub is_ascii_uppercase : ℕ → Bool
is_ascii_uppercase b = within 65 b 90

abbrev pub is_ascii_digit : ℕ → Bool
is_ascii_digit b = within 48 b 57

-- a byte that may stand in a condition identifier
abbrev pub is_condition_byte : ℕ → Bool
is_condition_byte b = is_ascii_uppercase b || is_ascii_digit b || (b == 95)

abbrev pub all_bytes : (ℕ → Bool) → List ℕ → Bool
all_bytes test [] = true
all_bytes test (b ∷ bs) = test b && all_bytes test bs

abbrev pub is_uppercase_first : List ℕ → Bool
is_uppercase_first [] = false
is_uppercase_first (b ∷ bs) = is_ascii_uppercase b

abbrev pub is_empty : List ℕ → Bool
is_empty [] = true
is_empty (b ∷ bs) = false

-- `ConditionId`, `InvalidConditionId` and the result of `ConditionId::new`
pub data ConditionId : Type 0 where
  condition_id : String → ConditionId

pub data NewCondition : Type 0 where
  valid : ConditionId → NewCondition
  invalid_condition_id : String → NewCondition

unfoldable pub is_condition_name : List ℕ → Bool
is_condition_name bytes =
    not (is_empty bytes) && all_bytes is_condition_byte bytes && is_uppercase_first bytes

unfoldable pub new_condition : String → NewCondition
unfolding is_condition_name codes
new_condition id =
    if is_condition_name (codes id) then valid (condition_id id) else invalid_condition_id id

pub data Severity : Type 0 where
  error : Severity
  warning : Severity
  note : Severity

pub record SourceSpan : Type 0 where
  pub file : String
  pub byte_start : ℕ
  pub byte_end : ℕ
  pub line : ℕ
  pub unicode_column : ℕ

-- `u32::try_from(n).unwrap_or(u32::MAX)`
abbrev pub saturated : ℕ → ℕ
saturated n = if ltb n (2 ^ 32) then n else 2 ^ 32 - 1

-- `prefix.rfind('\n').map_or(0, |index| index + 1)`: the loop has the start of the line it is on
unfoldable pub line_start_from : ℕ → ℕ → List ℕ → ℕ
line_start_from start index [] = start
line_start_from start index (b ∷ bs) =
    line_start_from (if b == 10 then index + 1 else start) (index + 1) bs

unfoldable pub newlines : List ℕ → ℕ
newlines [] = 0
newlines (b ∷ bs) = (if b == 10 then 1 else 0) + newlines bs

-- The characters of a UTF-8 text are its bytes that do not continue a character.
unfoldable pub characters : List ℕ → ℕ
characters [] = 0
characters (b ∷ bs) = (if within 128 b 191 then 0 else 1) + characters bs

abbrev pub smaller : ℕ → ℕ → ℕ
smaller a b = if ltb a b then a else b

-- Of a start that stands between characters or past the end. The source's slice panics at a start inside
-- a character, where this counts the bytes before it.
unfoldable pub new_span : String → ℕ → ℕ → List ℕ → SourceSpan
unfolding line_start_from newlines characters
new_span file first past source =
    let prefix = take (smaller first (length source)) source in
    record {
      file = file;
      byte_start = saturated first;
      byte_end = saturated past;
      line = saturated (newlines prefix + 1);
      unicode_column = saturated (characters (drop (line_start_from 0 0 prefix) prefix) + 1);
    }

pub record Label : Type 0 where
  pub span : SourceSpan
  pub message : String

pub data Applicability : Type 0 where
  machine_applicable : Applicability
  maybe_incorrect : Applicability
  has_placeholders : Applicability
  unspecified : Applicability

pub record Edit : Type 0 where
  pub span : SourceSpan
  pub replacement : String
  pub applicability : Applicability

pub record Diagnostic : Type 0 where
  pub condition : ConditionId
  pub severity : Severity
  pub message : String
  pub primary : Label
  pub secondary : List Label
  pub notes : List String
  pub edits : List Edit
  pub documentation_key : List ℕ

-- `Diagnostic::error`
unfoldable pub error_diagnostic : ConditionId → String → Label → List ℕ → Diagnostic
error_diagnostic condition message primary documentation_key = record {
  condition = condition;
  severity = error;
  message = message;
  primary = primary;
  secondary = [];
  notes = [];
  edits = [];
  documentation_key = documentation_key;
}
