-- ===== src/Schema/Basics.antt =====
-- The constants and the helpers at the top of src/orchestrator/schema.py.
use amnesic_pi.Prelude.{
  ℕ, String, Bool, true, false, not, ◌&&◌, ◌||◌, none, some, List, [], ◌∷◌, length, all, any, elem,
  leb, ◌==◌,
}
use amnesic_pi.Prelude.Int.{pos}
use amnesic_pi.Prelude.Text.{codes, between}
use amnesic_pi.Errors.{Exn, Result, Done, ok, err, schema_error, type_error, refuse_if, ◌>>◌}
use amnesic_pi.Platform.{Platform, naive, aware}
use amnesic_pi.Value.{Value, null, bool, int, str, arr, obj, nil, Fields, end, field, keys, list_of}

abbrev pub tiers : List String
tiers = "T1" ∷ "T2" ∷ "T3" ∷ "T4" ∷ []

abbrev pub dispatchable_tiers : List String
dispatchable_tiers = "T2" ∷ "T3" ∷ []

abbrev pub artifact_kinds : List String
artifact_kinds = "file" ∷ "report" ∷ "ruleset" ∷ "image" ∷ "test" ∷ "decision" ∷ []

abbrev pub status_states : List String
status_states =
    "accepted" ∷ "running" ∷ "blocked" ∷ "gate_pending" ∷ "gate_pass" ∷ "gate_fail" ∷ "abandoned"
    ∷ []

abbrev pub invariants : List String
invariants = "I1" ∷ "I2" ∷ "I3" ∷ "I4" ∷ "I5" ∷ "I6" ∷ "I7" ∷ []

abbrev pub max_acceptance_criteria : ℕ
max_acceptance_criteria = 3

is_id_char : ℕ → Bool
is_id_char c = between b'a' b'z' c || between b'0' b'9' c || c == b'-'

is_id : List ℕ → Bool
is_id [] = false
is_id (c ∷ s) = between b'a' b'z' c && leb 1 (length s) && leb (length s) 63 && all is_id_char s

-- `_ID_RE.fullmatch(s)`
unfoldable pub matches_id : String → Bool
unfolding is_id is_id_char
matches_id s = is_id (codes s)

-- The letters that Crockford's alphabet keeps: no I, L, O, U.
unfoldable pub is_ulid_char : ℕ → Bool
is_ulid_char c =
    between b'0' b'9' c
    || between b'A' b'H' c
    || between b'J' b'K' c
    || between b'M' b'N' c
    || between b'P' b'T' c
    || between b'V' b'Z' c

-- `_TASK_ID_RE.fullmatch(s)`
unfoldable pub matches_task_id : String → Bool
unfolding is_ulid_char
matches_task_id s = length (codes s) == 26 && all is_ulid_char (codes s)

-- `bool(v)`
abbrev pub truthy : Value → Bool
truthy null = false
truthy (bool b) = b
truthy (int (pos n)) = not (n == 0)
truthy (int _) = true
truthy (str String.[]) = false
truthy (str _) = true
truthy (arr nil) = false
truthy (arr _) = true
truthy (obj end) = false
truthy (obj _) = true

-- The text in a value, or the exception that its use as a text raises.
abbrev pub as_str : Exn → Value → Result String
as_str e (str s) = ok s
as_str e _ = err e

-- `tuple(v)`: a text falls into its characters, an object into its keys.
abbrev pub chars : String → List Value
chars String.[] = []
chars (String.◌∷◌ c s) = str (String.◌∷◌ c String.[]) ∷ chars s

abbrev pub key_values : Fields → List Value
key_values end = []
key_values (field k v fs) = str k ∷ key_values fs

abbrev pub as_tuple : Value → Result (List Value)
as_tuple (arr vs) = ok (list_of vs)
as_tuple (str s) = ok (chars s)
as_tuple (obj fs) = ok (key_values fs)
as_tuple _ = err type_error

-- `_require_mapping`
unfoldable pub require_mapping : Value → Result Fields
require_mapping (obj fs) = ok fs
require_mapping _ = err schema_error

-- `_strict_keys`: no key outside `allowed`, every key of `required`.
unfoldable pub strict_keys : Fields → List String → List String → Done
strict_keys raw allowed required = do
  refuse_if (any (λ k. not (elem k allowed)) (keys raw)) schema_error
  refuse_if (any (λ k. not (elem k (keys raw))) required) schema_error

-- `_parse_dt`; a value that is already a `datetime` does not come out of JSON.
unfoldable pub parse_dt : Platform → Value → Result ℕ
parse_dt p (str s) = elim (p.fromisoformat s) [
  | none ↦ err schema_error
  | some d ↦ elim d [ naive t ↦ err schema_error | aware t offset ↦ ok t ]
]
parse_dt p _ = err schema_error
