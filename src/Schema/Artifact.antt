-- ===== src/Schema/Artifact.antt =====
-- `ArtifactRef` of src/orchestrator/schema.py.
use amnesic_pi.Prelude.{
  ℕ, String, Bool, false, not, ◌&&◌, ◌||◌, Option, none, some, List, [], ◌∷◌, length, all, any,
  elem, ◌==◌, if◌then◌else◌,
}
use amnesic_pi.Prelude.Text.{codes, between, strip, split, same_codes}
use amnesic_pi.Errors.{
  Result, Done, ok, err, schema_error, type_error, attribute_error, require, ◌>>=◌, ◌>>◌,
}
use amnesic_pi.Value.{Value, null, str, obj, end, field, get_or_null, item}
use amnesic_pi.Schema.Basics.{artifact_kinds, truthy, as_str, require_mapping, strict_keys}

pub record ArtifactRef : Type 0 where
  pub kind : String
  pub path : String
  pub sha256 : Option String

abbrev pub check_kind : String → Done
check_kind kind = require (elem kind artifact_kinds) schema_error

is_absolute : List ℕ → Bool
is_absolute [] = false
is_absolute (c ∷ s) = c == b'/'

-- The tests on a path, without and with a slash in sight.
unfoldable pub is_trimmed : String → Bool
is_trimmed path = not (same_codes (codes path) []) && same_codes (strip (codes path)) (codes path)

unfoldable pub is_contained : String → Bool
unfolding is_absolute
is_contained path =
    not (is_absolute (codes path))
    && not (any (λ part. same_codes part (b'.' ∷ b'.' ∷ [])) (split b'/' (codes path)))

abbrev pub check_path : String → Done
check_path path = do
  require (is_trimmed path) schema_error
  require (is_contained path) schema_error

-- `re.fullmatch(r"[0-9a-f]{64}", s)`
unfoldable pub is_hex_digest : String → Bool
is_hex_digest s =
    length (codes s) == 64 && all (λ c. between b'0' b'9' c || between b'a' b'f' c) (codes s)

abbrev pub check_sha256 : Option String → Done
check_sha256 none = ok tt
check_sha256 (some s) = require (is_hex_digest s) schema_error

-- `ArtifactRef.validate`
unfoldable pub validate : ArtifactRef → Done
validate ref = do check_kind ref.kind; check_path ref.path; check_sha256 ref.sha256

-- `ArtifactRef.to_dict`
abbrev pub to_dict : ArtifactRef → Value
to_dict ref = obj (
    field "kind" (str ref.kind) (
      field "path" (str ref.path)
        (elim ref.sha256 [ none ↦ end | some s ↦ field "sha256" (str s) end ])))

-- What `not self.path` and `self.path.strip()` make of a path that is no text.
read_path : Value → Result String
read_path v = if truthy v then as_str attribute_error v else err schema_error

read_sha256 : Value → Result (Option String)
read_sha256 null = ok none
read_sha256 v = do s ← as_str type_error v; ok (some s)

-- `ArtifactRef.parse`, with the checks of `validate` in their order.
unfoldable pub parse : Value → Result ArtifactRef
unfolding read_path read_sha256
parse raw = do
  fields ← require_mapping raw
  strict_keys fields ("kind" ∷ "path" ∷ "sha256" ∷ []) ("kind" ∷ "path" ∷ [])
  kind_value ← item fields "kind"
  path_value ← item fields "path"
  kind ← as_str schema_error kind_value
  check_kind kind
  path ← read_path path_value
  check_path path
  sha256 ← read_sha256 (get_or_null fields "sha256")
  check_sha256 sha256
  ok (record { kind = kind; path = path; sha256 = sha256 })

-- `[ref.to_dict() for ref in refs]`
abbrev pub to_dicts : List ArtifactRef → List Value
to_dicts [] = []
to_dicts (r ∷ rs) = to_dict r ∷ to_dicts rs

-- `tuple(ArtifactRef.parse(r) for r in raws)`
unfoldable pub parse_all : List Value → Result (List ArtifactRef)
parse_all [] = ok []
parse_all (v ∷ vs) = do r ← parse v; rs ← parse_all vs; ok (r ∷ rs)

-- `for ref in refs: ref.validate()`
unfoldable pub validate_all : List ArtifactRef → Done
validate_all [] = ok tt
validate_all (r ∷ rs) = do validate r; validate_all rs
