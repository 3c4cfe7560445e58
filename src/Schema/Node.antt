-- ===== src/Schema/Node.antt =====
-- `WorkNode` of src/orchestrator/schema.py. Two fields keep the values that the payload had, since
-- no check of a node asks what they are: `exit_gate`, and the members of `depends_on`.
use amnesic_pi.Prelude.{
  ℕ, String, Bool, true, false, not, ◌&&◌, ◌||◌, Option, none, some, List, [], ◌∷◌, length, all,
  elem, is_empty, leb, ◌==◌, str_eq,
}
use amnesic_pi.Prelude.Text.{is_blank}
use amnesic_pi.Prelude.Int.{ℤ, pos}
use amnesic_pi.Errors.{
  Result, Done, ok, schema_error, type_error, attribute_error, require, refuse_if, ◌>>=◌, ◌>>◌,
}
use amnesic_pi.Platform.{Platform, utc}
use amnesic_pi.Value.{
  Value, null, bool, int, str, arr, obj, end, field, get, get_or_null, item, items_of, strs,
}
use amnesic_pi.Schema.Basics.{
  max_acceptance_criteria, dispatchable_tiers, matches_id, as_str, as_tuple, require_mapping,
  strict_keys, parse_dt,
}
use amnesic_pi.Schema.Artifact
use amnesic_pi.Schema.Artifact.{ArtifactRef}

pub record WorkNode : Type 0 where
  pub id : String
  pub title : String
  pub team : String
  pub exit_gate : Value
  pub acceptance : List String
  pub tier_max : String
  pub inputs : List ArtifactRef
  pub deliverables : List ArtifactRef
  pub depends_on : List Value
  pub deadline : Option ℕ

abbrev pub check_id : String → Done
check_id id = require (matches_id id) schema_error

abbrev pub check_title : String → Done
check_title title = refuse_if (is_blank title) schema_error

abbrev pub check_size : {A : Type 0} → List A → Done
check_size acceptance = do
  refuse_if (is_empty acceptance) schema_error
  require (leb (length acceptance) max_acceptance_criteria) schema_error

abbrev pub check_criteria : List String → Done
check_criteria [] = ok tt
check_criteria (c ∷ cs) = do refuse_if (is_blank c) schema_error; check_criteria cs

abbrev pub check_tier : String → Done
check_tier tier = require (elem tier dispatchable_tiers) schema_error

-- Python's `==` and hashing, for the values that can stand in a set: `True == 1`.
abbrev pub as_number : Bool → ℤ
as_number true = pos 1
as_number false = pos 0

abbrev pub same_int : ℤ → ℤ → Bool
same_int (pos m) (pos n) = m == n
same_int (ℤ.negsuc m) (ℤ.negsuc n) = m == n
same_int _ _ = false

unfoldable pub same_value : Value → Value → Bool
same_value null null = true
same_value (bool a) (bool b) = same_int (as_number a) (as_number b)
same_value (bool a) (int n) = same_int (as_number a) n
same_value (int m) (bool b) = same_int m (as_number b)
same_value (int m) (int n) = same_int m n
same_value (str s) (str t) = str_eq s t
same_value _ _ = false

abbrev pub is_hashable : Value → Bool
is_hashable (arr vs) = false
is_hashable (obj fs) = false
is_hashable _ = true

unfoldable pub elem_value : Value → List Value → Bool
elem_value v [] = false
elem_value v (w ∷ ws) = same_value v w || elem_value v ws

unfoldable pub distinct_values : List Value → Bool
distinct_values [] = true
distinct_values (v ∷ vs) = not (elem_value v vs) && distinct_values vs

abbrev pub check_depends_on : String → List Value → Done
check_depends_on id deps = do
  require (all is_hashable deps) type_error
  require (distinct_values deps) schema_error
  refuse_if (elem_value (str id) deps) schema_error

-- `WorkNode.validate`
unfoldable pub validate : WorkNode → Done
validate n = do
  check_id n.id
  check_title n.title
  check_id n.team
  check_size n.acceptance
  check_criteria n.acceptance
  check_tier n.tier_max
  refuse_if (is_empty n.deliverables) schema_error
  Artifact.validate_all n.inputs
  Artifact.validate_all n.deliverables
  check_depends_on n.id n.depends_on

-- `WorkNode.to_dict`
abbrev pub to_dict : Platform → WorkNode → Value
to_dict p n = obj (
    field "id" (str n.id) (
      field "title" (str n.title) (
        field "team" (str n.team) (
          field "exit_gate" n.exit_gate (
            field "acceptance" (arr (items_of (strs n.acceptance))) (
              field "tier_max" (str n.tier_max) (
                field "inputs" (arr (items_of (Artifact.to_dicts n.inputs))) (
                  field "deliverables" (arr (items_of (Artifact.to_dicts n.deliverables))) (
                    field "depends_on" (arr (items_of n.depends_on)) (elim n.deadline [
                      | none ↦ end
                      | some t ↦ field "deadline" (str (p.isoformat (utc t))) end
                    ]))))))))))

-- The criteria, each a text that is not blank: what `criterion.strip()` makes of the others.
unfoldable pub read_criteria : List Value → Result (List String)
read_criteria [] = ok []
read_criteria (v ∷ vs) = do
  c ← as_str attribute_error v
  refuse_if (is_blank c) schema_error
  cs ← read_criteria vs
  ok (c ∷ cs)

-- `obj.get(k, [])`, walked as an iterable.
abbrev pub tuple_or_empty : Option Value → Result (List Value)
tuple_or_empty none = ok []
tuple_or_empty (some v) = as_tuple v

abbrev pub read_deadline : Platform → Value → Result (Option ℕ)
read_deadline p null = ok none
read_deadline p v = do t ← parse_dt p v; ok (some t)

abbrev pub node_keys : List String
node_keys =
    "id" ∷ "title" ∷ "team" ∷ "exit_gate" ∷ "acceptance" ∷ "tier_max" ∷ "inputs" ∷ "deliverables"
    ∷ "depends_on" ∷ "deadline" ∷ []

abbrev pub node_required : List String
node_required =
    "id" ∷ "title" ∷ "team" ∷ "exit_gate" ∷ "acceptance" ∷ "tier_max" ∷ "deliverables" ∷ []

-- `WorkNode.parse`, with the checks of `validate` in their order.
unfoldable pub parse : Platform → Value → Result WorkNode
parse p raw = do
  fields ← require_mapping raw
  strict_keys fields node_keys node_required
  id_value ← item fields "id"
  title_value ← item fields "title"
  team_value ← item fields "team"
  exit_gate ← item fields "exit_gate"
  criteria ← (item fields "acceptance" >>= as_tuple)
  tier_value ← item fields "tier_max"
  inputs ← (tuple_or_empty (get fields "inputs") >>= Artifact.parse_all)
  deliverables ← (item fields "deliverables" >>= as_tuple >>= Artifact.parse_all)
  depends_on ← tuple_or_empty (get fields "depends_on")
  deadline ← read_deadline p (get_or_null fields "deadline")
  id ← as_str type_error id_value
  check_id id
  title ← as_str attribute_error title_value
  check_title title
  team ← as_str type_error team_value
  check_id team
  check_size criteria
  acceptance ← read_criteria criteria
  tier_max ← as_str schema_error tier_value
  check_tier tier_max
  refuse_if (is_empty deliverables) schema_error
  Artifact.validate_all inputs
  Artifact.validate_all deliverables
  check_depends_on id depends_on
  ok (record {
    id = id;
    title = title;
    team = team;
    exit_gate = exit_gate;
    acceptance = acceptance;
    tier_max = tier_max;
    inputs = inputs;
    deliverables = deliverables;
    depends_on = depends_on;
    deadline = deadline;
  })
