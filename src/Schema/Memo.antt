-- ===== src/Schema/Memo.antt =====
-- `DecisionMemo` of src/orchestrator/schema.py.
use amnesic_pi.Prelude.{ℕ, String, List, length, elem, leb}
use amnesic_pi.Prelude.Text.{is_blank}
use amnesic_pi.Errors.{Done, schema_error, require, refuse_if, ◌>>◌}
use amnesic_pi.Platform.{Platform, utc}
use amnesic_pi.Value.{Value, str, arr, obj, end, field, items_of, strs}

pub record DecisionMemo : Type 0 where
  pub conflict : String
  pub teams : List String
  pub options : List String
  pub chosen : String
  pub rationale : String
  pub decided_at : ℕ

-- `DecisionMemo.validate`
unfoldable pub validate : DecisionMemo → Done
validate m = do
  require (leb 2 (length m.teams)) schema_error
  require (elem m.chosen m.options) schema_error
  refuse_if (is_blank m.rationale) schema_error

-- `DecisionMemo.to_dict`
abbrev pub to_dict : Platform → DecisionMemo → Value
to_dict p m = obj (
    field "conflict" (str m.conflict) (
      field "teams" (arr (items_of (strs m.teams))) (
        field "options" (arr (items_of (strs m.options))) (
          field "chosen" (str m.chosen) (
            field "rationale" (str m.rationale)
              (field "decided_at" (str (p.isoformat (utc m.decided_at))) end))))))
