-- ===== src/Schema/Envelope.antt =====
-- `TaskEnvelope` of src/orchestrator/schema.py.
use amnesic_pi.Prelude.{ℕ, String, Option, none, some, List, is_empty, elem}
use amnesic_pi.Prelude.Int.{ℤ, pos, leb_ℤ}
use amnesic_pi.Errors.{
  Result, Done, ok, err, schema_error, attribute_error, require, refuse_if, ◌>>◌,
}
use amnesic_pi.Platform.{Platform, utc}
use amnesic_pi.Value.{Value, int, str, arr, obj, Fields, end, field, items_of}
use amnesic_pi.Schema.Basics.{matches_task_id, dispatchable_tiers}
use amnesic_pi.Schema.Artifact.{ArtifactRef, to_dicts, validate_all}
use amnesic_pi.Tokens
use amnesic_pi.Tokens.{HandoffToken}

-- `token` is a token or `None`.
pub record TaskEnvelope : Type 0 where
  pub task_id : String
  pub graph_id : String
  pub node_id : String
  pub team : String
  pub tier_max : String
  pub payload : Fields
  pub deliverables : List ArtifactRef
  pub exit_gate : String
  pub token : Option HandoffToken
  pub parent_audit_seq : ℤ
  pub deadline : Option ℕ

-- `TaskEnvelope.validate`
unfoldable pub validate : TaskEnvelope → Done
validate e = do
  require (matches_task_id e.task_id) schema_error
  require (elem e.tier_max dispatchable_tiers) schema_error
  require (leb_ℤ (pos 0) e.parent_audit_seq) schema_error
  refuse_if (is_empty e.deliverables) schema_error
  validate_all e.deliverables

-- `TaskEnvelope.to_dict`; `None` has no `to_dict`.
unfoldable pub to_dict : Platform → TaskEnvelope → Result Value
to_dict p e = elim e.token [
  | none ↦ err attribute_error
  | some token ↦ ok (
      obj (
        field "task_id" (str e.task_id) (
          field "graph_id" (str e.graph_id) (
            field "node_id" (str e.node_id) (
              field "team" (str e.team) (
                field "tier_max" (str e.tier_max) (
                  field "payload" (obj e.payload) (
                    field "deliverables" (arr (items_of (to_dicts e.deliverables))) (
                      field "exit_gate" (str e.exit_gate) (
                        field "token" (Tokens.to_dict p token) (
                          field "parent_audit_seq" (int e.parent_audit_seq) (elim e.deadline [
                            | none ↦ end
                            | some t ↦ field "deadline" (str (p.isoformat (utc t))) end
                          ]))))))))))))
]
