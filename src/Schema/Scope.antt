-- ===== src/Schema/Scope.antt =====
-- Digests, and what a handoff token commits to (src/orchestrator/schema.py).
use amnesic_pi.Prelude.{String, List}
use amnesic_pi.Platform.{Platform}
use amnesic_pi.Value.{Value, str, arr, obj, end, field, items_of}
use amnesic_pi.Value.Canonical.{canonical_json}
use amnesic_pi.Schema.Artifact.{ArtifactRef, to_dicts}

-- `payload_digest`
abbrev pub payload_digest : Platform → Value → String
payload_digest p payload = p.sha256_hex (canonical_json payload)

-- `envelope_scope`
abbrev pub envelope_scope : String → String → String → Value → List ArtifactRef → Value
envelope_scope graph_id node_id exit_gate payload deliverables = obj (
    field "graph_id" (str graph_id) (
      field "node_id" (str node_id) (
        field "exit_gate" (str exit_gate) (
          field "payload" payload
            (field "deliverables" (arr (items_of (to_dicts deliverables))) end)))))
