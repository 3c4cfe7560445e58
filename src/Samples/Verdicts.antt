-- ===== src/Samples/Verdicts.antt =====
-- Runs of the theorems on verdicts and status reports, on the dispatcher of the other samples.
use amnesic_pi.Prelude.{String, ◌≡◌, refl, Bool, false, true, Option, none, some, [], ◌∷◌, arith}
use amnesic_pi.Prelude.Dict
use amnesic_pi.Prelude.Dict.{text_key}
use amnesic_pi.Errors.{ok}
use amnesic_pi.Platform.{Platform, utc}
use amnesic_pi.Value.{Value, str, obj, null, field, end}
use amnesic_pi.Gates.{GateResult}
use amnesic_pi.Schema.Status
use amnesic_pi.Schema.Status.{StatusUpdate}
use amnesic_pi.Dispatch.Records.{Dispatcher}
use amnesic_pi.Dispatch.Ingress.{ingest_status}
use amnesic_pi.Dispatch.Verdicts.{IsReported, ingest_status-IsReported}
use amnesic_pi.Samples.Dispatch.{flat, issued}

abbrev first_id : String
first_id = "01ARZ3NDEKTSV4RRFFQ69G5FAV"

abbrev result : GateResult
result = record {
  gate = "POLICY_CLEAN";
  passed = true;
  evidence = "nft -c output" ∷ [];
  checked_by = "policy";
  checked_at = utc 60;
}

abbrev clocked : Platform
clocked = record flat { fromisoformat = λ s. some (utc 500) }

abbrev report : Value
report = obj (
    field "task_id" (str first_id)
      (field "state" (str "running") (field "next_update_by" (str "soon") end)))

abbrev update : StatusUpdate
update = record {
  task_id = first_id;
  state = "running";
  next_update_by = 500;
  pct_complete = null;
  artifacts_produced = [];
  blocker = none;
}

abbrev running : Dispatcher
running = (ingest_status clocked 60 report issued).1

ingested : ingest_status clocked 60 report issued ≡ (ok update, running)
unfolding amnesic_pi.Dispatch.dispatch amnesic_pi.Dispatch.Monad.◌>>=◌
    amnesic_pi.Dispatch.require_writable amnesic_pi.Schema.Node.validate
    amnesic_pi.Schema.Basics.matches_id amnesic_pi.Prelude.Text.is_blank
    amnesic_pi.Schema.Artifact.validate_all amnesic_pi.Schema.Artifact.validate
    amnesic_pi.Schema.Artifact.is_trimmed amnesic_pi.Schema.Artifact.is_contained
    amnesic_pi.Prelude.Text.split amnesic_pi.Prelude.Text.strip
    amnesic_pi.Schema.Node.distinct_values amnesic_pi.Schema.Node.elem_value
    amnesic_pi.Dispatch.resubmitted amnesic_pi.Prelude.Dict.lookup amnesic_pi.Prelude.Dict.insert
    amnesic_pi.Dispatch.issue amnesic_pi.Topology.team amnesic_pi.Gates.gate
    amnesic_pi.Gates.find_gate amnesic_pi.Topology.team_for_gate amnesic_pi.Dispatch.sign
    amnesic_pi.Tokens.sign amnesic_pi.Tokens.current amnesic_pi.Tokens.issue
    amnesic_pi.Tokens.rotate amnesic_pi.Dispatch.next_seq amnesic_pi.Audit.next_seq
    amnesic_pi.Audit.head amnesic_pi.Audit.last_entry amnesic_pi.Audit.read_lines
    amnesic_pi.Prelude.Text.lines_from amnesic_pi.Schema.Envelope.validate
    amnesic_pi.Schema.Basics.matches_task_id amnesic_pi.Dispatch.append amnesic_pi.Audit.append
    amnesic_pi.Dispatch.Ingress.ingest_status amnesic_pi.Dispatch.Ingress.find_record
    amnesic_pi.Dispatch.Ingress.put amnesic_pi.Schema.Status.parse amnesic_pi.Schema.Status.validate
    amnesic_pi.Schema.Basics.require_mapping amnesic_pi.Schema.Basics.strict_keys
    amnesic_pi.Schema.Basics.parse_dt amnesic_pi.Schema.Artifact.parse_all
    amnesic_pi.Value.Canonical.canonical_json
ingested = refl

ingest_status-IsReported_example :
    (Status.parse clocked report ≡ ok update) × IsReported clocked 60 400 update issued running
ingest_status-IsReported_example =
    ingest_status-IsReported clocked 60 400 report update issued running ingested (omega arith)
