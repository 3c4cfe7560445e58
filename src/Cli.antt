-- ===== src/Cli.antt =====
-- src/orchestrator/cli.py: the commands of the control plane, and the exit status of the process. The
-- files come in as their reading returned or raised; `printed` is what printing raises, if anything.
pub mod Exits
use amnesic_pi.Prelude.{
  ℕ, ◌%◌, ◌-◌, String, Bool, true, false, Option, none, some, List, [], ◌∷◌, str_eq, if◌then◌else◌,
}
use amnesic_pi.Prelude.Int.{ℤ, pos, negsuc}
use amnesic_pi.Prelude.Text.{strip, same_codes}
use amnesic_pi.Errors.{
  Exn, Result, Done, ok, err, broken_pipe, is_os_error, is_orchestrator_error, ◌>>=◌, ◌>>◌,
}
use amnesic_pi.Platform.{Platform}
use amnesic_pi.Schema.Node.{WorkNode}
use amnesic_pi.Schema.Graph.{WorkGraph, from_json}
use amnesic_pi.Schema.Envelope.{TaskEnvelope}
use amnesic_pi.Topology
use amnesic_pi.Topology.{Topology}
use amnesic_pi.Tokens.{Entropy}
use amnesic_pi.Tokens.TaskId.{new_task_id}
use amnesic_pi.Audit.{AuditLog, verify_chain, check_mirror}
use amnesic_pi.Replay.{replay}
use amnesic_pi.ColdStart.{Outcome, Report, cold_start}
use amnesic_pi.Dispatch.{dispatch_graph}
use amnesic_pi.Dispatch.Records.{Dispatcher, Draw}

-- `path_arg`; `none` is `ArgumentTypeError`.
unfoldable pub path_arg : List ℕ → Option (List ℕ)
path_arg value = if same_codes (strip value) [] then none else some value

-- `cmd_topology`, given what `Topology.load` returns or raises.
abbrev pub cmd_topology : Result Topology → Done → Result ℤ
cmd_topology loaded printed = do t ← loaded; printed; ok (pos 0)

-- `cmd_gates`
abbrev pub cmd_gates : Done → Result ℤ
cmd_gates printed = do printed; ok (pos 0)

-- `for node in graph.nodes: topology.team(node.team)`
unfoldable pub find_teams : Topology → List WorkNode → Done
find_teams t [] = ok tt
find_teams t (n ∷ ns) = do team ← Topology.team t n.team; find_teams t ns

-- `cmd_validate_graph`
unfoldable pub cmd_validate_graph : Platform → Result Topology → Result (List ℕ) → Done → Result ℤ
cmd_validate_graph p loaded file printed = do
  t ← loaded
  text ← file
  graph ← from_json p text
  find_teams t graph.nodes
  printed
  ok (pos 0)

-- `cmd_audit_verify`
unfoldable pub cmd_audit_verify : Platform → AuditLog → Done → Result ℤ
cmd_audit_verify p log printed = do
  count ← verify_chain p log
  check_mirror log
  state ← replay p log
  printed
  ok (pos 0)

-- `cmd_coldstart`, with the log that it leaves.
unfoldable pub cmd_coldstart :
    Platform → ℕ → Entropy → Result Topology → AuditLog → Done → Result ℤ × AuditLog
cmd_coldstart p now e loaded log printed =
    let (out, after) = cold_start p now e loaded log none in
    let code : Result ℤ = do (d, report) ← out; printed; ok (if report.ok_ then pos 0 else pos 1)
    in (code, after)

-- `args.graph_id or new_task_id()`
abbrev pub graph_id_or : Option String → Draw → String
graph_id_or none draw = new_task_id draw.millis draw.random
graph_id_or (some id) draw = if str_eq id "" then new_task_id draw.millis draw.random else id

-- After the graph was dispatched: `lead = dispatcher.topology.team(envelope.team).lead` while printing.
unfoldable pub find_leads : Topology → List TaskEnvelope → Done
find_leads t [] = ok tt
find_leads t (x ∷ xs) = do team ← Topology.team t x.team; find_leads t xs

abbrev pub after_graph : Done → Result (List TaskEnvelope) × Dispatcher → Result ℤ × AuditLog
after_graph printed (err x, d) = (err x, d.audit)
after_graph printed (ok envelopes, d) =
    let code : Result ℤ = (do find_leads d.topology envelopes; printed; ok (pos 0)) in
    (code, d.audit)

abbrev pub with_graph :
    Platform → (ℕ → Draw) → String → Done → Dispatcher → Result WorkGraph → Result ℤ × AuditLog
with_graph p draw graph_id printed d (err x) = (err x, d.audit)
with_graph p draw graph_id printed d (ok graph) =
    after_graph printed (dispatch_graph p draw graph graph_id true d)

abbrev pub after_cold_start :
    Platform → (ℕ → Draw) → String → Result WorkGraph → Done → Outcome → Result ℤ × AuditLog
after_cold_start p draw graph_id graph printed (err x, log) = (err x, log)
after_cold_start p draw graph_id graph printed (ok (none, report), log) =
    ((do printed; ok (pos 1)), log)
after_cold_start p draw graph_id graph printed (ok (some d, report), log) =
    with_graph p draw graph_id printed d graph

-- `cmd_dispatch`, with the log that it leaves; the graph file is read after the cold start.
unfoldable pub cmd_dispatch :
    Platform
    → ℕ
    → Entropy
    → Result Topology
    → AuditLog
    → Result (List ℕ)
    → Option String
    → Draw
    → (ℕ → Draw)
    → Done
    → Result ℤ × AuditLog
cmd_dispatch p now e loaded log file graph_id first draw printed =
    after_cold_start p draw (graph_id_or graph_id first) (file >>= from_json p) printed
      (cold_start p now e loaded log none)

-- `main`: the low byte of a returned number, 2 for a refusal or an `OSError`, 0 for a closed pipe, and
-- 1 where Python prints a traceback.
abbrev pub exit_status : Result ℤ → ℕ
exit_status (ok (pos n)) = n % 256
exit_status (ok (negsuc n)) = 255 - n % 256
exit_status (err broken_pipe) = 0
exit_status (err e) = if is_orchestrator_error e then 2 else if is_os_error e then 2 else 1
