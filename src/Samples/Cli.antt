-- ===== src/Samples/Cli.antt =====
-- Runs of the theorems on the commands of the control plane, with an empty log and a graph of one node.
use amnesic_pi.Prelude.{ℕ, ◌≡◌, ◌↔◌, ◌⊎◌, refl, none, some, List, All}
use amnesic_pi.Prelude.Int.{pos}
use amnesic_pi.Prelude.Text.{codes}
use amnesic_pi.Errors.{Result, ok}
use amnesic_pi.Platform.{Platform}
use amnesic_pi.Schema.Graph
use amnesic_pi.Schema.Graph.{WorkGraph, from_json}
use amnesic_pi.Topology.{Topology}
use amnesic_pi.Audit.{AuditLog}
use amnesic_pi.Cli.{graph_id_or, cmd_validate_graph, cmd_dispatch}
use amnesic_pi.Cli.Exits.{IsDispatched, IsTeam, cmd_dispatch-IsDispatched, cmd_validate_graph_iff}
use amnesic_pi.Samples.Topology.{topology}
use amnesic_pi.Samples.Dispatch.{flat, entropy, log, graph, draw}

abbrev reading : Platform
reading = record flat { loads = λ s. some (Graph.to_dict flat graph) }

abbrev file : Result (List ℕ)
file = ok (codes "{}")

abbrev after : AuditLog
after =
    (cmd_dispatch reading 20 entropy (ok topology) log file (some "g1") draw (λ n. draw) (ok tt)).1

dispatched :
    cmd_dispatch reading 20 entropy (ok topology) log file (some "g1") draw (λ n. draw) (ok tt)
    ≡ (ok (pos 0), after)
unfolding cmd_dispatch amnesic_pi.Audit.append amnesic_pi.Audit.check_mirror
    amnesic_pi.Audit.entries_of amnesic_pi.Audit.head amnesic_pi.Audit.last_entry
    amnesic_pi.Audit.next_seq amnesic_pi.Audit.read_lines amnesic_pi.Audit.verify_chain
    amnesic_pi.Audit.verify_from amnesic_pi.Cli.find_leads amnesic_pi.ColdStart.cold_start
    amnesic_pi.ColdStart.pause_all amnesic_pi.ColdStart.reopen
    amnesic_pi.Dispatch.Gating.assert_shippable amnesic_pi.Dispatch.Gating.live_record
    amnesic_pi.Dispatch.Gating.may_ship amnesic_pi.Dispatch.Gating.select_nodes
    amnesic_pi.Dispatch.Ingress.consume amnesic_pi.Dispatch.Ingress.deliver
    amnesic_pi.Dispatch.Ingress.find_record amnesic_pi.Dispatch.Ingress.put
    amnesic_pi.Dispatch.Monad.◌>>=◌ amnesic_pi.Dispatch.Restore.restore_from
    amnesic_pi.Dispatch.Restore.restore_tasks amnesic_pi.Dispatch.append
    amnesic_pi.Dispatch.dispatch amnesic_pi.Dispatch.dispatch_graph amnesic_pi.Dispatch.issue
    amnesic_pi.Dispatch.next_seq amnesic_pi.Dispatch.require_writable
    amnesic_pi.Dispatch.resubmitted amnesic_pi.Dispatch.sign amnesic_pi.Gates.find_gate
    amnesic_pi.Gates.gate amnesic_pi.Gates.parse amnesic_pi.Gates.read_texts
    amnesic_pi.Prelude.Dict.insert amnesic_pi.Prelude.Dict.lookup amnesic_pi.Prelude.Text.is_blank
    amnesic_pi.Prelude.Text.lines_from amnesic_pi.Prelude.Text.split amnesic_pi.Prelude.Text.strip
    amnesic_pi.Replay.any_unknown amnesic_pi.Replay.open_of amnesic_pi.Replay.open_tasks
    amnesic_pi.Replay.replay amnesic_pi.Replay.replay_entries
    amnesic_pi.Schema.Artifact.is_contained amnesic_pi.Schema.Artifact.is_trimmed
    amnesic_pi.Schema.Artifact.parse amnesic_pi.Schema.Artifact.parse_all
    amnesic_pi.Schema.Artifact.validate amnesic_pi.Schema.Artifact.validate_all
    amnesic_pi.Schema.Basics.matches_id amnesic_pi.Schema.Basics.matches_task_id
    amnesic_pi.Schema.Basics.require_mapping amnesic_pi.Schema.Basics.strict_keys
    amnesic_pi.Schema.Envelope.validate amnesic_pi.Schema.Graph.from_json
    amnesic_pi.Schema.Graph.parse amnesic_pi.Schema.Graph.parse_nodes
    amnesic_pi.Schema.Graph.read_invariants amnesic_pi.Schema.Graph.validate
    amnesic_pi.Schema.Node.distinct_values amnesic_pi.Schema.Node.elem_value
    amnesic_pi.Schema.Node.parse amnesic_pi.Schema.Node.validate amnesic_pi.Tokens.check_team
    amnesic_pi.Tokens.check_tier amnesic_pi.Tokens.compare_digest amnesic_pi.Tokens.consume
    amnesic_pi.Tokens.current amnesic_pi.Tokens.index_of amnesic_pi.Tokens.issue
    amnesic_pi.Tokens.lookup amnesic_pi.Tokens.message amnesic_pi.Tokens.rotate
    amnesic_pi.Tokens.sign amnesic_pi.Tokens.verify amnesic_pi.Topology.team
    amnesic_pi.Topology.team_for_gate amnesic_pi.Value.Canonical.canonical_json
    amnesic_pi.Tokens.new_ring amnesic_pi.Schema.Node.read_criteria
    amnesic_pi.Schema.Graph.check_nodes amnesic_pi.Schema.Graph.check_edges
    amnesic_pi.Schema.Graph.reject_cycles amnesic_pi.Schema.Graph.reject_shared_deliverables
    amnesic_pi.Schema.Graph.claim_nodes amnesic_pi.Schema.Graph.claim
    amnesic_pi.Dispatch.dispatch_nodes amnesic_pi.Tokens.TaskId.new_task_id
    amnesic_pi.Tokens.TaskId.ulid_chars
dispatched = refl

cmd_dispatch-IsDispatched_example :
    ((pos 0 ≡ pos 0)
      × IsDispatched reading 20 entropy
          (ok topology)
          log
          file
          (graph_id_or (some "g1") draw)
          (λ n. draw)
          after)
    ⊎ ((pos 0 ≡ pos 1) × (after ≡ log))
cmd_dispatch-IsDispatched_example =
    cmd_dispatch-IsDispatched reading 20 entropy (ok topology) log file (some "g1") draw (λ n. draw)
      (ok tt) (pos 0) after dispatched

cmd_validate_graph_iff_example :
    (cmd_validate_graph reading (ok topology) file (ok tt) ≡ ok (pos 0)) ↔ (
      (t : Topology) × (text : List ℕ) × (graph : WorkGraph) × (ok topology ≡ ok t)
      × (file ≡ ok text)
      × (from_json reading text ≡ ok graph)
      × All (λ n. IsTeam t n.team) graph.nodes)
cmd_validate_graph_iff_example = cmd_validate_graph_iff reading (ok topology) file
