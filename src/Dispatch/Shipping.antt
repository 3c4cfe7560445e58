-- ===== src/Dispatch/Shipping.antt =====
-- Shipping in src/orchestrator/dispatch.py: what `may_ship` needs, also over a whole run.
use amnesic_pi.Prelude.{
  ℕ, String, ◌≡◌, ◌↔◌, refl, ap, ◌∙◌, Bool, true, false, not, ◌||◌, Option, none, some, List, [],
  ◌∷◌, arith, All, is_empty, eq_iff, if◌then◌else◌,
}
use amnesic_pi.Prelude.Dict
use amnesic_pi.Prelude.Dict.{text_key, pair_key}
use amnesic_pi.Errors.{ok, policy_breach, refuse_if}
use amnesic_pi.Platform.{Platform}
use amnesic_pi.Schema.Node.{WorkNode}
use amnesic_pi.Schema.Graph.{WorkGraph}
use amnesic_pi.Gates.{GateResult}
use amnesic_pi.Topology.{Topology}
use amnesic_pi.Tokens.{KeyRing}
use amnesic_pi.Audit.{AuditLog}
use amnesic_pi.Dispatch.Records.{TaskRecord, Dispatcher, new_dispatcher}
use amnesic_pi.Dispatch.Gating.{
  live_record, is_unowned, is_ungated, select_nodes, assert_shippable, without_breach, may_ship,
}
use amnesic_pi.Dispatch.Grows.{HasVerdicts}
use amnesic_pi.Dispatch.Finality.{Run, Run-Grows}

-- The node has a live task, and that task passed its gate.
abbrev pub IsPassed : Dispatcher → String → WorkNode → Type 0
IsPassed d graph_id n =
    (r : TaskRecord) × (live_record d graph_id n.id ≡ some r) × (r.state ≡ "gate_pass")

abbrev Empties : Dispatcher → String → List WorkNode → Type 0
Empties d graph_id ns =
    (is_empty (select_nodes is_unowned d graph_id ns) ≡ true)
    × (is_empty (select_nodes is_ungated d graph_id ns) ≡ true)

passed_of_tests :
    (o : Option TaskRecord)
    → is_unowned o ≡ false
    → is_ungated o ≡ false
    → (r : TaskRecord) × (o ≡ some r) × (r.state ≡ "gate_pass")
passed_of_tests none h k = cc
passed_of_tests (some r) h k = (r, refl, (eq_iff r.state "gate_pass").0 (ground arith))

Empties-All :
    (d : Dispatcher) (graph_id : String) (ns : List WorkNode)
    → Empties d graph_id ns
    → All (IsPassed d graph_id) ns
unfolding select_nodes
Empties-All d graph_id [] h = tt
Empties-All d graph_id (n ∷ ns) (h, k) =
    go (Empties-All d graph_id ns) (is_unowned (live_record d graph_id n.id))
      (is_ungated (live_record d graph_id n.id)) refl refl h k
  where
    go :
        (Empties d graph_id ns → All (IsPassed d graph_id) ns)
        → (t u : Bool) → is_unowned (live_record d graph_id n.id) ≡ t
        → is_ungated (live_record d graph_id n.id) ≡ u
        → is_empty (
            if t
            then n.id ∷ select_nodes is_unowned d graph_id ns
            else select_nodes is_unowned d graph_id ns)
          ≡ true
        → is_empty (
            if u
            then n.id ∷ select_nodes is_ungated d graph_id ns
            else select_nodes is_ungated d graph_id ns)
          ≡ true
        → IsPassed d graph_id n × All (IsPassed d graph_id) ns
    go rest true u a b x y = cc
    go rest false true a b x y = cc
    go rest false false a b x y = (passed_of_tests (live_record d graph_id n.id) a b, rest (x, y))

All-Empties :
    (d : Dispatcher) (graph_id : String) (ns : List WorkNode)
    → All (IsPassed d graph_id) ns
    → Empties d graph_id ns
unfolding select_nodes
All-Empties d graph_id [] h = (refl, refl)
All-Empties d graph_id (n ∷ ns) ((r, live, passed), h) =
    let (x, y) = All-Empties d graph_id ns h in
    let owned : is_unowned (live_record d graph_id n.id) ≡ false = ap is_unowned live in
    let gated : is_ungated (live_record d graph_id n.id) ≡ false =
      ap is_ungated live ∙ ap not ((eq_iff r.state "gate_pass").1 passed) in
    rw (owned, gated) (x, y)

-- `may_ship` says yes exactly when every node of the graph has a live task that passed its gate: a
-- node that was never dispatched, or whose live task has not passed, keeps the graph from shipping.
pub may_ship_iff :
    (d : Dispatcher) (graph : WorkGraph) (graph_id : String)
    → (may_ship d graph graph_id ≡ ok true) ↔ All (IsPassed d graph_id) graph.nodes
unfolding may_ship assert_shippable
may_ship_iff d graph graph_id = (
  λ h. Empties-All d graph_id graph.nodes (
      tests (is_empty (select_nodes is_unowned d graph_id graph.nodes))
        (is_empty (select_nodes is_ungated d graph_id graph.nodes)) h),
  λ h. let (x, y) = All-Empties d graph_id graph.nodes h in rw (x, y) refl,
)
  where
    tests :
        (x y : Bool)
        → without_breach (refuse_if (not x || not y) policy_breach) ≡ ok true
        → (x ≡ true) × (y ≡ true)
    tests true true h = (refl, refl)
    tests true false h = cc
    tests false y h = cc

-- The node's live task holds a passing result for the exit gate that it was dispatched with.
abbrev pub IsVerified : Dispatcher → String → WorkNode → Type 0
IsVerified d graph_id n =
    (r : TaskRecord) × (g : GateResult) × (live_record d graph_id n.id ≡ some r)
    × (r.gate_result ≡ some g)
    × (g.passed ≡ true)
    × (g.gate ≡ r.envelope.exit_gate)

live-found :
    (d : Dispatcher) (graph_id id : String) (r : TaskRecord)
    → live_record d graph_id id ≡ some r
    → (task_id : String) × (Dict.lookup task_id d.tasks ≡ some r)
unfolding live_record
live-found d graph_id id r h = go (Dict.lookup (graph_id, id) d.by_node) h
  where
    go :
        (o : Option String)
        → elim o [ none ↦ none | some t ↦ Dict.lookup t d.tasks ] ≡ some r
        → (task_id : String) × (Dict.lookup task_id d.tasks ≡ some r)
    go none e = cc
    go (some t) e = (t, e)

All-IsVerified :
    (d : Dispatcher) (graph_id : String) (ns : List WorkNode)
    → HasVerdicts d
    → All (IsPassed d graph_id) ns
    → All (IsVerified d graph_id) ns
All-IsVerified d graph_id [] all h = tt
All-IsVerified d graph_id (n ∷ ns) all ((r, live, passed), h) =
    let (id, found) = live-found d graph_id n.id r live in
    let (g, recorded, good, fits) = all id r found passed in
    ((r, g, live, recorded, good, fits), All-IsVerified d graph_id ns all h)

no_verdicts :
    (topology : Topology) (keys : KeyRing) (audit : AuditLog) (ack_slo : ℕ) (read_only : Bool)
    → HasVerdicts (new_dispatcher topology keys audit ack_slo read_only)
unfolding Dict.lookup
no_verdicts topology keys audit ack_slo read_only id r h = let clash : none ≡ some r = h in cc

-- Invariant I3 over a whole run: however a new dispatcher was used (it restored nothing from a log), a
-- graph that may ship has, for each of its nodes, a live task with a recorded passing result for the exit gate it declares.
pub may_ship_needs_verdicts :
    (p : Platform) (topology : Topology) (keys : KeyRing) (audit : AuditLog) (ack_slo : ℕ)
    (read_only : Bool) (d : Dispatcher) (graph : WorkGraph) (graph_id : String)
    → Run p (new_dispatcher topology keys audit ack_slo read_only) d
    → may_ship d graph graph_id ≡ ok true
    → All (IsVerified d graph_id) graph.nodes
may_ship_needs_verdicts p topology keys audit ack_slo read_only d graph graph_id run ship =
    All-IsVerified d graph_id graph.nodes
      ((Run-Grows run).verdicts (no_verdicts topology keys audit ack_slo read_only))
      ((may_ship_iff d graph graph_id).0 ship)
