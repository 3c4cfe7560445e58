-- ===== src/Dispatch/Gating.antt =====
-- Gates and shipping in src/orchestrator/dispatch.py.
use amnesic_pi.Prelude.{
  ℕ, String, Bool, true, false, not, ◌||◌, Option, none, some, List, [], ◌∷◌, is_empty, str_eq,
  if◌then◌else◌,
}
use amnesic_pi.Prelude.Dict
use amnesic_pi.Prelude.Dict.{text_key, pair_key}
use amnesic_pi.Errors.{Result, Done, ok, err, dispatch_rejected, policy_breach, refuse_if}
use amnesic_pi.Platform.{Platform}
use amnesic_pi.Value.{Value, str, bool, arr, Fields, end, field, items_of, strs}
use amnesic_pi.Schema.Node.{WorkNode}
use amnesic_pi.Schema.Graph.{WorkGraph}
use amnesic_pi.Schema.Scope.{payload_digest}
use amnesic_pi.Gates
use amnesic_pi.Gates.{GateResult}
use amnesic_pi.Dispatch.{append, tagged}
use amnesic_pi.Dispatch.Records.{TaskRecord, Dispatcher}
use amnesic_pi.Dispatch.Monad.{M, pure, lift, require_m, ◌>>=◌, ◌>>◌}
use amnesic_pi.Dispatch.Ingress.{find_record, put}

-- What `accept_gate` writes into the record.
abbrev pub gated : GateResult → TaskRecord → TaskRecord
gated result r = record r {
  gate_result = some result;
  state = if result.passed then "gate_pass" else "gate_fail";
}

abbrev pub gate_fields : Platform → String → TaskRecord → GateResult → Fields
gate_fields p task_id r result = field "task_id" (str task_id) (
    field "team" (str r.envelope.team) (
      field "gate" (str result.gate) (
        field "passed" (bool result.passed) (
          field "evidence_hash"
            (str (tagged (payload_digest p (arr (items_of (strs result.evidence)))))) end))))

-- `accept_gate`
unfoldable pub accept_gate : Platform → ℕ → String → Value → M GateResult
accept_gate p now task_id raw = do
  r ← find_record task_id
  result ← lift (Gates.parse p now raw)
  require_m (str_eq result.gate r.envelope.exit_gate) dispatch_rejected
  put task_id (gated result r)
  append p now "gate_result" (gate_fields p task_id r result)
  pure result

-- `live_record`
unfoldable pub live_record : Dispatcher → String → String → Option TaskRecord
live_record d graph_id node_id = elim (Dict.lookup (graph_id, node_id) d.by_node) [
  | none ↦ none
  | some id ↦ Dict.lookup id d.tasks
]

abbrev pub is_unowned : Option TaskRecord → Bool
is_unowned none = true
is_unowned (some r) = false

abbrev pub is_ungated : Option TaskRecord → Bool
is_ungated none = false
is_ungated (some r) = not (str_eq r.state "gate_pass")

-- The two lists of `assert_shippable`.
unfoldable pub select_nodes :
    (Option TaskRecord → Bool) → Dispatcher → String → List WorkNode → List String
select_nodes test d graph_id [] = []
select_nodes test d graph_id (n ∷ ns) =
    let rest = select_nodes test d graph_id ns in
    if test (live_record d graph_id n.id) then n.id ∷ rest else rest

-- `assert_shippable`
unfoldable pub assert_shippable : Dispatcher → WorkGraph → String → Done
unfolding select_nodes
assert_shippable d graph graph_id =
    let never_dispatched = select_nodes is_unowned d graph_id graph.nodes in
    let ungated = select_nodes is_ungated d graph_id graph.nodes in
    refuse_if (not (is_empty never_dispatched) || not (is_empty ungated)) policy_breach

-- `except PolicyBreach`: any other exception would go on.
abbrev pub without_breach : Done → Result Bool
without_breach (ok tt) = ok true
without_breach (err policy_breach) = ok false
without_breach (err e) = err e

-- `may_ship`
unfoldable pub may_ship : Dispatcher → WorkGraph → String → Result Bool
unfolding assert_shippable
may_ship d graph graph_id = without_breach (assert_shippable d graph graph_id)
