-- ===== src/Dispatch/Reclaim.antt =====
-- Stuck tasks, reclaim, decisions and the projection of src/orchestrator/dispatch.py.
use amnesic_pi.Prelude.{
  ℕ, suc, String, Bool, true, false, not, ◌||◌, ◌&&◌, Option, none, some, List, [], ◌∷◌, keep, ltb,
  str_eq, if◌then◌else◌,
}
use amnesic_pi.Prelude.Dict
use amnesic_pi.Prelude.Dict.{text_key, pair_key, Dict}
use amnesic_pi.Errors.{Result, ok, err, dispatch_rejected, key_error, or_raise}
use amnesic_pi.Platform.{Platform}
use amnesic_pi.Value.{str, arr, Fields, end, field, items_of, strs}
use amnesic_pi.Schema.Graph
use amnesic_pi.Schema.Graph.{WorkGraph}
use amnesic_pi.Schema.Scope.{payload_digest}
use amnesic_pi.Schema.Envelope.{TaskEnvelope}
use amnesic_pi.Schema.Memo
use amnesic_pi.Schema.Memo.{DecisionMemo}
use amnesic_pi.Topology.{Team}
use amnesic_pi.Tokens.{default_ttl}
use amnesic_pi.Audit.{AuditEntry}
use amnesic_pi.Dispatch.{append, tagged, require_writable, dispatch}
use amnesic_pi.Dispatch.Records.{TaskRecord, is_terminal, Dispatcher, Draw}
use amnesic_pi.Dispatch.Monad.{M, pure, lift, refuse_if_m, ◌>>=◌, ◌>>◌}
use amnesic_pi.Dispatch.Ingress.{find_record, put}

-- `limit is not None and moment > limit`
abbrev pub is_past : Option ℕ → ℕ → Bool
is_past none moment = false
is_past (some limit) moment = ltb limit moment

abbrev pub is_superseded : TaskRecord → Bool
is_superseded r = elim r.superseded_by [ none ↦ false | some id ↦ true ]

abbrev pub is_stuck : ℕ → TaskRecord → Bool
is_stuck moment r =
    if is_terminal r || is_superseded r
    then false
    else is_past r.ack_deadline moment || is_past r.next_update_by moment

-- `stuck_tasks`
unfoldable pub stuck_tasks : Dispatcher → ℕ → List TaskRecord
stuck_tasks d moment = keep (is_stuck moment) (Dict.values d.tasks)

abbrev pub forget_at : String → String → Dispatcher → Option String → Result (Unit {0}) × Dispatcher
forget_at graph_id node_id d none = (err key_error, d)
forget_at graph_id node_id d (some id) =
    (ok tt, record d { by_node = Dict.remove (graph_id, node_id) d.by_node })

-- `del self._by_node[key]`
unfoldable pub forget_node : String → String → M Unit
forget_node graph_id node_id d =
    forget_at graph_id node_id d (Dict.lookup (graph_id, node_id) d.by_node)

abbrev pub reclaim_fields : String → TaskRecord → String → Fields
reclaim_fields task_id r reason =
    field "task_id" (str task_id)
      (field "team" (str r.envelope.team) (field "reason" (str reason) end))

abbrev pub abandoned : TaskRecord → TaskRecord
abandoned r = record r { state = "abandoned" }

abbrev pub superseded : TaskEnvelope → TaskRecord → TaskRecord
superseded replacement r = record r { superseded_by = some replacement.task_id }

-- `record.superseded_by = replacement.task_id`, where `record` is still the object under its own id
-- unless `dispatch` put a new record there.
unfoldable pub supersede : String → TaskRecord → TaskEnvelope → M Unit
supersede task_id r replacement =
    if str_eq task_id replacement.task_id
    then pure tt
    else put task_id (superseded replacement (abandoned r))

-- `reclaim`
unfoldable pub reclaim : Platform → Draw → String → String → WorkGraph → M TaskEnvelope
reclaim p draw task_id reason graph = do
  require_writable
  r ← find_record task_id
  refuse_if_m (str_eq r.state "gate_pass") dispatch_rejected
  refuse_if_m (is_superseded r) dispatch_rejected
  put task_id (abandoned r)
  append p draw.now "reclaim" (reclaim_fields task_id r reason)
  node ← lift (Graph.node graph r.envelope.node_id)
  forget_node r.envelope.graph_id node.id
  replacement ← dispatch p draw node r.envelope.graph_id none none default_ttl
  supersede task_id r replacement
  pure replacement

abbrev pub decision_fields : Platform → DecisionMemo → Fields
decision_fields p memo = field "teams" (arr (items_of (strs memo.teams))) (
    field "chosen" (str memo.chosen)
      (field "payload_hash" (str (tagged (payload_digest p (Memo.to_dict p memo)))) end))

-- `record_decision`
unfoldable pub record_decision : Platform → ℕ → DecisionMemo → M AuditEntry
record_decision p now memo = do
  lift (Memo.validate memo)
  append p now "decision_memo" (decision_fields p memo)

-- `depth[team] += 1`
unfoldable pub count_task : String → Dict String ℕ → Result (Dict String ℕ)
count_task team depth =
    or_raise
      (elim (Dict.lookup team depth) [
        | none ↦ none
        | some n ↦ some (Dict.insert team (suc n) depth)
      ])
      key_error

unfoldable pub count_tasks : List TaskRecord → Dict String ℕ → Result (Dict String ℕ)
count_tasks [] depth = ok depth
count_tasks (r ∷ rs) depth =
    let counted = count_task r.envelope.team depth in
    if not (is_terminal r) && not (is_superseded r)
    then elim counted [ err e ↦ err e | ok depth' ↦ count_tasks rs depth' ]
    else count_tasks rs depth

abbrev pub zero_depth : List Team → Dict String ℕ
zero_depth [] = []
zero_depth (t ∷ ts) = (t.name, 0) ∷ zero_depth ts

-- `queue_depth`
unfoldable pub queue_depth : Dispatcher → Result (Dict String ℕ)
queue_depth d = count_tasks (Dict.values d.tasks) (zero_depth d.topology.teams)
