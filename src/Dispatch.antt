-- ===== src/Dispatch.antt =====
-- The dispatcher of src/orchestrator/dispatch.py: its state, the methods that route and sign work, and
-- the monad they run in. A method may raise after it has written something, so the state comes back
-- beside an exception too. Its child modules hold the other methods.
use Prim.Native.String
pub mod Monad
pub mod Records
pub mod Ingress
pub mod Gating
pub mod Reclaim
pub mod Delivery
pub mod Restore
pub mod Grows
pub mod Steps
pub mod Runs
pub mod Verdicts
pub mod Progress
pub mod Finality
pub mod Issuing
pub mod Shipping
use amnesic_pi.Dispatch.Monad.{
  M, pure, raise, lift, gets, modify, require_m, refuse_if_m, ◌>>=◌, ◌>>◌,
}
use amnesic_pi.Prelude.{
  ℕ, suc, ◌+◌, String, Bool, true, false, not, ◌&&◌, Option, none, some, List, [], ◌∷◌, all, elem,
  keep, str_eq, if◌then◌else◌,
}
use amnesic_pi.Prelude.Int.{ℤ, pos}
use amnesic_pi.Prelude.Dict
use amnesic_pi.Prelude.Dict.{text_key, pair_key}
use amnesic_pi.Errors.{
  Exn, Result, Done, ok, err, read_only_mode, dispatch_rejected, authority_error, key_error,
  or_raise,
}
use amnesic_pi.Platform.{Platform}
use amnesic_pi.Value.{Value, null, str, arr, obj, Fields, end, field, get, items_of, strs}
use amnesic_pi.Value.Canonical.{canonical_json}
use amnesic_pi.Schema.Basics.{dispatchable_tiers}
use amnesic_pi.Schema.Artifact.{ArtifactRef, to_dicts}
use amnesic_pi.Schema.Node
use amnesic_pi.Schema.Node.{WorkNode}
use amnesic_pi.Schema.Graph
use amnesic_pi.Schema.Graph.{WorkGraph, is_ready}
use amnesic_pi.Schema.Scope.{payload_digest, envelope_scope}
use amnesic_pi.Schema.Envelope
use amnesic_pi.Schema.Envelope.{TaskEnvelope}
use amnesic_pi.Gates.{Gate, gate}
use amnesic_pi.Topology
use amnesic_pi.Topology.{Team}
use amnesic_pi.Tokens
use amnesic_pi.Tokens.{KeyRing, HandoffToken, Entropy, default_ttl}
use amnesic_pi.Tokens.TaskId.{new_task_id}
use amnesic_pi.Audit
use amnesic_pi.Audit.{AuditLog, AuditEntry}
use amnesic_pi.Dispatch.Records.{TaskRecord, Note, dispatched_to, new_record, Dispatcher, Draw}

abbrev pub actor : String
actor = "orchestrator"

-- `f"sha256:{digest}"`
abbrev pub tagged : String → String
tagged digest = Prim.Native.String.◌++◌ "sha256:" digest

-- The outcome of a call on one part, with the part that it leaves; an exception leaves it as it was.
abbrev pub with_audit : {A : Type 0} → Dispatcher → Result (A × AuditLog) → Result A × Dispatcher
with_audit d (ok (a, audit)) = (ok a, record d { audit = audit })
with_audit d (err e) = (err e, d)

abbrev pub with_keys : {A : Type 0} → Dispatcher → Result (A × KeyRing) → Result A × Dispatcher
with_keys d (ok (a, keys)) = (ok a, record d { keys = keys })
with_keys d (err e) = (err e, d)

-- `self._audit.append(ACTOR, event, **fields)`, which may raise after it has written.
unfoldable pub append : Platform → ℕ → String → Fields → M AuditEntry
append p now event fields d =
    let (outcome, audit) = Audit.append p now d.audit actor event fields in
    (outcome, record d { audit = audit })

-- `self._audit.next_seq()`
unfoldable pub next_seq : Platform → M ℤ
next_seq p d = with_audit d (Audit.next_seq p d.audit)

-- `self._keys.sign(…)`
unfoldable pub sign : Platform → ℕ → Entropy → String → String → String → Value → ℤ → M HandoffToken
sign p now e task_id team tier_max payload ttl d =
    with_keys d (Tokens.sign p now e d.keys task_id team tier_max payload ttl)

-- `open_for_dispatch`
abbrev pub open_for_dispatch : Dispatcher → Dispatcher
open_for_dispatch d = record d { read_only = false }

-- `_require_writable`
unfoldable pub require_writable : M Unit
require_writable d = (if d.read_only then err read_only_mode else ok tt, d)

-- `pause_team`
unfoldable pub pause_team : Platform → ℕ → String → String → M AuditEntry
pause_team p now team reason = do
  topology ← gets (λ d. d.topology)
  lift (Topology.team topology team)
  modify (λ d. record d { paused = if elem team d.paused then d.paused else team ∷ d.paused })
  append p now "team_paused" (field "team" (str team) (field "reason" (str reason) end))

-- `resume_team`
unfoldable pub resume_team : Platform → ℕ → String → M AuditEntry
resume_team p now team = do
  topology ← gets (λ d. d.topology)
  lift (Topology.team topology team)
  modify (λ d. record d { paused = keep (λ t. not (str_eq t team)) d.paused })
  append p now "team_resumed" (field "team" (str team) end)

-- `is_paused`
abbrev pub is_paused : Dispatcher → String → Bool
is_paused d team = elem team d.paused

abbrev pub envelope_in : Option TaskRecord → Result TaskEnvelope
envelope_in none = err key_error
envelope_in (some r) = ok r.envelope

-- `self._tasks[task_id].envelope`
unfoldable pub envelope_of : String → M TaskEnvelope
envelope_of task_id d = (envelope_in (Dict.lookup task_id d.tasks), d)

-- `payload.setdefault(key, v)`
abbrev pub set_default : String → Value → Fields → Fields
set_default k v end = field k v end
set_default k v (field j w fs) = if str_eq k j then field j w fs else field j w (set_default k v fs)

-- The two `setdefault`s of `dispatch`.
abbrev pub resolve_in : WorkNode → Fields → Fields
resolve_in node payload =
    set_default "acceptance" (arr (items_of (strs node.acceptance)))
      (set_default "node_id" (str node.id) payload)

-- The payload that is signed: the caller's, with the node's id and criteria unless it has its own.
abbrev pub resolve_payload : WorkNode → Option Fields → Fields
resolve_payload node payload = resolve_in node (elim payload [ none ↦ end | some fs ↦ fs ])

-- `task_id or new_task_id()`
abbrev pub choose_id : Option String → Draw → String
choose_id none draw = new_task_id draw.millis draw.random
choose_id (some String.[]) draw = new_task_id draw.millis draw.random
choose_id (some id) draw = id

-- The fields of the `dispatch` entry.
abbrev pub dispatch_fields : Platform → TaskEnvelope → Team → HandoffToken → Fields
dispatch_fields p env team token = field "task_id" (str env.task_id) (
    field "graph_id" (str env.graph_id) (
      field "node_id" (str env.node_id) (
        field "team" (str team.name) (
          field "lead" (str team.lead) (
            field "tier_max" (str env.tier_max) (
              field "exit_gate" (str env.exit_gate) (
                field "token_hash" (str (tagged (payload_digest p (Tokens.to_dict p token)))) (
                  field "payload_hash" (str (tagged (payload_digest p (obj env.payload))))
                    (field "deliverables" (arr (items_of (to_dicts env.deliverables))) end)))))))))

-- `task_id` if it is given and known.
unfoldable pub resubmitted : Option String → Dispatcher → Option String
resubmitted none d = none
resubmitted (some id) d = elim (Dict.lookup id d.tasks) [ none ↦ none | some r ↦ some id ]

-- The record of a new task, and its node's owner.
abbrev pub enqueue : Draw → TaskEnvelope → Team → AuditEntry → Dispatcher → Dispatcher
enqueue draw env team entry d = record d {
  tasks =
      Dict.insert env.task_id
        (new_record env (draw.now + d.ack_slo) (dispatched_to entry.seq team.lead)) d.tasks;
  by_node = Dict.insert (env.graph_id, env.node_id) env.task_id d.by_node;
}

-- The part of `dispatch` behind its two idempotency tests.
unfoldable pub issue :
    Platform → Draw → WorkNode → String → Option Fields → Option String → ℤ → M TaskEnvelope
issue p draw node graph_id payload task_id ttl = do
  topology ← gets (λ d. d.topology)
  team ← lift (Topology.team topology node.team)
  exit_gate ← lift (gate node.exit_gate)
  lift (Topology.team_for_gate topology exit_gate.name)
  paused ← gets (λ d. d.paused)
  refuse_if_m (elem team.name paused) dispatch_rejected
  require_m (elem node.tier_max dispatchable_tiers) authority_error
  let resolved = resolve_payload node payload
  let tid = choose_id task_id draw
  token ←
      sign p draw.now draw.entropy tid team.name node.tier_max
        (envelope_scope graph_id node.id exit_gate.name (obj resolved) node.deliverables) ttl
  seq ← next_seq p
  let env : TaskEnvelope = record {
    task_id = tid;
    graph_id = graph_id;
    node_id = node.id;
    team = team.name;
    tier_max = node.tier_max;
    payload = resolved;
    deliverables = node.deliverables;
    exit_gate = exit_gate.name;
    token = some token;
    parent_audit_seq = seq;
    deadline = node.deadline;
  }
  lift (Envelope.validate env)
  entry ← append p draw.now "dispatch" (dispatch_fields p env team token)
  modify (enqueue draw env team entry)
  pure env

-- `dispatch`
unfoldable pub dispatch :
    Platform → Draw → WorkNode → String → Option Fields → Option String → ℤ → M TaskEnvelope
dispatch p draw node graph_id payload task_id ttl = do
  require_writable
  lift (Node.validate node)
  known ← gets (resubmitted task_id)
  owner ← gets (λ d. Dict.lookup (graph_id, node.id) d.by_node)
  elim known [
    | some id ↦ envelope_of id
    | none ↦ elim owner [
      | some id ↦ envelope_of id
      | none ↦ issue p draw node graph_id payload task_id ttl
    ]
  ]

-- `set(node.depends_on) <= satisfied`
abbrev pub is_subset : List Value → List String → Bool
is_subset deps satisfied = all (is_ready satisfied) deps

abbrev pub satisfied_nodes : String → List TaskRecord → List String
satisfied_nodes graph_id [] = []
satisfied_nodes graph_id (r ∷ rs) =
    let rest = satisfied_nodes graph_id rs in
    if str_eq r.state "gate_pass" && str_eq r.envelope.graph_id graph_id
    then r.envelope.node_id ∷ rest
    else rest

-- The loop of `dispatch_graph`; `draw` gives each node its own clock and random bits.
unfoldable pub dispatch_nodes :
    Platform → (ℕ → Draw) → ℕ → String → List String → Bool → List WorkNode → M (List TaskEnvelope)
dispatch_nodes p draw i graph_id satisfied ready_only [] = pure []
dispatch_nodes p draw i graph_id satisfied ready_only (n ∷ ns) =
    let rest = dispatch_nodes p draw (suc i) graph_id satisfied ready_only ns in
    let held = ready_only && not (is_subset n.depends_on satisfied) in
    elim held [
      | true ↦ rest
      | false ↦ do
        env ← dispatch p (draw i) n graph_id none none default_ttl
        envs ← rest
        pure (env ∷ envs)
    ]

-- `dispatch_graph`
unfoldable pub dispatch_graph :
    Platform → (ℕ → Draw) → WorkGraph → String → Bool → M (List TaskEnvelope)
dispatch_graph p draw graph graph_id ready_only = do
  lift (Graph.validate graph)
  satisfied ← gets (λ d. satisfied_nodes graph_id (Dict.values d.tasks))
  dispatch_nodes p draw 0 graph_id satisfied ready_only graph.nodes
