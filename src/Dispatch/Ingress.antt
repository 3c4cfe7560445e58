-- ===== src/Dispatch/Ingress.antt =====
-- Ingress of src/orchestrator/dispatch.py: delivery to a lead, and the reports of a lead.
use amnesic_pi.Prelude.{ℕ, String, Option, none, some, str_eq}
use amnesic_pi.Prelude.Dict
use amnesic_pi.Prelude.Dict.{text_key}
use amnesic_pi.Errors.{Result, ok, err, authority_error, dispatch_rejected, or_raise}
use amnesic_pi.Platform.{Platform}
use amnesic_pi.Value.{Value, str, obj, Fields, end, field}
use amnesic_pi.Schema.Scope.{payload_digest, envelope_scope}
use amnesic_pi.Schema.Envelope.{TaskEnvelope}
use amnesic_pi.Schema.Status
use amnesic_pi.Schema.Status.{StatusUpdate}
use amnesic_pi.Topology
use amnesic_pi.Topology.{Team}
use amnesic_pi.Tokens
use amnesic_pi.Tokens.{Ledger, HandoffToken}
use amnesic_pi.Dispatch.{append, tagged}
use amnesic_pi.Dispatch.Records.{Dispatcher, TaskRecord}
use amnesic_pi.Dispatch.Monad.{M, pure, lift, gets, modify, require_m, refuse_if_m, ◌>>=◌, ◌>>◌}

-- `isinstance(token, HandoffToken)`
abbrev pub token_of : Option HandoffToken → Result HandoffToken
token_of none = err authority_error
token_of (some token) = ok token

-- The scope that the envelope's token must have been signed over.
abbrev pub scope_of : TaskEnvelope → Value
scope_of env =
    envelope_scope env.graph_id env.node_id env.exit_gate (obj env.payload) env.deliverables

abbrev pub with_replay : Dispatcher → Result Ledger → Result (Unit {0}) × Dispatcher
with_replay d (ok ledger) = (ok tt, record d { replay = ledger })
with_replay d (err e) = (err e, d)

-- `self._replay.consume(token)`
unfoldable pub consume : HandoffToken → M Unit
consume token d = with_replay d (Tokens.consume token d.replay)

abbrev pub ingress_fields : TaskEnvelope → Team → Fields
ingress_fields env team =
    field "task_id" (str env.task_id)
      (field "team" (str team.name) (field "lead" (str team.lead) end))

-- `deliver`
unfoldable pub deliver : Platform → ℕ → TaskEnvelope → String → M Unit
deliver p now env to_agent = do
  (topology, keys) ← gets (λ d. (d.topology, d.keys))
  team ← lift (Topology.team topology env.team)
  token ← lift (token_of env.token)
  require_m (str_eq to_agent team.lead) authority_error
  require_m (str_eq env.task_id token.task_id) authority_error
  lift (Tokens.verify p now keys token (scope_of env) (some env.team) (some env.tier_max))
  consume token
  append p now "ingress_accepted" (ingress_fields env team)
  pure tt

-- `self._tasks.get(task_id)`, refusing a task that is not known.
unfoldable pub find_record : String → M TaskRecord
find_record task_id d = (or_raise (Dict.lookup task_id d.tasks) dispatch_rejected, d)

-- What `ingest_status` writes into the record.
abbrev pub reported : StatusUpdate → TaskRecord → TaskRecord
reported u r = record r {
  state = u.state;
  pct_complete = u.pct_complete;
  next_update_by = some u.next_update_by;
  ack_deadline = none;
}

-- The assignments to a record of the table.
unfoldable pub put : String → TaskRecord → M Unit
put task_id r = modify (λ d. record d { tasks = Dict.insert task_id r d.tasks })

abbrev pub status_fields : Platform → StatusUpdate → TaskRecord → Fields
status_fields p u r = field "task_id" (str u.task_id) (
    field "team" (str r.envelope.team) (
      field "state" (str u.state)
        (field "payload_hash" (str (tagged (payload_digest p (Status.to_dict p u)))) end)))

-- `ingest_status`
unfoldable pub ingest_status : Platform → ℕ → Value → M StatusUpdate
ingest_status p now raw = do
  update ← lift (Status.parse p raw)
  r ← find_record update.task_id
  refuse_if_m (str_eq update.state "gate_pass") dispatch_rejected
  put update.task_id (reported update r)
  append p now "status" (status_fields p update r)
  pure update
