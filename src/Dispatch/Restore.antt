-- ===== src/Dispatch/Restore.antt =====
-- `restore_from` of src/orchestrator/dispatch.py. The task table is one of texts, as it is annotated: a
-- task id of the log that is no text enters it as its `str()`.
use amnesic_pi.Prelude.{
  ℕ, ◌+◌, String, Bool, true, false, Option, none, some, List, [], ◌∷◌, str_eq, if◌then◌else◌,
}
use amnesic_pi.Prelude.Int.{ℤ}
use amnesic_pi.Prelude.Dict
use amnesic_pi.Prelude.Dict.{text_key, pair_key, Dict}
use amnesic_pi.Errors.{Result, ok, err, type_error}
use amnesic_pi.Platform.{Platform}
use amnesic_pi.Value.{Value, null, bool, int, end}
use amnesic_pi.Schema.Basics.{truthy, as_tuple}
use amnesic_pi.Schema.Node.{as_number}
use amnesic_pi.Schema.Artifact.{ArtifactRef, parse_all}
use amnesic_pi.Schema.Envelope.{TaskEnvelope}
use amnesic_pi.Replay.{Meta, ReplayState, text_of}
use amnesic_pi.Replay.Keys.{TaskKey, text, number, nothing, task_key, holds}
use amnesic_pi.Dispatch.Records.{TaskRecord, restored_from, Dispatcher}
use amnesic_pi.Dispatch.Monad.{M, pure, lift, gets, modify, ◌>>=◌, ◌>>◌}

-- `meta.get("deliverables") or ()`, as the members that the comprehension visits.
abbrev pub raw_deliverables : Value → Result (List Value)
raw_deliverables v = if truthy v then as_tuple v else ok []

abbrev pub tier_of : Platform → Value → String
tier_of p v = if truthy v then text_of p v else "T3"

-- `int(meta["seq"])`: a verified chain has only numbers here.
abbrev pub seq_of : Value → Result ℤ
seq_of (int n) = ok n
seq_of (bool b) = ok (as_number b)
seq_of _ = err type_error

abbrev pub id_of : Platform → TaskKey → String
id_of p (text s) = s
id_of p (number n) = p.show (int n)
id_of p nothing = p.show null

-- What the log says of the task, in the order of the tests.
abbrev pub restored_state : ReplayState → TaskKey → String
restored_state s id =
    if holds id s.reclaimed then "abandoned" else elim (Dict.lookup id s.gate_results) [
      | none ↦ "dispatched"
      | some passed ↦ if passed then "gate_pass" else "gate_fail"
    ]

abbrev pub restored_envelope : Platform → String → Meta → List ArtifactRef → ℤ → TaskEnvelope
restored_envelope p id m deliverables seq = record {
  task_id = id;
  graph_id = text_of p m.graph_id;
  node_id = text_of p m.node_id;
  team = text_of p m.team;
  tier_max = tier_of p m.tier_max;
  payload = end;
  deliverables = deliverables;
  exit_gate = text_of p m.exit_gate;
  token = none;
  parent_audit_seq = seq;
  deadline = none;
}

abbrev pub restored_record : TaskEnvelope → String → ℤ → TaskRecord
restored_record env state seq = record {
  envelope = env;
  state = state;
  ack_deadline = none;
  next_update_by = none;
  gate_result = none;
  superseded_by = none;
  pct_complete = null;
  history = restored_from seq ∷ [];
}

-- The writes for one task.
abbrev pub install : TaskEnvelope → String → ℤ → Dispatcher → Dispatcher
install env state seq d =
    let by_node = Dict.insert (env.graph_id, env.node_id) env.task_id d.by_node in
    record d {
      tasks = Dict.insert env.task_id (restored_record env state seq) d.tasks;
      by_node = if str_eq state "abandoned" then d.by_node else by_node;
    }

-- A task without deliverables pre-dates their logging, and is left out.
unfoldable pub restore_parsed : Platform → ReplayState → TaskKey → Meta → List ArtifactRef → M ℕ
restore_parsed p s id m [] = pure 0
restore_parsed p s id m (ref ∷ refs) = do
  seq ← lift (seq_of m.seq)
  modify (install (restored_envelope p (id_of p id) m (ref ∷ refs) seq) (restored_state s id) seq)
  pure 1

-- One task that is not known yet.
unfoldable pub restore_task : Platform → ReplayState → TaskKey → Meta → M ℕ
restore_task p s id m = do
  raws ← lift (raw_deliverables m.deliverables)
  deliverables ← lift (parse_all raws)
  restore_parsed p s id m deliverables

abbrev pub is_known : Option TaskRecord → Bool
is_known none = false
is_known (some r) = true

unfoldable pub restore_tasks : Platform → ReplayState → Dict TaskKey Meta → M ℕ
restore_tasks p s [] = pure 0
restore_tasks p s ((id, m) ∷ rest) =
    let others = restore_tasks p s rest in
    (do
      known ← gets (λ d. is_known (Dict.lookup (id_of p id) d.tasks))
      n ← if known then pure 0 else restore_task p s id m
      k ← others
      pure (n + k))

-- `restore_from`
unfoldable pub restore_from : Platform → ReplayState → M ℕ
restore_from p s = restore_tasks p s s.dispatched
