-- ===== src/Dispatch/Records.antt =====
-- The records of src/orchestrator/dispatch.py.
use amnesic_pi.Prelude.{ℕ, String, Bool, Option, none, some, List, [], ◌∷◌, elem}
use amnesic_pi.Prelude.Int.{ℤ}
use amnesic_pi.Prelude.Dict.{Dict}
use amnesic_pi.Value.{Value, null}
use amnesic_pi.Schema.Envelope.{TaskEnvelope}
use amnesic_pi.Gates.{GateResult}
use amnesic_pi.Topology.{Topology}
use amnesic_pi.Tokens.{Entropy, KeyRing, Ledger}
use amnesic_pi.Audit.{AuditLog}

-- A line of a record's history, without its wording.
pub data Note : Type 0 where
  dispatched_to : Value → String → Note
  restored_from : ℤ → Note

pub record TaskRecord : Type 0 where
  pub envelope : TaskEnvelope
  pub state : String
  pub ack_deadline : Option ℕ
  pub next_update_by : Option ℕ
  pub gate_result : Option GateResult
  pub superseded_by : Option String
  pub pct_complete : Value
  pub history : List Note

-- `TaskRecord(envelope=…, ack_deadline=…, history=[…])`
abbrev pub new_record : TaskEnvelope → ℕ → Note → TaskRecord
new_record env ack note = record {
  envelope = env;
  state = "dispatched";
  ack_deadline = some ack;
  next_update_by = none;
  gate_result = none;
  superseded_by = none;
  pct_complete = null;
  history = note ∷ [];
}

-- `TaskRecord.is_terminal`
abbrev pub is_terminal : TaskRecord → Bool
is_terminal r = elem r.state ("gate_pass" ∷ "abandoned" ∷ [])

pub record Dispatcher : Type 0 where
  pub topology : Topology
  pub keys : KeyRing
  pub audit : AuditLog
  pub ack_slo : ℕ
  pub read_only : Bool
  pub replay : Ledger
  pub tasks : Dict String TaskRecord
  pub by_node : Dict (String × String) String
  pub paused : List String

-- `Dispatcher.__init__`
abbrev pub new_dispatcher : Topology → KeyRing → AuditLog → ℕ → Bool → Dispatcher
new_dispatcher topology keys audit ack_slo read_only = record {
  topology = topology;
  keys = keys;
  audit = audit;
  ack_slo = ack_slo;
  read_only = read_only;
  replay = [];
  tasks = [];
  by_node = [];
  paused = [];
}

-- What one call reads from outside: the clock, and the bits for a task id and for a key.
pub record Draw : Type 0 where
  pub now : ℕ
  pub millis : ℕ
  pub random : ℕ
  pub entropy : Entropy
