-- ===== src/Replay.antt =====
-- The replay of src/orchestrator/state.py: what the log says is in flight. A task id of the log may be
-- a text or a number; one that cannot be hashed raises.
pub mod Keys
use amnesic_pi.Prelude.{
  ℕ, suc, String, Bool, true, false, not, ◌&&◌, ◌||◌, none, some, List, [], ◌∷◌, elem, keep, str_eq,
  if◌then◌else◌,
}
use amnesic_pi.Prelude.Dict
use amnesic_pi.Prelude.Dict.{Dict}
use amnesic_pi.Errors.{Result, ok, err, type_error, ◌>>=◌}
use amnesic_pi.Platform.{Platform}
use amnesic_pi.Value.{Value, null, bool, int, str, arr, obj, get_or_null}
use amnesic_pi.Schema.Basics.{truthy}
use amnesic_pi.Schema.Node.{same_value, as_number}
use amnesic_pi.Audit.{AuditEntry, AuditLog, verify_chain, entries}
use amnesic_pi.Replay.Keys.{TaskKey, text, number, nothing, task_key, holds}

-- `str(v)`
abbrev pub text_of : Platform → Value → String
text_of p (str s) = s
text_of p v = p.show v

-- What `replay` keeps of a `dispatch` entry.
pub record Meta : Type 0 where
  pub team : Value
  pub node_id : Value
  pub graph_id : Value
  pub exit_gate : Value
  pub tier_max : Value
  pub deliverables : Value
  pub seq : Value

pub record ReplayState : Type 0 where
  pub entries : ℕ
  pub dispatched : Dict TaskKey Meta
  pub gate_results : Dict TaskKey Bool
  pub reclaimed : List TaskKey
  pub paused_teams : List String
  pub decisions : ℕ

abbrev pub blank_state : ℕ → ReplayState
blank_state n = record {
  entries = n;
  dispatched = [];
  gate_results = [];
  reclaimed = [];
  paused_teams = [];
  decisions = 0;
}

abbrev pub meta_of : AuditEntry → Meta
meta_of e = record {
  team = get_or_null e.fields "team";
  node_id = get_or_null e.fields "node_id";
  graph_id = get_or_null e.fields "graph_id";
  exit_gate = get_or_null e.fields "exit_gate";
  tier_max = get_or_null e.fields "tier_max";
  deliverables = get_or_null e.fields "deliverables";
  seq = e.seq;
}

-- A task id as a key of a dict.
abbrev pub hashed : Value → Result TaskKey
hashed (str s) = ok (text s)
hashed (int n) = ok (number n)
hashed (bool b) = ok (number (as_number b))
hashed null = ok nothing
hashed (arr vs) = err type_error
hashed (obj fs) = err type_error

abbrev pub add : String → List String → List String
add s set = if elem s set then set else s ∷ set

abbrev pub add_key : TaskKey → List TaskKey → List TaskKey
add_key id set = if holds id set then set else id ∷ set

abbrev pub discard : String → List String → List String
discard s = keep (λ t. not (str_eq t s))

-- The branches of the loop, by the event's name and whether there is a task id.
abbrev pub record_task : AuditEntry → TaskKey → ReplayState → ReplayState
record_task e id s =
    if same_value e.event (str "dispatch")
    then record s { dispatched = Dict.insert id (meta_of e) s.dispatched }
    else if same_value e.event (str "gate_result")
    then record s {
      gate_results = Dict.insert id (truthy (get_or_null e.fields "passed")) s.gate_results;
    }
    else record s { reclaimed = add_key id s.reclaimed }

abbrev pub record_team : Platform → AuditEntry → ReplayState → ReplayState
record_team p e s =
    let team = text_of p (get_or_null e.fields "team") in
    if same_value e.event (str "team_paused")
    then record s { paused_teams = add team s.paused_teams }
    else if same_value e.event (str "team_resumed")
    then record s { paused_teams = discard team s.paused_teams }
    else if same_value e.event (str "decision_memo")
    then record s { decisions = suc s.decisions }
    else s

abbrev pub is_task_event : Value → Bool
is_task_event (str event) = elem event ("dispatch" ∷ "gate_result" ∷ "reclaim" ∷ [])
is_task_event _ = false

-- One pass of the loop of `replay`.
unfoldable pub replay_entry : Platform → AuditEntry → ReplayState → Result ReplayState
replay_entry p e s =
    let id = get_or_null e.fields "task_id" in
    if is_task_event e.event && truthy id
    then (do key ← hashed id; ok (record_task e key s))
    else ok (record_team p e s)

unfoldable pub replay_entries : Platform → List AuditEntry → ReplayState → Result ReplayState
replay_entries p [] s = ok s
replay_entries p (e ∷ es) s = do s' ← replay_entry p e s; replay_entries p es s'

-- `replay`
unfoldable pub replay : Platform → AuditLog → Result ReplayState
replay p log = do n ← verify_chain p log; es ← entries p log; replay_entries p es (blank_state n)

-- `ReplayState.open_tasks`
abbrev pub is_open : ReplayState → TaskKey → Bool
is_open s id =
    not (holds id s.reclaimed)
    && elim (Dict.lookup id s.gate_results) [ none ↦ true | some passed ↦ not passed ]

unfoldable pub open_of : ReplayState → Dict TaskKey Meta → Dict TaskKey Meta
open_of s [] = []
open_of s ((id, m) ∷ rest) =
    let others = open_of s rest in if is_open s id then (id, m) ∷ others else others

unfoldable pub open_tasks : ReplayState → Dict TaskKey Meta
open_tasks s = open_of s s.dispatched

-- `x not in names`, for a value that may be none of them.
abbrev pub is_unknown : List String → Value → Result Bool
is_unknown names (str s) = ok (not (elem s names))
is_unknown names (arr vs) = err type_error
is_unknown names (obj fs) = err type_error
is_unknown names v = ok true

-- Whether some open task names what is not declared.
unfoldable pub any_unknown : List String → List Value → Result Bool
any_unknown names [] = ok false
any_unknown names (v ∷ vs) = do u ← is_unknown names v; us ← any_unknown names vs; ok (u || us)
