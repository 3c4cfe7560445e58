-- ===== src/ColdStart.antt =====
-- `cold_start` of src/orchestrator/state.py: the five checks, after which the dispatcher is open. The
-- manifest comes in as `Topology.load` returned it; the log as its two files are.
pub mod Ready
pub mod Restores
pub mod Refused
use amnesic_pi.Prelude.{
  ℕ, ◌+◌, String, Bool, true, false, not, ◌&&◌, ◌||◌, Option, none, some, List, [], ◌∷◌, ◌++◌, all,
  elem, is_empty, keep, map, str_eq, if◌then◌else◌,
}
use amnesic_pi.Prelude.Int.{pos}
use amnesic_pi.Prelude.Text.{codes}
use amnesic_pi.Prelude.Dict.{Dict}
use amnesic_pi.Errors.{
  Exn, Result, Done, ok, err, type_error, is_orchestrator_error, is_audit_chain_error,
}
use amnesic_pi.Platform.{Platform}
use amnesic_pi.Value.{Value, null, bool, int, str, arr, obj, field, end}
use amnesic_pi.Value.Canonical.{before}
use amnesic_pi.Gates.{gate_names}
use amnesic_pi.Topology.{Team, Topology}
use amnesic_pi.Tokens
use amnesic_pi.Tokens.{Entropy, Key, KeyRing, default_rotation, new_ring}
use amnesic_pi.Audit.{AuditLog, check_mirror}
use amnesic_pi.Replay.{Meta, ReplayState, replay, open_tasks, any_unknown}
use amnesic_pi.Dispatch.{append, open_for_dispatch, pause_team}
use amnesic_pi.Dispatch.Records.{Dispatcher, new_dispatcher}
use amnesic_pi.Dispatch.Monad.{M, pure, lift, gets, modify, ◌>>=◌, ◌>>◌}
use amnesic_pi.Dispatch.Restore.{restore_from}

-- `ColdStartReport`, with the steps' names and outcomes.
pub record Report : Type 0 where
  pub ok_ : Bool
  pub steps : List (String × Bool)
  pub state : Option ReplayState

abbrev pub ack_slo : ℕ
ack_slo = 60_000_000

-- What comes back, and the log files as they are then.
abbrev pub Outcome : Type 0
Outcome = Result (Option Dispatcher × Report) × AuditLog

abbrev pub stopped : List (String × Bool) → String → Option ReplayState → AuditLog → Outcome
stopped steps name state log =
    (ok (none, record { ok_ = false; steps = steps ++ (name, false) ∷ []; state = state }), log)

-- `sorted`, of texts that differ.
unfoldable pub place : String → List String → List String
place s [] = s ∷ []
place s (t ∷ ts) =
    let later = place s ts in if before (codes t) (codes s) then t ∷ later else s ∷ t ∷ ts

abbrev pub sorted : List String → List String
sorted [] = []
sorted (s ∷ ss) = place s (sorted ss)

unfoldable pub pause_all : Platform → ℕ → List String → M Unit
pause_all p now [] = pure tt
pause_all p now (t ∷ ts) = do pause_team p now t "restored from audit replay"; pause_all p now ts

-- The last part: restore, pause, open, and say so in the log.
unfoldable pub reopen : Platform → ℕ → ReplayState → M Unit
reopen p now state = do
  restored ← restore_from p state
  pause_all p now (sorted state.paused_teams)
  modify open_for_dispatch
  append p now "cold_start" (field "entries_replayed" (int (pos state.entries)) end)
  pure tt

abbrev pub opened : List (String × Bool) → ReplayState → Result (Unit {0}) × Dispatcher → Outcome
opened steps state (ok u, d) =
    (ok (some d, record { ok_ = true; steps = steps; state = some state }), d.audit)
opened steps state (err e, d) = (err e, d.audit)

abbrev pub fails :
    (Exn → Bool) → Exn → List (String × Bool) → String → Option ReplayState → AuditLog → Outcome
fails caught e steps name state log =
    if caught e then stopped steps name state log else (err e, log)

abbrev pub known_teams : Topology → List String
known_teams t = map (λ x. x.name) t.teams

abbrev pub metas : ReplayState → List Meta
metas s = map (λ e. e.1) (open_tasks s)

abbrev pub step_names : List String
step_names =
    "topology manifest" ∷ "audit chain" ∷ "audit mirror" ∷ "key material" ∷ "node reconciliation"
    ∷ []

abbrev pub passed_of : ℕ → List String → List (String × Bool)
passed_of ℕ.zero names = []
passed_of (ℕ.suc k) [] = []
passed_of (ℕ.suc k) (name ∷ names) = (name, true) ∷ passed_of k names

-- The first `n` steps, all passed.
abbrev pub passed : ℕ → List (String × Bool)
passed n = passed_of n step_names

-- The fifth check, on the teams and gates of the open tasks, and what follows it.
abbrev pub reconcile :
    Platform → ℕ → Topology → ReplayState → KeyRing → AuditLog → Result Bool → Result Bool → Outcome
reconcile p now t state keys log (err e) gates = (err e, log)
reconcile p now t state keys log (ok u) (err e) = (err e, log)
reconcile p now t state keys log (ok true) (ok v) =
    stopped (passed 4) "node reconciliation" (some state) log
reconcile p now t state keys log (ok false) (ok true) =
    stopped (passed 4) "node reconciliation" (some state) log
reconcile p now t state keys log (ok false) (ok false) =
    opened (passed 5) state (reopen p now state (new_dispatcher t keys log ack_slo true))

-- The fourth check: a key ring with a current key.
abbrev pub check_keys :
    Platform → ℕ → Topology → ReplayState → AuditLog → Result (Key × KeyRing) → Outcome
check_keys p now t state log (err e) =
    fails is_orchestrator_error e (passed 3) "key material" (some state) log
check_keys p now t state log (ok (k, keys)) =
    reconcile p now t state keys log (any_unknown (known_teams t) (map (λ m. m.team) (metas state)))
      (any_unknown gate_names (map (λ m. m.exit_gate) (metas state)))

-- `keyring or KeyRing()`, and its current key.
abbrev pub current_key : ℕ → Entropy → Option KeyRing → Result (Key × KeyRing)
current_key now e (some ring) = Tokens.current now e ring
current_key now e none = elim (new_ring default_rotation now e) [
  | err x ↦ err x
  | ok ring ↦ Tokens.current now e ring
]

-- The third check: a mirror is configured, and agrees.
abbrev pub check_sinks :
    Platform
    → ℕ
    → Entropy
    → Topology
    → ReplayState
    → Option KeyRing
    → AuditLog
    → Option (List ℕ)
    → Done
    → Outcome
check_sinks p now e t state ring log none agrees =
    stopped (passed 2) "audit mirror" (some state) log
check_sinks p now e t state ring log (some mirror) (err x) =
    fails is_orchestrator_error x (passed 2) "audit mirror" (some state) log
check_sinks p now e t state ring log (some mirror) (ok u) =
    check_keys p now t state log (current_key now e ring)

-- The second check: the chain, and the replay.
abbrev pub check_chain :
    Platform → ℕ → Entropy → Topology → Option KeyRing → AuditLog → Result ReplayState → Outcome
check_chain p now e t ring log (err x) =
    fails is_audit_chain_error x (passed 1) "audit chain" none log
check_chain p now e t ring log (ok state) =
    check_sinks p now e t state ring log log.mirror (check_mirror log)

abbrev pub check_topology :
    Platform → ℕ → Entropy → Option KeyRing → AuditLog → Result Topology → Outcome
check_topology p now e ring log (err x) =
    fails is_orchestrator_error x [] "topology manifest" none log
check_topology p now e ring log (ok t) = check_chain p now e t ring log (replay p log)

-- `cold_start`
unfoldable pub cold_start :
    Platform → ℕ → Entropy → Result Topology → AuditLog → Option KeyRing → Outcome
cold_start p now e loaded log ring = check_topology p now e ring log loaded
