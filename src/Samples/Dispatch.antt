-- ===== src/Samples/Dispatch.antt =====
-- Runs of the theorems on the dispatcher and on a cold start, with constants in place of digests.
use amnesic_pi.Prelude.{
  ℕ, String, ◌≡◌, ◌≢◌, ◌↔◌, refl, sym, ap, Bool, true, false, Option, none, some, List, [], ◌∷◌,
  All,
}
use amnesic_pi.Prelude.Int.{pos}
use amnesic_pi.Prelude.Dict
use amnesic_pi.Errors.{ok, err, read_only_mode}
use amnesic_pi.Platform.{Platform}
use amnesic_pi.Value.{Value, str, bool, arr, obj, cons, nil, field, end}
use amnesic_pi.Schema.Graph.{WorkGraph}
use amnesic_pi.Schema.Envelope.{TaskEnvelope}
use amnesic_pi.Tokens.{HandoffToken, Entropy, KeyRing, Key, default_ttl}
use amnesic_pi.Audit.{AuditLog, open_log}
use amnesic_pi.Replay.{blank_state}
use amnesic_pi.Dispatch.{resubmitted, dispatch, open_for_dispatch}
use amnesic_pi.Dispatch.Records.{Dispatcher, new_dispatcher, Draw}
use amnesic_pi.Dispatch.Ingress.{deliver}
use amnesic_pi.Dispatch.Gating.{accept_gate, may_ship}
use amnesic_pi.Dispatch.Reclaim.{reclaim}
use amnesic_pi.Dispatch.Delivery.{IsDelivered, deliver-IsDelivered}
use amnesic_pi.Dispatch.Grows.{Grows}
use amnesic_pi.Dispatch.Finality.{
  Run, next, done, opened, dispatched, gated, Run-Grows, deliver_once,
}
use amnesic_pi.Dispatch.Shipping.{IsPassed, IsVerified, may_ship_iff, may_ship_needs_verdicts}
use amnesic_pi.Dispatch.Issuing.{dispatch_read_only, dispatch_idempotent}
use amnesic_pi.ColdStart.{ack_slo, Report, passed, reopen, cold_start}
use amnesic_pi.ColdStart.Ready.{IsReady, cold_start-IsReady}
use amnesic_pi.Samples.Schema.{first, rules}
use amnesic_pi.Samples.Topology.{topology}

-- One digest, one code, one timestamp: the runs below need no more.
abbrev pub flat : Platform
flat = record {
  sha256_hex = λ s. "d";
  hmac_hex = λ key s. "m";
  isoformat = λ d. "t";
  fromisoformat = λ s. none;
  show = λ v. "v";
  loads = λ s. none;
  opens = true;
  log_stops = λ file text. none;
  mirror_stops = λ file text. none;
}

abbrev pub entropy : Entropy
entropy = record { key_id = "k1"; material = "secret" }

abbrev key : Key
key = record { key_id = "k1"; material = "secret"; created_at = 0 }

abbrev pub ring : KeyRing
ring = record { rotation = 1000; keys = key ∷ [] }

abbrev pub draw : Draw
draw = record { now = 20; millis = 5; random = 7; entropy = entropy }

abbrev start : Dispatcher
start = new_dispatcher topology ring (open_log [] none) 60 false

abbrev task : Option String
task = some "01ARZ3NDEKTSV4RRFFQ69G5FAV"

abbrev pub issued : Dispatcher
issued = (dispatch flat draw first "g1" none task default_ttl start).1

abbrev envelope : TaskEnvelope
envelope = record {
  task_id = "01ARZ3NDEKTSV4RRFFQ69G5FAV";
  graph_id = "g1";
  node_id = "n1";
  team = "policy";
  tier_max = "T2";
  payload =
      field "node_id" (str "n1")
        (field "acceptance" (arr (cons (str "nft -c accepts it") nil)) end);
  deliverables = rules ∷ [];
  exit_gate = "POLICY_CLEAN";
  token = some (record {
    task_id = "01ARZ3NDEKTSV4RRFFQ69G5FAV";
    team = "policy";
    tier_max = "T2";
    scope_digest = "d";
    expiry = 1_800_000_020;
    key_id = "k1";
    mac = "m";
  });
  parent_audit_seq = pos 0;
  deadline = none;
}

dispatched_first : dispatch flat draw first "g1" none task default_ttl start ≡ (ok envelope, issued)
unfolding amnesic_pi.Dispatch.dispatch amnesic_pi.Dispatch.Monad.◌>>=◌
    amnesic_pi.Dispatch.require_writable amnesic_pi.Schema.Node.validate
    amnesic_pi.Schema.Basics.matches_id amnesic_pi.Prelude.Text.is_blank
    amnesic_pi.Schema.Artifact.validate_all amnesic_pi.Schema.Artifact.validate
    amnesic_pi.Schema.Artifact.is_trimmed amnesic_pi.Schema.Artifact.is_contained
    amnesic_pi.Prelude.Text.split amnesic_pi.Prelude.Text.strip
    amnesic_pi.Schema.Node.distinct_values amnesic_pi.Schema.Node.elem_value
    amnesic_pi.Dispatch.resubmitted amnesic_pi.Prelude.Dict.lookup amnesic_pi.Prelude.Dict.insert
    amnesic_pi.Dispatch.issue amnesic_pi.Topology.team amnesic_pi.Gates.gate
    amnesic_pi.Gates.find_gate amnesic_pi.Topology.team_for_gate amnesic_pi.Dispatch.sign
    amnesic_pi.Tokens.sign amnesic_pi.Tokens.current amnesic_pi.Tokens.issue
    amnesic_pi.Tokens.rotate amnesic_pi.Dispatch.next_seq amnesic_pi.Audit.next_seq
    amnesic_pi.Audit.head amnesic_pi.Audit.last_entry amnesic_pi.Audit.read_lines
    amnesic_pi.Prelude.Text.lines_from amnesic_pi.Schema.Envelope.validate
    amnesic_pi.Schema.Basics.matches_task_id amnesic_pi.Dispatch.append amnesic_pi.Audit.append
dispatched_first = refl

not_known : resubmitted task start ≡ none
unfolding resubmitted Dict.lookup
not_known = refl

none_known : resubmitted none issued ≡ none
unfolding resubmitted
none_known = refl

dispatch_idempotent_example :
    dispatch flat (record draw { now = 90 }) first "g1" (some end) none (pos 5) issued
    ≡ (ok envelope, issued)
dispatch_idempotent_example =
    dispatch_idempotent flat draw (record draw { now = 90 }) first "g1" none (some end) task none
      default_ttl (pos 5) envelope start issued not_known none_known dispatched_first

abbrev closed : Dispatcher
closed = new_dispatcher topology ring (open_log [] none) 60 true

abbrev pub graph : WorkGraph
graph = record { goal = "Ship the ruleset"; nodes = first ∷ []; invariants_touched = [] }

dispatch_read_only_example :
    (dispatch flat draw first "g1" none task default_ttl closed ≡ (err read_only_mode, closed))
    × (reclaim flat draw "01ARZ3NDEKTSV4RRFFQ69G5FAV" "no answer" graph closed
        ≡ (err read_only_mode, closed))
dispatch_read_only_example =
    dispatch_read_only flat draw first "g1" none task default_ttl "01ARZ3NDEKTSV4RRFFQ69G5FAV"
      "no answer" graph closed refl

abbrev accepted : Dispatcher
accepted = (deliver flat 40 envelope "policy-lead" issued).1

delivered_first : deliver flat 40 envelope "policy-lead" issued ≡ (ok tt, accepted)
unfolding amnesic_pi.Dispatch.dispatch amnesic_pi.Dispatch.Monad.◌>>=◌
    amnesic_pi.Dispatch.require_writable amnesic_pi.Schema.Node.validate
    amnesic_pi.Schema.Basics.matches_id amnesic_pi.Prelude.Text.is_blank
    amnesic_pi.Schema.Artifact.validate_all amnesic_pi.Schema.Artifact.validate
    amnesic_pi.Schema.Artifact.is_trimmed amnesic_pi.Schema.Artifact.is_contained
    amnesic_pi.Prelude.Text.split amnesic_pi.Prelude.Text.strip
    amnesic_pi.Schema.Node.distinct_values amnesic_pi.Schema.Node.elem_value
    amnesic_pi.Dispatch.resubmitted amnesic_pi.Prelude.Dict.lookup amnesic_pi.Prelude.Dict.insert
    amnesic_pi.Dispatch.issue amnesic_pi.Topology.team amnesic_pi.Gates.gate
    amnesic_pi.Gates.find_gate amnesic_pi.Topology.team_for_gate amnesic_pi.Dispatch.sign
    amnesic_pi.Tokens.sign amnesic_pi.Tokens.current amnesic_pi.Tokens.issue
    amnesic_pi.Tokens.rotate amnesic_pi.Dispatch.next_seq amnesic_pi.Audit.next_seq
    amnesic_pi.Audit.head amnesic_pi.Audit.last_entry amnesic_pi.Audit.read_lines
    amnesic_pi.Prelude.Text.lines_from amnesic_pi.Schema.Envelope.validate
    amnesic_pi.Schema.Basics.matches_task_id amnesic_pi.Dispatch.append amnesic_pi.Audit.append
    amnesic_pi.Dispatch.Ingress.deliver amnesic_pi.Tokens.verify amnesic_pi.Tokens.lookup
    amnesic_pi.Tokens.compare_digest amnesic_pi.Tokens.check_team amnesic_pi.Tokens.check_tier
    amnesic_pi.Tokens.index_of amnesic_pi.Dispatch.Ingress.consume amnesic_pi.Tokens.consume
    amnesic_pi.Tokens.message amnesic_pi.Value.Canonical.canonical_json
delivered_first = refl

deliver-IsDelivered_example : IsDelivered flat 40 envelope "policy-lead" issued accepted
deliver-IsDelivered_example =
    deliver-IsDelivered flat 40 envelope "policy-lead" issued accepted delivered_first

deliver_once_example :
    (deliver flat 50 envelope "policy-lead" (open_for_dispatch accepted)).0 ≢ ok tt
deliver_once_example =
    deliver_once flat 40 50 envelope envelope "policy-lead" "policy-lead" issued accepted
      (open_for_dispatch accepted) delivered_first (next (opened refl) done) refl

abbrev pub verdict : Value
verdict = obj (
    field "gate" (str "POLICY_CLEAN") (
      field "passed" (bool true) (
        field "evidence" (arr (cons (str "nft -c output") nil))
          (field "checked_by" (str "policy") end))))

abbrev pub gated_first : Dispatcher
gated_first = (accept_gate flat 60 "01ARZ3NDEKTSV4RRFFQ69G5FAV" verdict issued).1

ship_first : may_ship gated_first graph "g1" ≡ ok true
unfolding amnesic_pi.Dispatch.dispatch amnesic_pi.Dispatch.Monad.◌>>=◌
    amnesic_pi.Dispatch.require_writable amnesic_pi.Schema.Node.validate
    amnesic_pi.Schema.Basics.matches_id amnesic_pi.Prelude.Text.is_blank
    amnesic_pi.Schema.Artifact.validate_all amnesic_pi.Schema.Artifact.validate
    amnesic_pi.Schema.Artifact.is_trimmed amnesic_pi.Schema.Artifact.is_contained
    amnesic_pi.Prelude.Text.split amnesic_pi.Prelude.Text.strip
    amnesic_pi.Schema.Node.distinct_values amnesic_pi.Schema.Node.elem_value
    amnesic_pi.Dispatch.resubmitted amnesic_pi.Prelude.Dict.lookup amnesic_pi.Prelude.Dict.insert
    amnesic_pi.Dispatch.issue amnesic_pi.Topology.team amnesic_pi.Gates.gate
    amnesic_pi.Gates.find_gate amnesic_pi.Topology.team_for_gate amnesic_pi.Dispatch.sign
    amnesic_pi.Tokens.sign amnesic_pi.Tokens.current amnesic_pi.Tokens.issue
    amnesic_pi.Tokens.rotate amnesic_pi.Dispatch.next_seq amnesic_pi.Audit.next_seq
    amnesic_pi.Audit.head amnesic_pi.Audit.last_entry amnesic_pi.Audit.read_lines
    amnesic_pi.Prelude.Text.lines_from amnesic_pi.Schema.Envelope.validate
    amnesic_pi.Schema.Basics.matches_task_id amnesic_pi.Dispatch.append amnesic_pi.Audit.append
    amnesic_pi.Dispatch.Gating.accept_gate amnesic_pi.Dispatch.Ingress.find_record
    amnesic_pi.Dispatch.Ingress.put amnesic_pi.Gates.parse amnesic_pi.Gates.read_texts
    amnesic_pi.Schema.Basics.require_mapping amnesic_pi.Schema.Basics.strict_keys
    amnesic_pi.Dispatch.Gating.may_ship amnesic_pi.Dispatch.Gating.assert_shippable
    amnesic_pi.Dispatch.Gating.select_nodes amnesic_pi.Dispatch.Gating.live_record
    amnesic_pi.Value.Canonical.canonical_json
ship_first = refl

may_ship_iff_example :
    (may_ship gated_first graph "g1" ≡ ok true) ↔ All (IsPassed gated_first "g1") graph.nodes
may_ship_iff_example = may_ship_iff gated_first graph "g1"

Run-first : Run flat start gated_first
Run-first =
    next (dispatched draw first "g1" none task default_ttl refl)
      (next (gated 60 "01ARZ3NDEKTSV4RRFFQ69G5FAV" verdict refl) done)

may_ship_needs_verdicts_example : All (IsVerified gated_first "g1") graph.nodes
may_ship_needs_verdicts_example =
    may_ship_needs_verdicts flat topology ring (open_log [] none) 60 false gated_first graph "g1"
      Run-first ship_first

Run-Grows_example : Grows start gated_first
Run-Grows_example = Run-Grows Run-first

abbrev pub log : AuditLog
log = open_log [] (some [])

abbrev cold : Dispatcher
cold = (reopen flat 20 (blank_state 0) (new_dispatcher topology ring log ack_slo true)).1

abbrev report : Report
report = record { ok_ = true; steps = passed 5; state = some (blank_state 0) }

started : (cold_start flat 20 entropy (ok topology) log (some ring)).0 ≡ ok (some cold, report)
unfolding cold_start amnesic_pi.Replay.replay amnesic_pi.Replay.replay_entries
    amnesic_pi.Replay.open_tasks amnesic_pi.Replay.open_of amnesic_pi.Replay.any_unknown
    amnesic_pi.Audit.verify_chain amnesic_pi.Audit.verify_from amnesic_pi.Audit.entries_of
    amnesic_pi.Audit.read_lines amnesic_pi.Prelude.Text.lines_from amnesic_pi.Audit.check_mirror
    amnesic_pi.Tokens.current reopen amnesic_pi.Dispatch.Monad.◌>>=◌
    amnesic_pi.Dispatch.Restore.restore_from amnesic_pi.Dispatch.Restore.restore_tasks
    amnesic_pi.ColdStart.pause_all amnesic_pi.Dispatch.append amnesic_pi.Audit.append
    amnesic_pi.Audit.head amnesic_pi.Audit.last_entry
started = refl

cold_start-IsReady_example : IsReady flat 20 entropy (ok topology) log (some ring) cold report
cold_start-IsReady_example =
    cold_start-IsReady flat 20 entropy (ok topology) log (some ring) cold report started
