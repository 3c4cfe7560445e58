-- ===== src/ColdStart/Refused.antt =====
-- What a cold start that hands out no dispatcher (src/orchestrator/state.py) leaves.
use amnesic_pi.Prelude.{
  ℕ, String, ◌≡◌, sym, ap, Bool, true, false, Option, none, some, List, [], if◌then◌else◌, map,
}
use amnesic_pi.Errors.{
  Exn, Result, Done, ok, err, is_orchestrator_error, is_audit_chain_error, ok-injective,
}
use amnesic_pi.Platform.{Platform}
use amnesic_pi.Gates.{gate_names}
use amnesic_pi.Topology.{Topology}
use amnesic_pi.Tokens.{Entropy, Key, KeyRing}
use amnesic_pi.Audit.{AuditLog, check_mirror}
use amnesic_pi.Replay.{ReplayState, replay, any_unknown}
use amnesic_pi.Dispatch.Records.{Dispatcher, new_dispatcher}
use amnesic_pi.ColdStart.{
  Report, Outcome, stopped, opened, known_teams, metas, passed, reconcile, check_keys, current_key,
  check_sinks, check_chain, check_topology, cold_start, reopen, ack_slo,
}

-- If no dispatcher comes back, the log is as it was, and the report says so.
abbrev Refusal : AuditLog → Outcome → Type 0
Refusal log o =
    (report : Report) (after : AuditLog)
    → o ≡ (ok (none, report), after)
    → (after ≡ log) × (report.ok_ ≡ false)

at_stop :
    (steps : List (String × Bool)) (name : String) (s : Option ReplayState) (log : AuditLog)
    → Refusal log (stopped steps name s log)
at_stop steps name s log report after h =
    let given = ok-injective (ap (λ (o : Outcome). o.0) h) in
    (
      sym (ap (λ (o : Outcome). o.1) h),
      sym (ap (λ (r : Option Dispatcher × Report). r.1.ok_) given),
    )

at_raise : (e : Exn) (log log' : AuditLog) → Refusal log (err e, log')
at_raise e log log' report after h =
    let clash : ◌≡◌ {A = Result (Option Dispatcher × Report)} (err e) (ok (none, report)) =
      ap (λ (o : Outcome). o.0) h in
    absurd (cc)

at_failure :
    (caught : Bool) (e : Exn) (steps : List (String × Bool)) (name : String)
    (s : Option ReplayState) (log : AuditLog)
    → Refusal log (if caught then stopped steps name s log else (err e, log))
at_failure true e steps name s log = at_stop steps name s log
at_failure false e steps name s log = at_raise e log log

at_open :
    (steps : List (String × Bool)) (state : ReplayState) (log : AuditLog)
    (r : Result (Unit {0}) × Dispatcher)
    → Refusal log (opened steps state r)
at_open steps state log (ok u, d) report after h =
    let given = ok-injective (ap (λ (o : Outcome). o.0) h) in
    let clash : some d ≡ none = ap (λ (r : Option Dispatcher × Report). r.0) given in absurd (cc)
at_open steps state log (err e, d) report after h = at_raise e log d.audit report after h

module _ (p : Platform) (now : ℕ) (t : Topology) (state : ReplayState) (log : AuditLog) where
  at_reconcile :
      (keys : KeyRing) (teams gates : Result Bool)
      → Refusal log (reconcile p now t state keys log teams gates)
  at_reconcile keys (err e) gates = at_raise e log log
  at_reconcile keys (ok u) (err e) = at_raise e log log
  at_reconcile keys (ok true) (ok v) = at_stop (passed 4) "node reconciliation" (some state) log
  at_reconcile keys (ok false) (ok true) = at_stop (passed 4) "node reconciliation" (some state) log
  at_reconcile keys (ok false) (ok false) =
      at_open (passed 5) state log (reopen p now state (new_dispatcher t keys log ack_slo true))

  at_keys : (r : Result (Key × KeyRing)) → Refusal log (check_keys p now t state log r)
  at_keys (err e) =
      at_failure (is_orchestrator_error e) e (passed 3) "key material" (some state) log
  at_keys (ok (k, keys)) =
      at_reconcile keys (any_unknown (known_teams t) (map (λ m. m.team) (metas state)))
        (any_unknown gate_names (map (λ m. m.exit_gate) (metas state)))

  at_sinks :
      (e : Entropy) (ring : Option KeyRing) (mirror : Option (List ℕ)) (agrees : Done)
      → Refusal log (check_sinks p now e t state ring log mirror agrees)
  at_sinks e ring none agrees = at_stop (passed 2) "audit mirror" (some state) log
  at_sinks e ring (some mirror) (err x) =
      at_failure (is_orchestrator_error x) x (passed 2) "audit mirror" (some state) log
  at_sinks e ring (some mirror) (ok u) = at_keys (current_key now e ring)

module _ (p : Platform) (now : ℕ) (e : Entropy) (ring : Option KeyRing) (log : AuditLog) where
  at_chain :
      (t : Topology) (r : Result ReplayState) → Refusal log (check_chain p now e t ring log r)
  at_chain t (err x) = at_failure (is_audit_chain_error x) x (passed 1) "audit chain" none log
  at_chain t (ok state) = at_sinks p now t state log e ring log.mirror (check_mirror log)

  at_topology : (loaded : Result Topology) → Refusal log (check_topology p now e ring log loaded)
  at_topology (err x) = at_failure (is_orchestrator_error x) x [] "topology manifest" none log
  at_topology (ok t) = at_chain t (replay p log)

-- A cold start that hands out no dispatcher writes nothing, and its report says that it failed.
pub cold_start-refused :
    (p : Platform) (now : ℕ) (e : Entropy) (loaded : Result Topology) (log : AuditLog)
    (ring : Option KeyRing) (report : Report) (after : AuditLog)
    → cold_start p now e loaded log ring ≡ (ok (none, report), after)
    → (after ≡ log) × (report.ok_ ≡ false)
unfolding cold_start
cold_start-refused p now e loaded log ring report after =
    at_topology p now e ring log loaded report after
