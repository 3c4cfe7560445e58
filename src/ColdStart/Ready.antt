-- ===== src/ColdStart/Ready.antt =====
-- When `cold_start` of src/orchestrator/state.py hands out a dispatcher, and what that one may do.
use amnesic_pi.Prelude.{
  ℕ, String, ◌≡◌, refl, sym, ap, subst, Bool, true, false, Option, none, some, List, [], map,
  if◌then◌else◌,
}
use amnesic_pi.Prelude.Dict
use amnesic_pi.Prelude.Dict.{text_key, pair_key, Dict, lookup-insert}
use amnesic_pi.Errors.{
  Exn, Result, Done, ok, err, is_orchestrator_error, is_audit_chain_error, ok-injective,
}
use amnesic_pi.Platform.{Platform}
use amnesic_pi.Value.{field, int, end}
use amnesic_pi.Prelude.Int.{pos}
use amnesic_pi.Gates.{gate_names}
use amnesic_pi.Topology.{Topology}
use amnesic_pi.Tokens.{Entropy, Key, KeyRing}
use amnesic_pi.Audit.{AuditLog, check_mirror}
use amnesic_pi.Replay.{ReplayState, replay, any_unknown}
use amnesic_pi.Dispatch.{append, open_for_dispatch}
use amnesic_pi.Dispatch.Records.{Dispatcher, new_dispatcher}
use amnesic_pi.Dispatch.Monad.{bind_m_then, modify_then}
use amnesic_pi.Dispatch.Delivery.{append-IsLogged}
use amnesic_pi.Dispatch.Restore.{restore_tasks, restore_from}
use amnesic_pi.ColdStart.{
  ack_slo, Report, Outcome, stopped, pause_all, sorted, reopen, opened, fails, known_teams, metas,
  passed, reconcile, check_keys, current_key, check_sinks, check_chain, cold_start,
}
use amnesic_pi.ColdStart.Restores.{
  IsUnsigned, Restores, join, restore_tasks-Restores, pause_all-Restores,
}

-- The dispatcher after `reopen`: same topology, open, and still without tokens.
record IsReopened (a b : Dispatcher) : Type 0 where
  topology : b.topology ≡ a.topology
  writable : b.read_only ≡ false
  unsigned : IsUnsigned a → IsUnsigned b

reopen-IsReopened :
    (p : Platform) (now : ℕ) (state : ReplayState) (a b : Dispatcher)
    → reopen p now state a ≡ (ok tt, b)
    → IsReopened a b
unfolding reopen restore_from
reopen-IsReopened p now state a b h =
    bind_m_then (restore_tasks p state state.dispatched) _ h λ n d1 e1 h1.
      bind_m_then (pause_all p now (sorted state.paused_teams)) _ h1 λ u d2 e2 h2.
        modify_then open_for_dispatch _ h2 λ h3.
          bind_m_then
            (append p now "cold_start" (field "entries_replayed" (int (pos state.entries)) end)) _
            h3
            λ entry d4 e4 h4.
              let first =
                subst (λ (d : Dispatcher). Restores a d) (ap (λ r. r.1) e1)
                  (restore_tasks-Restores p state state.dispatched a) in
              let second =
                subst (λ (d : Dispatcher). Restores d1 d) (ap (λ r. r.1) e2)
                  (pause_all-Restores p now (sorted state.paused_teams) d1) in
              let both = join a d1 d2 first second in
              let logged =
                append-IsLogged p now "cold_start"
                  (field "entries_replayed" (int (pos state.entries)) end) (open_for_dispatch d2) d4
                  entry e4 in
              subst (λ (d : Dispatcher). IsReopened a d) (ap (λ r. r.1) h4)
                (subst (λ (d : Dispatcher). IsReopened a d) (sym logged.rest)
                  (record {
                    topology = both.topology;
                    writable = refl;
                    unsigned = λ all. both.unsigned all;
                  }))

-- What holds where `cold_start` hands out a dispatcher.
pub record IsReady (p : Platform) (now : ℕ) (e : Entropy) (loaded : Result Topology)
    (log : AuditLog) (ring : Option KeyRing) (d : Dispatcher) (report : Report) : Type 0 where
  pub topology : Topology
  pub manifest : loaded ≡ ok topology
  pub state : ReplayState
  pub chain : replay p log ≡ ok state
  pub mirror : List ℕ
  pub configured : log.mirror ≡ some mirror
  pub agrees : check_mirror log ≡ ok tt
  pub key : Key
  pub keys : KeyRing
  pub fresh : current_key now e ring ≡ ok (key, keys)
  pub teams_known : any_unknown (known_teams topology) (map (λ m. m.team) (metas state)) ≡ ok false
  pub gates_known : any_unknown gate_names (map (λ m. m.exit_gate) (metas state)) ≡ ok false
  pub all_passed : report ≡ record { ok_ = true; steps = passed 5; state = some state }
  pub declared : d.topology ≡ topology
  pub writable : d.read_only ≡ false
  pub unsigned : IsUnsigned d

abbrev Hands : Outcome → Dispatcher → Report → Type 0
Hands o d report = o.0 ≡ ok (some d, report)

no_dispatcher :
    {A : Type 0} (log : AuditLog) (steps : List (String × Bool)) (name : String)
    (s : Option ReplayState) (d : Dispatcher) (report : Report)
    → Hands (stopped steps name s log) d report
    → A
no_dispatcher log steps name s d report h =
    let clash : none ≡ some d = ap (λ r. r.0) (ok-injective h) in absurd (cc)

no_failure :
    {A : Type 0} (caught : Exn → Bool) (x : Exn) (steps : List (String × Bool)) (name : String)
    (s : Option ReplayState) (log : AuditLog) (d : Dispatcher) (report : Report)
    → Hands (fails caught x steps name s log) d report
    → A
no_failure caught x steps name s log d report h = go (caught x) h
  where
    go :
        {A : Type 0} (t : Bool)
        → Hands (if t then stopped steps name s log else (err x, log)) d report
        → A
    go true k = no_dispatcher log steps name s d report k
    go false k =
        let clash : ◌≡◌ {A = Result (Option Dispatcher × Report)} (err x) (ok (some d, report)) =
          k in
        absurd (cc)

none_yet :
    (t : Topology) (keys : KeyRing) (log : AuditLog)
    → IsUnsigned (new_dispatcher t keys log ack_slo true)
unfolding Dict.lookup
none_yet t keys log id r h = let clash : none ≡ some r = h in cc

opened_then :
    (steps : List (String × Bool)) (state : ReplayState) (d : Dispatcher) (report : Report)
    (r : Result (Unit {0}) × Dispatcher)
    → Hands (opened steps state r) d report
    → ◌≡◌ {A = Result (Unit {0}) × Dispatcher} r (ok tt, d)
      × (report ≡ record { ok_ = true; steps = steps; state = some state })
opened_then steps state d report (ok tt, x) h =
    let pair : ◌≡◌ {A = Option Dispatcher × Report}
        (some x, record { ok_ = true; steps = steps; state = some state }) (some d, report) =
      ok-injective h in
    let first : some x ≡ some d = ap (λ y. y.0) pair in
    let same_dispatcher : x ≡ d = cc in
    (ap (λ y. (ok tt, y)) same_dispatcher, sym (ap (λ y. y.1) pair))
opened_then steps state d report (err e, x) h = absurd (cc)

-- `cold_start` hands out a dispatcher only after all five checks: the manifest loaded, the chain
-- verified and replayed, a mirror configured and in agreement, a current key, and every open task's
-- team and gate declared. The report then says that all five passed, the dispatcher has the loaded
-- topology, is open for dispatch, and holds no token: nothing that it restored can be delivered.
pub cold_start-IsReady :
    (p : Platform) (now : ℕ) (e : Entropy) (loaded : Result Topology) (log : AuditLog)
    (ring : Option KeyRing) (d : Dispatcher) (report : Report)
    → (cold_start p now e loaded log ring).0 ≡ ok (some d, report)
    → IsReady p now e loaded log ring d report
unfolding cold_start
cold_start-IsReady p now e (err x) log ring d report h =
    no_failure is_orchestrator_error x [] "topology manifest" none log d report h
cold_start-IsReady p now e (ok t) log ring d report h = chain (replay p log) refl h
  where
    last :
        (state : ReplayState) (mirror : List ℕ) (k : Key) (keys : KeyRing)
        → replay p log ≡ ok state
        → log.mirror ≡ some mirror
        → check_mirror log ≡ ok tt
        → current_key now e ring ≡ ok (k, keys)
        → (u v : Result Bool) → any_unknown (known_teams t) (map (λ m. m.team) (metas state)) ≡ u
        → any_unknown gate_names (map (λ m. m.exit_gate) (metas state)) ≡ v
        → Hands (reconcile p now t state keys log u v) d report
        → IsReady p now e (ok t) log ring d report
    last state mirror k keys a b c f (ok false) (ok false) x y g =
        let (ran, said) =
          opened_then (passed 5) state d report
            (reopen p now state (new_dispatcher t keys log ack_slo true)) g in
        let after = reopen-IsReopened p now state (new_dispatcher t keys log ack_slo true) d ran in
        record {
          topology = t;
          manifest = refl;
          state = state;
          chain = a;
          mirror = mirror;
          configured = b;
          agrees = c;
          key = k;
          keys = keys;
          fresh = f;
          teams_known = x;
          gates_known = y;
          all_passed = said;
          declared = after.topology;
          writable = after.writable;
          unsigned = after.unsigned (none_yet t keys log);
        }
    last state mirror k keys a b c f (err z) v x y g =
        let clash : ◌≡◌ {A = Result (Option Dispatcher × Report)} (err z) (ok (some d, report)) =
          g in
        absurd (cc)
    last state mirror k keys a b c f (ok w) (err z) x y g =
        let clash : ◌≡◌ {A = Result (Option Dispatcher × Report)} (err z) (ok (some d, report)) =
          g in
        absurd (cc)
    last state mirror k keys a b c f (ok true) (ok w) x y g =
        no_dispatcher log (passed 4) "node reconciliation" (some state) d report g
    last state mirror k keys a b c f (ok false) (ok true) x y g =
        no_dispatcher log (passed 4) "node reconciliation" (some state) d report g

    key_of :
        (state : ReplayState) (mirror : List ℕ)
        → replay p log ≡ ok state
        → log.mirror ≡ some mirror
        → check_mirror log ≡ ok tt
        → (r : Result (Key × KeyRing)) → current_key now e ring ≡ r
        → Hands (check_keys p now t state log r) d report
        → IsReady p now e (ok t) log ring d report
    key_of state mirror a b c (err x) f g =
        no_failure is_orchestrator_error x (passed 3) "key material" (some state) log d report g
    key_of state mirror a b c (ok (k, keys)) f g = last state mirror k keys a b c f _ _ refl refl g

    sinks :
        (state : ReplayState)
        → replay p log ≡ ok state
        → (o : Option (List ℕ)) (r : Done) → log.mirror ≡ o
        → check_mirror log ≡ r
        → Hands (check_sinks p now e t state ring log o r) d report
        → IsReady p now e (ok t) log ring d report
    sinks state a none r b c g = no_dispatcher log (passed 2) "audit mirror" (some state) d report g
    sinks state a (some mirror) (err x) b c g =
        no_failure is_orchestrator_error x (passed 2) "audit mirror" (some state) log d report g
    sinks state a (some mirror) (ok tt) b c g =
        key_of state mirror a b c (current_key now e ring) refl g

    chain :
        (r : Result ReplayState)
        → replay p log ≡ r
        → Hands (check_chain p now e t ring log r) d report
        → IsReady p now e (ok t) log ring d report
    chain (err x) a g =
        no_failure is_audit_chain_error x (passed 1) "audit chain" none log d report g
    chain (ok state) a g = sinks state a log.mirror (check_mirror log) refl refl g
