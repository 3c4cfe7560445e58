-- ===== src/Dispatch/Finality.antt =====
-- Runs of the dispatcher of src/orchestrator/dispatch.py: any calls in any order, with any clock and
-- random bits, of which some may raise. What stays true over a run.
use amnesic_pi.Prelude.{
  ℕ, String, ◌≡◌, ◌≢◌, refl, sym, ap, ◌∙◌, subst, Bool, true, false, Option, arith, eq_iff,
}
use amnesic_pi.Prelude.Int.{ℤ}
use amnesic_pi.Prelude.Dict.{text_key, pair_key}
use amnesic_pi.Errors.{ok}
use amnesic_pi.Platform.{Platform}
use amnesic_pi.Value.{Value, Fields}
use amnesic_pi.Schema.Node.{WorkNode}
use amnesic_pi.Schema.Graph.{WorkGraph}
use amnesic_pi.Schema.Envelope.{TaskEnvelope}
use amnesic_pi.Schema.Memo.{DecisionMemo}
use amnesic_pi.Tokens.{was_consumed}
use amnesic_pi.Dispatch.{open_for_dispatch, pause_team, resume_team, dispatch, dispatch_graph}
use amnesic_pi.Audit.Extended.{unextended}
use amnesic_pi.Dispatch.Records.{Dispatcher, Draw}
use amnesic_pi.Dispatch.Ingress.{deliver, ingest_status}
use amnesic_pi.Dispatch.Gating.{accept_gate}
use amnesic_pi.Dispatch.Reclaim.{reclaim, record_decision}
use amnesic_pi.Dispatch.Grows.{Grows, stays, joins}
use amnesic_pi.Dispatch.Steps.{deliver_grows}
use amnesic_pi.Dispatch.Delivery.{IsDelivered, deliver-IsDelivered}
use amnesic_pi.Dispatch.Runs.{
  pause_team_grows, resume_team_grows, ingest_status_grows, accept_gate_grows,
  record_decision_grows, dispatch_grows, dispatch_graph_grows, reclaim_grows,
}

-- One call of a public method, which may raise: `b` is the state that it leaves. (`restore_from` is not
-- among them: only a cold start calls it, before the dispatcher is handed out.)
pub data Call (p : Platform) (a b : Dispatcher) : Type 0 where
  opened : b ≡ open_for_dispatch a → Call p a b
  paused : (now : ℕ) (team reason : String) → b ≡ (pause_team p now team reason a).1 → Call p a b
  resumed : (now : ℕ) (team : String) → b ≡ (resume_team p now team a).1 → Call p a b
  dispatched :
      (draw : Draw) (node : WorkNode) (graph_id : String) (payload : Option Fields)
      (task_id : Option String) (ttl : ℤ)
      → b ≡ (dispatch p draw node graph_id payload task_id ttl a).1
      → Call p a b
  graph_dispatched :
      (draw : ℕ → Draw) (graph : WorkGraph) (graph_id : String) (ready_only : Bool)
      → b ≡ (dispatch_graph p draw graph graph_id ready_only a).1
      → Call p a b
  presented :
      (now : ℕ) (env : TaskEnvelope) (to_agent : String)
      → b ≡ (deliver p now env to_agent a).1
      → Call p a b
  reported : (now : ℕ) (raw : Value) → b ≡ (ingest_status p now raw a).1 → Call p a b
  gated :
      (now : ℕ) (task_id : String) (raw : Value)
      → b ≡ (accept_gate p now task_id raw a).1
      → Call p a b
  reclaimed :
      (draw : Draw) (task_id reason : String) (graph : WorkGraph)
      → b ≡ (reclaim p draw task_id reason graph a).1
      → Call p a b
  decided : (now : ℕ) (memo : DecisionMemo) → b ≡ (record_decision p now memo a).1 → Call p a b

pub data Run (p : Platform) : Dispatcher → Dispatcher → Type 0 where
  done : {a : Dispatcher} → Run p a a
  next : {a b c : Dispatcher} → Call p a b → Run p b c → Run p a c

back : {a b c : Dispatcher} → b ≡ c → Grows a c → Grows a b
back {a} e g = subst (Grows a) (sym e) g

Call-Grows : {p : Platform} {a b : Dispatcher} → Call p a b → Grows a b
Call-Grows {p} {a} {b} (opened h) = back h (record {
  topology = refl;
  used = λ i k. k;
  known = λ i k. k;
  verdicts = λ k. k;
  owners = λ k. k;
  opened = λ k. refl;
  logged = unextended _;
})
Call-Grows {p} {a} {b} (paused now team reason h) = back h (pause_team_grows p now team reason a)
Call-Grows {p} {a} {b} (resumed now team h) = back h (resume_team_grows p now team a)
Call-Grows {p} {a} {b} (dispatched draw node g payload task_id ttl h) =
    back h (dispatch_grows p draw node g payload task_id ttl a)
Call-Grows {p} {a} {b} (graph_dispatched draw graph g ready h) =
    back h (dispatch_graph_grows p draw graph g ready a)
Call-Grows {p} {a} {b} (presented now env to_agent h) = back h (deliver_grows p now env to_agent a)
Call-Grows {p} {a} {b} (reported now raw h) = back h (ingest_status_grows p now raw a)
Call-Grows {p} {a} {b} (gated now task_id raw h) = back h (accept_gate_grows p now task_id raw a)
Call-Grows {p} {a} {b} (reclaimed draw task_id reason graph h) =
    back h (reclaim_grows p draw task_id reason graph a)
Call-Grows {p} {a} {b} (decided now memo h) = back h (record_decision_grows p now memo a)

-- Over any run of calls, whether they return or raise: the topology stays; a known task stays known; a
-- task whose token was accepted stays accepted; if every task that stands as gate_pass had a passing
-- result for the exit gate that it declares, every one still has; if every owner of a node was a
-- known task, every one still is; once open for dispatch it stays open; and the text of the log before
-- the run still stands at the front of the log after it: the primary is only ever appended to.
pub Run-Grows : {p : Platform} {a b : Dispatcher} → Run p a b → Grows a b
Run-Grows {a = a} done = stays a
Run-Grows {a = a} {b = c} (next {b = b} call run) = joins a b c (Call-Grows call) (Run-Grows run)

delivered_is_used :
    (p : Platform) (now : ℕ) (env : TaskEnvelope) (to_agent : String) (a b : Dispatcher)
    → IsDelivered p now env to_agent a b
    → was_consumed env.task_id b.replay ≡ true
delivered_is_used p now env to_agent a b h =
    subst (λ (d : Dispatcher). was_consumed env.task_id d.replay ≡ true) (sym h.after)
      (ground (arith, eq_iff env.task_id h.token.task_id, h.own_task))

-- A task is delivered once: after an envelope was accepted, no envelope for the same task is accepted
-- again, at any lead, with any token, and whatever calls came in between.
pub deliver_once :
    (p : Platform) (now later : ℕ) (env again : TaskEnvelope) (to_agent other : String)
    (a b c : Dispatcher)
    → deliver p now env to_agent a ≡ (ok tt, b)
    → Run p b c
    → again.task_id ≡ env.task_id
    → (deliver p later again other c).0 ≢ ok tt
deliver_once p now later env again to_agent other a b c first run same second =
    let accepted =
      deliver-IsDelivered p later again other c (deliver p later again other c).1
        (ap (λ r. (r, (deliver p later again other c).1)) second) in
    let used = (Run-Grows run).used env.task_id (
      delivered_is_used p now env to_agent a b
        (deliver-IsDelivered p now env to_agent a b first)) in
    let clash : true ≡ false =
      sym used ∙ subst (λ id. was_consumed id c.replay ≡ false) same accepted.first_use in
    cc
