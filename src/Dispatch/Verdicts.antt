-- ===== src/Dispatch/Verdicts.antt =====
-- What `accept_gate` and `ingest_status` of src/orchestrator/dispatch.py write.
use amnesic_pi.Prelude.{
  ℕ, String, ◌≡◌, ◌≢◌, ◌≤◌, refl, sym, ap, ◌∙◌, subst, Bool, true, false, ◌||◌, Option, none, some,
  str_eq, eq_iff, ltb, arith, if◌then◌else◌,
}
use amnesic_pi.Prelude.Dict
use amnesic_pi.Prelude.Dict.{text_key, lookup-insert, same_self}
use amnesic_pi.Errors.{ok, dispatch_rejected, or_raise, ok-injective}
use amnesic_pi.Platform.{Platform}
use amnesic_pi.Value.{Value, Fields, str, field, end}
use amnesic_pi.Schema.Scope.{payload_digest}
use amnesic_pi.Schema.Status
use amnesic_pi.Schema.Status.{StatusUpdate}
use amnesic_pi.Gates
use amnesic_pi.Audit
use amnesic_pi.Audit.{AuditEntry}
use amnesic_pi.Dispatch.{actor, append, tagged}
use amnesic_pi.Dispatch.Records.{TaskRecord, is_terminal, Dispatcher}
use amnesic_pi.Dispatch.Monad
use amnesic_pi.Dispatch.Monad.{M, bind_m_then, lift_then, refuse_if_m_then}
use amnesic_pi.Dispatch.Delivery.{append-IsLogged}
use amnesic_pi.Dispatch.Ingress.{find_record, put, reported, status_fields, ingest_status}
use amnesic_pi.Dispatch.Reclaim.{is_past, is_superseded, is_stuck}

found_record :
    (id : String) (r : TaskRecord) (a b : Dispatcher)
    → find_record id a ≡ (ok r, b)
    → (Dict.lookup id a.tasks ≡ some r) × (a ≡ b)
unfolding find_record
found_record id r a b h = (go (Dict.lookup id a.tasks) (ap (λ x. x.0) h), ap (λ x. x.1) h)
  where
    go : (o : Option TaskRecord) → or_raise o dispatch_rejected ≡ ok r → o ≡ some r
    go none e = cc
    go (some x) e = ap some (ok-injective e)

-- One record was replaced and one entry logged; nothing else changed.
pub record IsUpdated (p : Platform) (now : ℕ) (id event : String) (fields : Fields) (r : TaskRecord)
    (a b : Dispatcher) : Type 0 where
  pub entry : AuditEntry
  pub logged : Audit.append p now a.audit actor event fields ≡ (ok entry, b.audit)
  pub after : b ≡ record a { tasks = Dict.insert id r a.tasks; audit = b.audit }

updated :
    {B : Type 0} (p : Platform) (now : ℕ) (id event : String) (fields : Fields) (r : TaskRecord)
    (a b : Dispatcher) (out : B) {x : B}
    → (Monad.◌>>◌ (put id r) (Monad.◌>>=◌ (append p now event fields) λ entry. Monad.pure out)) a
      ≡ (ok x, b)
    → IsUpdated p now id event fields r a b
unfolding put
updated p now id event fields r a b out h =
    Monad.modify_then (λ d. record d { tasks = Dict.insert id r d.tasks }) _ h
      λ h1. bind_m_then (append p now event fields) _ h1 λ entry d e h2.
        let left : d ≡ b = ap (λ y. y.1) h2 in
        let logged =
          append-IsLogged p now event fields (record a { tasks = Dict.insert id r a.tasks }) d entry
            e in
        subst (λ (c : Dispatcher). IsUpdated p now id event fields r a c) left
          (record { entry = entry; logged = logged.written; after = logged.rest })

-- What such a tail of a method returns.
returned :
    {B : Type 0} (p : Platform) (now : ℕ) (id event : String) (fields : Fields) (r : TaskRecord)
    (a b : Dispatcher) (out x : B)
    → (Monad.◌>>◌ (put id r) (Monad.◌>>=◌ (append p now event fields) λ entry. Monad.pure out)) a
      ≡ (ok x, b)
    → out ≡ x
unfolding put
returned p now id event fields r a b out x h =
    Monad.modify_then (λ d. record d { tasks = Dict.insert id r d.tasks }) _ h
      λ h1.
        bind_m_then (append p now event fields) _ h1 λ entry d e h2. ok-injective (ap (λ y. y.0) h2)

-- What a report for a known task leaves, at a moment up to the next deadline that it names.
pub record IsReported (p : Platform) (now moment : ℕ) (update : StatusUpdate) (a b : Dispatcher)
    : Type 0 where
  pub before : TaskRecord
  pub known : Dict.lookup update.task_id a.tasks ≡ some before
  pub honest : update.state ≢ "gate_pass"
  pub entry : AuditEntry
  pub logged :
      Audit.append p now a.audit actor "status" (
        field "task_id" (str update.task_id) (
          field "team" (str before.envelope.team) (
            field "state" (str update.state) (
              field "payload_hash"
                (str (tagged (payload_digest p (Status.to_dict p update))))
                end))))
      ≡ (ok entry, b.audit)
  -- The record behind the call: its envelope, its verdict, its successor and its history stay.
  pub left : TaskRecord
  pub kept : left ≡ record before {
    state = update.state;
    pct_complete = update.pct_complete;
    next_update_by = some update.next_update_by;
    ack_deadline = none;
  }
  pub after : b ≡ record a { tasks = Dict.insert update.task_id left a.tasks; audit = b.audit }
  pub found : Dict.lookup update.task_id b.tasks ≡ some left
  pub in_time : is_stuck moment left ≡ false

in_time_lem :
    (moment limit : ℕ) (r : TaskRecord)
    → r.ack_deadline ≡ none
    → r.next_update_by ≡ some limit
    → moment ≤ limit
    → is_stuck moment r ≡ false
in_time_lem moment limit r acknowledged due early =
    subst
      (λ o.
        (if is_terminal r || is_superseded r
          then false
          else is_past o moment || is_past r.next_update_by moment)
        ≡ false)
      (sym acknowledged)
      (subst (λ o. (if is_terminal r || is_superseded r then false else is_past o moment) ≡ false)
        (sym due) (go (is_terminal r || is_superseded r)))
  where
    go : (t : Bool) → (if t then false else ltb limit moment) ≡ false
    go true = refl
    go false = ground arith

inserted :
    (id : String) (r : TaskRecord) (d : Dispatcher)
    → Dict.lookup id (Dict.insert id r d.tasks) ≡ some r
inserted id r d =
    lookup-insert id id r d.tasks
    ∙ ap (λ t. if t then some r else Dict.lookup id d.tasks) (same_self id)

-- `ingest_status` accepts only what parses as a status update, of a task that is known, and never one
-- that claims gate_pass. The record of that task then has the state, the percentage and the next
-- deadline of the update and no acknowledgement deadline; the rest of the record is as it was, the
-- report is logged with its digest, and nothing else changes. Up to the deadline that the update names
-- the task does not count as stuck, however long its acknowledgement was overdue.
pub ingest_status-IsReported :
    (p : Platform) (now moment : ℕ) (raw : Value) (update : StatusUpdate) (a b : Dispatcher)
    → ingest_status p now raw a ≡ (ok update, b)
    → moment ≤ update.next_update_by
    → (Status.parse p raw ≡ ok update) × IsReported p now moment update a b
unfolding ingest_status
ingest_status-IsReported p now moment raw update a b h early =
    lift_then (Status.parse p raw) _ h λ u parsed h1.
      bind_m_then (find_record u.task_id) _ h1 λ r d e h2.
        let (known, same) = found_record u.task_id r a d e in
        refuse_if_m_then (str_eq u.state "gate_pass") dispatch_rejected _ h2 λ honest h3.
          let out : u ≡ update =
            returned p now u.task_id "status" (status_fields p u r) (reported u r) d b u update
              h3 in
          let done =
            subst
              (λ (c : Dispatcher).
                IsUpdated p now u.task_id "status" (status_fields p u r) (reported u r) c b)
              (sym same)
              (updated p now u.task_id "status" (status_fields p u r) (reported u r) d b u h3) in
          subst
            (λ (x : StatusUpdate).
              moment ≤ x.next_update_by
              → (Status.parse p raw ≡ ok x) × IsReported p now moment x a b)
            out
            (λ early. (
              parsed,
              record {
                before = r;
                known = known;
                honest = λ claims. ground (arith, eq_iff u.state "gate_pass");
                entry = done.entry;
                logged = done.logged;
                left = reported u r;
                kept = refl;
                after = done.after;
                found =
                    ap (λ (c : Dispatcher). Dict.lookup u.task_id c.tasks) done.after
                    ∙ inserted u.task_id (reported u r) a;
                in_time = in_time_lem moment u.next_update_by (reported u r) refl refl early;
              },
            ))
            early
