-- ===== src/Dispatch/Grows.antt =====
-- What every step of a method of src/orchestrator/dispatch.py keeps: the topology, the tasks that are
-- known, the tasks whose token was accepted, the owners of nodes, the verdict behind each passed gate, and
-- what is in the log.
use amnesic_pi.Prelude.{
  String, ◌≡◌, refl, sym, ◌∙◌, subst, Bool, true, false, Option, none, some, str_eq, if◌then◌else◌,
}
use amnesic_pi.Prelude.Dict
use amnesic_pi.Prelude.Dict.{text_key, pair_key, lookup-insert, lookup-remove, same_self}
use amnesic_pi.Errors.{Exn, Result}
use amnesic_pi.Gates.{GateResult}
use amnesic_pi.Tokens.{was_consumed}
use amnesic_pi.Audit.Extended.{Extends, unextended, extended_twice}
use amnesic_pi.Dispatch.Records.{TaskRecord, Dispatcher}
use amnesic_pi.Dispatch.Monad
use amnesic_pi.Dispatch.Monad.{M, Does}

abbrev pub knows : String → Dispatcher → Bool
knows id d = elim (Dict.lookup id d.tasks) [ none ↦ false | some r ↦ true ]

-- A task stands as passed only on a passing result for the exit gate that it declares.
abbrev pub HasVerdict : TaskRecord → Type 0
HasVerdict r =
    r.state ≡ "gate_pass"
    → (g : GateResult) × (r.gate_result ≡ some g)
      × (g.passed ≡ true)
      × (g.gate ≡ r.envelope.exit_gate)

abbrev pub HasVerdicts : Dispatcher → Type 0
HasVerdicts d = (id : String) (r : TaskRecord) → Dict.lookup id d.tasks ≡ some r → HasVerdict r

-- The owner of a node is a task that is known.
abbrev pub HasOwners : Dispatcher → Type 0
HasOwners d =
    (key : String × String) (id : String) → Dict.lookup key d.by_node ≡ some id → knows id d ≡ true

pub record Grows (a b : Dispatcher) : Type 0 where
  pub topology : b.topology ≡ a.topology
  pub used : (id : String) → was_consumed id a.replay ≡ true → was_consumed id b.replay ≡ true
  pub known : (id : String) → knows id a ≡ true → knows id b ≡ true
  pub verdicts : HasVerdicts a → HasVerdicts b
  pub owners : HasOwners a → HasOwners b
  pub opened : a.read_only ≡ false → b.read_only ≡ false
  pub logged : Extends a.audit.primary b.audit.primary

pub stays : (a : Dispatcher) → Grows a a
stays a = record {
  topology = refl;
  used = λ id h. h;
  known = λ id h. h;
  verdicts = λ h. h;
  owners = λ h. h;
  opened = λ h. h;
  logged = unextended a.audit.primary;
}

pub joins : (a b c : Dispatcher) → Grows a b → Grows b c → Grows a c
joins a b c x y = record {
  topology = y.topology ∙ x.topology;
  used = λ id h. y.used id (x.used id h);
  known = λ id h. y.known id (x.known id h);
  verdicts = λ h. y.verdicts (x.verdicts h);
  owners = λ h. y.owners (x.owners h);
  opened = λ h. y.opened (x.opened h);
  logged = extended_twice a.audit.primary b.audit.primary c.audit.primary x.logged y.logged;
}

pub knows-insert :
    (id key : String) (r : TaskRecord) (d : Dispatcher)
    → knows id d ≡ true
    → knows id (record d { tasks = Dict.insert key r d.tasks }) ≡ true
knows-insert id key r d h =
    subst (λ (o : Option TaskRecord). elim o [ none ↦ false | some x ↦ true ] ≡ true)
      (sym (lookup-insert key id r d.tasks)) (go (str_eq id key) h)
  where
    go :
        (t : Bool)
        → knows id d ≡ true
        → elim (if t then some r else Dict.lookup id d.tasks) [ none ↦ false | some x ↦ true ]
          ≡ true
    go true k = refl
    go false k = k

abbrev pub bind :
    {A B : Type 0} (m : M A) (f : A → M B)
    → Does Grows m
    → ((a : A) → Does Grows (f a))
    → Does Grows (Monad.◌>>=◌ m f)
bind = Monad.bind_does Grows stays joins

abbrev pub lifted :
    {A B : Type 0} (r : Result A) (f : A → M B)
    → ((a : A) → Does Grows (f a))
    → Does Grows (Monad.◌>>=◌ (Monad.lift r) f)
lifted = Monad.lift_does Grows stays joins

abbrev pub got :
    {A B : Type 0} (g : Dispatcher → A) (f : A → M B)
    → ((a : A) → Does Grows (f a))
    → Does Grows (Monad.◌>>=◌ (Monad.gets g) f)
got = Monad.gets_does Grows stays joins

abbrev pub required :
    {B : Type 0} (t : Bool) (x : Exn) (k : M B)
    → (t ≡ true → Does Grows k)
    → Does Grows (Monad.◌>>◌ (Monad.require_m t x) k)
required = Monad.require_does Grows stays joins

abbrev pub refused :
    {B : Type 0} (t : Bool) (x : Exn) (k : M B)
    → (t ≡ false → Does Grows k)
    → Does Grows (Monad.◌>>◌ (Monad.refuse_if_m t x) k)
refused = Monad.refuse_if_does Grows stays joins

pub pure_grows : {A : Type 0} (a : A) → Does Grows (Monad.pure a)
pure_grows a d = stays d
