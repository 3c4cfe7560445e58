-- ===== src/Errors.antt =====
-- src/orchestrator/errors.py: the refusals of the control plane; the exceptions of Python itself that
-- the modelled code can let out; and `ConfigError` and `FirewallError` of src/amnesic_pi. Message texts are not modelled.
use amnesic_pi.Prelude.{
  ◌≡◌, refl, ◌⊎◌, inl, inr, if◌then◌else◌, Bool, true, false, Option, none, some,
}

pub data Exn : Type 0 where
  schema_error token_error replay_error : Exn
  audit_chain_error audit_divergence_error : Exn
  dispatch_rejected authority_error : Exn
  topology_error policy_breach read_only_mode : Exn
  type_error attribute_error key_error value_error index_error : Exn
  os_error broken_pipe unicode_error : Exn
  config_error firewall_error system_exit : Exn

-- `except OrchestratorError`
abbrev pub is_orchestrator_error : Exn → Bool
is_orchestrator_error type_error = false
is_orchestrator_error attribute_error = false
is_orchestrator_error key_error = false
is_orchestrator_error value_error = false
is_orchestrator_error index_error = false
is_orchestrator_error os_error = false
is_orchestrator_error broken_pipe = false
is_orchestrator_error unicode_error = false
is_orchestrator_error config_error = false
is_orchestrator_error firewall_error = false
is_orchestrator_error system_exit = false
is_orchestrator_error _ = true

-- `except OSError`
abbrev pub is_os_error : Exn → Bool
is_os_error os_error = true
is_os_error broken_pipe = true
is_os_error _ = false

-- `except TokenError`
abbrev pub is_token_error : Exn → Bool
is_token_error token_error = true
is_token_error replay_error = true
is_token_error _ = false

-- `except AuditChainError`
abbrev pub is_audit_chain_error : Exn → Bool
is_audit_chain_error audit_chain_error = true
is_audit_chain_error audit_divergence_error = true
is_audit_chain_error _ = false

-- `except DispatchRejected`
abbrev pub is_dispatch_rejected : Exn → Bool
is_dispatch_rejected dispatch_rejected = true
is_dispatch_rejected authority_error = true
is_dispatch_rejected _ = false

pub data Result {ℓ} (T : Type ℓ) : Type ℓ where
  err : Exn → Result T
  ok : T → Result T

-- A check that returns nothing.
abbrev pub Done : Type 0
Done = Result (Unit {0})

module _ {ℓ κ} {S : Type ℓ} {T : Type κ} where
  infixl 5 ◌>>=◌
  abbrev pub ◌>>=◌ : Result S → (S → Result T) → Result T
  err raised >>= after = err raised
  ok value >>= after = after value

module _ {κ} {T : Type κ} where
  infixl 5 ◌>>◌
  abbrev pub ◌>>◌ : Done → Result T → Result T
  check >> after = check >>= λ nothing. after

-- `if not b: raise e`, and `if b: raise e`.
abbrev pub require : Bool → Exn → Done
require true e = ok tt
require false e = err e

abbrev pub refuse_if : Bool → Exn → Done
refuse_if true e = err e
refuse_if false e = ok tt

abbrev pub or_raise {ℓ} : {A : Type ℓ} → Option A → Exn → Result A
or_raise none e = err e
or_raise (some a) e = ok a

-- Inversion of successful steps.
module _ {ℓ κ} {S : Type ℓ} {T : Type κ} {t : T} where
  pub >>=-eq-ok :
      (step : Result S) (after : S → Result T)
      → (step >>= after) ≡ ok t
      → (s : S) × (step ≡ ok s) × (after s ≡ ok t)
  >>=-eq-ok (err raised) after done = cc
  >>=-eq-ok (ok value) after done = (value, refl, done)

pub require-eq-ok {ℓ} :
    {B : Type ℓ} (b : Bool) (e : Exn) (k : Result B) {r : B}
    → (require b e >> k) ≡ ok r
    → (b ≡ true) × (k ≡ ok r)
require-eq-ok true e k h = (refl, h)
require-eq-ok false e k h = cc

pub refuse_if-eq-ok {ℓ} :
    {B : Type ℓ} (b : Bool) (e : Exn) (k : Result B) {r : B}
    → (refuse_if b e >> k) ≡ ok r
    → (b ≡ false) × (k ≡ ok r)
refuse_if-eq-ok true e k h = cc
refuse_if-eq-ok false e k h = (refl, h)

pub >>-eq-ok {ℓ} :
    {B : Type ℓ} (m : Done) (k : Result B) {r : B} → (m >> k) ≡ ok r → (m ≡ ok tt) × (k ≡ ok r)
>>-eq-ok (ok tt) k h = (refl, h)
>>-eq-ok (err e) k h = cc

-- The same with the rest of a proof as an argument, for chains of many steps.
module _ {ℓ κ μ} {A : Type ℓ} {B : Type κ} {P : Type μ} {b : B} where
  pub bind_then :
      (m : Result A) (f : A → Result B)
      → (m >>= f) ≡ ok b
      → ((a : A) → m ≡ ok a → f a ≡ ok b → P)
      → P
  bind_then (ok a) f h k = k a refl h
  bind_then (err e) f h k = absurd (cc)

module _ {κ μ} {B : Type κ} {P : Type μ} {b : B} where
  pub check_then : (m : Done) (k : Result B) → (m >> k) ≡ ok b → (m ≡ ok tt → k ≡ ok b → P) → P
  check_then (ok tt) k h f = f refl h
  check_then (err e) k h f = absurd (cc)

  pub require_then :
      (t : Bool) (e : Exn) (k : Result B)
      → (require t e >> k) ≡ ok b
      → (t ≡ true → k ≡ ok b → P)
      → P
  require_then true e k h f = f refl h
  require_then false e k h f = absurd (cc)

  pub refuse_if_then :
      (t : Bool) (e : Exn) (k : Result B)
      → (refuse_if t e >> k) ≡ ok b
      → (t ≡ false → k ≡ ok b → P)
      → P
  refuse_if_then true e k h f = absurd (cc)
  refuse_if_then false e k h f = f refl h

pub ok-injective {ℓ} : {A : Type ℓ} {a b : A} → ok a ≡ ok b → a ≡ b
ok-injective h = cc

pub ok-if {ℓ} :
    {A : Type ℓ} (t : Bool) (x y z : A)
    → ok (if t then x else y) ≡ ok z
    → ((t ≡ true) × (x ≡ z)) ⊎ ((t ≡ false) × (y ≡ z))
ok-if true x y z h = inl (refl, ok-injective h)
ok-if false x y z h = inr (refl, ok-injective h)

pub result-if {ℓ} :
    {A : Type ℓ} (t : Bool) (x y : Result A) (z : A)
    → (if t then x else y) ≡ ok z
    → ((t ≡ true) × (x ≡ ok z)) ⊎ ((t ≡ false) × (y ≡ ok z))
result-if true x y z h = inl (refl, h)
result-if false x y z h = inr (refl, h)
