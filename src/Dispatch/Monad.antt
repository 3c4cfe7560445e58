-- ===== src/Dispatch/Monad.antt =====
-- Methods of the dispatcher: state, and exceptions that keep what was written before them.
use amnesic_pi.Prelude.{◌≡◌, refl, ap, true, false, ◌≡◌, refl, ap, Bool, if◌then◌else◌}
use amnesic_pi.Errors.{Exn, Result, ok, err}
use amnesic_pi.Dispatch.Records.{Dispatcher}

abbrev pub M : Type 0 → Type 0
M A = Dispatcher → Result A × Dispatcher

module _ {A : Type 0} where
  abbrev pub pure : A → M A
  pure a d = (ok a, d)

  abbrev pub raise : Exn → M A
  raise e d = (err e, d)

  abbrev pub lift : Result A → M A
  lift r d = (r, d)

  abbrev pub gets : (Dispatcher → A) → M A
  gets f d = (ok (f d), d)

abbrev pub modify : (Dispatcher → Dispatcher) → M Unit
modify f d = (ok tt, f d)

abbrev pub require_m : Bool → Exn → M Unit
require_m b e d = (if b then ok tt else err e, d)

abbrev pub refuse_if_m : Bool → Exn → M Unit
refuse_if_m b e d = (if b then err e else ok tt, d)

module _ {A B : Type 0} where
  abbrev pub continue : Result A → (A → M B) → M B
  continue (ok a) f d = f a d
  continue (err e) f d = (err e, d)

  infixl 5 ◌>>=◌ ◌>>◌
  unfoldable pub ◌>>=◌ : M A → (A → M B) → M B
  ◌>>=◌ m f d = let r = m d in continue r.0 f r.1

  abbrev pub ◌>>◌ : M A → M B → M B
  m >> k = m >>= λ _. k

module _ {A B : Type 0} where
  pub bind_ok :
      (m : M A) (f : A → M B) (a : A) (d d1 : Dispatcher) → m d ≡ (ok a, d1) → (m >>= f) d ≡ f a d1
  unfolding ◌>>=◌
  bind_ok m f a d d1 e = ap (λ r. continue r.0 f r.1) e

-- Inversion of successful steps, with the rest of a proof as an argument.
module _ {μ} {A B : Type 0} {P : Type μ} {b : B} {d d' : Dispatcher} where
  pub bind_m_then :
      (m : M A) (f : A → M B)
      → (m >>= f) d ≡ (ok b, d')
      → ((a : A) (d1 : Dispatcher) → m d ≡ (ok a, d1) → f a d1 ≡ (ok b, d') → P)
      → P
  unfolding ◌>>=◌
  bind_m_then m f h k = go (m d) refl h
    where
      go : (r : Result A × Dispatcher) → m d ≡ r → continue r.0 f r.1 ≡ (ok b, d') → P
      go (ok a, d1) e g = k a d1 e g
      go (err x, d1) e g = let failed : err x ≡ ok b = ap (λ r. r.0) g in absurd (cc)

  pub lift_then :
      (r : Result A) (f : A → M B)
      → (lift r >>= f) d ≡ (ok b, d')
      → ((a : A) → r ≡ ok a → f a d ≡ (ok b, d') → P)
      → P
  unfolding ◌>>=◌
  lift_then (ok a) f h k = k a refl h
  lift_then (err x) f h k = let failed : err x ≡ ok b = ap (λ r. r.0) h in absurd (cc)

  pub gets_then :
      (g : Dispatcher → A) (f : A → M B)
      → (gets g >>= f) d ≡ (ok b, d')
      → (f (g d) d ≡ (ok b, d') → P)
      → P
  unfolding ◌>>=◌
  gets_then g f h k = k h

module _ {μ} {B : Type 0} {P : Type μ} {b : B} {d d' : Dispatcher} where
  pub modify_then :
      (f : Dispatcher → Dispatcher) (k : M B)
      → (modify f >> k) d ≡ (ok b, d')
      → (k (f d) ≡ (ok b, d') → P)
      → P
  unfolding ◌>>=◌
  modify_then f k h g = g h

  pub require_m_then :
      (t : Bool) (x : Exn) (k : M B)
      → (require_m t x >> k) d ≡ (ok b, d')
      → (t ≡ true → k d ≡ (ok b, d') → P)
      → P
  unfolding ◌>>=◌
  require_m_then true x k h f = f refl h
  require_m_then false x k h f = let failed : err x ≡ ok b = ap (λ r. r.0) h in absurd (cc)

  pub refuse_if_m_then :
      (t : Bool) (x : Exn) (k : M B)
      → (refuse_if_m t x >> k) d ≡ (ok b, d')
      → (t ≡ false → k d ≡ (ok b, d') → P)
      → P
  unfolding ◌>>=◌
  refuse_if_m_then true x k h f = let failed : err x ≡ ok b = ap (λ r. r.0) h in absurd (cc)
  refuse_if_m_then false x k h f = f refl h

-- What a method does to the state, whether it returns or raises: a relation that holds of every step
-- of a method holds of the method.
abbrev pub Does : {A : Type 0} → (Dispatcher → Dispatcher → Type 0) → M A → Type 0
Does R m = (d : Dispatcher) → R d (m d).1

module _ (R : Dispatcher → Dispatcher → Type 0) (same : (d : Dispatcher) → R d d)
    (join : (a b c : Dispatcher) → R a b → R b c → R a c) where
  pub bind_does :
      {A B : Type 0} (m : M A) (f : A → M B)
      → Does R m
      → ((a : A) → Does R (f a))
      → Does R (m >>= f)
  unfolding ◌>>=◌
  bind_does {A} {B} m f hm hf d = go (m d) (hm d)
    where
      go : (r : Result A × Dispatcher) → R d r.1 → R d (continue r.0 f r.1).1
      go (ok a, d1) h = join d d1 (f a d1).1 h (hf a d1)
      go (err x, d1) h = h

  pub lift_does :
      {A B : Type 0} (r : Result A) (f : A → M B) → ((a : A) → Does R (f a)) → Does R (lift r >>= f)
  unfolding ◌>>=◌
  lift_does (ok a) f hf d = hf a d
  lift_does (err x) f hf d = same d

  pub gets_does :
      {A B : Type 0} (g : Dispatcher → A) (f : A → M B)
      → ((a : A) → Does R (f a))
      → Does R (gets g >>= f)
  unfolding ◌>>=◌
  gets_does g f hf d = hf (g d) d

  pub require_does :
      {B : Type 0} (t : Bool) (x : Exn) (k : M B)
      → (t ≡ true → Does R k)
      → Does R (require_m t x >> k)
  unfolding ◌>>=◌
  require_does true x k hk d = hk refl d
  require_does false x k hk d = same d

  pub refuse_if_does :
      {B : Type 0} (t : Bool) (x : Exn) (k : M B)
      → (t ≡ false → Does R k)
      → Does R (refuse_if_m t x >> k)
  unfolding ◌>>=◌
  refuse_if_does true x k hk d = same d
  refuse_if_does false x k hk d = hk refl d
