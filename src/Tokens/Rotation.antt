-- ===== src/Tokens/Rotation.antt =====
-- The life of a key: how many are live, how old the signing key can be, and when a key is gone.
use amnesic_pi.Prelude.{
  ℕ, ◌+◌, ◌≤◌, ◌<◌, ◌≡◌, refl, sym, ap, ◌∙◌, subst, ◌⊎◌, inl, inr, Bool, true, false, List, [], ◌∷◌,
  arith, length, if◌then◌else◌,
}
use amnesic_pi.Prelude.Int.{ℤ, pos, negsuc}
use amnesic_pi.Errors.{Result, ok, bind_then, ok-injective, ok-if}
use amnesic_pi.Tokens.{
  Key, Entropy, KeyRing, first_two, first_one, minted, first_key, is_stale, rotate, new_ring,
  current, rotate_now,
}

-- One or two keys, and a positive rotation interval.
pub record IsLive (ring : KeyRing) : Type 0 where
  pub some_key : 1 ≤ length ring.keys
  pub two_at_most : length ring.keys ≤ 2
  pub positive : 1 ≤ ring.rotation

-- What can happen to a ring: any call, with any clock and any random bytes.
pub data Step : KeyRing → KeyRing → Type 0 where
  call_current :
      (now : ℕ) (e : Entropy) (k : Key) {a b : KeyRing} → current now e a ≡ ok (k, b) → Step a b
  call_rotate_now :
      (now : ℕ) (e : Entropy) (revoke : Bool) {a b : KeyRing}
      → b ≡ rotate_now now e revoke a
      → Step a b

pub data Reach : KeyRing → Type 0 where
  start :
      (rotation : ℤ) (now : ℕ) (e : Entropy) {ring : KeyRing}
      → new_ring rotation now e ≡ ok ring
      → Reach ring
  next : {a b : KeyRing} → Reach a → Step a b → Reach b

new_ring-IsLive :
    (rotation : ℤ) (now : ℕ) (e : Entropy) (ring : KeyRing)
    → new_ring rotation now e ≡ ok ring
    → IsLive ring
unfolding new_ring
new_ring-IsLive (pos n) now e ring h = ground arith
new_ring-IsLive (negsuc n) now e ring h = ground arith

rotate-IsLive :
    (now : ℕ) (e : Entropy) (ring : KeyRing) → 1 ≤ ring.rotation → IsLive (rotate now e ring)
unfolding rotate
rotate-IsLive now e ring h = go ring.keys
  where
    go : (ks : List Key) → IsLive (record ring { keys = first_two (minted now e ∷ ks) })
    go [] = omega arith
    go (k ∷ ks) = omega arith

pub first_key-rotate :
    (now : ℕ) (e : Entropy) (ring : KeyRing)
    → first_key (rotate now e ring).keys ≡ ok (minted now e)
unfolding rotate
first_key-rotate now e ring = go ring.keys
  where
    go : (ks : List Key) → first_key (first_two (minted now e ∷ ks)) ≡ ok (minted now e)
    go [] = refl
    go (k ∷ ks) = refl

-- `current` keeps a ring whose first key is fresh, and rotates a ring whose first key is stale.
pub current-cases :
    (now : ℕ) (e : Entropy) (k : Key) (a b : KeyRing)
    → current now e a ≡ ok (k, b)
    → ((a ≡ b) × (first_key a.keys ≡ ok k) × (is_stale a now k ≡ false))
      ⊎ ((rotate now e a ≡ b) × (minted now e ≡ k))
unfolding current
current-cases now e k a b h = bind_then (first_key a.keys) _ h λ old found rest.
    bind_then (first_key (rotate now e a).keys) _ rest λ fresh made last.
      elim (ok-if (is_stale a now old) (fresh, rotate now e a) (old, a) (k, b) last) [
        | inl (stale, same) ↦
            inr (cc, sym (ok-injective (sym made ∙ first_key-rotate now e a)) ∙ ap (λ x. x.0) same)
        | inr (fresh_enough, same) ↦ inl (
          ap (λ x. x.1) same,
          found ∙ ap (λ x. ok x.0) same,
          subst (λ x. is_stale a now x ≡ false) (ap (λ x. x.0) same) fresh_enough,
        )
      ]

keys-rotate_now :
    (now : ℕ) (e : Entropy) (revoke : Bool) (a : KeyRing)
    → 1 ≤ a.rotation
    → IsLive (rotate_now now e revoke a)
unfolding rotate_now
keys-rotate_now now e false a h = rotate-IsLive now e a h
keys-rotate_now now e true a h = unfold rotate in go a.keys
  where
    go : (ks : List Key) → IsLive (record a { keys = first_one (first_two (minted now e ∷ ks)) })
    go [] = omega arith
    go (k ∷ ks) = omega arith

Step-IsLive : {a b : KeyRing} → Step a b → IsLive a → IsLive b
Step-IsLive {a} {b} (call_current now e k h) live = elim (current-cases now e k a b h) [
  | inl kept ↦ subst IsLive kept.0 live
  | inr rotated ↦ subst IsLive rotated.0 (rotate-IsLive now e a live.positive)
]
Step-IsLive {a} {b} (call_rotate_now now e revoke h) live =
    subst IsLive (sym h) (keys-rotate_now now e revoke a live.positive)

-- However a ring is used, whatever the clock shows, it holds one or two keys and a positive interval.
pub Reach-IsLive : {ring : KeyRing} → Reach ring → IsLive ring
Reach-IsLive {ring} (start rotation now e h) = new_ring-IsLive rotation now e ring h
Reach-IsLive (next r s) = Step-IsLive s (Reach-IsLive r)

first_key-of_live : (ks : List Key) → 1 ≤ length ks → (k : Key) × (first_key ks ≡ ok k)
first_key-of_live [] h = absurd (omega arith)
first_key-of_live (k ∷ ks) h = (k, refl)

rotation-rotate : (now : ℕ) (e : Entropy) (a : KeyRing) → (rotate now e a).rotation ≡ a.rotation
unfolding rotate
rotation-rotate now e a = refl

current_total :
    (now : ℕ) (e : Entropy) (a : KeyRing)
    → IsLive a
    → (k : Key) × (b : KeyRing) × (current now e a ≡ ok (k, b))
unfolding current
current_total now e a live =
    let (k, found) = first_key-of_live a.keys live.some_key in
    rw (found, first_key-rotate now e a) (split (is_stale a now k) k)
  where
    split :
        (t : Bool) (k : Key)
        → (x : Key) × (b : KeyRing) × ◌≡◌ {A = Result (Key × KeyRing)}
            (ok (if t then (minted now e, rotate now e a) else (k, a)))
            (ok (x, b))
    split true k = (minted now e, rotate now e a, refl)
    split false k = (k, a, refl)

pub current-first :
    (now : ℕ) (e : Entropy) (k : Key) (a b : KeyRing)
    → current now e a ≡ ok (k, b)
    → first_key b.keys ≡ ok k
current-first now e k a b done = elim (current-cases now e k a b done) [
  | inl kept ↦ subst (λ r. first_key r.keys ≡ ok k) kept.0 kept.1
  | inr rotated ↦
      subst (λ r. first_key r.keys ≡ ok k) rotated.0 (first_key-rotate now e a ∙ ap ok rotated.1)
]

-- A live ring always has a signing key: `current` returns the first key of the ring that it leaves,
-- and that key is younger than the rotation interval.
pub current_is_fresh :
    (now : ℕ) (e : Entropy) (a : KeyRing)
    → IsLive a
    → (k : Key) × (b : KeyRing) × (current now e a ≡ ok (k, b))
      × (first_key b.keys ≡ ok k)
      × (now < k.created_at + b.rotation)
current_is_fresh now e a live =
    let (k, b, done) = current_total now e a live in
    (k, b, done, current-first now e k a b done, young k b done)
  where
    young : (k : Key) (b : KeyRing) → current now e a ≡ ok (k, b) → now < k.created_at + b.rotation
    young k b done = elim (current-cases now e k a b done) [
      | inl kept ↦ subst (λ r. now < k.created_at + r.rotation) kept.0 (ground (arith, kept.2))
      | inr rotated ↦
          subst (λ r. now < k.created_at + r.rotation) rotated.0
            (subst (λ x. now < x.created_at + (rotate now e a).rotation) rotated.1
              (omega (arith, rotation-rotate now e a, live.positive)))
    ]
