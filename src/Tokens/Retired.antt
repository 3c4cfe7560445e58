-- ===== src/Tokens/Retired.antt =====
-- When a key is gone, the tokens under it are refused.
use amnesic_pi.Prelude.{
  ℕ, String, ◌≡◌, refl, sym, ap, ◌∙◌, subst, ◌⊎◌, inl, inr, true, false, Option, List, [], ◌∷◌,
}
use amnesic_pi.Errors.{ok, bind_then, result-if}
use amnesic_pi.Platform.{Platform}
use amnesic_pi.Value.{Value}
use amnesic_pi.Tokens.{
  HandoffToken, Key, Entropy, KeyRing, first_two, first_one, minted, rotate, rotate_now,
  compare_digest, lookup, verify,
}
use amnesic_pi.Tokens.Ingress.{compare_digest-eq, verify-IsAuthentic}

-- The key that is found is the first of the list, under the token's name, or stands behind it.
lookup-cases :
    (id : String) (x : Key) (ks : List Key) (k : Key)
    → lookup id (x ∷ ks) ≡ ok k
    → (id ≡ x.key_id) ⊎ (lookup id ks ≡ ok k)
unfolding lookup
lookup-cases id x ks k e = bind_then (compare_digest x.key_id id) _ e λ same compared e1.
    elim (result-if same (ok x) (lookup id ks) k e1) [
      | inl (t, found) ↦ inl (sym (compare_digest-eq x.key_id id (compared ∙ ap ok t)))
      | inr (t, rest) ↦ inr rest
    ]

lookup_nothing : (id : String) (k : Key) → lookup id [] ≡ ok k → ⊥
unfolding lookup
lookup_nothing id k e = cc

revoked_keys :
    (now : ℕ) (e : Entropy) (ring : KeyRing) → (rotate_now now e true ring).keys ≡ minted now e ∷ []
unfolding rotate_now rotate
revoked_keys now e ring = go ring.keys
  where
    go : (ks : List Key) → first_one (first_two (minted now e ∷ ks)) ≡ minted now e ∷ []
    go [] = refl
    go (k ∷ ks) = refl

rotated_keys :
    (t1 t2 : ℕ) (e1 e2 : Entropy) (ring : KeyRing)
    → (rotate_now t2 e2 false (rotate_now t1 e1 false ring)).keys ≡ minted t2 e2 ∷ minted t1 e1 ∷ []
unfolding rotate_now rotate
rotated_keys t1 t2 e1 e2 ring = go ring.keys
  where
    go :
        (ks : List Key)
        → first_two (minted t2 e2 ∷ first_two (minted t1 e1 ∷ ks))
          ≡ minted t2 e2 ∷ minted t1 e1 ∷ []
    go [] = refl
    go (k ∷ ks) = refl

-- After a revoking rotation only tokens under the new key pass; after two plain rotations only those
-- under the two new keys. What was signed before is refused, whatever else it says.
pub verify_retired :
    (p : Platform) (now t1 t2 : ℕ) (e1 e2 : Entropy) (ring : KeyRing) (token : HandoffToken)
    (payload : Value) (team tier : Option String)
    → (verify p now (rotate_now t1 e1 true ring) token payload team tier ≡ ok tt
        → token.key_id ≡ e1.key_id)
      × (verify p now (rotate_now t2 e2 false (rotate_now t1 e1 false ring)) token payload team tier
            ≡ ok tt
          → (token.key_id ≡ e2.key_id) ⊎ (token.key_id ≡ e1.key_id))
verify_retired p now t1 t2 e1 e2 ring token payload team tier = (
  λ passed.
      let found =
        verify-IsAuthentic p now (rotate_now t1 e1 true ring) token payload team tier passed in
      elim (lookup-cases token.key_id (minted t1 e1) [] found.key (
        subst (λ ks. lookup token.key_id ks ≡ ok found.key) (revoked_keys t1 e1 ring) found.live)) [
          | inl named ↦ named
          | inr rest ↦ absurd (lookup_nothing token.key_id found.key rest)
        ],
  λ passed.
      let found =
        verify-IsAuthentic p now (rotate_now t2 e2 false (rotate_now t1 e1 false ring)) token
          payload team tier passed in
      elim (lookup-cases token.key_id (minted t2 e2) (minted t1 e1 ∷ []) found.key (
        subst (λ ks. lookup token.key_id ks ≡ ok found.key) (rotated_keys t1 t2 e1 e2 ring)
          found.live)) [
            | inl named ↦ inl named
            | inr rest ↦ elim (lookup-cases token.key_id (minted t1 e1) [] found.key rest) [
              | inl named ↦ inr named
              | inr none_left ↦ absurd (lookup_nothing token.key_id found.key none_left)
            ]
          ],
)
