-- ===== src/Tokens/Issued.antt =====
-- What `sign` issues passes `verify` until it expires, also after the next rotation, and stops
-- passing when its key is gone or its payload has changed.
use amnesic_pi.Prelude.{
  ℕ, ◌+◌, ◌<◌, String, ◌≡◌, ◌≢◌, sym, ap, ◌∙◌, subst, inl, inr, true, false, Option, some, List, [],
  ◌∷◌, arith, All, elem, leb, eq_iff, eq_refl,
}
use amnesic_pi.Prelude.Int.{ℤ, pos, pos_part, leb_ℤ}
use amnesic_pi.Errors.{ok, token_error, bind_then, require_then, refuse_if_then, ok-injective}
use amnesic_pi.Platform.{Platform, CollisionFree}
use amnesic_pi.Value.{Value}
use amnesic_pi.Value.Canonical.{canonical_json}
use amnesic_pi.Schema.Basics.{dispatchable_tiers}
use amnesic_pi.Schema.Scope.{payload_digest}
use amnesic_pi.Tokens.{
  HandoffToken, message, Key, Entropy, KeyRing, first_two, minted, first_key, rotate, current,
  rotate_now, is_ascii, compare_digest, lookup, issue, sign, check_team, check_tier, verify,
}
use amnesic_pi.Tokens.Rotation.{current-first}
use amnesic_pi.Tokens.Ingress.{Covers, verify-IsAuthentic}

-- Digests and codes are printed in hexadecimal, so in ASCII, as is the name of a key.
pub record PrintsAscii (p : Platform) : Type 0 where
  pub digest : (s : List ℕ) → is_ascii (p.sha256_hex s) ≡ true
  pub code : (key : String) (s : List ℕ) → is_ascii (p.hmac_hex key s) ≡ true

compare_digest_self : (a : String) → is_ascii a ≡ true → compare_digest a a ≡ ok true
unfolding compare_digest
compare_digest_self a h = rw (h, eq_refl a)

compare_digest_ne :
    (a b : String) → is_ascii a ≡ true → is_ascii b ≡ true → a ≢ b → compare_digest a b ≡ ok false
unfolding compare_digest
compare_digest_ne a b ha hb ne = ground (arith, eq_iff a b)

check_tier_of_Covers :
    (tier : String) (token : HandoffToken)
    → Covers token.tier_max tier
    → check_tier (some tier) token ≡ ok tt
unfolding check_tier
check_tier_of_Covers tier token (inl (granted, known)) =
    rw granted (ground (arith, eq_iff tier "T2", eq_iff tier "T3"))
check_tier_of_Covers tier token (inr (granted, wanted)) = rw (granted, wanted)

check_team_self :
    (token : HandoffToken) → is_ascii token.team ≡ true → check_team (some token.team) token ≡ ok tt
unfolding check_team
check_team_self token h = rw (compare_digest_self token.team h)

verify-eq-ok :
    (p : Platform) (now : ℕ) (ring : KeyRing) (token : HandoffToken) (payload : Value)
    (team tier : Option String) (key : Key)
    → lookup token.key_id ring.keys ≡ ok key
    → compare_digest (p.hmac_hex key.material (message p token)) token.mac ≡ ok true
    → now < token.expiry
    → compare_digest (payload_digest p payload) token.scope_digest ≡ ok true
    → check_team team token ≡ ok tt
    → check_tier tier token ≡ ok tt
    → verify p now ring token payload team tier ≡ ok tt
unfolding verify
verify-eq-ok p now ring token payload team tier key live signed fresh same team_ok tier_ok =
    let unexpired : leb token.expiry now ≡ false = ground arith in
    rw (live, signed, unexpired, same, team_ok, tier_ok)

-- What the key issued passes wherever the ring still finds that key under its name.
module _ (p : Platform) (ascii : PrintsAscii p) (key : Key) (task_id team tier_max tier : String)
    (payload : Value) (expiry now : ℕ) (ring : KeyRing) where
  verify-issue :
      is_ascii team ≡ true
      → Covers tier_max tier
      → now < expiry
      → lookup key.key_id ring.keys ≡ ok key
      → verify p now ring
          (issue p key task_id team tier_max payload expiry)
          payload
          (some team)
          (some tier)
        ≡ ok tt
  unfolding issue message
  verify-issue team_ascii covers fresh live =
      let token = issue p key task_id team tier_max payload expiry in
      verify-eq-ok p now ring token payload (some team) (some tier) key live
        (compare_digest_self _ (ascii.code key.material (message p token))) fresh
        (compare_digest_self _ (ascii.digest (canonical_json payload)))
        (check_team_self token team_ascii) (check_tier_of_Covers tier token covers)

lookup_first :
    (k : Key) (ks : List Key)
    → is_ascii k.key_id ≡ true
    → first_key ks ≡ ok k
    → lookup k.key_id ks ≡ ok k
unfolding lookup
lookup_first k [] h e = absurd (cc)
lookup_first k (x ∷ ks) h e = rw (ok-injective e, compare_digest_self k.key_id h)

-- The key under which `sign` issues stands first in the ring that it leaves.
sign-issue :
    (p : Platform) (now : ℕ) (e : Entropy) (a b : KeyRing) (task_id team tier_max : String)
    (payload : Value) (ttl : ℤ) (token : HandoffToken)
    → sign p now e a task_id team tier_max payload ttl ≡ ok (token, b)
    → (elem tier_max dispatchable_tiers ≡ true)
      × (k : Key) × (first_key b.keys ≡ ok k)
      × (issue p k task_id team tier_max payload (now + pos_part ttl) ≡ token)
unfolding sign
sign-issue p now e a b task_id team tier_max payload ttl token h =
    require_then (elem tier_max dispatchable_tiers) token_error _ h λ tier e1.
      refuse_if_then (leb_ℤ ttl (pos 0)) token_error _ e1 λ alive e2.
        bind_then (current now e a) _ e2 λ made got e3.
          let same : ◌≡◌ {A = HandoffToken × KeyRing}
              (issue p made.0 task_id team tier_max payload (now + pos_part ttl), made.1)
              (token, b) =
            ok-injective e3 in
          (
            tier,
            made.0,
            subst (λ (r : KeyRing). first_key r.keys ≡ ok made.0) (ap (λ x. x.1) same)
                (current-first now e made.0 a made.1 got),
            ap (λ x. x.0) same,
          )

first_name :
    (k : Key) (ks : List Key)
    → All (λ x. is_ascii x.key_id ≡ true) ks
    → first_key ks ≡ ok k
    → is_ascii k.key_id ≡ true
first_name k [] h e = absurd (cc)
first_name k (x ∷ ks) h e = subst (λ y. is_ascii y.key_id ≡ true) (ok-injective e) h.0

-- After one plain rotation the former signing key is still found, behind the new one.
lookup_second :
    (when : ℕ) (fresh : Entropy) (k : Key) (b : KeyRing)
    → is_ascii fresh.key_id ≡ true
    → is_ascii k.key_id ≡ true
    → fresh.key_id ≢ k.key_id
    → first_key b.keys ≡ ok k
    → lookup k.key_id (rotate_now when fresh false b).keys ≡ ok k
unfolding rotate_now rotate lookup
lookup_second when fresh k b new_name old_name differs first = go b.keys first
  where
    go :
        (ks : List Key)
        → first_key ks ≡ ok k
        → lookup k.key_id (first_two (minted when fresh ∷ ks)) ≡ ok k
    go [] e = absurd (cc)
    go (x ∷ ks) e =
        rw (compare_digest_ne fresh.key_id k.key_id new_name old_name differs)
          (lookup_first k (x ∷ []) old_name e)

-- `sign` then `verify`: a token that was issued passes at its team's ingress, for every tier that its
-- own covers, at any later time before it expires, with the ring as it is or rotated once more.
-- (Names of keys and of the team are ASCII, and the new key has a name of its own.)
pub verify-sign :
    (p : Platform) (now later when : ℕ) (e fresh : Entropy) (a b : KeyRing)
    (task_id team tier_max tier : String) (payload : Value) (ttl : ℤ) (token : HandoffToken)
    → PrintsAscii p
    → sign p now e a task_id team tier_max payload ttl ≡ ok (token, b)
    → is_ascii team ≡ true
    → All (λ k. is_ascii k.key_id ≡ true) b.keys
    → is_ascii fresh.key_id ≡ true
    → fresh.key_id ≢ token.key_id
    → Covers tier_max tier
    → later < now + pos_part ttl
    → (verify p later b token payload (some team) (some tier) ≡ ok tt)
      × (verify p later (rotate_now when fresh false b) token payload (some team) (some tier)
          ≡ ok tt)
unfolding issue
verify-sign p now later when e fresh a b task_id team tier_max tier payload ttl token ascii signed
      team_ascii names new_name differs covers in_time =
    let (granted, k, first, issued) =
      sign-issue p now e a b task_id team tier_max payload ttl token signed in
    let found = lookup_first k b.keys (first_name k b.keys names first) first in
    subst
      (λ t.
        (verify p later b t payload (some team) (some tier) ≡ ok tt)
        × (verify p later (rotate_now when fresh false b) t payload (some team) (some tier)
            ≡ ok tt))
      issued
      (
        verify-issue p ascii k task_id team tier_max tier payload (now + pos_part ttl) later b
            team_ascii covers in_time found,
        verify-issue p ascii k task_id team tier_max tier payload (now + pos_part ttl) later
            (rotate_now when fresh false b) team_ascii covers in_time
            (lookup_second when fresh k b new_name (first_name k b.keys names first)
              (λ same. differs (same ∙ ap (λ t. t.key_id) issued)) first),
      )

-- If digests do not collide, a payload that passes with an issued token prints to the same canonical
-- text as the payload that was signed.
pub verify-sign_untampered :
    (p : Platform) (now later : ℕ) (e : Entropy) (a b ring : KeyRing)
    (task_id team tier_max : String) (payload changed : Value) (ttl : ℤ) (token : HandoffToken)
    (to_team tier : Option String)
    → CollisionFree p
    → sign p now e a task_id team tier_max payload ttl ≡ ok (token, b)
    → verify p later ring token changed to_team tier ≡ ok tt
    → canonical_json changed ≡ canonical_json payload
unfolding issue
verify-sign_untampered p now later e a b ring task_id team tier_max payload changed ttl token
      to_team tier free signed passed =
    let (granted, k, first, issued) =
      sign-issue p now e a b task_id team tier_max payload ttl token signed in
    let authentic = verify-IsAuthentic p later ring token changed to_team tier passed in
    free (canonical_json changed) (canonical_json payload)
      (sym authentic.untampered ∙ sym (ap (λ t. t.scope_digest) issued))
