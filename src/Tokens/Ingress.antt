-- ===== src/Tokens/Ingress.antt =====
-- What `verify` accepts, and that it accepts what `sign` issued.
use amnesic_pi.Prelude.{
  ℕ, ◌<◌, String, ◌≡◌, sym, ap, ◌∙◌, ◌⊎◌, Bool, true, Option, none, some, arith, elem, leb, eq_iff,
}
use amnesic_pi.Errors.{
  Done, ok, token_error, require, ◌>>=◌, ◌>>◌, bind_then, check_then, require_then, refuse_if_then,
}
use amnesic_pi.Platform.{Platform}
use amnesic_pi.Value.{Value}
use amnesic_pi.Schema.Basics.{dispatchable_tiers}
use amnesic_pi.Schema.Scope.{payload_digest}
use amnesic_pi.Tokens.{
  HandoffToken, message, Key, KeyRing, compare_digest, lookup, check_team, check_tier, verify,
}

-- A grant covers its own tier and everything below it: T2 covers both tiers, T3 covers T3.
abbrev pub Covers : String → String → Type 0
Covers granted wanted =
    ((granted ≡ "T2") × (elem wanted dispatchable_tiers ≡ true))
    ⊎ ((granted ≡ "T3") × (wanted ≡ "T3"))

abbrev pub TeamFits : Option String → HandoffToken → Type 0
TeamFits none token = Unit
TeamFits (some team) token = team ≡ token.team

abbrev pub TierFits : Option String → HandoffToken → Type 0
TierFits none token = Unit
TierFits (some tier) token = Covers token.tier_max tier

-- What holds of a token that passes ingress.
pub record IsAuthentic (p : Platform) (now : ℕ) (ring : KeyRing) (token : HandoffToken)
    (payload : Value) (team tier : Option String) : Type 0 where
  pub key : Key
  pub live : lookup token.key_id ring.keys ≡ ok key
  pub signed : token.mac ≡ p.hmac_hex key.material (message p token)
  pub in_time : now < token.expiry
  pub untampered : token.scope_digest ≡ payload_digest p payload
  pub team_fits : TeamFits team token
  pub tier_fits : TierFits tier token

pub compare_digest-eq : (a b : String) → compare_digest a b ≡ ok true → a ≡ b
unfolding compare_digest
compare_digest-eq a b e = ground (arith, eq_iff a b)

compare_then :
    (a b : String) (k : Done)
    → (compare_digest a b >>= λ same. require same token_error >> k) ≡ ok tt
    → (a ≡ b) × (k ≡ ok tt)
compare_then a b k e = bind_then (compare_digest a b) _ e λ same compared e1.
    require_then same token_error _ e1
      λ yes_ e2. (compare_digest-eq a b (compared ∙ ap ok yes_), e2)

check_team-fits :
    (team : Option String) (token : HandoffToken)
    → check_team team token ≡ ok tt
    → TeamFits team token
unfolding check_team
check_team-fits none token e = tt
check_team-fits (some team) token e =
    bind_then (compare_digest team token.team) _ e
      λ same compared e1. compare_digest-eq team token.team (compared ∙ ap ok (accepted same e1))
  where
    accepted : (b : Bool) → require b token_error ≡ ok tt → b ≡ true
    accepted b h = ground arith

check_tier-fits :
    (tier : Option String) (token : HandoffToken)
    → check_tier tier token ≡ ok tt
    → TierFits tier token
unfolding check_tier
check_tier-fits none token e = tt
check_tier-fits (some tier) token e = ground (
  arith,
  eq_iff token.tier_max "T2",
  eq_iff token.tier_max "T3",
  eq_iff tier "T2",
  eq_iff tier "T3",
)

-- A token passes `verify` only if its key is live, its code is the key's code of its own message, it
-- has not expired, the digest it was signed with is that of the payload, it was signed for the team
-- it is delivered to, and its tier covers the requested one.
pub verify-IsAuthentic :
    (p : Platform) (now : ℕ) (ring : KeyRing) (token : HandoffToken) (payload : Value)
    (team tier : Option String)
    → verify p now ring token payload team tier ≡ ok tt
    → IsAuthentic p now ring token payload team tier
unfolding verify
verify-IsAuthentic p now ring token payload team tier e =
    bind_then (lookup token.key_id ring.keys) _ e λ key live e1.
      let (signed, e2) = compare_then (p.hmac_hex key.material (message p token)) token.mac _ e1 in
      refuse_if_then (leb token.expiry now) token_error _ e2 λ fresh e3.
        let (same, e4) = compare_then (payload_digest p payload) token.scope_digest _ e3 in
        check_then (check_team team token) _ e4 λ team_ok tier_ok. record {
          key = key;
          live = live;
          signed = sym signed;
          in_time = ground arith;
          untampered = sym same;
          team_fits = check_team-fits team token team_ok;
          tier_fits = check_tier-fits tier token tier_ok;
        }
