-- ===== src/Tokens/Message.antt =====
-- The signed message determines the fields of the token.
use amnesic_pi.Prelude.{ℕ, ◌≡◌, sym, ap, ◌∙◌, true, not, all, ◌==◌, some}
use amnesic_pi.Prelude.Text.{codes, codes-injective, cut_unique}
use amnesic_pi.Platform.{Platform, utc, ReadsIso, MacBinds}
use amnesic_pi.Tokens.{HandoffToken, Key, message}

-- The fields that stand before a separator hold none.
pub record HasPlainFields (t : HandoffToken) : Type 0 where
  pub task_id : all (λ c. not (c == b'|')) (codes t.task_id) ≡ true
  pub team : all (λ c. not (c == b'|')) (codes t.team) ≡ true
  pub tier_max : all (λ c. not (c == b'|')) (codes t.tier_max) ≡ true
  pub scope_digest : all (λ c. not (c == b'|')) (codes t.scope_digest) ≡ true

-- What a code under one key can stand for.
pub record SameGrant (a b : HandoffToken) : Type 0 where
  pub task_id : a.task_id ≡ b.task_id
  pub team : a.team ≡ b.team
  pub tier_max : a.tier_max ≡ b.tier_max
  pub scope_digest : a.scope_digest ≡ b.scope_digest
  pub expiry : a.expiry ≡ b.expiry

same_instant : (a b : ℕ) → some (utc a) ≡ some (utc b) → a ≡ b
same_instant a b e = cc

iso_injective :
    (p : Platform) (a b : ℕ) → ReadsIso p → p.isoformat (utc a) ≡ p.isoformat (utc b) → a ≡ b
iso_injective p a b reads e =
    same_instant a b (sym (reads (utc a)) ∙ ap p.fromisoformat e ∙ reads (utc b))

pub message-injective :
    (p : Platform) (a b : HandoffToken)
    → ReadsIso p
    → HasPlainFields a
    → HasPlainFields b
    → message p a ≡ message p b
    → SameGrant a b
unfolding message
message-injective p a b reads ha hb e =
    let (ids, e1) =
      cut_unique b'|' (codes a.task_id) (codes b.task_id) _ _ ha.task_id hb.task_id e in
    let (teams, e2) = cut_unique b'|' (codes a.team) (codes b.team) _ _ ha.team hb.team e1 in
    let (tiers, e3) =
      cut_unique b'|' (codes a.tier_max) (codes b.tier_max) _ _ ha.tier_max hb.tier_max e2 in
    let (digests, e4) =
      cut_unique b'|' (codes a.scope_digest) (codes b.scope_digest) _ _ ha.scope_digest
        hb.scope_digest e3 in
    record {
      task_id = codes-injective a.task_id b.task_id ids;
      team = codes-injective a.team b.team teams;
      tier_max = codes-injective a.tier_max b.tier_max tiers;
      scope_digest = codes-injective a.scope_digest b.scope_digest digests;
      expiry = iso_injective p a.expiry b.expiry reads (codes-injective _ _ e4);
    }

-- If authentication codes bind their messages, a code that was issued under a key for one token is
-- the right code, under that key, for no token that differs in task, team, tier, scope digest or
-- expiry. (Fields before a separator are free of it, and timestamps are read back as printed.)
pub mac_grants_once :
    (p : Platform) (key : Key) (a b : HandoffToken)
    → MacBinds p
    → ReadsIso p
    → HasPlainFields a
    → HasPlainFields b
    → a.mac ≡ p.hmac_hex key.material (message p a)
    → b.mac ≡ p.hmac_hex key.material (message p b)
    → a.mac ≡ b.mac
    → SameGrant a b
mac_grants_once p key a b binds reads ha hb ma mb same =
    message-injective p a b reads ha hb
      (binds key.material (message p a) (message p b) (sym ma ∙ same ∙ mb))
