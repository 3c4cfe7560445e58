-- ===== src/Tokens.antt =====
-- src/orchestrator/tokens.py: the key ring, handoff tokens and the replay ledger. A method takes the
-- time of its call and the random bytes that it may draw as arguments, and returns the new state.
pub mod TaskId
pub mod Rotation
pub mod Message
pub mod Ingress
pub mod Issued
pub mod Retired
pub mod Replay
use amnesic_pi.Prelude.{
  ℕ, suc, ◌+◌, String, Bool, true, false, not, ◌&&◌, Option, none, some, List, [], ◌∷◌, ◌++◌, all,
  elem, leb, ltb, str_eq, if◌then◌else◌,
}
use amnesic_pi.Prelude.Int.{ℤ, pos, pos_part, leb_ℤ}
use amnesic_pi.Prelude.Text.{codes}
use amnesic_pi.Errors.{
  Exn, Result, Done, ok, err, token_error, replay_error, type_error, value_error, index_error,
  require, refuse_if, ◌>>=◌, ◌>>◌,
}
use amnesic_pi.Platform.{Platform, utc}
use amnesic_pi.Value.{Value, str, obj, end, field}
use amnesic_pi.Schema.Basics.{dispatchable_tiers}
use amnesic_pi.Schema.Scope.{payload_digest}

-- Microseconds: one hour and thirty minutes.
abbrev pub default_rotation : ℤ
default_rotation = pos 3_600_000_000

abbrev pub default_ttl : ℤ
default_ttl = pos 1_800_000_000

pub record HandoffToken : Type 0 where
  pub task_id : String
  pub team : String
  pub tier_max : String
  pub scope_digest : String
  pub expiry : ℕ
  pub key_id : String
  pub mac : String

-- `HandoffToken.message`
unfoldable pub message : Platform → HandoffToken → List ℕ
message p t =
    codes t.task_id
    ++ (b'|'
        ∷ (codes t.team
            ++ (b'|'
                ∷ (codes t.tier_max
                    ++ (b'|'
                        ∷ (codes t.scope_digest ++ (b'|' ∷ codes (p.isoformat (utc t.expiry)))))))))

-- `HandoffToken.to_dict`
abbrev pub to_dict : Platform → HandoffToken → Value
to_dict p t = obj (
    field "task_id" (str t.task_id) (
      field "team" (str t.team) (
        field "tier_max" (str t.tier_max) (
          field "scope_digest" (str t.scope_digest) (
            field "expiry" (str (p.isoformat (utc t.expiry)))
              (field "key_id" (str t.key_id) (field "mac" (str t.mac) end)))))))

-- `_Key`
pub record Key : Type 0 where
  pub key_id : String
  pub material : String
  pub created_at : ℕ

-- What one rotation draws: `secrets.token_hex(8)` and `os.urandom(32)`, or the seed.
pub record Entropy : Type 0 where
  pub key_id : String
  pub material : String

pub record KeyRing : Type 0 where
  pub rotation : ℕ
  pub keys : List Key

-- `del self._keys[2:]`, and `[1:]`.
abbrev pub first_two : List Key → List Key
first_two (a ∷ b ∷ rest) = a ∷ b ∷ []
first_two short = short

abbrev pub first_one : List Key → List Key
first_one (a ∷ rest) = a ∷ []
first_one short = short

abbrev pub minted : ℕ → Entropy → Key
minted now e = record { key_id = e.key_id; material = e.material; created_at = now }

-- `KeyRing._rotate`
unfoldable pub rotate : ℕ → Entropy → KeyRing → KeyRing
rotate now e ring = record ring { keys = first_two (minted now e ∷ ring.keys) }

-- `KeyRing.__init__`
unfoldable pub new_ring : ℤ → ℕ → Entropy → Result KeyRing
unfolding rotate
new_ring rotation now e = do
  refuse_if (leb_ℤ rotation (pos 0)) token_error
  ok (rotate now e (record { rotation = pos_part rotation; keys = [] }))

-- `self._keys[0]`
abbrev pub first_key : List Key → Result Key
first_key [] = err index_error
first_key (k ∷ ks) = ok k

-- `now - created_at >= rotation`
abbrev pub is_stale : KeyRing → ℕ → Key → Bool
is_stale ring now k = leb (k.created_at + ring.rotation) now

-- `KeyRing.current`, with the ring that it leaves.
unfoldable pub current : ℕ → Entropy → KeyRing → Result (Key × KeyRing)
unfolding rotate
current now e ring = do
  k ← first_key ring.keys
  let fresh = rotate now e ring
  k' ← first_key fresh.keys
  ok (if is_stale ring now k then (k', fresh) else (k, ring))

-- `KeyRing.rotate_now`
unfoldable pub rotate_now : ℕ → Entropy → Bool → KeyRing → KeyRing
unfolding rotate
rotate_now now e revoke ring =
    let fresh = rotate now e ring in
    if revoke then record fresh { keys = first_one fresh.keys } else fresh

-- `hmac.compare_digest` on texts: `TypeError` unless both are ASCII.
abbrev pub is_ascii : String → Bool
is_ascii s = all (λ c. ltb c 128) (codes s)

unfoldable pub compare_digest : String → String → Result Bool
compare_digest a b = if is_ascii a && is_ascii b then ok (str_eq a b) else err type_error

-- `KeyRing._lookup`
unfoldable pub lookup : String → List Key → Result Key
lookup key_id [] = err token_error
lookup key_id (k ∷ ks) = do
  same ← compare_digest k.key_id key_id
  let rest = lookup key_id ks
  if same then ok k else rest

-- The token that `sign` issues under a key.
unfoldable pub issue : Platform → Key → String → String → String → Value → ℕ → HandoffToken
issue p key task_id team tier_max payload expiry =
    let unsigned : HandoffToken = record {
      task_id = task_id;
      team = team;
      tier_max = tier_max;
      scope_digest = payload_digest p payload;
      expiry = expiry;
      key_id = key.key_id;
      mac = "";
    } in
    record unsigned { mac = p.hmac_hex key.material (message p unsigned) }

-- `KeyRing.sign`, with the ring that it leaves.
unfoldable pub sign :
    Platform
    → ℕ
    → Entropy
    → KeyRing
    → String
    → String
    → String
    → Value
    → ℤ
    → Result (HandoffToken × KeyRing)
unfolding current issue
sign p now e ring task_id team tier_max payload ttl = do
  require (elem tier_max dispatchable_tiers) token_error
  refuse_if (leb_ℤ ttl (pos 0)) token_error
  (key, ring') ← current now e ring
  ok (issue p key task_id team tier_max payload (now + pos_part ttl), ring')

-- `DISPATCHABLE_TIERS.index(tier)`
unfoldable pub index_of : String → List String → Result ℕ
index_of tier [] = err value_error
index_of tier (t ∷ ts) = if str_eq tier t then ok 0 else (do n ← index_of tier ts; ok (suc n))

-- The checks of `verify` on the optional arguments.
unfoldable pub check_team : Option String → HandoffToken → Done
unfolding compare_digest
check_team none token = ok tt
check_team (some team) token = do same ← compare_digest team token.team; require same token_error

unfoldable pub check_tier : Option String → HandoffToken → Done
unfolding index_of
check_tier none token = ok tt
check_tier (some required) token = do
  require (elem required dispatchable_tiers) token_error
  permitted ← index_of token.tier_max dispatchable_tiers
  requested ← index_of required dispatchable_tiers
  refuse_if (ltb requested permitted) token_error

-- `KeyRing.verify`
unfoldable pub verify :
    Platform → ℕ → KeyRing → HandoffToken → Value → Option String → Option String → Done
verify p now ring token payload team required_tier = do
  key ← lookup token.key_id ring.keys
  signed ← compare_digest (p.hmac_hex key.material (message p token)) token.mac
  require signed token_error
  refuse_if (leb token.expiry now) token_error
  untampered ← compare_digest (payload_digest p payload) token.scope_digest
  require untampered token_error
  check_team team token
  check_tier required_tier token

-- `ReplayLedger._consumed`
abbrev pub Ledger : Type 0
Ledger = List (String × String)

abbrev pub prior : String → Ledger → Option String
prior id [] = none
prior id ((i, mac) ∷ ledger) = if str_eq id i then some mac else prior id ledger

-- `ReplayLedger.was_consumed`
abbrev pub was_consumed : String → Ledger → Bool
was_consumed id ledger = elim (prior id ledger) [ none ↦ false | some mac ↦ true ]

-- `ReplayLedger.consume`
unfoldable pub consume : HandoffToken → Ledger → Result Ledger
consume token ledger = do
  refuse_if (was_consumed token.task_id ledger) replay_error
  ok ((token.task_id, token.mac) ∷ ledger)

-- `ReplayLedger.prune` keeps everything.
abbrev pub prune : ℕ → Ledger → Ledger
prune before ledger = ledger
