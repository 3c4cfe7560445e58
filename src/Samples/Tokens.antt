-- ===== src/Samples/Tokens.antt =====
-- Runs of the theorems on key rings, handoff tokens and the replay ledger.
use amnesic_pi.Prelude.{
  ℕ, ◌+◌, ◌<◌, ◌≡◌, ◌≢◌, refl, ◌⊎◌, inl, true, false, Option, none, some, List, [], ◌∷◌, arith,
  eq_iff,
}
use amnesic_pi.Prelude.Int.{pos}
use amnesic_pi.Errors.{ok, err, replay_error}
use amnesic_pi.Platform.{Platform}
use amnesic_pi.Value.{Value, str}
use amnesic_pi.Value.Canonical.{canonical_json}
use amnesic_pi.Schema.Basics.{matches_task_id}
use amnesic_pi.Tokens.{
  HandoffToken, message, Key, Entropy, KeyRing, minted, first_key, rotate, new_ring, current,
  rotate_now, issue, sign, verify, consume,
}
use amnesic_pi.Tokens.TaskId.{new_task_id, new_task_id_unique}
use amnesic_pi.Tokens.Rotation.{IsLive, start, Reach-IsLive, current_is_fresh}
use amnesic_pi.Tokens.Message.{HasPlainFields, SameGrant, mac_grants_once}
use amnesic_pi.Tokens.Ingress.{Covers, IsAuthentic, verify-IsAuthentic}
use amnesic_pi.Tokens.Issued.{verify-sign, verify-sign_untampered}
use amnesic_pi.Tokens.Retired.{verify_retired}
use amnesic_pi.Tokens.Replay.{present, consume_once}
use amnesic_pi.Samples.Hashing.{
  sample, sample-ReadsIso, sample-CollisionFree, sample-MacBinds, sample-PrintsAscii,
}

abbrev no_json : List ℕ → Option Value
no_json text = none

abbrev platform : Platform
platform = sample no_json

abbrev draw : Entropy
draw = record { key_id = "k1"; material = "secret" }

abbrev fresh : Entropy
fresh = record { key_id = "k2"; material = "other" }

abbrev key : Key
key = minted 0 draw

abbrev ring : KeyRing
ring = record { rotation = 1000; keys = key ∷ [] }

abbrev token : HandoffToken
token = issue platform key "TASK" "policy" "T2" (str "work") 60

signed : sign platform 10 draw ring "TASK" "policy" "T2" (str "work") (pos 50) ≡ ok (token, ring)
unfolding sign current rotate
signed = refl

k2_differs : "k2" ≢ token.key_id
unfolding issue
k2_differs e = let same : false ≡ true = (eq_iff "k2" "k1").1 e in cc

t2-Covers : Covers "T2" "T3"
t2-Covers = inl (refl, refl)

verify-sign_example :
    (verify platform 20 ring token (str "work") (some "policy") (some "T3") ≡ ok tt)
    × (verify platform 20
          (rotate_now 15 fresh false ring)
          token
          (str "work")
          (some "policy")
          (some "T3")
        ≡ ok tt)
verify-sign_example =
    verify-sign platform 10 20 15 draw fresh ring ring "TASK" "policy" "T2" "T3" (str "work")
      (pos 50) token (sample-PrintsAscii no_json) signed refl (refl, tt) refl k2_differs t2-Covers
      (omega arith)

passed : verify platform 20 ring token (str "work") (some "policy") (some "T3") ≡ ok tt
passed =
    (verify-sign platform 10 20 15 draw fresh ring ring "TASK" "policy" "T2" "T3" (str "work")
      (pos 50) token (sample-PrintsAscii no_json) signed refl (refl, tt) refl k2_differs t2-Covers
      (omega arith)).0

verify-IsAuthentic_example :
    IsAuthentic platform 20 ring token (str "work") (some "policy") (some "T3")
verify-IsAuthentic_example =
    verify-IsAuthentic platform 20 ring token (str "work") (some "policy") (some "T3") passed

verify-sign_untampered_example : canonical_json (str "work") ≡ canonical_json (str "work")
verify-sign_untampered_example =
    verify-sign_untampered platform 10 20 draw ring ring ring "TASK" "policy" "T2" (str "work")
      (str "work") (pos 50) token (some "policy") (some "T3") (sample-CollisionFree no_json) signed
      passed

verify_retired_example :
    (verify platform 20
          (rotate_now 15 fresh true ring)
          token
          (str "work")
          (some "policy")
          (some "T3")
        ≡ ok tt
      → token.key_id ≡ fresh.key_id)
    × (verify platform 20
            (rotate_now 16 draw false (rotate_now 15 fresh false ring))
            token
            (str "work")
            (some "policy")
            (some "T3")
          ≡ ok tt
        → (token.key_id ≡ draw.key_id) ⊎ (token.key_id ≡ fresh.key_id))
verify_retired_example =
    verify_retired platform 20 15 16 fresh draw ring token (str "work") (some "policy") (some "T3")

abbrev plain_token : HandoffToken
plain_token = record {
  task_id = "TASK";
  team = "policy";
  tier_max = "T2";
  scope_digest = "d";
  expiry = 60;
  key_id = "k1";
  mac = platform.hmac_hex "secret" (
      message platform (record {
        task_id = "TASK";
        team = "policy";
        tier_max = "T2";
        scope_digest = "d";
        expiry = 60;
        key_id = "k1";
        mac = "";
      }));
}

plain_fields : HasPlainFields plain_token
plain_fields = record { task_id = refl; team = refl; tier_max = refl; scope_digest = refl }

message_ignores_mac : plain_token.mac ≡ platform.hmac_hex "secret" (message platform plain_token)
unfolding message
message_ignores_mac = refl

mac_grants_once_example : SameGrant plain_token plain_token
mac_grants_once_example =
    mac_grants_once platform key plain_token plain_token (sample-MacBinds no_json)
      (sample-ReadsIso no_json) plain_fields plain_fields message_ignores_mac message_ignores_mac
      refl

consumed : consume plain_token [] ≡ ok ((plain_token.task_id, plain_token.mac) ∷ [])
unfolding consume
consumed = refl

consume_once_example :
    consume plain_token
      (present (token ∷ plain_token ∷ []) ((plain_token.task_id, plain_token.mac) ∷ []))
    ≡ err replay_error
consume_once_example =
    consume_once plain_token plain_token (token ∷ plain_token ∷ []) []
      ((plain_token.task_id, plain_token.mac) ∷ []) consumed refl

made : new_ring (pos 1000) 0 draw ≡ ok ring
unfolding new_ring rotate
made = refl

Reach-IsLive_example : IsLive ring
Reach-IsLive_example = Reach-IsLive (start (pos 1000) 0 draw made)

ring-IsLive : IsLive ring
ring-IsLive = record { some_key = omega arith; two_at_most = omega arith; positive = omega arith }

current_is_fresh_example :
    (k : Key) × (b : KeyRing) × (current 2000 fresh ring ≡ ok (k, b))
    × (first_key b.keys ≡ ok k)
    × (2000 < k.created_at + b.rotation)
current_is_fresh_example = current_is_fresh 2000 fresh ring ring-IsLive

new_task_id_unique_example :
    (matches_task_id (new_task_id 5 7) ≡ true)
    × (new_task_id 5 7 ≡ new_task_id 6 7 → (◌≡◌ {A = ℕ} 5 6) × (◌≡◌ {A = ℕ} 7 7))
new_task_id_unique_example =
    new_task_id_unique 5 6 7 7 (omega arith) (omega arith) (omega arith) (omega arith)
