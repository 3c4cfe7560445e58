-- ===== src/Schema/Status.antt =====
-- `BlockerRef` and `StatusUpdate` of src/orchestrator/schema.py.
use amnesic_pi.Prelude.{
  ℕ, String, Bool, true, false, ◌&&◌, Option, none, some, List, [], ◌∷◌, elem, str_eq,
}
use amnesic_pi.Prelude.Int.{ℤ, pos, leb_ℤ}
use amnesic_pi.Prelude.Text.{is_blank}
use amnesic_pi.Errors.{
  Result, Done, ok, err, schema_error, type_error, attribute_error, require, refuse_if, ◌>>=◌, ◌>>◌,
}
use amnesic_pi.Platform.{Platform, utc}
use amnesic_pi.Value.{
  Value, null, bool, int, str, arr, obj, Fields, end, field, get, get_or_null, item, items_of,
}
use amnesic_pi.Schema.Basics.{
  tiers, status_states, matches_task_id, as_str, require_mapping, strict_keys, parse_dt,
}
use amnesic_pi.Schema.Artifact
use amnesic_pi.Schema.Artifact.{ArtifactRef, to_dicts}
use amnesic_pi.Schema.Node.{tuple_or_empty, as_number}

-- `needs_team` keeps the value that the payload had: no check asks what it is.
pub record BlockerRef : Type 0 where
  pub reason : String
  pub needs_team : Value
  pub needs_tier : Option String

abbrev pub check_needs_tier : Option String → Done
check_needs_tier none = ok tt
check_needs_tier (some tier) = require (elem tier tiers) schema_error

-- `BlockerRef.validate`
unfoldable pub validate_blocker : BlockerRef → Done
validate_blocker b = do refuse_if (is_blank b.reason) schema_error; check_needs_tier b.needs_tier

abbrev tier_field : Option String → Fields
tier_field none = end
tier_field (some tier) = field "needs_tier" (str tier) end

-- `BlockerRef.to_dict`
abbrev pub blocker_to_dict : BlockerRef → Value
blocker_to_dict b = obj (
    field "reason" (str b.reason) (elim b.needs_team [
      | null ↦ tier_field b.needs_tier
      | _ ↦ field "needs_team" b.needs_team (tier_field b.needs_tier)
    ]))

-- A tier that is given must be one of the tiers, so a text.
abbrev pub read_tier : Value → Result (Option String)
read_tier null = ok none
read_tier v = do s ← as_str schema_error v; ok (some s)

-- `BlockerRef.parse`, with the checks of `validate` in their order.
unfoldable pub parse_blocker : Value → Result BlockerRef
parse_blocker raw = do
  fields ← require_mapping raw
  strict_keys fields ("reason" ∷ "needs_team" ∷ "needs_tier" ∷ []) ("reason" ∷ [])
  reason_value ← item fields "reason"
  reason ← as_str attribute_error reason_value
  refuse_if (is_blank reason) schema_error
  needs_tier ← read_tier (get_or_null fields "needs_tier")
  check_needs_tier needs_tier
  ok (record {
    reason = reason;
    needs_team = get_or_null fields "needs_team";
    needs_tier = needs_tier;
  })

-- `pct_complete` is a number, a Boolean (which compares as one) or `None`, as the payload had it.
pub record StatusUpdate : Type 0 where
  pub task_id : String
  pub state : String
  pub next_update_by : ℕ
  pub pct_complete : Value
  pub artifacts_produced : List ArtifactRef
  pub blocker : Option BlockerRef

abbrev pub in_percent : ℤ → Bool
in_percent n = leb_ℤ (pos 0) n && leb_ℤ n (pos 100)

-- `0 <= pct <= 100` raises on what is no number.
abbrev pub check_pct : Value → Done
check_pct null = ok tt
check_pct (int n) = require (in_percent n) schema_error
check_pct (bool b) = require (in_percent (as_number b)) schema_error
check_pct _ = err type_error

abbrev pub is_none {ℓ} : {A : Type ℓ} → Option A → Bool
is_none none = true
is_none (some a) = false

abbrev pub check_blocker : Option BlockerRef → Done
check_blocker none = ok tt
check_blocker (some b) = validate_blocker b

-- `StatusUpdate.validate`
unfoldable pub validate : StatusUpdate → Done
validate u = do
  require (matches_task_id u.task_id) schema_error
  require (elem u.state status_states) schema_error
  check_pct u.pct_complete
  refuse_if (str_eq u.state "blocked" && is_none u.blocker) schema_error
  Artifact.validate_all u.artifacts_produced
  check_blocker u.blocker

abbrev blocker_field : Option BlockerRef → Fields
blocker_field none = end
blocker_field (some b) = field "blocker" (blocker_to_dict b) end

-- `StatusUpdate.to_dict`
abbrev pub to_dict : Platform → StatusUpdate → Value
to_dict p u = obj (
    field "task_id" (str u.task_id) (
      field "state" (str u.state) (
        field "next_update_by" (str (p.isoformat (utc u.next_update_by))) (
          field "artifacts_produced" (arr (items_of (to_dicts u.artifacts_produced)))
            (elim u.pct_complete [
              | null ↦ blocker_field u.blocker
              | _ ↦ field "pct_complete" u.pct_complete (blocker_field u.blocker)
            ])))))

abbrev pub read_blocker : Value → Result (Option BlockerRef)
read_blocker null = ok none
read_blocker v = do b ← parse_blocker v; ok (some b)

abbrev pub status_keys : List String
status_keys =
    "task_id" ∷ "state" ∷ "next_update_by" ∷ "pct_complete" ∷ "artifacts_produced" ∷ "blocker" ∷ []

-- `StatusUpdate.parse`, with the checks of `validate` in their order.
unfoldable pub parse : Platform → Value → Result StatusUpdate
parse p raw = do
  fields ← require_mapping raw
  strict_keys fields status_keys ("task_id" ∷ "state" ∷ "next_update_by" ∷ [])
  id_value ← item fields "task_id"
  state_value ← item fields "state"
  due_value ← item fields "next_update_by"
  next_update_by ← parse_dt p due_value
  artifacts ← (tuple_or_empty (get fields "artifacts_produced") >>= Artifact.parse_all)
  blocker ← read_blocker (get_or_null fields "blocker")
  task_id ← as_str type_error id_value
  require (matches_task_id task_id) schema_error
  state ← as_str schema_error state_value
  require (elem state status_states) schema_error
  let update : StatusUpdate = record {
    task_id = task_id;
    state = state;
    next_update_by = next_update_by;
    pct_complete = get_or_null fields "pct_complete";
    artifacts_produced = artifacts;
    blocker = blocker;
  }
  validate update
  ok update
