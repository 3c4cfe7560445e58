-- ===== src/Tokens/Replay.antt =====
-- The replay ledger: a task's token is accepted once.
use amnesic_pi.Prelude.{String, ◌≡◌, subst, true, ◌||◌, List, [], ◌∷◌, arith, str_eq, eq_iff}
use amnesic_pi.Errors.{ok, err, replay_error, refuse_if_then, ok-injective}
use amnesic_pi.Tokens.{HandoffToken, Ledger, was_consumed, consume}

-- The ledger after a run of calls, of which those that raise change nothing.
abbrev pub present : List HandoffToken → Ledger → Ledger
present [] ledger = ledger
present (t ∷ ts) ledger = present ts (elim (consume t ledger) [ ok l ↦ l | err e ↦ ledger ])

pub consume-was_consumed :
    (t : HandoffToken) (a b : Ledger)
    → consume t a ≡ ok b
    → (id : String) → was_consumed id b ≡ (str_eq id t.task_id || was_consumed id a)
unfolding consume
consume-was_consumed t a b e id =
    refuse_if_then (was_consumed t.task_id a) replay_error _ e λ fresh done.
      subst (λ l. was_consumed id l ≡ (str_eq id t.task_id || was_consumed id a))
        (ok-injective done) (ground arith)

present_step-keeps :
    (t : HandoffToken) (id : String) (a : Ledger)
    → was_consumed id a ≡ true
    → was_consumed id (elim (consume t a) [ ok l ↦ l | err e ↦ a ]) ≡ true
unfolding consume
present_step-keeps t id a h = ground arith

present-keeps :
    (ts : List HandoffToken) (id : String) (a : Ledger)
    → was_consumed id a ≡ true
    → was_consumed id (present ts a) ≡ true
present-keeps [] id a h = h
present-keeps (t ∷ ts) id a h = present-keeps ts id _ (present_step-keeps t id a h)

consume_refuses :
    (t : HandoffToken) (a : Ledger)
    → was_consumed t.task_id a ≡ true
    → consume t a ≡ err replay_error
unfolding consume
consume_refuses t a h = rw h

-- Once a token has been consumed, every later token for the same task is refused as a replay, whatever
-- else was presented in between. The refusal goes by the task id alone: a token with another code is
-- refused too. (The docstring says that tokens are consumed by task id and code together.)
pub consume_once :
    (t u : HandoffToken) (ts : List HandoffToken) (a b : Ledger)
    → consume t a ≡ ok b
    → u.task_id ≡ t.task_id
    → consume u (present ts b) ≡ err replay_error
consume_once t u ts a b e same = consume_refuses u (present ts b) (
    present-keeps ts u.task_id b
      (rw (consume-was_consumed t a b e u.task_id) (ground (arith, eq_iff u.task_id t.task_id))))
