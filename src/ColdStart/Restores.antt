-- ===== src/ColdStart/Restores.antt =====
-- `restore_from` (src/orchestrator/dispatch.py) and the pauses of `cold_start` bring back no token.
use amnesic_pi.Prelude.{
  ℕ, String, ◌≡◌, refl, sym, ◌∙◌, subst, Bool, true, false, none, some, List, [], ◌∷◌, str_eq,
  if◌then◌else◌,
}
use amnesic_pi.Prelude.Dict
use amnesic_pi.Prelude.Dict.{text_key, pair_key, Dict, lookup-insert}
use amnesic_pi.Errors.{Result}
use amnesic_pi.Platform.{Platform}
use amnesic_pi.Value.{Fields}
use amnesic_pi.Prelude.Int.{ℤ}
use amnesic_pi.Schema.Artifact.{ArtifactRef, parse_all}
use amnesic_pi.Topology
use amnesic_pi.Topology.{Topology}
use amnesic_pi.Replay.{Meta, ReplayState}
use amnesic_pi.Replay.Keys.{TaskKey}
use amnesic_pi.Dispatch.{append, pause_team}
use amnesic_pi.Dispatch.Records.{TaskRecord, Dispatcher}
use amnesic_pi.Dispatch.Monad
use amnesic_pi.Dispatch.Monad.{M, Does, bind_m_then, modify_then}
use amnesic_pi.Dispatch.Restore.{
  id_of, raw_deliverables, seq_of, restored_state, restored_envelope, restored_record, install,
  restore_parsed, restore_task, is_known, restore_tasks,
}
use amnesic_pi.ColdStart.{pause_all}

-- No task carries a token.
abbrev pub IsUnsigned : Dispatcher → Type 0
IsUnsigned d =
    (id : String) (r : TaskRecord) → Dict.lookup id d.tasks ≡ some r → r.envelope.token ≡ none

pub record Restores (a b : Dispatcher) : Type 0 where
  pub topology : b.topology ≡ a.topology
  pub unsigned : IsUnsigned a → IsUnsigned b

pub same : (a : Dispatcher) → Restores a a
same a = record { topology = refl; unsigned = λ h. h }

pub join : (a b c : Dispatcher) → Restores a b → Restores b c → Restores a c
join a b c x y = record {
  topology = y.topology ∙ x.topology;
  unsigned = λ h. y.unsigned (x.unsigned h);
}

abbrev bind :
    {A B : Type 0} (m : M A) (f : A → M B)
    → Does Restores m
    → ((a : A) → Does Restores (f a))
    → Does Restores (Monad.◌>>=◌ m f)
bind = Monad.bind_does Restores same join

abbrev lifted :
    {A B : Type 0} (r : Result A) (f : A → M B)
    → ((a : A) → Does Restores (f a))
    → Does Restores (Monad.◌>>=◌ (Monad.lift r) f)
lifted = Monad.lift_does Restores same join

abbrev got :
    {A B : Type 0} (g : Dispatcher → A) (f : A → M B)
    → ((a : A) → Does Restores (f a))
    → Does Restores (Monad.◌>>=◌ (Monad.gets g) f)
got = Monad.gets_does Restores same join

modified :
    (f : Dispatcher → Dispatcher)
    → ((d : Dispatcher) → Restores d (f d))
    → Does Restores (Monad.modify f)
modified f h d = h d

append-Restores :
    (p : Platform) (now : ℕ) (event : String) (fields : Fields)
    → Does Restores (append p now event fields)
unfolding append
append-Restores p now event fields d = record { topology = refl; unsigned = λ h. h }

install-Restores :
    (p : Platform) (id : String) (m : Meta) (refs : List ArtifactRef) (seq : ℤ) (state : String)
    (d : Dispatcher)
    → Restores d (install (restored_envelope p id m refs seq) state seq d)
install-Restores p id m refs seq state d = record {
  topology = refl;
  unsigned = λ all i x h. go all i x (str_eq i id) (sym (lookup-insert id i _ d.tasks) ∙ h);
}
  where
    made : TaskRecord
    made = restored_record (restored_envelope p id m refs seq) state seq

    go :
        IsUnsigned d
        → (i : String) (x : TaskRecord) (t : Bool)
        → (if t then some made else Dict.lookup i d.tasks) ≡ some x
        → x.envelope.token ≡ none
    go all i x true h =
        let same_record : made ≡ x = cc in
        subst (λ (r : TaskRecord). r.envelope.token ≡ none) same_record refl
    go all i x false h = all i x h

restore_parsed-Restores :
    (p : Platform) (s : ReplayState) (id : TaskKey) (m : Meta) (refs : List ArtifactRef)
    → Does Restores (restore_parsed p s id m refs)
unfolding restore_parsed
restore_parsed-Restores p s id m [] = λ d. same d
restore_parsed-Restores p s id m (r ∷ refs) = lifted (seq_of m.seq) _ λ seq.
    bind (Monad.modify _) _
      (modified _ (install-Restores p (id_of p id) m (r ∷ refs) seq (restored_state s id)))
      λ u d. same d

restore_task-Restores :
    (p : Platform) (s : ReplayState) (id : TaskKey) (m : Meta)
    → Does Restores (restore_task p s id m)
unfolding restore_task
restore_task-Restores p s id m =
    lifted (raw_deliverables m.deliverables) _
      λ raws. lifted (parse_all raws) _ λ refs. restore_parsed-Restores p s id m refs

pub restore_tasks-Restores :
    (p : Platform) (s : ReplayState) (ms : Dict TaskKey Meta) → Does Restores (restore_tasks p s ms)
unfolding restore_tasks
restore_tasks-Restores p s [] = λ d. same d
restore_tasks-Restores p s ((id, m) ∷ rest) =
    got (λ d. is_known (Dict.lookup (id_of p id) d.tasks)) _
      λ known.
        bind (if known then Monad.pure 0 else restore_task p s id m) _ (choose known)
          λ n. bind (restore_tasks p s rest) _ (restore_tasks-Restores p s rest) λ k d. same d
  where
    choose : (t : Bool) → Does Restores (if t then Monad.pure 0 else restore_task p s id m)
    choose true = λ d. same d
    choose false = restore_task-Restores p s id m

pub pause_all-Restores :
    (p : Platform) (now : ℕ) (ts : List String) → Does Restores (pause_all p now ts)
unfolding pause_all pause_team
pause_all-Restores p now [] = λ d. same d
pause_all-Restores p now (t ∷ ts) =
    bind _ _
      (got (λ d. d.topology) _
        λ topology. lifted (Topology.team topology t) _ λ found.
          bind (Monad.modify _) _ (modified _ λ d. record { topology = refl; unsigned = λ h. h })
            λ u. append-Restores p now "team_paused" _)
      λ entry. pause_all-Restores p now ts
