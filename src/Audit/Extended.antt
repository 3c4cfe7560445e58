-- ===== src/Audit/Extended.antt =====
-- Every call of src/orchestrator/audit.py leaves what was in the primary at the front of it.
use amnesic_pi.Prelude.{
  ℕ, String, ◌≡◌, refl, sym, ap, ◌∙◌, List, [], ◌++◌, append_nil, append_assoc,
}
use amnesic_pi.Prelude.Int.{ℤ}
use amnesic_pi.Errors.{Exn, Result, ok, err, bind_then, ok-injective}
use amnesic_pi.Platform.{Platform}
use amnesic_pi.Value.{Fields}
use amnesic_pi.Audit.{AuditEntry, AuditLog, head, seq_after, next_seq, append}
use amnesic_pi.Audit.Writing.{head-files}
use amnesic_pi.Audit.Appended.{append-IsAppended}
use amnesic_pi.Audit.Raised.{IsLeft, untouched, cut_short, one_ahead, append_raises}

-- The second text is the first with more behind it.
abbrev pub Extends : List ℕ → List ℕ → Type 0
Extends s t = (more : List ℕ) × (t ≡ s ++ more)

pub unextended : (s : List ℕ) → Extends s s
unextended s = ([], append_nil s)

pub extended_twice : (s t u : List ℕ) → Extends s t → Extends t u → Extends s u
extended_twice s t u (more, e) (rest, f) =
    (more ++ rest, f ∙ ap (λ x. x ++ rest) e ∙ append_assoc s more rest)

kept : (s t : List ℕ) → t ≡ s → Extends s t
kept s t same = ([], same ∙ append_nil s)

left-Extends :
    (p : Platform) (x : Exn) (log log' : AuditLog)
    → IsLeft p x log log'
    → Extends log.primary log'.primary
left-Extends p x log log' (untouched primary mirror) = kept log.primary log'.primary primary
left-Extends p x log log' (cut_short entry part e stopped primary mirror) = (part, primary)
left-Extends p x log log' (one_ahead entry before part e configured stopped primary mirror) =
    (_, primary)

pub append-Extends :
    (p : Platform) (now : ℕ) (log : AuditLog) (actor event : String) (fields : Fields)
    → Extends log.primary (append p now log actor event fields).1.primary
append-Extends p now log actor event fields =
    go (append p now log actor event fields).0 (append p now log actor event fields).1 refl
  where
    go :
        (r : Result AuditEntry) (log' : AuditLog)
        → append p now log actor event fields ≡ (r, log')
        → Extends log.primary log'.primary
    go (ok entry) log' e =
        let done = append-IsAppended p now log actor event fields entry log' e in (_, done.primary)
    go (err x) log' e =
        left-Extends p x log log' (append_raises p now log actor event fields x log' e)

pub next_seq-Extends :
    (p : Platform) (log log' : AuditLog) (n : ℤ)
    → next_seq p log ≡ ok (n, log')
    → Extends log.primary log'.primary
unfolding next_seq
next_seq-Extends p log log' n h = bind_then (head p log) _ h λ found e h1.
    bind_then (seq_after found.0) _ h1 λ m counted h2.
      let (primary, mirror) = head-files p log found.1 found.0 e in
      kept log.primary log'.primary (sym (ap (λ r. r.1.primary) (ok-injective h2)) ∙ primary)
