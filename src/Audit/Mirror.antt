-- ===== src/Audit/Mirror.antt =====
-- The two sinks of src/orchestrator/audit.py: when `check_mirror` is content, and that `append` keeps
-- them in agreement.
use amnesic_pi.Prelude.{
  ℕ, ◌≡◌, ◌↔◌, refl, ap, ◌∙◌, subst, Bool, true, false, not, ◌&&◌, some, List, [], ◌∷◌, ◌++◌, arith,
  keep, length, ltb, ◌==◌, if◌then◌else◌,
}
use amnesic_pi.Prelude.Text.{strip, same_codes, is_break, lines_from}
use amnesic_pi.Errors.{ok, audit_divergence_error, require, refuse_if, ◌>>◌, refuse_if_then}
use amnesic_pi.Audit.{AuditLog, read_lines, same_lines, check_mirror}

-- A file that is empty or ends with its last line, as `append` leaves it.
abbrev pub ends_line : List ℕ → Bool
ends_line [] = true
ends_line (c ∷ []) = c == 10
ends_line (c ∷ d ∷ s) = ends_line (d ∷ s)

cases-append :
    (t u : Bool) (A A' B B' C C' X : List (List ℕ))
    → A ≡ A' ++ X
    → B ≡ B' ++ X
    → C ≡ C' ++ X
    → (if t then A else if u then B else C) ≡ (if t then A' else if u then B' else C') ++ X
cases-append true u A A' B B' C C' X a b c = a
cases-append false true A A' B B' C C' X a b c = b
cases-append false false A A' B B' C C' X a b c = c

lines_from-append :
    (cr : Bool) (line : List ℕ) (c : ℕ) (t s : List ℕ)
    → (cr ≡ true → line ≡ [])
    → ends_line (c ∷ t) ≡ true
    → lines_from cr line ((c ∷ t) ++ s) ≡ lines_from cr line (c ∷ t) ++ lines_from false [] s
unfolding lines_from is_break
lines_from-append true line c [] s fits h =
    let last : c ≡ 10 = ground arith in rw (last, fits refl) refl
lines_from-append false line c [] s fits h = let last : c ≡ 10 = ground arith in rw last refl
lines_from-append cr line c (d ∷ t) s fits h =
    cases-append (cr && c == 10) (is_break c) _ _ _ _ _ _ (lines_from false [] s)
      (lines_from-append false line d t s (λ e. absurd (cc)) h)
      (ap (λ ls. line ∷ ls) (lines_from-append (c == 13) [] d t s (λ e. refl) h))
      (lines_from-append false (line ++ c ∷ []) d t s (λ e. absurd (cc)) h)

keep-append :
    (p : List ℕ → Bool) (xs ys : List (List ℕ)) → keep p (xs ++ ys) ≡ keep p xs ++ keep p ys
keep-append p [] ys = refl
keep-append p (x ∷ xs) ys = go (keep-append p xs ys) (p x)
  where
    go :
        keep p (xs ++ ys) ≡ keep p xs ++ keep p ys
        → (t : Bool)
        → (if t then x ∷ keep p (xs ++ ys) else keep p (xs ++ ys))
          ≡ (if t then x ∷ keep p xs else keep p xs) ++ keep p ys
    go rest true = ap (λ l. x ∷ l) rest
    go rest false = rest

pub read_lines-append :
    (t s : List ℕ) → ends_line t ≡ true → read_lines (t ++ s) ≡ read_lines t ++ read_lines s
unfolding read_lines lines_from
read_lines-append [] s h = refl
read_lines-append (c ∷ t) s h =
    ap (keep (λ line. not (same_codes (strip line) [])))
      (lines_from-append false [] c t s (λ e. absurd (cc)) h)
    ∙ keep-append (λ line. not (same_codes (strip line) [])) (lines_from false [] (c ∷ t))
        (lines_from false [] s)

same_codes-eq : (a b : List ℕ) → same_codes a b ≡ true → a ≡ b
same_codes-eq [] [] h = refl
same_codes-eq [] (d ∷ b) h = cc
same_codes-eq (c ∷ a) [] h = cc
same_codes-eq (c ∷ a) (d ∷ b) h = ground (arith, same_codes-eq a b)

same_codes_refl : (a : List ℕ) → same_codes a a ≡ true
same_codes_refl [] = refl
same_codes_refl (c ∷ a) = ground (arith, same_codes_refl a)

same_lines_refl : (a : List (List ℕ)) → same_lines a a ≡ true
same_lines_refl [] = refl
same_lines_refl (l ∷ a) = rw (same_codes_refl l) (same_lines_refl a)

same_lines-eq :
    (a b : List (List ℕ))
    → ltb (length a) (length b) ≡ false
    → ltb (length b) (length a) ≡ false
    → same_lines a b ≡ true
    → a ≡ b
same_lines-eq [] [] h k e = refl
same_lines-eq [] (m ∷ b) h k e = ground arith
same_lines-eq (l ∷ a) [] h k e = ground arith
same_lines-eq (l ∷ a) (m ∷ b) h k e = ground (arith, same_codes-eq l m, same_lines-eq a b)

-- The comparison of `check_mirror`.
compared_iff :
    (a b : List (List ℕ))
    → ((do
      refuse_if (ltb (length b) (length a)) audit_divergence_error
      refuse_if (ltb (length a) (length b)) audit_divergence_error
      require (same_lines a b) audit_divergence_error)
        ≡ ok tt)
      ↔ (a ≡ b)
compared_iff a b = (
  λ h. refuse_if_then (ltb (length b) (length a)) audit_divergence_error _ h λ long h1.
      refuse_if_then (ltb (length a) (length b)) audit_divergence_error _ h1
        λ short h2. same_lines-eq a b short long (accepted (same_lines a b) h2),
  λ e.
      subst
        (λ x.
          (refuse_if (ltb (length x) (length a)) audit_divergence_error
            >> (refuse_if (ltb (length a) (length x)) audit_divergence_error
                >> require (same_lines a x) audit_divergence_error))
          ≡ ok tt)
        e (rw (irreflexive (length a), same_lines_refl a) refl),
)
  where
    accepted : (t : Bool) → require t audit_divergence_error ≡ ok tt → t ≡ true
    accepted true h = refl
    accepted false h = cc

    irreflexive : (n : ℕ) → ltb n n ≡ false
    irreflexive n = ground arith

-- `check_mirror` passes a log with a mirror exactly when the two files hold the same lines in the same
-- order, lines of white space left out and however the lines end. (The docstring says byte-for-byte.)
pub check_mirror_iff :
    (log : AuditLog) (mirror : List ℕ)
    → log.mirror ≡ some mirror
    → (check_mirror log ≡ ok tt) ↔ (read_lines log.primary ≡ read_lines mirror)
unfolding check_mirror
check_mirror_iff log mirror h = rw h (compared_iff (read_lines log.primary) (read_lines mirror))
