-- ===== src/Replay/Keys.antt =====
-- The task ids by which `replay` of src/orchestrator/state.py keeps its dicts and its set: what a field
-- of the log may hold that Python can hash.
use amnesic_pi.Prelude.{
  String, ◌≡◌, ◌↔◌, refl, ap, Bool, true, false, List, any, ◌==◌, str_eq, eq_iff, arith,
}
use amnesic_pi.Prelude.Int.{ℤ, pos, negsuc}
use amnesic_pi.Prelude.Dict.{Key}

-- A Boolean is the number that it equals: as a key, `True` is 1.
pub data TaskKey : Type 0 where
  text : String → TaskKey
  number : ℤ → TaskKey
  nothing : TaskKey

abbrev pub same_number : ℤ → ℤ → Bool
same_number (pos m) (pos n) = m == n
same_number (negsuc m) (negsuc n) = m == n
same_number _ _ = false

-- A text and a number are never the same key.
abbrev pub same_key : TaskKey → TaskKey → Bool
same_key (text s) (text t) = str_eq s t
same_key (number m) (number n) = same_number m n
same_key nothing nothing = true
same_key _ _ = false

same_number_iff : (m n : ℤ) → (same_number m n ≡ true) ↔ (m ≡ n)
same_number_iff (pos m) (pos n) =
    (λ h. ap pos (ground arith), λ h. let same : m ≡ n = cc in ground arith)
same_number_iff (negsuc m) (negsuc n) =
    (λ h. ap negsuc (ground arith), λ h. let same : m ≡ n = cc in ground arith)
same_number_iff (pos m) (negsuc n) = (λ h. absurd (cc), λ h. absurd (cc))
same_number_iff (negsuc m) (pos n) = (λ h. absurd (cc), λ h. absurd (cc))

pub same_key_iff : (a b : TaskKey) → (same_key a b ≡ true) ↔ (a ≡ b)
same_key_iff (text s) (text t) = (λ h. ap text ((eq_iff s t).0 h), λ h. (eq_iff s t).1 (cc))
same_key_iff (number m) (number n) =
    (λ h. ap number ((same_number_iff m n).0 h), λ h. (same_number_iff m n).1 (cc))
same_key_iff nothing nothing = (λ h. refl, λ h. refl)
same_key_iff (text s) (number n) = (λ h. absurd (cc), λ h. absurd (cc))
same_key_iff (text s) nothing = (λ h. absurd (cc), λ h. absurd (cc))
same_key_iff (number n) (text s) = (λ h. absurd (cc), λ h. absurd (cc))
same_key_iff (number n) nothing = (λ h. absurd (cc), λ h. absurd (cc))
same_key_iff nothing (text s) = (λ h. absurd (cc), λ h. absurd (cc))
same_key_iff nothing (number n) = (λ h. absurd (cc), λ h. absurd (cc))

instance abbrev pub task_key : Key TaskKey
task_key = record { same = same_key; same_iff = same_key_iff }

-- `id in set`
abbrev pub holds : TaskKey → List TaskKey → Bool
holds id set = any (λ key. same_key id key) set
