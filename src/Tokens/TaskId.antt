-- ===== src/Tokens/TaskId.antt =====
-- `new_task_id` of src/orchestrator/tokens.py: a ULID of the time in milliseconds and 80 random bits.
use Prim.Native.Char.{Char, code}
use native.Mathlib.Nat.{div-div-eq-div-mul}
use native.Mathlib.Numerals.{towards_suc}
use native.Mathlib.Decide.{dec_lt}
use amnesic_pi.Prelude.{
  ℕ, zero, suc, ◌+◌, ◌*◌, ◌/◌, ◌%◌, ◌^◌, ◌<◌, String, ◌≡◌, refl, sym, ap, ◌∙◌, Bool, true, not,
  ◌&&◌, ◌||◌, arith, all, length, ◌==◌,
}
use amnesic_pi.Prelude.Text.{codes}
use amnesic_pi.Schema.Basics.{matches_task_id, is_ulid_char}

abbrev pub crockford : String
crockford = "0123456789ABCDEFGHJKMNPQRSTVWXYZ"

-- `s[i]`; the index stays below the length where it is used.
abbrev pub char_of : String → ℕ → Char
char_of String.[] i = "0"
char_of (String.◌∷◌ c s) zero = c
char_of (String.◌∷◌ c s) (suc i) = char_of s i

-- `(value >> shift) & 0x1F` at the shift `5 * k`.
abbrev pub digit : ℕ → ℕ → ℕ
digit value k = value / 2 ^ (5 * k) % 32

-- The characters of the last `k` digits, the highest first.
unfoldable pub ulid_chars : ℕ → ℕ → String
ulid_chars zero value = ""
ulid_chars (suc k) value = String.◌∷◌ (char_of crockford (digit value k)) (ulid_chars k value)

-- `new_task_id`; `random` has 80 bits, so the disjunction is a sum.
unfoldable pub new_task_id : ℕ → ℕ → String
new_task_id millis random = ulid_chars 26 (millis * 2 ^ 80 + random)

-- Every value below 32, by evaluation.
abbrev pub below_all : ℕ → (ℕ → Bool) → Bool
below_all zero p = true
below_all (suc n) p = p n && below_all n p

pub below_all_sound : (n : ℕ) (p : ℕ → Bool) (x : ℕ) → below_all n p ≡ true → x < n → p x ≡ true
below_all_sound zero p x h lt = absurd (omega arith)
below_all_sound (suc n) p x h lt = ground (arith, below_all_sound n p x)

alphabet : below_all 32 (λ i. is_ulid_char (code (char_of crockford i))) ≡ true
unfolding is_ulid_char
alphabet = refl

chars_fit :
    (k value : ℕ)
    → (length (codes (ulid_chars k value)) ≡ k)
      × (all is_ulid_char (codes (ulid_chars k value)) ≡ true)
unfolding ulid_chars
chars_fit zero value = (refl, refl)
chars_fit (suc k) value =
    let (size, fit) = chars_fit k value in
    (
      ap suc size,
      rw
          (below_all_sound 32 (λ i. is_ulid_char (code (char_of crockford i))) (digit value k)
            alphabet (omega arith))
          fit,
    )

matches-of_chars :
    (s : String)
    → length (codes s) ≡ 26
    → all is_ulid_char (codes s) ≡ true
    → matches_task_id s ≡ true
unfolding matches_task_id
matches-of_chars s size fit = rw (size, fit)

-- The characters determine the value below `32 ^ k`: the alphabet repeats no letter.
alphabet_differs :
    below_all 32 (λ i.
      below_all 32 (λ j. not (code (char_of crockford i) == code (char_of crockford j)) || i == j))
    ≡ true
alphabet_differs = refl

char_of-injective : (i j : ℕ) → i < 32 → j < 32 → char_of crockford i ≡ char_of crockford j → i ≡ j
char_of-injective i j hi hj e =
    let row =
      below_all_sound 32
        (λ x.
          below_all 32
            (λ y. not (code (char_of crockford x) == code (char_of crockford y)) || x == y))
        i alphabet_differs hi in
    let entry =
      below_all_sound 32
        (λ y. not (code (char_of crockford i) == code (char_of crockford y)) || i == y) j row hj in
    same (code (char_of crockford i)) (code (char_of crockford j)) (ap code e) entry
  where
    same : (a b : ℕ) → a ≡ b → (not (a == b) || i == j) ≡ true → i ≡ j
    same a b h k = ground arith

shift_step : (k : ℕ) → 2 ^ (5 * suc k) ≡ 32 * 2 ^ (5 * k)
shift_step k = let e : 5 * suc k ≡ 5 * k + 5 = omega arith in rw e (simp towards_suc (omega arith))

digit-suc : (value k : ℕ) → digit value (suc k) ≡ digit (value / 32) k
digit-suc value k =
    rw (shift_step k) (ap (λ x. x % 32) (sym (div-div-eq-div-mul value 32 (2 ^ (5 * k)))))

digits_determine :
    (k v w : ℕ)
    → v < 2 ^ (5 * k)
    → w < 2 ^ (5 * k)
    → ((j : ℕ) → j < k → digit v j ≡ digit w j)
    → v ≡ w
digits_determine zero v w hv hw h = omega arith
digits_determine (suc k) v w hv hw h =
    let rest =
      digits_determine k (v / 32) (w / 32) (shrinks v hv) (shrinks w hw)
        (λ j lt. sym (digit-suc v j) ∙ h (suc j) (omega arith) ∙ digit-suc w j) in
    let low : v % 32 ≡ w % 32 = omega (arith, h 0 (omega arith)) in omega arith
  where
    shrinks : (x : ℕ) → x < 2 ^ (5 * suc k) → x / 32 < 2 ^ (5 * k)
    shrinks x hx = omega (arith, shift_step k)

chars_digits :
    (k v w : ℕ) → ulid_chars k v ≡ ulid_chars k w → (j : ℕ) → j < k → digit v j ≡ digit w j
unfolding ulid_chars
chars_digits zero v w e j lt = absurd (omega arith)
chars_digits (suc k) v w e j lt = elim (dec_lt j k) [
  | yes below ↦ chars_digits k v w (cc) j below
  | no top ↦
      let last : j ≡ k = omega arith in
      rw last (char_of-injective (digit v k) (digit w k) (omega arith) (omega arith) (cc))
]

-- A task id is a 26-letter ULID as the schemas demand, and two calls give the same id only at the
-- same millisecond with the same random bits (48 bits of time, 80 of randomness).
pub new_task_id_unique :
    (m n r s : ℕ)
    → m < 2 ^ 48
    → n < 2 ^ 48
    → r < 2 ^ 80
    → s < 2 ^ 80
    → (matches_task_id (new_task_id m r) ≡ true)
      × (new_task_id m r ≡ new_task_id n s → (m ≡ n) × (r ≡ s))
unfolding new_task_id
new_task_id_unique m n r s hm hn hr hs = (
  matches-of_chars (ulid_chars 26 (m * 2 ^ 80 + r)) (chars_fit 26 (m * 2 ^ 80 + r)).0
      (chars_fit 26 (m * 2 ^ 80 + r)).1,
  λ e.
      let same =
        digits_determine 26 (m * 2 ^ 80 + r) (n * 2 ^ 80 + s) (omega arith) (omega arith)
          (chars_digits 26 (m * 2 ^ 80 + r) (n * 2 ^ 80 + s) e) in
      (omega arith, omega arith),
)
