-- ===== src/Prelude/Lists.antt =====
-- Lists measured by native numbers, Boolean quantifiers, and predicates by recursion.
use Prim.Native.Nat.{ℕ, suc, ◌≤◌}
use Prim.Native.String.{String}
use mathlib.Core.Path.{◌≡◌, refl, ap}
use mathlib.Core.Logic.{◌↔◌}
use mathlib.Core.Bool.{Bool, true, false, ◌&&◌, ◌||◌}
use mathlib.Core.List.{List, [], ◌∷◌, ◌++◌}
use native.Mathlib.Omega.{arith}
use text.Mathlib.Text.{◌==◌}
use text.Mathlib.TextEquality.{eq_iff}
use amnesic_pi.Prelude.Tests.{if◌then◌else◌}

module _ {ℓ} {A : Type ℓ} where
  abbrev pub length : List A → ℕ
  length [] = 0
  length (x ∷ xs) = suc (length xs)

  abbrev pub is_empty : List A → Bool
  is_empty [] = true
  is_empty (x ∷ xs) = false

  -- `all(p(x) for x in xs)` and `any(...)`.
  abbrev pub all : (A → Bool) → List A → Bool
  all p [] = true
  all p (x ∷ xs) = p x && all p xs

  abbrev pub any : (A → Bool) → List A → Bool
  any p [] = false
  any p (x ∷ xs) = p x || any p xs

  -- `[x for x in xs if p(x)]`
  abbrev pub keep : (A → Bool) → List A → List A
  keep p [] = []
  keep p (x ∷ xs) = let rest = keep p xs in if p x then x ∷ rest else rest

  pub append_nil : (xs : List A) → xs ≡ xs ++ []
  append_nil [] = refl
  append_nil (x ∷ xs) = ap (λ ys. x ∷ ys) (append_nil xs)

  pub append_assoc : (xs ys zs : List A) → (xs ++ ys) ++ zs ≡ xs ++ (ys ++ zs)
  append_assoc [] ys zs = refl
  append_assoc (x ∷ xs) ys zs = ap (λ rest. x ∷ rest) (append_assoc xs ys zs)

  pub length-keep-le : (p : A → Bool) (xs : List A) → length (keep p xs) ≤ length xs
  length-keep-le p [] = omega arith
  length-keep-le p (x ∷ xs) = ground (arith, length-keep-le p xs)

module _ {ℓ κ} {A : Type ℓ} where
  abbrev pub All : (A → Type κ) → List A → Type κ
  All P [] = Unit
  All P (x ∷ xs) = P x × All P xs

-- `s in xs`, for texts.
abbrev pub elem : String → List String → Bool
elem s [] = false
elem s (x ∷ xs) = s == x || elem s xs

-- `len(set(xs)) == len(xs)`
abbrev pub distinct : List String → Bool
distinct [] = true
distinct (x ∷ xs) = (if elem x xs then false else true) && distinct xs

-- No member of `xs` stands in `seen` or twice in `xs`: what a loop that collects them may assume.
abbrev pub NoRepeat : List String → List String → Type 0
NoRepeat seen [] = Unit
NoRepeat seen (x ∷ xs) = (elem x seen ≡ false) × NoRepeat (x ∷ seen) xs

abbrev Apart : List String → List String → Type 0
Apart seen = All (λ y. elem y seen ≡ false)

Apart-cons :
    (x : String) (seen xs : List String) → elem x xs ≡ false → Apart seen xs → Apart (x ∷ seen) xs
Apart-cons x seen [] h k = tt
Apart-cons x seen (y ∷ xs) h k =
    (ground (arith, eq_iff x y, eq_iff y x), Apart-cons x seen xs (ground arith) k.1)

Apart-uncons :
    (x : String) (seen xs : List String) → Apart (x ∷ seen) xs → (elem x xs ≡ false) × Apart seen xs
Apart-uncons x seen [] h = (refl, tt)
Apart-uncons x seen (y ∷ xs) h =
    let (others, rest) = Apart-uncons x seen xs h.1 in
    (ground (arith, eq_iff x y, eq_iff y x), (ground arith, rest))

distinct→NoRepeat : (seen xs : List String) → distinct xs ≡ true → Apart seen xs → NoRepeat seen xs
distinct→NoRepeat seen [] h k = tt
distinct→NoRepeat seen (x ∷ xs) h k =
    (k.0, distinct→NoRepeat (x ∷ seen) xs (ground arith) (Apart-cons x seen xs (ground arith) k.1))

NoRepeat→distinct :
    (seen xs : List String) → NoRepeat seen xs → (distinct xs ≡ true) × Apart seen xs
NoRepeat→distinct seen [] h = (refl, tt)
NoRepeat→distinct seen (x ∷ xs) h =
    let (differ, apart) = NoRepeat→distinct (x ∷ seen) xs h.1 in
    let (alone, old) = Apart-uncons x seen xs apart in (ground arith, (h.0, old))

Apart-nil : (xs : List String) → Apart [] xs
Apart-nil [] = tt
Apart-nil (x ∷ xs) = (refl, Apart-nil xs)

pub NoRepeat-iff : (xs : List String) → NoRepeat [] xs ↔ (distinct xs ≡ true)
NoRepeat-iff xs =
    (λ h. (NoRepeat→distinct [] xs h).0, λ h. distinct→NoRepeat [] xs h (Apart-nil xs))
