-- ===== src/Prelude/Text.antt =====
-- Python's `str` methods, over the code points of a text.
use Prim.Native.Nat.{ℕ}
use Prim.Native.Char.{code}
use Prim.Native.String.{String}
use mathlib.Core.Bool.{Bool, true, false, not, ◌&&◌, ◌||◌}
use mathlib.Core.Path.{◌≡◌, refl, ap₂}
use mathlib.Core.Logic.{◌↔◌}
use mathlib.Core.List.{List, [], ◌∷◌, ◌++◌, reverse}
use native.Mathlib.Omega.{arith}
use text.Mathlib.TextEquality.{Char-path}
use amnesic_pi.Prelude.Lists.{all, is_empty}
use amnesic_pi.Prelude.Tests.{leb, ◌==◌, if◌then◌else◌}

abbrev pub codes : String → List ℕ
codes String.[] = []
codes (String.◌∷◌ c s) = code c ∷ codes s

abbrev pub between : ℕ → ℕ → ℕ → Bool
between lo hi c = leb lo c && leb c hi

-- `str.isspace` of one character.
unfoldable pub is_space : ℕ → Bool
is_space c =
    between 9 13 c
    || between 28 32 c
    || c == 0x85
    || c == 0xa0
    || c == 0x1680
    || between 0x2000 0x200a c
    || between 0x2028 0x2029 c
    || c == 0x202f
    || c == 0x205f
    || c == 0x3000

unfoldable pub lstrip : List ℕ → List ℕ
unfolding is_space
lstrip [] = []
lstrip (c ∷ s) = if is_space c then lstrip s else c ∷ s

-- `str.strip()`
unfoldable pub strip : List ℕ → List ℕ
unfolding lstrip
strip s = reverse (lstrip (reverse (lstrip s)))

-- One more character in front of the first part, or a new part before it.
abbrev pub split_step : Bool → ℕ → List (List ℕ) → List (List ℕ)
split_step true c parts = [] ∷ parts
split_step false c [] = (c ∷ []) ∷ []
split_step false c (part ∷ parts) = (c ∷ part) ∷ parts

-- `str.split(sep)` for one separating character.
unfoldable pub split : ℕ → List ℕ → List (List ℕ)
split sep [] = [] ∷ []
split sep (c ∷ s) = split_step (c == sep) c (split sep s)

-- The characters at which `str.splitlines` ends a line.
unfoldable pub is_break : ℕ → Bool
is_break c =
    c == 10
    || c == 11
    || c == 12
    || c == 13
    || c == 28
    || c == 29
    || c == 30
    || c == 0x85
    || c == 0x2028
    || c == 0x2029

-- `str.splitlines`: `cr` after a carriage return, `line` what stands since the last break.
unfoldable pub lines_from : Bool → List ℕ → List ℕ → List (List ℕ)
unfolding is_break
lines_from cr line [] = if is_empty line then [] else line ∷ []
lines_from cr line (c ∷ s) =
    let joined = lines_from false line s in
    let broken = lines_from (c == 13) [] s in
    let longer = lines_from false (line ++ c ∷ []) s in
    if cr && c == 10 then joined else if is_break c then line ∷ broken else longer

-- `s.startswith(t)`
abbrev pub starts : List ℕ → List ℕ → Bool
starts [] s = true
starts (c ∷ t) [] = false
starts (c ∷ t) (d ∷ s) = c == d && starts t s

-- `t in s`
unfoldable pub occurs : List ℕ → List ℕ → Bool
occurs t [] = is_empty t
occurs t (c ∷ s) = starts t (c ∷ s) || occurs t s

-- Equality of texts by their code points.
abbrev pub same_codes : List ℕ → List ℕ → Bool
same_codes [] [] = true
same_codes [] (d ∷ t) = false
same_codes (c ∷ s) [] = false
same_codes (c ∷ s) (d ∷ t) = c == d && same_codes s t

-- `not s.strip()`
unfoldable pub is_blank : String → Bool
unfolding strip
is_blank s = same_codes (strip (codes s)) []

-- A text is its code points.
pub codes-injective : (s t : String) → codes s ≡ codes t → s ≡ t
codes-injective String.[] String.[] h = refl
codes-injective String.[] (String.◌∷◌ d t) h = absurd (cc)
codes-injective (String.◌∷◌ c s) String.[] h = absurd (cc)
codes-injective (String.◌∷◌ c s) (String.◌∷◌ d t) h =
    ap₂ String.◌∷◌ (Char-path c d (cc)) (codes-injective s t (cc))

-- Text before the first separator is determined by the whole.
pub cut_unique :
    (sep : ℕ) (s t u v : List ℕ)
    → all (λ c. not (c == sep)) s ≡ true
    → all (λ c. not (c == sep)) t ≡ true
    → s ++ (sep ∷ u) ≡ t ++ (sep ∷ v)
    → (s ≡ t) × (u ≡ v)
cut_unique sep [] [] u v h k e = (refl, cc)
cut_unique sep [] (d ∷ t) u v h k e = absurd (ground arith)
cut_unique sep (c ∷ s) [] u v h k e = absurd (ground arith)
cut_unique sep (c ∷ s) (d ∷ t) u v h k e =
    let (same, rest) = cut_unique sep s t u v (ground arith) (ground arith) (cc) in
    (ap₂ ◌∷◌ (cc) same, rest)

pub same_codes_iff : (s t : List ℕ) → (same_codes s t ≡ true) ↔ (s ≡ t)
same_codes_iff [] [] = (λ h. refl, λ h. refl)
same_codes_iff [] (d ∷ t) = (λ h. absurd (cc), λ h. absurd (cc))
same_codes_iff (c ∷ s) [] = (λ h. absurd (cc), λ h. absurd (cc))
same_codes_iff (c ∷ s) (d ∷ t) =
    let (forth, back) = same_codes_iff s t in
    (
      λ h. ap₂ ◌∷◌ (ground arith) (forth (ground arith)),
      λ h. let rest = back (cc) in let first : c ≡ d = cc in ground arith,
    )
