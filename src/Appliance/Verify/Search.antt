-- ===== src/Appliance/Verify/Search.antt =====
-- `in` and `str.find` for texts, against their descriptions by concatenation.
use amnesic_pi.Prelude.{
  ℕ, ◌≡◌, ◌↔◌, refl, ap, subst, ◌∙◌, Bool, true, false, Bool-cases, inl, inr, some, List, [], ◌∷◌,
  ◌++◌, if◌then◌else◌, arith,
}
use mathlib.Core.Path.{ap₂}
use amnesic_pi.Prelude.Text.{starts, occurs}
use amnesic_pi.Appliance.Verify.{find_from}

abbrev pub Within : List ℕ → List ℕ → Type 0
Within t s = (before : List ℕ) × (after : List ℕ) × (s ≡ before ++ (t ++ after))

starts→prefix : (t s : List ℕ) → starts t s ≡ true → (after : List ℕ) × (s ≡ t ++ after)
starts→prefix [] s h = (s, refl)
starts→prefix (c ∷ t) [] h = absurd (cc)
starts→prefix (c ∷ t) (d ∷ s) h =
    let (after, e) = starts→prefix t s (ground arith) in
    let same : d ≡ c = ground arith in (after, ap₂ ◌∷◌ same e)

starts_self : (t after : List ℕ) → starts t (t ++ after) ≡ true
starts_self [] after = refl
starts_self (c ∷ t) after = ground (arith, starts_self t after)

prefix→starts : (t s after : List ℕ) → s ≡ t ++ after → starts t s ≡ true
prefix→starts t s after e = ap (starts t) e ∙ starts_self t after

occurs→Within : (t s : List ℕ) → occurs t s ≡ true → Within t s
unfolding occurs
occurs→Within [] [] h = ([], [], refl)
occurs→Within (c ∷ t) [] h = absurd (cc)
occurs→Within t (d ∷ s) h = elim (Bool-cases (starts t (d ∷ s))) [
  | inl found ↦ let (after, e) = starts→prefix t (d ∷ s) found in ([], after, e)
  | inr missed ↦
      let (before, after, e) = occurs→Within t s (ground arith) in
      (d ∷ before, after, ap (λ r. d ∷ r) e)
]

occurs_here : (t s : List ℕ) → starts t s ≡ true → occurs t s ≡ true
unfolding occurs
occurs_here [] [] h = refl
occurs_here (c ∷ t) [] h = absurd (cc)
occurs_here t (d ∷ s) h = rw h refl

occurs_after : (t before s : List ℕ) → starts t s ≡ true → occurs t (before ++ s) ≡ true
unfolding occurs
occurs_after t [] s h = occurs_here t s h
occurs_after t (d ∷ before) s h = ground (arith, occurs_after t before s h)

-- `t in s` says that `s` is some text, then `t`, then some text.
pub occurs_iff : (t s : List ℕ) → (occurs t s ≡ true) ↔ Within t s
occurs_iff t s = (
  occurs→Within t s,
  λ (before, after, e). ap (occurs t) e ∙ occurs_after t before (t ++ after) (starts_self t after),
)

-- Nowhere in the first part does the marker begin.
abbrev pub NotYet : List ℕ → List ℕ → List ℕ → Type 0
NotYet marker [] rest = Unit
NotYet marker (c ∷ before) rest =
    (starts marker (c ∷ before ++ rest) ≡ false) × NotYet marker before rest

abbrev pub FoundAt : List ℕ → List ℕ → List ℕ → Type 0
FoundAt marker text rest =
    (before : List ℕ) × (text ≡ before ++ rest)
    × NotYet marker before rest
    × (starts marker rest ≡ true)

find→FoundAt :
    (marker text rest : List ℕ) → find_from marker text ≡ some rest → FoundAt marker text rest
unfolding find_from
find→FoundAt [] [] rest h = let e : [] ≡ rest = cc in ([], e, tt, refl)
find→FoundAt (d ∷ marker) [] rest h = absurd (cc)
find→FoundAt marker (c ∷ s) rest h =
    go (starts marker (c ∷ s)) refl h λ later. find→FoundAt marker s rest later
  where
    go :
        (found : Bool)
        → starts marker (c ∷ s) ≡ found
        → (if found then some (c ∷ s) else find_from marker s) ≡ some rest
        → (find_from marker s ≡ some rest → FoundAt marker s rest)
        → FoundAt marker (c ∷ s) rest
    go true e h next =
        let here : c ∷ s ≡ rest = cc in ([], here, tt, subst (λ r. starts marker r ≡ true) here e)
    go false e h next =
        let (before, split, notyet, begins) = next h in
        (
          c ∷ before,
          ap (λ r. c ∷ r) split,
          (subst (λ r. starts marker (c ∷ r) ≡ false) split e, notyet),
          begins,
        )

find_here : (marker rest : List ℕ) → starts marker rest ≡ true → find_from marker rest ≡ some rest
unfolding find_from
find_here [] [] h = refl
find_here (c ∷ marker) [] h = absurd (cc)
find_here marker (d ∷ rest) h = rw h refl

find_after :
    (marker before rest : List ℕ)
    → NotYet marker before rest
    → starts marker rest ≡ true
    → find_from marker (before ++ rest) ≡ some rest
unfolding find_from
find_after marker [] rest notyet begins = find_here marker rest begins
find_after marker (c ∷ before) rest (here, notyet) begins =
    rw here (find_after marker before rest notyet begins)

-- `text.find(marker)` is the first place where the marker begins.
pub find_from_iff :
    (marker text rest : List ℕ) → (find_from marker text ≡ some rest) ↔ FoundAt marker text rest
find_from_iff marker text rest = (
  find→FoundAt marker text rest,
  λ (before, split, notyet, begins).
      ap (find_from marker) split ∙ find_after marker before rest notyet begins,
)
