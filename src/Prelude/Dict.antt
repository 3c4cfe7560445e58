-- ===== src/Prelude/Dict.antt =====
-- A Python `dict` in insertion order, over a test of keys.
use Prim.Native.Nat.{ℕ}
use Prim.Native.String.{String}
use mathlib.Core.Path.{◌≡◌, refl}
use mathlib.Core.Logic.{◌↔◌}
use mathlib.Core.Bool.{Bool, true, ◌&&◌}
use mathlib.Core.Option.{Option, none, some}
use mathlib.Core.List.{List, [], ◌∷◌, map}
use native.Mathlib.Omega.{arith}
use text.Mathlib.Text.{◌==◌}
use text.Mathlib.TextEquality.{eq_iff}
use amnesic_pi.Prelude.Text.{same_codes, same_codes_iff}
use amnesic_pi.Prelude.Tests.{if◌then◌else◌}

pub record Key (K : Type 0) : Type 0 where
  pub same : K → K → Bool
  pub same_iff : (a b : K) → (same a b ≡ true) ↔ (a ≡ b)

instance abbrev pub text_key : Key String
text_key = record { same = ◌==◌; same_iff = eq_iff }

instance abbrev pub codes_key : Key (List ℕ)
codes_key = record { same = same_codes; same_iff = same_codes_iff }

abbrev pub same_pair : String × String → String × String → Bool
same_pair (a, b) (c, d) = a == c && b == d

pub same_pair_iff : (x y : String × String) → (same_pair x y ≡ true) ↔ (x ≡ y)
same_pair_iff (a, b) (c, d) = ground (arith, eq_iff a c, eq_iff b d)

instance abbrev pub pair_key : Key (String × String)
pair_key = record { same = same_pair; same_iff = same_pair_iff }

abbrev pub Dict : Type 0 → Type 0 → Type 0
Dict K V = List (K × V)

module _ {K : Type 0} ⦃k : Key K⦄ where
  pub same_self : (a : K) → k.same a a ≡ true
  same_self a = (k.same_iff a a).1 refl

module _ {K V : Type 0} ⦃k : Key K⦄ where
  -- `d.get(key)`
  unfoldable pub lookup : K → Dict K V → Option V
  lookup key [] = none
  lookup key ((j, v) ∷ d) = if k.same key j then some v else lookup key d

  -- `d[key] = value`
  unfoldable pub insert : K → V → Dict K V → Dict K V
  insert key v [] = (key, v) ∷ []
  insert key v ((j, w) ∷ d) = if k.same key j then (j, v) ∷ d else (j, w) ∷ insert key v d

  -- `del d[key]`: every entry under the key, of which a dict has one.
  unfoldable pub remove : K → Dict K V → Dict K V
  remove key [] = []
  remove key ((j, w) ∷ d) = let rest = remove key d in if k.same key j then rest else (j, w) ∷ rest

  abbrev pub values : Dict K V → List V
  values = map (λ e. e.1)

  pub lookup-insert :
      (a b : K) (v : V) (d : Dict K V)
      → lookup b (insert a v d) ≡ (if k.same b a then some v else lookup b d)
  unfolding lookup insert
  lookup-insert a b v [] = refl
  lookup-insert a b v ((j, w) ∷ d) =
      ground (arith, k.same_iff a j, k.same_iff b j, k.same_iff b a, lookup-insert a b v d)

  pub lookup-remove :
      (a b : K) (d : Dict K V) → lookup b (remove a d) ≡ (if k.same b a then none else lookup b d)
  unfolding lookup remove
  lookup-remove a b [] = ground arith
  lookup-remove a b ((j, w) ∷ d) =
      ground (arith, k.same_iff a j, k.same_iff b j, k.same_iff b a, lookup-remove a b d)
