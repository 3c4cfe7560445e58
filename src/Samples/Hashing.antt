-- ===== src/Samples/Hashing.antt =====
-- A platform in which every hypothesis on digests, codes and timestamps holds.
use amnesic_pi.Prelude.{
  ℕ, zero, suc, ◌+◌, ◌*◌, ◌/◌, ◌%◌, ◌≡◌, refl, sym, ap, ◌∙◌, true, Option, none, some, List, [],
  ◌∷◌, ◌++◌, arith, all, ltb,
}
use amnesic_pi.Prelude.Int.{pos, negsuc}
use amnesic_pi.Prelude.Text.{codes}
use amnesic_pi.Value.{Value}
use amnesic_pi.Platform.{DateTime, naive, aware, Platform, ReadsIso, CollisionFree, MacBinds}
use amnesic_pi.Tokens.{is_ascii}
use amnesic_pi.Tokens.Issued.{PrintsAscii}
use amnesic_pi.Samples.Codec.{
  print, scan, scan-print, codes-to_text, encode, printable-encode, is_printable,
}

-- A number in three parts, so that timestamps stay short.
abbrev parts : ℕ → List ℕ → List ℕ
parts t rest = t / 100_000_000 ∷ t / 10_000 % 10_000 ∷ t % 10_000 ∷ rest

abbrev whole : ℕ → ℕ → ℕ → ℕ
whole a b c = a * 100_000_000 + b * 10_000 + c

abbrev date_codes : DateTime → List ℕ
date_codes (naive t) = parts t (0 ∷ [])
date_codes (aware t (pos k)) = parts t (1 ∷ k ∷ [])
date_codes (aware t (negsuc k)) = parts t (2 ∷ k ∷ [])

abbrev date_of : List ℕ → Option DateTime
date_of (a ∷ b ∷ c ∷ zero ∷ []) = some (naive (whole a b c))
date_of (a ∷ b ∷ c ∷ suc zero ∷ k ∷ []) = some (aware (whole a b c) (pos k))
date_of (a ∷ b ∷ c ∷ suc (suc zero) ∷ k ∷ []) = some (aware (whole a b c) (negsuc k))
date_of _ = none

whole_parts : (t : ℕ) → whole (t / 100_000_000) (t / 10_000 % 10_000) (t % 10_000) ≡ t
whole_parts t = omega arith

date_of-codes : (d : DateTime) → date_of (date_codes d) ≡ some d
date_of-codes (naive t) = ap (λ n. some (naive n)) (whole_parts t)
date_of-codes (aware t (pos k)) = ap (λ n. some (aware n (pos k))) (whole_parts t)
date_of-codes (aware t (negsuc k)) = ap (λ n. some (aware n (negsuc k))) (whole_parts t)

-- A platform with a given JSON reader.
unfoldable pub sample : (List ℕ → Option Value) → Platform
sample loads = record {
  sha256_hex = print;
  hmac_hex = λ key s. print (codes key ++ s);
  isoformat = λ d. print (date_codes d);
  fromisoformat = λ s. date_of (scan s);
  show = λ v. "value";
  loads = loads;
  opens = true;
  log_stops = λ file text. none;
  mirror_stops = λ file text. none;
}

append_cancel : (a s t : List ℕ) → a ++ s ≡ a ++ t → s ≡ t
append_cancel [] s t e = e
append_cancel (x ∷ a) s t e = append_cancel a s t (cc)

pub sample-ReadsIso : (loads : List ℕ → Option Value) → ReadsIso (sample loads)
unfolding sample
sample-ReadsIso loads d = ap date_of (scan-print (date_codes d)) ∙ date_of-codes d

pub sample-CollisionFree : (loads : List ℕ → Option Value) → CollisionFree (sample loads)
unfolding sample
sample-CollisionFree loads s t e = sym (scan-print s) ∙ ap scan e ∙ scan-print t

pub sample-MacBinds : (loads : List ℕ → Option Value) → MacBinds (sample loads)
unfolding sample
sample-MacBinds loads key s t e =
    append_cancel (codes key) s t
      (sym (scan-print (codes key ++ s)) ∙ ap scan e ∙ scan-print (codes key ++ t))

ascii-printable : (s : List ℕ) → is_printable s ≡ true → all (λ c. ltb c 128) s ≡ true
ascii-printable [] h = refl
ascii-printable (c ∷ s) h = ground (arith, ascii-printable s)

print-is_ascii : (s : List ℕ) → is_ascii (print s) ≡ true
print-is_ascii s =
    ap (all (λ c. ltb c 128)) (codes-to_text (encode s) (printable-encode s))
    ∙ ascii-printable (encode s) (printable-encode s)

pub sample-PrintsAscii : (loads : List ℕ → Option Value) → PrintsAscii (sample loads)
unfolding sample
sample-PrintsAscii loads = record {
  digest = print-is_ascii;
  code = λ key s. print-is_ascii (codes key ++ s);
}
