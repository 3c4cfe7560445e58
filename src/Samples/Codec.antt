-- ===== src/Samples/Codec.antt =====
-- A code from lists of numbers to printable texts, and its inverse.
use Prim.Native.Char.{code}
use amnesic_pi.Prelude.{
  ℕ, zero, suc, ◌+◌, ◌*◌, ◌/◌, ◌%◌, ◌-◌, String, ◌≡◌, refl, ap, ◌∙◌, Bool, true, List, [], ◌∷◌,
  arith, all, ◌==◌, if◌then◌else◌,
}
use amnesic_pi.Prelude.Text.{codes, between}
use amnesic_pi.Tokens.TaskId.{char_of, below_all, below_all_sound}

-- The characters 32 to 126.
abbrev printable : String
printable =
    " !\"#$%&'()*+,-./0123456789:;<=>?@ABCDEFGHIJKLMNOPQRSTUVWXYZ[\\]^_`abcdefghijklmnopqrstuvwxyz{|}~"

printable_table : below_all 95 (λ i. code (char_of printable i) == 32 + i) ≡ true
printable_table = refl

unfoldable pub to_text : List ℕ → String
to_text [] = ""
to_text (c ∷ s) = String.◌∷◌ (char_of printable (c - 32)) (to_text s)

abbrev pub is_printable : List ℕ → Bool
is_printable = all (between 32 126)

pub codes-to_text : (s : List ℕ) → is_printable s ≡ true → codes (to_text s) ≡ s
unfolding to_text
codes-to_text [] h = refl
codes-to_text (c ∷ s) h =
    let known =
      below_all_sound 95 (λ i. code (char_of printable i) == 32 + i) (c - 32) printable_table
        (ground arith) in
    rw (codes-to_text s (ground arith)) (ap (λ x. x ∷ s) (ground (arith, known)))

unfoldable pub tildes : ℕ → List ℕ → List ℕ
tildes zero s = s
tildes (suc k) s = 126 ∷ tildes k s

-- Each number as its quotient by 94 in tildes, and a character for the rest.
unfoldable pub encode : List ℕ → List ℕ
unfolding tildes
encode [] = []
encode (n ∷ s) = tildes (n / 94) ((32 + n % 94) ∷ encode s)

unfoldable pub decode : ℕ → List ℕ → List ℕ
decode q [] = []
decode q (c ∷ s) =
    let more = decode (suc q) s in
    let next = decode 0 s in if c == 126 then more else (q * 94 + (c - 32)) ∷ next

decode-tildes : (q k : ℕ) (s : List ℕ) → decode q (tildes k s) ≡ decode (q + k) s
unfolding tildes decode
decode-tildes q zero s = ap (λ n. decode n s) (omega arith)
decode-tildes q (suc k) s = decode-tildes (suc q) k s ∙ ap (λ n. decode n s) (omega arith)

pub decode-encode : (s : List ℕ) → decode 0 (encode s) ≡ s
unfolding encode decode
decode-encode [] = refl
decode-encode (n ∷ s) =
    decode-tildes 0 (n / 94) ((32 + n % 94) ∷ encode s) ∙ ground (arith, decode-encode s)

printable-tildes : (k : ℕ) (s : List ℕ) → is_printable s ≡ true → is_printable (tildes k s) ≡ true
unfolding tildes
printable-tildes zero s h = h
printable-tildes (suc k) s h = printable-tildes k s h

pub printable-encode : (s : List ℕ) → is_printable (encode s) ≡ true
unfolding encode
printable-encode [] = refl
printable-encode (n ∷ s) =
    printable-tildes (n / 94) ((32 + n % 94) ∷ encode s) (ground (arith, printable-encode s))

-- The text of a list of numbers, and the list of a text.
abbrev pub print : List ℕ → String
print s = to_text (encode s)

abbrev pub scan : String → List ℕ
scan text = decode 0 (codes text)

pub scan-print : (s : List ℕ) → scan (print s) ≡ s
scan-print s = ap (decode 0) (codes-to_text (encode s) (printable-encode s)) ∙ decode-encode s
