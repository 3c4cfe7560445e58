-- ===== src/Value/Canonical.antt =====
-- `canonical_json` of src/orchestrator/schema.py: `json.dumps` with sorted keys, no spaces, and
-- nothing escaped that JSON does not require. The printed text is a list of code points.
use amnesic_pi.Prelude.{
  ℕ, zero, suc, ◌+◌, ◌/◌, ◌%◌, String, Bool, true, false, List, [], ◌∷◌, ◌++◌, ltb, ◌==◌,
  if◌then◌else◌, ◌≡◌, refl, all, leb, ◌&&◌, arith,
}
use amnesic_pi.Prelude.Int.{pos, negsuc}
use amnesic_pi.Prelude.Text.{codes}
use amnesic_pi.Value.{Value, null, bool, int, str, arr, obj, Items, nil, cons, Fields, end, field}

-- Decimal digits; `f` is more than the number of digits.
digits_from : ℕ → ℕ → List ℕ
digits_from zero n = []
digits_from (suc f) n =
    let more = digits_from f (n / 10) ++ (48 + n % 10) ∷ [] in
    if ltb n 10 then (48 + n) ∷ [] else more

unfoldable pub decimal : ℕ → List ℕ
unfolding digits_from
decimal n = digits_from (suc n) n

all-append :
    (p : ℕ → Bool) (xs ys : List ℕ) → all p xs ≡ true → all p ys ≡ true → all p (xs ++ ys) ≡ true
all-append p [] ys h k = k
all-append p (x ∷ xs) ys h k = ground (arith, all-append p xs ys)

all-if :
    (p : ℕ → Bool) (b : Bool) (xs ys : List ℕ)
    → (b ≡ true → all p xs ≡ true)
    → all p ys ≡ true
    → all p (if b then xs else ys) ≡ true
all-if p true xs ys h k = h refl
all-if p false xs ys h k = k

digits_from-digits : (f n : ℕ) → all (λ c. leb 48 c && leb c 57) (digits_from f n) ≡ true
unfolding digits_from
digits_from-digits zero n = refl
digits_from-digits (suc f) n =
    let digit : ℕ → Bool = λ c. leb 48 c && leb c 57 in
    all-if digit (ltb n 10) ((48 + n) ∷ []) (digits_from f (n / 10) ++ (48 + n % 10) ∷ [])
      (λ h. ground arith)
      (all-append digit (digits_from f (n / 10)) ((48 + n % 10) ∷ [])
        (digits_from-digits f (n / 10)) (ground arith))

pub decimal-digits : (n : ℕ) → all (λ c. leb 48 c && leb c 57) (decimal n) ≡ true
unfolding decimal
decimal-digits n = digits_from-digits (suc n) n

hex_digit : ℕ → ℕ
hex_digit n = if ltb n 10 then 48 + n else 87 + n

-- The escapes of `json.encoder` under `ensure_ascii=False`.
escape : ℕ → List ℕ
unfolding hex_digit
escape c =
    if c == 34
    then 92 ∷ 34 ∷ []
    else if c == 92
    then 92 ∷ 92 ∷ []
    else if c == 10
    then 92 ∷ b'n' ∷ []
    else if c == 13
    then 92 ∷ b'r' ∷ []
    else if c == 9
    then 92 ∷ b't' ∷ []
    else if c == 12
    then 92 ∷ b'f' ∷ []
    else if c == 8
    then 92 ∷ b'b' ∷ []
    else if ltb c 32
    then 92 ∷ b'u' ∷ b'0' ∷ b'0' ∷ hex_digit (c / 16) ∷ hex_digit (c % 16) ∷ []
    else c ∷ []

escape_all : List ℕ → List ℕ
unfolding escape
escape_all [] = []
escape_all (c ∷ s) = escape c ++ escape_all s

quote : String → List ℕ
unfolding escape_all
quote s = 34 ∷ escape_all (codes s) ++ 34 ∷ []

-- Python's order of `str`: by code points.
unfoldable pub before : List ℕ → List ℕ → Bool
before [] [] = false
before [] (d ∷ t) = true
before (c ∷ s) [] = false
before (c ∷ s) (d ∷ t) = if ltb c d then true else if ltb d c then false else before s t

-- `sort_keys=True`, on keys with their printed values.
unfoldable pub sort_in : String → List ℕ → List (String × List ℕ) → List (String × List ℕ)
unfolding before
sort_in k v [] = (k, v) ∷ []
sort_in k v ((j, w) ∷ rest) =
    if before (codes j) (codes k) then (j, w) ∷ sort_in k v rest else (k, v) ∷ (j, w) ∷ rest

join_fields : List (String × List ℕ) → List ℕ
unfolding quote
join_fields [] = []
join_fields ((k, v) ∷ []) = quote k ++ b':' ∷ v
join_fields ((k, v) ∷ e ∷ rest) = quote k ++ b':' ∷ v ++ b',' ∷ join_fields (e ∷ rest)

join_items : List (List ℕ) → List ℕ
join_items [] = []
join_items (v ∷ []) = v
join_items (v ∷ w ∷ rest) = v ++ b',' ∷ join_items (w ∷ rest)

unfoldable mutual
  unfolding decimal quote sort_in join_fields join_items

  pub canonical_json : Value → List ℕ
  canonical_json null = codes "null"
  canonical_json (bool true) = codes "true"
  canonical_json (bool false) = codes "false"
  canonical_json (int (pos n)) = decimal n
  canonical_json (int (negsuc n)) = b'-' ∷ decimal (suc n)
  canonical_json (str s) = quote s
  canonical_json (arr vs) = b'[' ∷ join_items (print_items vs) ++ b']' ∷ []
  canonical_json (obj fs) = b'{' ∷ join_fields (print_fields fs) ++ b'}' ∷ []

  pub print_items : Items → List (List ℕ)
  print_items nil = []
  print_items (cons v vs) = canonical_json v ∷ print_items vs

  pub print_fields : Fields → List (String × List ℕ)
  print_fields end = []
  print_fields (field k v fs) = sort_in k (canonical_json v) (print_fields fs)
