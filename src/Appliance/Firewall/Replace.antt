-- ===== src/Appliance/Firewall/Replace.antt =====
-- `str.replace` of one token in a text of literals, tokens and values, for src/amnesic_pi/firewall.py.
use amnesic_pi.Prelude.{
  ℕ, suc, ◌-◌, ◌≡◌, refl, sym, ap, subst, ◌∙◌, inl, inr, Bool, true, false, not, ◌||◌, List, [],
  ◌∷◌, ◌++◌, all, any, length, Bool-cases, ◌==◌, arith,
}
use amnesic_pi.Prelude.Text.{between, starts, occurs}
use amnesic_pi.Appliance.Firewall.{
  Token, uplink_if, client_if, trans_port, dns_port, tor_uid_, name_of, text_of, replace_from,
  replace,
}

-- Free of the character that tokens begin and end with.
abbrev pub is_free : List ℕ → Bool
is_free s = all (λ c. not (c == 64)) s

abbrev pub is_token_char : ℕ → Bool
is_token_char c = between 65 90 c || c == 95 || c == 64

-- A literal that no token can run into: no `@`, and some character that no token has.
abbrev pub IsPlain : List ℕ → Type 0
IsPlain s = (is_free s ≡ true) × (any (λ c. not (is_token_char c)) s ≡ true)

abbrev pub same_token : Token → Token → Bool
same_token uplink_if uplink_if = true
same_token client_if client_if = true
same_token trans_port trans_port = true
same_token dns_port dns_port = true
same_token tor_uid_ tor_uid_ = true
same_token _ _ = false

pub same_token-eq : (t x : Token) → same_token t x ≡ true → t ≡ x
same_token-eq uplink_if uplink_if h = refl
same_token-eq uplink_if client_if h = absurd (cc)
same_token-eq uplink_if trans_port h = absurd (cc)
same_token-eq uplink_if dns_port h = absurd (cc)
same_token-eq uplink_if tor_uid_ h = absurd (cc)
same_token-eq client_if uplink_if h = absurd (cc)
same_token-eq client_if client_if h = refl
same_token-eq client_if trans_port h = absurd (cc)
same_token-eq client_if dns_port h = absurd (cc)
same_token-eq client_if tor_uid_ h = absurd (cc)
same_token-eq trans_port uplink_if h = absurd (cc)
same_token-eq trans_port client_if h = absurd (cc)
same_token-eq trans_port trans_port h = refl
same_token-eq trans_port dns_port h = absurd (cc)
same_token-eq trans_port tor_uid_ h = absurd (cc)
same_token-eq dns_port uplink_if h = absurd (cc)
same_token-eq dns_port client_if h = absurd (cc)
same_token-eq dns_port trans_port h = absurd (cc)
same_token-eq dns_port dns_port h = refl
same_token-eq dns_port tor_uid_ h = absurd (cc)
same_token-eq tor_uid_ uplink_if h = absurd (cc)
same_token-eq tor_uid_ client_if h = absurd (cc)
same_token-eq tor_uid_ trans_port h = absurd (cc)
same_token-eq tor_uid_ dns_port h = absurd (cc)
same_token-eq tor_uid_ tor_uid_ h = refl

apart :
    (t x : Token) (s : List ℕ)
    → same_token t x ≡ false
    → starts (text_of t) (text_of x ++ s) ≡ false
apart uplink_if uplink_if s h = absurd (cc)
apart uplink_if client_if s h = refl
apart uplink_if trans_port s h = refl
apart uplink_if dns_port s h = refl
apart uplink_if tor_uid_ s h = refl
apart client_if uplink_if s h = refl
apart client_if client_if s h = absurd (cc)
apart client_if trans_port s h = refl
apart client_if dns_port s h = refl
apart client_if tor_uid_ s h = refl
apart trans_port uplink_if s h = refl
apart trans_port client_if s h = refl
apart trans_port trans_port s h = absurd (cc)
apart trans_port dns_port s h = refl
apart trans_port tor_uid_ s h = refl
apart dns_port uplink_if s h = refl
apart dns_port client_if s h = refl
apart dns_port trans_port s h = refl
apart dns_port dns_port s h = absurd (cc)
apart dns_port tor_uid_ s h = refl
apart tor_uid_ uplink_if s h = refl
apart tor_uid_ client_if s h = refl
apart tor_uid_ trans_port s h = refl
apart tor_uid_ dns_port s h = refl
apart tor_uid_ tor_uid_ s h = absurd (cc)

name-is_free : (x : Token) → is_free (name_of x) ≡ true
name-is_free uplink_if = refl
name-is_free client_if = refl
name-is_free trans_port = refl
name-is_free dns_port = refl
name-is_free tor_uid_ = refl

text_split : (x : Token) (s : List ℕ) → text_of x ++ s ≡ 64 ∷ (name_of x ++ (64 ∷ s))
text_split uplink_if s = refl
text_split client_if s = refl
text_split trans_port s = refl
text_split dns_port s = refl
text_split tor_uid_ s = refl

name_chars : (x : Token) → all is_token_char (name_of x ++ 64 ∷ []) ≡ true
name_chars uplink_if = refl
name_chars client_if = refl
name_chars trans_port = refl
name_chars dns_port = refl
name_chars tor_uid_ = refl

name_ends : (x : Token) → any (λ c. c == 64) (name_of x ++ 64 ∷ []) ≡ true
name_ends uplink_if = refl
name_ends client_if = refl
name_ends trans_port = refl
name_ends dns_port = refl
name_ends tor_uid_ = refl

starts_self : (t s : List ℕ) → starts t (t ++ s) ≡ true
starts_self [] s = refl
starts_self (c ∷ t) s = ground (arith, starts_self t s)

starts_plain :
    (t s r : List ℕ)
    → all is_token_char t ≡ true
    → any (λ c. c == 64) t ≡ true
    → is_free s ≡ true
    → any (λ c. not (is_token_char c)) s ≡ true
    → starts t (s ++ r) ≡ false
starts_plain [] s r h e f g = absurd (cc)
starts_plain (c ∷ t) [] r h e f g = absurd (cc)
starts_plain (c ∷ t) (d ∷ s) r h e f g = elim (Bool-cases (c == d)) [
  | inr apart ↦ ground arith
  | inl equal ↦
      let same : c ≡ d = ground arith in
      let miss = starts_plain t s r (ground arith) (ground arith) (ground arith) (ground arith) in
      ground arith
]

replace_miss :
    (token value : List ℕ) (c : ℕ) (s : List ℕ)
    → starts token (c ∷ s) ≡ false
    → replace token value (c ∷ s) ≡ c ∷ replace token value s
unfolding replace_from
replace_miss token value c s h = rw h refl

pub replace_free :
    (t value s r : List ℕ)
    → is_free s ≡ true
    → replace (64 ∷ t) value (s ++ r) ≡ s ++ replace (64 ∷ t) value r
replace_free t value [] r h = refl
replace_free t value (c ∷ s) r h =
    replace_miss (64 ∷ t) value c (s ++ r) (ground arith)
    ∙ ap (λ rest. c ∷ rest) (replace_free t value s r (ground arith))

skipped :
    (token value t r : List ℕ)
    → replace_from (length t) token value (t ++ r) ≡ replace token value r
unfolding replace_from
skipped token value [] r = refl
skipped token value (c ∷ t) r = skipped token value t r

pub replace_hit :
    (c : ℕ) (t value r : List ℕ)
    → replace (c ∷ t) value (c ∷ t ++ r) ≡ value ++ replace (c ∷ t) value r
unfolding replace_from
replace_hit c t value r =
    let found : starts (c ∷ t) (c ∷ t ++ r) ≡ true = starts_self (c ∷ t) r in
    let left : suc (length t) - 1 ≡ length t = omega arith in
    rw found (rw left (ap (λ rest. value ++ rest) (skipped (c ∷ t) value t r)))

-- A token is passed over by the search for another one, with the literal behind it.
pub replace_other :
    (t x : Token) (value literal r : List ℕ)
    → same_token t x ≡ false
    → IsPlain literal
    → replace (text_of t) value (text_of x ++ (literal ++ r))
      ≡ text_of x ++ (literal ++ replace (text_of t) value r)
replace_other t x value literal r differ (free, plain) =
    let token = text_of t in
    let search = replace token value in
    let begin = replace_miss token value 64 (name_of x ++ (64 ∷ (literal ++ r))) (
      subst (λ s. starts token s ≡ false) (text_split x (literal ++ r))
        (apart t x (literal ++ r) differ)) in
    let names =
      replace_free (name_of t ++ 64 ∷ []) value (name_of x) (64 ∷ (literal ++ r))
        (name-is_free x) in
    let end =
      replace_miss token value 64 (literal ++ r)
        (starts_plain (name_of t ++ 64 ∷ []) literal r (name_chars t) (name_ends t) free plain) in
    let text = replace_free (name_of t ++ 64 ∷ []) value literal r free in
    ap search (text_split x (literal ++ r))
    ∙ begin
    ∙ ap (λ s. 64 ∷ s) (names ∙ ap (λ s. name_of x ++ s) (end ∙ ap (λ s. 64 ∷ s) text))
    ∙ sym (text_split x (literal ++ search r))

pub is_free-append : (s t : List ℕ) → is_free s ≡ true → is_free t ≡ true → is_free (s ++ t) ≡ true
is_free-append [] t h k = k
is_free-append (c ∷ s) t h k = ground (arith, is_free-append s t)

pub free_where :
    (p : ℕ → Bool) (only : (c : ℕ) → p c ≡ true → (c == 64) ≡ false) (s : List ℕ)
    → all p s ≡ true
    → is_free s ≡ true
free_where p only [] h = refl
free_where p only (c ∷ s) h =
    let first = only c (ground arith) in
    let rest = free_where p only s (ground arith) in ground arith

pub occurs-free : (t s : List ℕ) → is_free s ≡ true → occurs (64 ∷ t) s ≡ false
unfolding occurs
occurs-free t [] h = refl
occurs-free t (c ∷ s) h = ground (arith, occurs-free t s)
