-- ===== src/Appliance/Firewall/Rendered.antt =====
-- `render` of src/amnesic_pi/firewall.py, on templates in which tokens and literals are told apart.
use amnesic_pi.Prelude.{
  ℕ, ◌≡◌, refl, sym, ap, subst, ◌∙◌, Bool, true, false, ◌||◌, List, [], ◌∷◌, ◌++◌, any, All,
  if◌then◌else◌, arith,
}
use amnesic_pi.Prelude.Int.{ℤ, pos, ltb_ℤ}
use amnesic_pi.Prelude.Text.{occurs}
use amnesic_pi.Errors.{Result, Done, ok, err, firewall_error, refuse_if, ◌>>◌}
use mathlib.Core.Path.{ap₂}
use amnesic_pi.Value.Canonical.{decimal, decimal-digits}
use amnesic_pi.Appliance.Config.{Config, validate, is_iface, is_iface_char}
use amnesic_pi.Appliance.Config.Valid.{IsPort, IsSound, validate-IsSound}
use amnesic_pi.Appliance.Firewall.{
  Token, uplink_if, client_if, trans_port, dns_port, tor_uid_, tokens, name_of, text_of, value_of,
  replace_from, replace, replace_all, render, show_int,
}
use amnesic_pi.Appliance.Firewall.Replace.{
  is_free, IsPlain, same_token, same_token-eq, replace_free, replace_hit, replace_other,
  is_free-append, free_where, occurs-free,
}

-- A template behind its first literal: tokens, each with the literal that follows it.
abbrev pub Slots : Type 0
Slots = List (Token × List ℕ)

pub fill : (Token → List ℕ) → Slots → List ℕ
fill text [] = []
fill text ((t, literal) ∷ slots) = text t ++ (literal ++ fill text slots)

abbrev elem_token : Token → List Token → Bool
elem_token x [] = false
elem_token x (t ∷ ts) = same_token t x || elem_token x ts

-- The text of a token after some of the tokens have been replaced.
abbrev text_after : (Token → List ℕ) → List Token → Token → List ℕ
text_after values done x = if elem_token x done then values x else text_of x

-- One slot under the search for a token: by then replaced, replaced now, or passed over.
replace_slot :
    (values : Token → List ℕ) (free : (x : Token) → is_free (values x) ≡ true) (done : List Token)
    (t x : Token) (literal r : List ℕ)
    → IsPlain literal
    → replace (text_of t) (values t) (text_after values done x ++ (literal ++ r))
      ≡ text_after values (t ∷ done) x ++ (literal ++ replace (text_of t) (values t) r)
replace_slot values free done t x literal r plain = go (elem_token x done) (same_token t x) refl
  where
    search : List ℕ → List ℕ
    search = replace (text_of t) (values t)

    passed : search (literal ++ r) ≡ literal ++ search r
    passed = replace_free (name_of t ++ 64 ∷ []) (values t) literal r plain.0

    kept : search (values x ++ (literal ++ r)) ≡ values x ++ (literal ++ search r)
    kept =
        replace_free (name_of t ++ 64 ∷ []) (values t) (values x) (literal ++ r) (free x)
        ∙ ap (λ s. values x ++ s) passed

    go :
        (old same : Bool)
        → same_token t x ≡ same
        → search ((if old then values x else text_of x) ++ (literal ++ r))
          ≡ (if same || old then values x else text_of x) ++ (literal ++ search r)
    go true true e = kept
    go true false e = kept
    go false true e =
        subst
          (λ (y : Token). search (text_of y ++ (literal ++ r)) ≡ values y ++ (literal ++ search r))
          (same_token-eq t x e)
          (replace_hit 64 (name_of t ++ 64 ∷ []) (values t) (literal ++ r)
            ∙ ap (λ s. values t ++ s) passed)
    go false false e = replace_other t x (values t) literal r e plain

-- One round of the loop replaces one token in every slot.
replace_slots :
    (values : Token → List ℕ) (free : (x : Token) → is_free (values x) ≡ true) (done : List Token)
    (t : Token) (slots : Slots)
    → All (λ slot. IsPlain slot.1) slots
    → replace (text_of t) (values t) (fill (text_after values done) slots)
      ≡ fill (text_after values (t ∷ done)) slots
unfolding fill replace_from
replace_slots values free done t [] plain = refl
replace_slots values free done t ((x, literal) ∷ slots) (first, plain) =
    replace_slot values free done t x literal (fill (text_after values done) slots) first
    ∙ ap (λ s. text_after values (t ∷ done) x ++ (literal ++ s))
        (replace_slots values free done t slots plain)

abbrev after : List Token → List Token → List Token
after [] done = done
after (t ∷ ts) done = after ts (t ∷ done)

-- The whole loop, one token after the other.
replace_all_slots :
    (c : Config) (uid : ℤ) (free : (x : Token) → is_free (value_of c uid x) ≡ true)
    (ts done : List Token) (literal : List ℕ) (slots : Slots)
    → is_free literal ≡ true
    → All (λ slot. IsPlain slot.1) slots
    → replace_all c uid ts (literal ++ fill (text_after (value_of c uid) done) slots)
      ≡ literal ++ fill (text_after (value_of c uid) (after ts done)) slots
unfolding replace_all
replace_all_slots c uid free [] done literal slots first plain = refl
replace_all_slots c uid free (t ∷ ts) done literal slots first plain =
    let values = value_of c uid in
    let round =
      replace_free (name_of t ++ 64 ∷ []) (values t) literal (fill (text_after values done) slots)
        first
      ∙ ap (λ s. literal ++ s) (replace_slots values free done t slots plain) in
    ap (replace_all c uid ts) round
    ∙ replace_all_slots c uid free ts (t ∷ done) literal slots first plain

fill-ap :
    (f g : Token → List ℕ) (slots : Slots) → ((t : Token) → f t ≡ g t) → fill f slots ≡ fill g slots
unfolding fill
fill-ap f g [] same = refl
fill-ap f g ((t, literal) ∷ slots) same =
    ap₂ ◌++◌ (same t) (ap (λ s. literal ++ s) (fill-ap f g slots same))

all_replaced :
    (values : Token → List ℕ) (t : Token) → text_after values (after tokens []) t ≡ values t
all_replaced values uplink_if = refl
all_replaced values client_if = refl
all_replaced values trans_port = refl
all_replaced values dns_port = refl
all_replaced values tor_uid_ = refl

fill-is_free :
    (values : Token → List ℕ) (free : (x : Token) → is_free (values x) ≡ true) (slots : Slots)
    → All (λ slot. IsPlain slot.1) slots
    → is_free (fill values slots) ≡ true
unfolding fill
fill-is_free values free [] plain = refl
fill-is_free values free ((t, literal) ∷ slots) (first, plain) =
    is_free-append (values t) (literal ++ fill values slots) (free t)
      (is_free-append literal (fill values slots) first.0 (fill-is_free values free slots plain))

iface-is_free : (s : List ℕ) → is_iface s ≡ true → is_free s ≡ true
iface-is_free s h = free_where is_iface_char (λ c k. ground arith) s (ground arith)

port-is_free : (z : ℤ) → IsPort z → is_free (show_int z) ≡ true
unfolding show_int
port-is_free z (n, e, low, high) =
    subst (λ z. is_free (show_int z) ≡ true) (sym e)
      (free_where _ (λ c k. ground arith) (decimal n) (decimal-digits n))

value-is_free :
    (c : Config) (n : ℕ) → IsSound c → (t : Token) → is_free (value_of c (pos n) t) ≡ true
unfolding show_int value_of
value-is_free c n sound uplink_if = iface-is_free c.uplink_if sound.uplink
value-is_free c n sound client_if = iface-is_free c.client_if sound.client
value-is_free c n sound trans_port = port-is_free c.trans_port sound.trans
value-is_free c n sound dns_port = port-is_free c.dns_port sound.dns
value-is_free c n sound tor_uid_ = free_where _ (λ c k. ground arith) (decimal n) (decimal-digits n)

none_left : (s : List ℕ) → is_free s ≡ true → any (λ t. occurs (text_of t) s) tokens ≡ false
none_left s free =
    let none = λ (t : Token). occurs-free (name_of t ++ 64 ∷ []) s free in
    ground (arith, none uplink_if, none client_if, none trans_port, none dns_port, none tor_uid_)

passes : {B : Type 0} (m : Done) (k : Result B) → m ≡ ok tt → (m >> k) ≡ k
passes (ok tt) k h = refl
passes (err e) k h = absurd (cc)

-- A template is a first literal, and tokens each followed by a literal; the literals have no `@`, and
-- each behind a token has a character that no token has. With a valid configuration and a uid that is
-- not negative, `render` returns such a template with every token replaced at once: the replacements
-- one after the other never touch what an earlier one put in, and no token is left over.
pub render-fill :
    (c : Config) (n : ℕ) (literal : List ℕ) (slots : Slots)
    → validate c ≡ ok tt
    → is_free literal ≡ true
    → All (λ slot. IsPlain slot.1) slots
    → render (literal ++ fill text_of slots) c (pos n)
      ≡ ok (literal ++ fill (value_of c (pos n)) slots)
unfolding render
render-fill c n literal slots valid first plain =
    let free = value-is_free c n (validate-IsSound c valid) in
    let values = value_of c (pos n) in
    let out = replace_all c (pos n) tokens (literal ++ fill text_of slots) in
    let filled : out ≡ literal ++ fill values slots =
      replace_all_slots c (pos n) free tokens [] literal slots first plain
      ∙ ap (λ s. literal ++ s) (fill-ap _ values slots (all_replaced values)) in
    let clean =
      is_free-append literal (fill values slots) first (fill-is_free values free slots plain) in
    let natural : ltb_ℤ (pos n) (pos 0) ≡ false = ground arith in
    passes (validate c) _ valid
    ∙ passes (refuse_if (ltb_ℤ (pos n) (pos 0)) firewall_error) _
        (ap (λ b. refuse_if b firewall_error) natural)
    ∙ passes (refuse_if (any (λ t. occurs (text_of t) out) tokens) firewall_error) (ok out) (
        ap (λ b. refuse_if b firewall_error)
          (ap (λ s. any (λ t. occurs (text_of t) s) tokens) filled
            ∙ none_left (literal ++ fill values slots) clean))
    ∙ ap ok filled
