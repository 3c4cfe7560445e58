-- ===== src/Appliance/Cli/Applied.antt =====
-- What `cmd_apply` of src/amnesic_pi/cli.py leaves behind.
use amnesic_pi.Prelude.{
  ℕ, zero, suc, ◌≡◌, ◌≢◌, refl, sym, ap, ◌∙◌, ◌⊎◌, inl, inr, Bool, true, false, Option, none, some,
  List, if◌then◌else◌, arith,
}
use amnesic_pi.Prelude.Int.{ℤ, pos, negsuc}
use amnesic_pi.Errors.{
  Exn, Result, Done, ok, err, or_raise, firewall_error, type_error, ok-injective, bind_then,
}
use amnesic_pi.Appliance.Config.{Config, same_ℤ, load_env}
use amnesic_pi.Appliance.Firewall.{render, tor_uid}
use amnesic_pi.Appliance.Cli.{
  Nft, IsTransactional, Inputs, Host, may_apply, is_render_error, rendered_for, transaction,
  or_exit, after_check, after_create, after_list, after_render, after_load, cmd_apply,
}

zero_cases : (out : Result ℤ) → (out ≡ ok (pos 0)) ⊎ (out ≢ ok (pos 0))
zero_cases (err e) = inr λ h. absurd (cc)
zero_cases (ok (pos zero)) = inl refl
zero_cases (ok (pos (suc n))) = inr λ h. let e : suc n ≡ 0 = cc in absurd (ground arith)
zero_cases (ok (negsuc n)) = inr λ h. absurd (cc)

same_zero : (z : ℤ) → same_ℤ z (pos 0) ≡ true → z ≡ pos 0
same_zero (pos n) h = ap pos (ground arith)
same_zero (negsuc n) h = absurd (ground arith)

other_zero : (z : ℤ) → same_ℤ z (pos 0) ≡ false → z ≢ pos 0
other_zero (pos n) h e = let same : n ≡ 0 = cc in absurd (ground arith)
other_zero (negsuc n) h e = absurd (cc)

two : 2 ≢ zero
two h = absurd (ground arith)

uid_found :
    (i : Inputs) (c : Config) (uid : ℤ)
    → tor_uid i.passwd c ≡ ok uid
    → i.passwd c.tor_user ≡ some uid
uid_found i c uid h = go (i.passwd c.tor_user) h
  where
    go : (o : Option ℤ) → or_raise o firewall_error ≡ ok uid → o ≡ some uid
    go none h = absurd (cc)
    go (some z) h = ap some (ok-injective h)

-- Where a rendered policy came from.
rendered_from :
    (i : Inputs) (c : Config) (rendered : List ℕ)
    → rendered_for i c ≡ ok rendered
    → (uid : ℤ) × (template : List ℕ) × (i.passwd c.tor_user ≡ some uid)
      × (i.template ≡ ok template)
      × (render template c uid ≡ ok rendered)
rendered_from i c rendered h = bind_then (tor_uid i.passwd c) _ h λ uid e h1.
    bind_then i.template _ h1 λ template read made. (uid, template, uid_found i c uid e, read, made)

module _ {R : Type 0} (nft : Nft R) where
  -- A text went through `nft -c` and then, with success, through `nft -f`.
  pub record IsRun (text : List ℕ) (rules rules' : R) : Type 0 where
    pub checked : nft.check text rules ≡ ok (pos 0)
    pub ran : nft.run text rules ≡ (ok (pos 0), rules')

  -- The two ways in which it ends.
  abbrev pub Ends : (P : Type 0) → Result ℤ → R → R → Type 0
  Ends P out rules rules' = ((out ≡ ok (pos 0)) × P) ⊎ ((out ≢ ok (pos 0)) × (rules' ≡ rules))

  -- What was sent to `nft`, and where it came from.
  pub record IsApplied (i : Inputs) (host host' : Host R) : Type 0 where
    pub c : Config
    pub uid : ℤ
    pub template : List ℕ
    pub rendered : List ℕ
    pub code : ℤ
    pub allowed : may_apply i.euid ≡ true
    pub loaded : load_env i.config ≡ ok c
    pub found : i.passwd c.tor_user ≡ some uid
    pub read : i.template ≡ ok template
    pub made : render template c uid ≡ ok rendered
    pub listed : nft.list_table host.rules ≡ ok code
    pub run : IsRun (transaction (same_ℤ code (pos 0)) rendered) host.rules host'.rules

  module _ (transactional : IsTransactional nft) where
    run_ends :
        (text : List ℕ) (rules rules' : R) (out : Result ℤ)
        → nft.check text rules ≡ ok (pos 0)
        → nft.run text rules ≡ (out, rules')
        → Ends (IsRun text rules rules') out rules rules'
    run_ends text rules rules' out checked ran = elim (zero_cases out) [
      | inl success ↦
          inl (success, record { checked = checked; ran = ran ∙ ap (λ o. (o, rules')) success })
      | inr failure ↦ inr (
        failure,
        sym (ap (λ x. x.1) ran)
            ∙ transactional text rules λ e. failure (sym (ap (λ x. x.0) ran) ∙ e),
      )
    ]

    code_ends :
        (text : List ℕ) (rules rules' : R) (out : Result ℤ) (code : ℤ) (passed : Bool)
        → nft.check text rules ≡ ok code
        → same_ℤ code (pos 0) ≡ passed
        → (if passed then nft.run text rules else (ok code, rules)) ≡ (out, rules')
        → Ends (IsRun text rules rules') out rules rules'
    code_ends text rules rules' out code true answered e h =
        run_ends text rules rules' out (answered ∙ ap ok (same_zero code e)) h
    code_ends text rules rules' out code false answered e h = inr (
      λ z. other_zero code e (ok-injective (ap (λ (x : Result ℤ × R). x.0) h ∙ z)),
      sym (ap (λ x. x.1) h),
    )

    check_ends :
        (text : List ℕ) (rules rules' : R) (out answer : Result ℤ)
        → nft.check text rules ≡ answer
        → after_check nft text rules answer ≡ (out, rules')
        → Ends (IsRun text rules rules') out rules rules'
    check_ends text rules rules' out (err e) answered h =
        inr (λ z. absurd (cc), sym (ap (λ x. x.1) h))
    check_ends text rules rules' out (ok code) answered h =
        code_ends text rules rules' out code (same_ℤ code (pos 0)) answered refl h

    -- Before the candidate runs, nothing has changed the rules.
    stopped :
        {P : Type 0} (answer out : Result ℤ) (rules rules' : R)
        → answer ≢ ok (pos 0)
        → ◌≡◌ {A = Result ℤ × R} (answer, rules) (out, rules')
        → Ends P out rules rules'
    stopped answer out rules rules' differs h =
        inr (λ z. differs (ap (λ (x : Result ℤ × R). x.0) h ∙ z), sym (ap (λ x. x.1) h))

    abbrev of_host : Result ℤ × Host R → Result ℤ × R
    of_host x = (x.0, x.1.rules)

    create_ends :
        (i : Inputs) (text : List ℕ) (host host' : Host R) (out : Result ℤ) (created written : Done)
        → after_create nft (record i { written = written }) text host created ≡ (out, host')
        → Ends (IsRun text host.rules host'.rules) out host.rules host'.rules
    create_ends i text host host' out (err e) written h =
        stopped (err e) out host.rules host'.rules (λ z. absurd (cc)) (ap of_host h)
    create_ends i text host host' out (ok made) (err e) h =
        stopped (err e) out host.rules host'.rules (λ z. absurd (cc)) (ap of_host h)
    create_ends i text host host' out (ok made) (ok done) h =
        check_ends text host.rules host'.rules out (nft.check text host.rules) refl (ap of_host h)

    refusal : (b : Bool) (e : Exn) → (if b then ok (pos 2) else err e) ≢ ok (pos 0)
    refusal true e h = absurd (two (cc))
    refusal false e h = absurd (cc)

    list_ends :
        (i : Inputs) (host host' : Host R) (out : Result ℤ) (rendered : List ℕ) (listed : Result ℤ)
        → after_list nft i host rendered listed ≡ (out, host')
        → Ends
            ((code : ℤ) × (listed ≡ ok code)
              × IsRun (transaction (same_ℤ code (pos 0)) rendered) host.rules host'.rules)
            out
            host.rules
            host'.rules
    list_ends i host host' out rendered (err e) h =
        stopped (err e) out host.rules host'.rules (λ z. absurd (cc)) (ap of_host h)
    list_ends i host host' out rendered (ok code) h =
        elim (create_ends i (transaction (same_ℤ code (pos 0)) rendered) host host' out i.created
          i.written h) [
            | inl (success, ran) ↦ inl (success, (code, refl, ran))
            | inr failed ↦ inr failed
          ]

    render_ends :
        (i : Inputs) (host host' : Host R) (out : Result ℤ) (c : Config) (answer : Result (List ℕ))
        → may_apply i.euid ≡ true
        → load_env i.config ≡ ok c
        → rendered_for i c ≡ answer
        → after_render nft i host answer ≡ (out, host')
        → Ends (IsApplied i host host') out host.rules host'.rules
    render_ends i host host' out c (err e) may found_c made h =
        stopped (if is_render_error e then ok (pos 2) else err e) out host.rules host'.rules
          (refusal (is_render_error e) e) (ap of_host h)
    render_ends i host host' out c (ok rendered) may found_c made h =
        let (uid, template, found, read, rendering) = rendered_from i c rendered made in
        elim (list_ends i host host' out rendered (nft.list_table host.rules) h) [
          | inl (success, (code, listed, ran)) ↦ inl (
            success,
            record {
              c = c;
              uid = uid;
              template = template;
              rendered = rendered;
              code = code;
              allowed = may;
              loaded = found_c;
              found = found;
              read = read;
              made = rendering;
              listed = listed;
              run = ran;
            },
          )
          | inr failed ↦ inr failed
        ]

    load_ends :
        (i : Inputs) (host host' : Host R) (out : Result ℤ) (may : Bool) (file : Result Config)
        → may_apply i.euid ≡ may
        → load_env i.config ≡ file
        → (if may then after_load nft i host (or_exit file) else (ok (pos 2), host)) ≡ (out, host')
        → Ends (IsApplied i host host') out host.rules host'.rules
    load_ends i host host' out false file m l h =
        stopped (ok (pos 2)) out host.rules host'.rules (refusal true type_error) (ap of_host h)
    load_ends i host host' out true (err e) m l h =
        stopped (err _) out host.rules host'.rules (λ z. absurd (cc)) (ap of_host h)
    load_ends i host host' out true (ok c) m l h =
        render_ends i host host' out c (rendered_for i c) m l refl h

-- `apply-firewall` returns 0 only if it ran as root, loaded a valid configuration, found the user that
-- Tor runs as, rendered the template for them, and sent `nft` exactly the rendered text, behind a
-- command that deletes the table if the table was there; `nft -c` accepted that text before `nft -f`
-- ran it. In every other case, whatever fails, the rules in force are what they were. (A batch of
-- `nft -f` that fails leaves the rules alone.)
pub cmd_apply-IsApplied :
    {R : Type 0} (nft : Nft R)
    → IsTransactional nft
    → (i : Inputs) (host host' : Host R) (out : Result ℤ) → cmd_apply nft i host ≡ (out, host')
    → ((out ≡ ok (pos 0)) × IsApplied nft i host host')
      ⊎ ((out ≢ ok (pos 0)) × (host'.rules ≡ host.rules))
unfolding cmd_apply
cmd_apply-IsApplied nft transactional i host host' out h =
    load_ends nft transactional i host host' out (may_apply i.euid) (load_env i.config) refl refl h
