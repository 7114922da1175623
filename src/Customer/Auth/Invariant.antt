-- ===== src/Customer/Auth/Invariant.antt =====
-- What every operation of the sign-in flows keeps: each request ends committed, and no two accounts
-- share an address.
use image2prompt.Base.{
  ℕ, ◌≤◌, ◌≡◌, refl, inl, inr, String, true, false, Option, none, some, List, [], ◌∷◌, count_if,
  count_if-append, find?, update_if, ◌==◌, eq_iff, arith, Session, IsClean, Option-cases, get_or,
}
use image2prompt.Customer.{Customer, RevokedToken, AuthDb}
use image2prompt.Customer.Daos.{
  get_by_email, get_by_id, create_customer, get_or_create_preference, revoke, revoke_family,
  record_audit, prune_expired,
}
use image2prompt.Customer.Tokens.{Claims, Fresh, hash_password}
use image2prompt.Customer.Auth.{Env, signup, login, login_account}
use image2prompt.Customer.Auth.Refresh.{
  reuse, rotate, refresh_claimed, refresh, logout_claimed, logout,
}
use image2prompt.Customer.Auth.Links.{use_up, consume_token, reset_password, verify_email}
use image2prompt.Customer.Auth.History.{Op, step, after}

abbrev pub accounts_of : String → AuthDb → ℕ
accounts_of email d = count_if (λ c. c.email == email) d.customers

pub record IsSound (s : Session AuthDb) : Type 0 where
  pub clean : IsClean s
  pub one_account : (email : String) → accounts_of email s.working ≤ 1

count_if-none :
    (email : String) (cs : List Customer)
    → find? (λ c. c.email == email) cs ≡ none
    → count_if (λ c. c.email == email) cs ≡ 0
count_if-none email [] h = refl
count_if-none email (c ∷ cs) h = ground (arith, count_if-none email cs)

count_if-update_if :
    (id email : String) (f : Customer → Customer) (cs : List Customer)
    → ((c : Customer) → (f c).email ≡ c.email)
    → count_if (λ c. c.email == email) (update_if (λ c. c.id == id) f cs)
      ≡ count_if (λ c. c.email == email) cs
count_if-update_if id email f [] same = refl
count_if-update_if id email f (c ∷ cs) same =
    ground (arith, same c, count_if-update_if id email f cs same)

customers-revoke : (row : RevokedToken) (d : AuthDb) → (revoke row d).customers ≡ d.customers
unfolding revoke
customers-revoke row d = ground arith

module _ (env : Env) (now : ℕ) where
  signup-IsSound :
      (fresh : Fresh) (id salt email : String) (pw : List ℕ) (name : Option String)
      (s : Session AuthDb)
      → IsSound s
      → IsSound (signup env now fresh id salt email pw name s).1
  unfolding signup record_audit get_or_create_preference create_customer get_by_email
  signup-IsSound fresh id salt email pw name s h =
      elim (Option-cases (get_by_email email s.working)) [
        | inr (c, taken) ↦ rw (taken, signup) h
        | inl free ↦
            rw (free, signup)
              (record {
                clean = refl;
                one_account = λ e. ground (
                  arith,
                  h.one_account e,
                  eq_iff email e,
                  count_if-none email s.working.customers free,
                  count_if-append (λ (c : Customer). c.email == e) s.working.customers
                      (record {
                        id = id;
                        email = email;
                        password_hash = hash_password env.bcrypt pw salt;
                        name = name;
                        email_verified = false;
                      }
                        ∷ []),
                );
              })
      ]

  login-IsSound :
      (fresh : Fresh) (email : String) (pw : List ℕ) (s : Session AuthDb)
      → IsSound s
      → IsSound (login env now fresh email pw s).1
  unfolding login login_account record_audit
  login-IsSound fresh email pw s h = record {
    clean = ground (arith, h.clean);
    one_account = λ e. ground (arith, h.one_account e);
  }

  rotate-IsSound :
      (fresh : Fresh) (c : Claims) (o : Option Customer) (s : Session AuthDb)
      → IsSound s
      → IsSound (rotate env now fresh c o s).1
  unfolding rotate
  rotate-IsSound fresh c none s h = h
  rotate-IsSound fresh c (some customer) s h = record {
    clean = refl;
    one_account = λ e. rw customers-revoke (h.one_account e);
  }

  reuse-IsSound : (c : Claims) (s : Session AuthDb) → IsSound s → IsSound (reuse now c s)
  unfolding reuse revoke_family record_audit
  reuse-IsSound c s h = record {
    clean = ground (arith, h.clean);
    one_account = λ e. ground (arith, h.one_account e);
  }

  refresh_claimed-IsSound :
      (fresh : Fresh) (c : Claims) (s : Session AuthDb)
      → IsSound s
      → IsSound (refresh_claimed env now fresh c s).1
  unfolding refresh_claimed
  refresh_claimed-IsSound fresh c s h =
      let rotated = rotate-IsSound fresh c (get_by_id (get_or c.sub "") s.working) s h in
      let burned = reuse-IsSound c s h in
      record {
        clean = ground (arith, h.clean, rotated.clean, burned.clean);
        one_account =
            λ e. ground (arith, h.one_account e, rotated.one_account e, burned.one_account e);
      }

  refresh-IsSound :
      (fresh : Fresh) (token : String) (s : Session AuthDb)
      → IsSound s
      → IsSound (refresh env now fresh token s).1
  unfolding refresh
  refresh-IsSound fresh token s h = elim (Option-cases (env.jwt.decode now token)) [
    | inl bad ↦ rw (bad, refresh) h
    | inr (c, e) ↦ rw (e, refresh) (refresh_claimed-IsSound fresh c s h)
  ]

  logout-IsSound :
      (token : String) (s : Session AuthDb) → IsSound s → IsSound (logout env now token s)
  unfolding logout logout_claimed revoke_family
  logout-IsSound token s h = elim (Option-cases (env.jwt.decode now token)) [
    | inl bad ↦ rw (bad, logout) h
    | inr (c, e) ↦
        rw (e, logout)
          (record { clean = refl; one_account = λ e'. ground (arith, h.one_account e') })
  ]

  use_up-IsSound :
      (reason action done : String) (change : String → AuthDb → AuthDb) (c : Claims)
      (o : Option Customer) (s : Session AuthDb)
      → ((id email : String)
          → accounts_of email (change id s.working) ≡ accounts_of email s.working)
      → IsSound s
      → IsSound (use_up env now reason action done change c o s).1
  unfolding use_up record_audit
  use_up-IsSound reason action done change c none s same h = h
  use_up-IsSound reason action done change c (some customer) s same h = record {
    clean = refl;
    one_account = λ e. rw customers-revoke (rw (same customer.id e) (h.one_account e));
  }

  reset_password-IsSound :
      (token : String) (pw : List ℕ) (salt : String) (s : Session AuthDb)
      → IsSound s
      → IsSound (reset_password env now token pw salt s).1
  unfolding reset_password
  reset_password-IsSound token pw salt s h =
      elim (Option-cases (consume_token env now "pwd_reset" token s.working)) [
        | inl bad ↦ rw (bad, reset_password) h
        | inr (c, e) ↦
            rw (e, reset_password)
              (use_up-IsSound _ _ _ _ c (get_by_id (get_or c.sub "") s.working) s
                (λ id email.
                  count_if-update_if id email
                    (λ (x : Customer). record x {
                      password_hash = hash_password env.bcrypt pw salt;
                    })
                    s.working.customers (λ _. refl))
                h)
      ]

  verify_email-IsSound :
      (token : String) (s : Session AuthDb) → IsSound s → IsSound (verify_email env now token s).1
  unfolding verify_email
  verify_email-IsSound token s h =
      elim (Option-cases (consume_token env now "email_verify" token s.working)) [
        | inl bad ↦ rw (bad, verify_email) h
        | inr (c, e) ↦
            rw (e, verify_email)
              (use_up-IsSound _ _ _ _ c (get_by_id (get_or c.sub "") s.working) s
                (λ id email.
                  count_if-update_if id email (λ (x : Customer). record x { email_verified = true })
                    s.working.customers (λ _. refl))
                h)
      ]

  step-IsSound : (op : Op) (s : Session AuthDb) → IsSound s → IsSound (step env now op s)
  unfolding step prune_expired record_audit
  step-IsSound (Op.signup fresh id salt email pw name) s h =
      signup-IsSound fresh id salt email pw name s h
  step-IsSound (Op.login fresh email pw) s h = login-IsSound fresh email pw s h
  step-IsSound (Op.refresh fresh token) s h = refresh-IsSound fresh token s h
  step-IsSound (Op.logout token) s h = logout-IsSound token s h
  step-IsSound (Op.reset_password token pw salt) s h = reset_password-IsSound token pw salt s h
  step-IsSound (Op.verify_email token) s h = verify_email-IsSound token s h
  step-IsSound Op.prune s h = record { clean = refl; one_account = h.one_account }
  step-IsSound (Op.audited row) s h = record { clean = refl; one_account = h.one_account }

-- After every history of the sign-in flows, from tables that satisfy it: nothing is left
-- uncommitted, and no two accounts have the same address.
pub after-IsSound :
    (env : Env) (ops : List (ℕ × Op)) (s : Session AuthDb) → IsSound s → IsSound (after env ops s)
unfolding after
after-IsSound env [] s h = h
after-IsSound env ((now, op) ∷ ops) s h =
    step-IsSound env now op (after env ops s) (after-IsSound env ops s h)
