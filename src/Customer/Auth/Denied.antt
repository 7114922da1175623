-- ===== src/Customer/Auth/Denied.antt =====
-- A revoked token stays refused: what the denylist keeps through every operation.
use image2prompt.Base.{
  ℕ, ◌≤◌, ◌<◌, ◌≡◌, refl, String, Bool, true, ◌&&◌, ◌⊎◌, inl, inr, Option, none, some, List, [],
  ◌∷◌, any, keep_if, nat_eq, ◌==◌, arith, any-append, Session, Bool-cases, Option-cases, ltb,
  get_or,
}
use image2prompt.Customer.{Customer, RevokedToken, AuthDb}
use image2prompt.Customer.Daos.{
  revoke, revoke_family, record_audit, create_customer, get_or_create_preference, prune_expired,
  get_by_id,
}
use image2prompt.Customer.Tokens.{Claims, Fresh}
use image2prompt.Customer.Auth.{Env, signup, login, login_account}
use image2prompt.Customer.Auth.Refresh.{
  reuse, rotate, refresh_claimed, refresh, logout_claimed, logout,
}
use image2prompt.Customer.Auth.Links.{use_up, consume_token, reset_password, verify_email}
use image2prompt.Customer.Auth.History.{Op, step, after, IsForward}

module _ (p : RevokedToken → Bool) where
  -- some row of the denylist passes the test
  abbrev pub Has : AuthDb → Type 0
  Has d = any p d.revoked ≡ true

  revoke-Has : (row : RevokedToken) (d : AuthDb) → Has d → Has (revoke row d)
  unfolding revoke
  revoke-Has row d h = ground (arith, any-append p d.revoked (row ∷ []))

  revoke_family-Has :
      (fid : String) (exp : ℕ) (reason : String) (d : AuthDb)
      → Has d
      → Has (revoke_family fid exp reason d)
  unfolding revoke_family
  revoke_family-Has fid exp reason d h = revoke-Has _ d h

  reuse-Has :
      (now : ℕ) (c : Claims) (s : Session AuthDb) → Has s.working → Has (reuse now c s).working
  unfolding reuse record_audit
  reuse-Has now c s h = ground (arith, revoke_family-Has c.fid c.exp "reuse" s.working)

  module _ (env : Env) (now : ℕ) where
    signup-Has :
        (fresh : Fresh) (id salt email : String) (pw : List ℕ) (name : Option String)
        (s : Session AuthDb)
        → Has s.working
        → Has (signup env now fresh id salt email pw name s).1.working
    unfolding signup record_audit get_or_create_preference create_customer
    signup-Has fresh id salt email pw name s h = ground arith

    login_account-Has :
        (fresh : Fresh) (email : String) (pw : List ℕ) (c : Customer) (s : Session AuthDb)
        → Has s.working
        → Has (login_account env now fresh email pw c s).1.working
    unfolding login_account record_audit
    login_account-Has fresh email pw c s h = ground arith

    login-Has :
        (fresh : Fresh) (email : String) (pw : List ℕ) (s : Session AuthDb)
        → Has s.working
        → Has (login env now fresh email pw s).1.working
    unfolding login record_audit
    login-Has fresh email pw s h = grind (arith, login_account-Has)

    rotate-Has :
        (fresh : Fresh) (c : Claims) (o : Option Customer) (s : Session AuthDb)
        → Has s.working
        → Has (rotate env now fresh c o s).1.working
    unfolding rotate
    rotate-Has fresh c none s h = h
    rotate-Has fresh c (some customer) s h = revoke-Has _ s.working h

    refresh_claimed-Has :
        (fresh : Fresh) (c : Claims) (s : Session AuthDb)
        → Has s.working
        → Has (refresh_claimed env now fresh c s).1.working
    unfolding refresh_claimed
    refresh_claimed-Has fresh c s h =
        ground
          (arith, reuse-Has now c s, rotate-Has fresh c (get_by_id (get_or c.sub "") s.working) s)

    refresh-Has :
        (fresh : Fresh) (token : String) (s : Session AuthDb)
        → Has s.working
        → Has (refresh env now fresh token s).1.working
    unfolding refresh
    refresh-Has fresh token s h = grind (arith, refresh_claimed-Has)

    logout-Has :
        (token : String) (s : Session AuthDb) → Has s.working → Has (logout env now token s).working
    unfolding logout logout_claimed
    logout-Has token s h = grind (arith, revoke-Has, revoke_family-Has)

    use_up-Has :
        (reason action done : String) (change : String → AuthDb → AuthDb) (c : Claims)
        (o : Option Customer) (s : Session AuthDb)
        → ((id : String) → (change id s.working).revoked ≡ s.working.revoked)
        → Has s.working
        → Has (use_up env now reason action done change c o s).1.working
    unfolding use_up record_audit
    use_up-Has reason action done change c none s same h = h
    use_up-Has reason action done change c (some customer) s same h =
        revoke-Has _ (change customer.id s.working) (ground (arith, same customer.id))

    reset_password-Has :
        (token : String) (pw : List ℕ) (salt : String) (s : Session AuthDb)
        → Has s.working
        → Has (reset_password env now token pw salt s).1.working
    unfolding reset_password
    reset_password-Has token pw salt s h =
        elim (Option-cases (consume_token env now "pwd_reset" token s.working)) [
          | inl e ↦ rw (e, reset_password) h
          | inr (c, e) ↦
              rw (e, reset_password)
                (use_up-Has _ _ _ _ c (get_by_id (get_or c.sub "") s.working) s (λ _. refl) h)
        ]

    verify_email-Has :
        (token : String) (s : Session AuthDb)
        → Has s.working
        → Has (verify_email env now token s).1.working
    unfolding verify_email
    verify_email-Has token s h =
        elim (Option-cases (consume_token env now "email_verify" token s.working)) [
          | inl e ↦ rw (e, verify_email) h
          | inr (c, e) ↦
              rw (e, verify_email)
                (use_up-Has _ _ _ _ c (get_by_id (get_or c.sub "") s.working) s (λ _. refl) h)
        ]

any-keep_if :
    (p q : RevokedToken → Bool) (rs : List RevokedToken)
    → ((r : RevokedToken) → p r ≡ true → q r ≡ true)
    → any p rs ≡ true
    → any p (keep_if q rs) ≡ true
any-keep_if p q [] f h = h
any-keep_if p q (r ∷ rs) f h = ground (arith, f r, any-keep_if p q rs f)

-- a row for the jti that stands until the expiry
abbrev pub is_denial : String → ℕ → RevokedToken → Bool
is_denial jti exp r = r.jti == jti && nat_eq r.expires_at exp

-- At a time, the jti is on the denylist with that expiry, or the expiry is past.
abbrev pub IsDenied : String → ℕ → ℕ → AuthDb → Type 0
IsDenied jti exp now d = Has (is_denial jti exp) d ⊎ (exp < now)

module _ (jti : String) (exp : ℕ) (env : Env) where
  prune-IsDenied :
      (now : ℕ) (s : Session AuthDb)
      → Has (is_denial jti exp) s.working
      → IsDenied jti exp now (prune_expired now s).1.working
  unfolding prune_expired
  prune-IsDenied now s h = elim (Bool-cases (ltb exp now)) [
    | inl past ↦ inr (ground arith)
    | inr ahead ↦ inl (any-keep_if (is_denial jti exp) _ s.working.revoked (λ r e. ground arith) h)
  ]

  step-IsDenied :
      (now : ℕ) (op : Op) (s : Session AuthDb)
      → Has (is_denial jti exp) s.working
      → IsDenied jti exp now (step env now op s).working
  unfolding step record_audit
  step-IsDenied now (Op.signup fresh id salt email pw name) s h =
      inl (signup-Has (is_denial jti exp) env now fresh id salt email pw name s h)
  step-IsDenied now (Op.login fresh email pw) s h =
      inl (login-Has (is_denial jti exp) env now fresh email pw s h)
  step-IsDenied now (Op.refresh fresh token) s h =
      inl (refresh-Has (is_denial jti exp) env now fresh token s h)
  step-IsDenied now (Op.logout token) s h = inl (logout-Has (is_denial jti exp) env now token s h)
  step-IsDenied now (Op.reset_password token pw salt) s h =
      inl (reset_password-Has (is_denial jti exp) env now token pw salt s h)
  step-IsDenied now (Op.verify_email token) s h =
      inl (verify_email-Has (is_denial jti exp) env now token s h)
  step-IsDenied now Op.prune s h = prune-IsDenied now s h
  step-IsDenied now (Op.audited row) s h = inl h

  IsForward-le : (start : ℕ) (ops : List (ℕ × Op)) (end : ℕ) → IsForward start ops end → start ≤ end
  IsForward-le start [] end f = f
  IsForward-le start ((now, op) ∷ ops) end (le, f) = omega (arith, IsForward-le start ops now f)

  -- What is denied stays denied through every history, pruning included, as the clock goes on.
  pub after-IsDenied :
      (start : ℕ) (ops : List (ℕ × Op)) (end : ℕ) (s : Session AuthDb)
      → IsForward start ops end
      → IsDenied jti exp start s.working
      → IsDenied jti exp end (after env ops s).working
  unfolding after
  after-IsDenied start [] end s f (inl h) = inl h
  after-IsDenied start [] end s f (inr past) = inr (omega arith)
  after-IsDenied start ((now, op) ∷ ops) end s (le, f) h =
      elim (after-IsDenied start ops now s f h) [
        | inr past ↦ inr (omega arith)
        | inl here ↦ elim (step-IsDenied now op (after env ops s) here) [
          | inl there ↦ inl there
          | inr past ↦ inr (omega arith)
        ]
      ]
