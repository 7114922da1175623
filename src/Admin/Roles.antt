-- ===== src/Admin/Roles.antt =====
-- Who gets which role from a refresh token, and how often.
use image2prompt.Base.{
  ℕ, ◌≡◌, refl, String, true, false, none, List, [], ◌∷◌, any-append, ◌==◌, eq_refl, arith,
  Option-cases, inl, inr, Session, succeeded,
}
use image2prompt.Customer.{RevokedToken}
use image2prompt.Admin.{AdminDb, Claims, Fresh, is_revoked, revoke, get_by_email, record_audit}
use image2prompt.Admin.Auth.{Env, refresh_claimed, refresh, login, login_admin, logout}

-- the requests of the sign-in of administrators
pub data Op : Type 0 where
  login_op : Fresh → (email password : String) → Op
  refresh_op : Fresh → (token : String) → Op
  logout_op : (token : String) → Op

module _ (env : Env) where
  open env use {jwt}

  unfoldable pub step : ℕ → Op → Session AdminDb → Session AdminDb
  step now (login_op fresh email password) s = (login env now fresh email password s).1
  step now (refresh_op fresh token) s = (refresh env now fresh token s).1
  step now (logout_op token) s = logout env now token s

  -- after the requests, the latest at the head
  unfoldable pub after : List (ℕ × Op) → Session AdminDb → Session AdminDb
  after [] s = s
  after ((now, op) ∷ ops) s = step now op (after ops s)

  is_revoked-revoke :
      (j k reason : String) (exp : ℕ) (d : AdminDb)
      → is_revoked j d ≡ true
      → is_revoked j (revoke k exp reason d) ≡ true
  unfolding is_revoked revoke
  is_revoked-revoke j k reason exp d h = ground (
    arith,
    any-append (λ (r : RevokedToken). r.jti == j) d.revoked
        (record { jti = k; expires_at = exp; reason = reason; family_id = none } ∷ []),
  )

  step-is_revoked :
      (now : ℕ) (op : Op) (j : String) (s : Session AdminDb)
      → is_revoked j s.working ≡ true
      → is_revoked j (step now op s).working ≡ true
  unfolding step login login_admin refresh refresh_claimed logout record_audit
  step-is_revoked now (login_op fresh email password) j s h =
      elim (Option-cases (get_by_email email s.working)) [
        | inl e ↦ rw (e, step, login) (unfold is_revoked in h)
        | inr (a, e) ↦ rw (e, step, login) (unfold is_revoked in ground (arith, h))
      ]
  step-is_revoked now (refresh_op fresh token) j s h = elim (Option-cases (jwt.decode now token)) [
    | inl e ↦ rw (e, step, refresh) h
    | inr (c, e) ↦
        rw (e, step, refresh)
          (ground (arith, h, is_revoked-revoke j c.jti "rotated" c.exp s.working h))
  ]
  step-is_revoked now (logout_op token) j s h = elim (Option-cases (jwt.decode now token)) [
    | inl e ↦ rw (e, step, logout) h
    | inr (c, e) ↦ rw (e, step, logout) (is_revoked-revoke j c.jti "logout" c.exp s.working h)
  ]

  after-is_revoked :
      (ops : List (ℕ × Op)) (j : String) (s : Session AdminDb)
      → is_revoked j s.working ≡ true
      → is_revoked j (after ops s).working ≡ true
  unfolding after
  after-is_revoked [] j s h = h
  after-is_revoked ((now, op) ∷ ops) j s h =
      step-is_revoked now op j (after ops s) (after-is_revoked ops j s h)

  revoke-is_revoked :
      (j reason : String) (exp : ℕ) (d : AdminDb) → is_revoked j (revoke j exp reason d) ≡ true
  unfolding is_revoked revoke
  revoke-is_revoked j reason exp d = ground (
    arith,
    eq_refl j,
    any-append (λ (r : RevokedToken). r.jti == j) d.revoked
        (record { jti = j; expires_at = exp; reason = reason; family_id = none } ∷ []),
  )

  claimed-revokes :
      (now : ℕ) (fresh : Fresh) (c : Claims) (s : Session AdminDb)
      → succeeded (refresh_claimed env now fresh c s).0 ≡ true
      → is_revoked c.jti (refresh_claimed env now fresh c s).1.working ≡ true
  unfolding refresh_claimed
  claimed-revokes now fresh c s h =
      ground (arith, revoke-is_revoked c.jti "rotated" c.exp s.working)

  claimed-refused :
      (now : ℕ) (fresh : Fresh) (c : Claims) (s : Session AdminDb)
      → is_revoked c.jti s.working ≡ true
      → succeeded (refresh_claimed env now fresh c s).0 ≡ false
  unfolding refresh_claimed
  claimed-refused now fresh c s h = ground arith

  -- An administrator's refresh token that was accepted once is never accepted again, whatever
  -- sign-ins, refreshes and sign-outs run in between.
  pub admin_refresh_once :
      (now later : ℕ) (fresh fresh' : Fresh) (token : String) (ops : List (ℕ × Op))
      (s : Session AdminDb)
      → succeeded (refresh env now fresh token s).0 ≡ true
      → succeeded (refresh env later fresh' token (after ops (refresh env now fresh token s).1)).0
        ≡ false
  unfolding refresh
  admin_refresh_once now later fresh fresh' token ops s ok =
      let t : Session AdminDb = after ops (refresh env now fresh token s).1 in
      elim (Option-cases (jwt.decode now token)) [
        | inl bad ↦ absurd (ground (arith, bad))
        | inr (c, e) ↦
            let used : is_revoked c.jti (refresh env now fresh token s).1.working ≡ true =
              rw (e, refresh) (claimed-revokes now fresh c s (ground (arith, e))) in
            let gone = after-is_revoked ops c.jti (refresh env now fresh token s).1 used in
            elim (Option-cases (jwt.decode later token)) [
              | inl expired ↦ rw (expired, refresh) refl
              | inr (d, e') ↦
                  rw (e', refresh)
                    (claimed-refused later fresh' d t
                      (ground (arith, gone, jwt.decode_stable now later token c d e e')))
            ]
      ]
