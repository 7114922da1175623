-- ===== src/Customer/Auth/Refresh.antt =====
-- services/customer-service/app/facades/auth_facade.py: `refresh` and `logout`, which keep the chain
-- of refresh tokens of a sign-in revocable.
use image2prompt.Base.{
  ℕ, String, not, ◌&&◌, Option, none, some, ◌==◌, get_or, if◌then◌else◌, Session, write, commit,
  Resp, failure,
}
use image2prompt.Customer.{Customer, AuditLog, AuthDb}
use image2prompt.Customer.Daos.{
  get_by_id, is_revoked, revoke, is_family_revoked, revoke_family, record_audit,
}
use image2prompt.Customer.Tokens.{Claims, Fresh}
use image2prompt.Customer.Auth.{Env, Auth, signed_in, family_of, revocation}

abbrev reuse_event : ℕ → Claims → AuditLog
reuse_event now c = record {
  actor_id = c.sub;
  actor_email = c.email;
  action = "customer.token_reuse_detected";
  target = none;
  created_at = now;
}

abbrev pub unauthorized {ℓ} : {A : Type ℓ} → String → Resp A
unauthorized = failure "unauthorized"

-- the branch of a revoked token: the whole family is burned
unfoldable pub reuse : ℕ → Claims → Session AuthDb → Session AuthDb
reuse now c s =
    if c.fid == ""
    then s
    else commit
        (write (λ d. record_audit (reuse_event now c) (revoke_family c.fid c.exp "reuse" d)) s)

module _ (env : Env) (now : ℕ) where
  open env use {jwt}

  -- the rotation: the presented token is revoked, and a pair of its family is issued
  unfoldable pub rotate :
      Fresh → Claims → Option Customer → Session AuthDb → Resp Auth × Session AuthDb
  rotate fresh c none s = (unauthorized "Unknown customer", s)
  rotate fresh c (some customer) s = (
    signed_in env now fresh customer (family_of c),
    commit (write (revoke (revocation c "rotated" (family_of c))) s),
  )

  unfoldable pub refresh_claimed : Fresh → Claims → Session AuthDb → Resp Auth × Session AuthDb
  refresh_claimed fresh c s =
      if not (c.typ == "refresh")
      then (unauthorized "Not a refresh token", s)
      else if not (c.fid == "") && is_family_revoked c.fid s.working
      then (unauthorized "Refresh token revoked", s)
      else if is_revoked c.jti s.working
      then (unauthorized "Refresh token revoked", reuse now c s)
      else rotate fresh c (get_by_id (get_or c.sub "") s.working) s

  unfoldable pub refresh : Fresh → String → Session AuthDb → Resp Auth × Session AuthDb
  refresh fresh token s = elim (jwt.decode now token) [
    | none ↦ (unauthorized "Invalid refresh token", s)
    | some c ↦ refresh_claimed fresh c s
  ]

  -- a decoded token of any type is revoked, and its family with it
  unfoldable pub logout_claimed : Claims → Session AuthDb → Session AuthDb
  logout_claimed c s = commit (
      write
        (λ d.
          let d' = revoke (revocation c "logout" (family_of c)) d in
          if c.fid == "" then d' else revoke_family c.fid c.exp "logout" d')
        s)

  unfoldable pub logout : String → Session AuthDb → Session AuthDb
  logout token s = elim (jwt.decode now token) [ none ↦ s | some c ↦ logout_claimed c s ]
