-- ===== src/Admin/Auth.antt =====
-- services/admin-service/app/facades/auth_facade.py. The clock, the jti of new tokens and the password
-- check are arguments.
use image2prompt.Base.{
  ℕ, ◌-◌, ◌*◌, String, Bool, not, ◌&&◌, Option, none, some, get_or, leb, ltb, nat_eq, ◌==◌,
  if◌then◌else◌, Session, write, commit, Resp, success, failure,
}
use image2prompt.Customer.{AuditLog}
use image2prompt.Admin.{
  AdminUser, AdminDb, Claims, Jwt, Settings, Fresh, get_by_email, is_revoked, revoke, record_audit,
  count_recent, last_event_at, issue,
}

-- AdminAuthResp
pub record AdminAuth : Type 0 where
  pub access_token : String
  pub refresh_token : String
  pub email : String
  pub role : String

pub record Env : Type 0 where
  pub jwt : Jwt
  pub settings : Settings
  -- verify_password
  pub verify : (password hashed : String) → Bool

module _ (env : Env) (now : ℕ) where
  open env use {jwt, settings, verify}

  abbrev pub signed_in : Fresh → (sub email role : String) → Resp AdminAuth
  signed_in fresh sub email role =
      let (access, renewal) = issue jwt settings now fresh sub email role in
      success
        (record { access_token = access; refresh_token = renewal; email = email; role = role })

  abbrev event : String → Option String → String → AuditLog
  event action id email = record {
    actor_id = id;
    actor_email = some email;
    action = action;
    target = none;
    created_at = now;
  }

  -- the start of the window in which failures count
  unfoldable pub failures_since : String → AdminDb → ℕ
  failures_since id d =
      let floor = now - settings.login_lockout_window_minutes * 60 in
      elim (last_event_at id "admin.login.unlock" d) [
        | none ↦ floor
        | some unlocked ↦ if ltb floor unlocked then unlocked else floor
      ]

  unfoldable pub is_locked : AdminUser → AdminDb → Bool
  is_locked a d =
      not (nat_eq settings.login_lockout_threshold 0)
      && leb settings.login_lockout_threshold
          (count_recent a.id "admin.login.failure" (failures_since a.id d) d)

  -- login for an administrator who exists
  unfoldable pub login_admin :
      Fresh
      → (email password : String) → AdminUser
      → Session AdminDb
      → Resp AdminAuth × Session AdminDb
  login_admin fresh email password a s =
      if is_locked a s.working
      then (
        failure "locked"
            "Account temporarily locked after repeated failed sign-ins. Please try again later.",
        commit (write (record_audit (event "admin.login.locked" (some a.id) a.email)) s),
      )
      else if not (verify password a.password_hash)
      then (
        failure "unauthorized" "Invalid credentials",
        commit (write (record_audit (event "admin.login.failure" (some a.id) email)) s),
      )
      else (
        signed_in fresh a.id a.email a.role,
        commit (write (record_audit (event "admin.login.success" (some a.id) a.email)) s),
      )

  -- AdminAuthFacade.login
  unfoldable pub login :
      Fresh → (email password : String) → Session AdminDb → Resp AdminAuth × Session AdminDb
  login fresh email password s = elim (get_by_email email s.working) [
    | none ↦ (
      failure "unauthorized" "Invalid credentials",
      commit (write (record_audit (event "admin.login.failure" none email)) s),
    )
    | some a ↦ login_admin fresh email password a s
  ]

  -- AdminAuthFacade.refresh of a token that decodes
  unfoldable pub refresh_claimed :
      Fresh → Claims → Session AdminDb → Resp AdminAuth × Session AdminDb
  refresh_claimed fresh c s =
      if not (c.typ == "refresh")
      then (failure "unauthorized" "Not a refresh token", s)
      else if is_revoked c.jti s.working
      then (failure "unauthorized" "Refresh token revoked", s)
      else (
        signed_in fresh c.sub c.email (get_or c.role "admin"),
        commit (write (revoke c.jti c.exp "rotated") s),
      )

  -- AdminAuthFacade.refresh
  unfoldable pub refresh :
      Fresh → (token : String) → Session AdminDb → Resp AdminAuth × Session AdminDb
  refresh fresh token s = elim (jwt.decode now token) [
    | none ↦ (failure "unauthorized" "Invalid refresh token", s)
    | some c ↦ refresh_claimed fresh c s
  ]

  -- AdminAuthFacade.logout
  unfoldable pub logout : (token : String) → Session AdminDb → Session AdminDb
  logout token s = elim (jwt.decode now token) [
    | none ↦ s
    | some c ↦ commit (write (revoke c.jti c.exp "logout") s)
  ]
