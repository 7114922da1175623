-- ===== src/Admin.antt =====
-- services/admin-service/app/models.py and the DAOs that the sign-in of administrators uses, and
-- services/admin-service/app/services/token_service.py. PyJWT under the secret that the services
-- share is a parameter: a token always decodes to the same claims, if it decodes.
pub mod Auth
pub mod Access
pub mod Users
pub mod Roles
pub mod Examples
use image2prompt.Base.{
  ℕ, ◌+◌, ◌*◌, ◌<◌, ◌≡◌, String, Bool, true, false, not, ◌&&◌, Option, none, some, List, [], ◌∷◌,
  ◌++◌, keep_if, find?, any, count_if, leb, ltb, ◌==◌, if◌then◌else◌, Session, write, commit,
}
use image2prompt.Customer.{AuditLog, RevokedToken}
use image2prompt.Customer.Daos.{column_is, latest}

pub record AdminUser : Type 0 where
  pub id : String
  pub email : String
  pub password_hash : String
  pub role : String

pub record AdminDb : Type 0 where
  pub admins : List AdminUser
  pub revoked : List RevokedToken
  pub audit : List AuditLog

-- the claims that are read; "" stands for a missing text, `none` for a missing role
pub record Claims : Type 0 where
  pub sub : String
  pub typ : String
  pub email : String
  pub jti : String
  pub exp : ℕ
  pub role : Option String

pub record Jwt : Type 0 where
  pub encode : Claims → String
  pub decode : ℕ → String → Option Claims
  pub decode_stable :
      (now later : ℕ) (t : String) (c d : Claims)
      → decode now t ≡ some c
      → decode later t ≡ some d
      → d ≡ c

pub record Settings : Type 0 where
  pub jwt_expire_minutes : ℕ
  pub jwt_refresh_expire_minutes : ℕ
  pub login_lockout_threshold : ℕ
  pub login_lockout_window_minutes : ℕ

-- AdminUserDao.get_by_email
unfoldable pub get_by_email : String → AdminDb → Option AdminUser
get_by_email email d = find? (λ a. a.email == email) d.admins

-- RevokedTokenDao.is_revoked
unfoldable pub is_revoked : String → AdminDb → Bool
is_revoked jti d = any (λ r. r.jti == jti) d.revoked

-- RevokedTokenDao.revoke
unfoldable pub revoke : String → ℕ → (reason : String) → AdminDb → AdminDb
revoke jti exp reason d = if is_revoked jti d then d else record d {
  revoked =
      d.revoked ++ record { jti = jti; expires_at = exp; reason = reason; family_id = none } ∷ [];
}

abbrev pub is_prunable : ℕ → RevokedToken → Bool
is_prunable now r = ltb 0 r.expires_at && ltb r.expires_at now

-- RevokedTokenDao.prune_expired: how many rows went
unfoldable pub prune_expired : (now : ℕ) → Session AdminDb → ℕ × Session AdminDb
prune_expired now s = (
  count_if (is_prunable now) s.working.revoked,
  commit (write (λ d. record d { revoked = keep_if (λ r. not (is_prunable now r)) d.revoked }) s),
)

-- AuditDao.record
unfoldable pub record_audit : AuditLog → AdminDb → AdminDb
record_audit row d = record d { audit = d.audit ++ row ∷ [] }

-- AuditDao.count_recent
unfoldable pub count_recent : (actor_id action : String) → (since : ℕ) → AdminDb → ℕ
count_recent actor_id action since d =
    count_if (λ a. column_is a.actor_id actor_id && a.action == action && leb since a.created_at)
      d.audit

-- AuditDao.last_event_at
unfoldable pub last_event_at : (actor_id action : String) → AdminDb → Option ℕ
last_event_at actor_id action d =
    latest (λ a. column_is a.actor_id actor_id && a.action == action) none d.audit

-- the jti of the two tokens of one issue
pub record Fresh : Type 0 where
  pub access_jti : String
  pub refresh_jti : String

-- the claims of the two tokens
abbrev pub claims_of : (typ sub email role jti : String) → (exp : ℕ) → Claims
claims_of typ sub email role jti exp = record {
  sub = sub;
  typ = typ;
  email = email;
  jti = jti;
  exp = exp;
  role = some role;
}

-- AdminTokenService.issue
unfoldable pub issue : Jwt → Settings → ℕ → Fresh → (sub email role : String) → String × String
issue jwt settings now fresh sub email role = (
  jwt.encode
      (claims_of "admin" sub email role fresh.access_jti (now + settings.jwt_expire_minutes * 60)),
  jwt.encode (
      claims_of "refresh" sub email role fresh.refresh_jti
        (now + settings.jwt_refresh_expire_minutes * 60)),
)
