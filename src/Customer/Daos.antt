-- ===== src/Customer/Daos.antt =====
-- services/customer-service/app/dao: the reads and writes of the sign-in flows, each on the view of
-- the open transaction. Row ids and the time of a row are arguments.
use image2prompt.Base.{
  ℕ, String, Bool, false, not, ◌&&◌, Option, none, some, List, [], ◌∷◌, ◌++◌, any, find?, keep_if,
  count_if, ltb, leb, ◌==◌, ◌^+◌, if◌then◌else◌, Session, write, commit,
}
use image2prompt.Customer.{Customer, AuditLog, RevokedToken, AuthDb}

-- an optional text column compared with a text: NULL equals nothing
abbrev pub column_is : Option String → String → Bool
column_is none s = false
column_is (some t) s = t == s

-- CustomerDao.get_by_email
unfoldable pub get_by_email : String → AuthDb → Option Customer
get_by_email email d = find? (λ c. c.email == email) d.customers

-- CustomerDao.get_by_id
unfoldable pub get_by_id : String → AuthDb → Option Customer
get_by_id id d = find? (λ c. c.id == id) d.customers

-- CustomerDao.create
unfoldable pub create_customer : Customer → AuthDb → AuthDb
create_customer c d = record d { customers = d.customers ++ c ∷ [] }

-- PreferenceDao.get_or_create, as the sign-up flow uses it
unfoldable pub get_or_create_preference : String → AuthDb → AuthDb
get_or_create_preference customer_id d =
    if any (λ p. p.customer_id == customer_id) d.preferences then d else record d {
      preferences =
          d.preferences
          ++ record {
            customer_id = customer_id;
            storage_backend = "local";
            default_provider_keys = [];
          }
            ∷ [];
    }

-- RevokedTokenDao.is_revoked
unfoldable pub is_revoked : String → AuthDb → Bool
is_revoked jti d = any (λ r. r.jti == jti) d.revoked

-- RevokedTokenDao.revoke: the first row of a jti stays
unfoldable pub revoke : RevokedToken → AuthDb → AuthDb
unfolding is_revoked
revoke row d = if is_revoked row.jti d then d else record d { revoked = d.revoked ++ row ∷ [] }

-- f"{_FAMILY_MARKER}{family_id}"
abbrev pub family_marker : String → String
family_marker family_id = "family:" ^+ family_id

-- RevokedTokenDao.is_family_revoked
unfoldable pub is_family_revoked : String → AuthDb → Bool
unfolding is_revoked
is_family_revoked family_id d = is_revoked (family_marker family_id) d

-- RevokedTokenDao.revoke_family
unfoldable pub revoke_family : String → ℕ → String → AuthDb → AuthDb
unfolding revoke
revoke_family family_id expires_at reason d =
    revoke
      (record {
        jti = family_marker family_id;
        expires_at = expires_at;
        reason = reason;
        family_id = some family_id;
      })
      d

-- RevokedTokenDao.prune_expired; it commits, and returns the number of rows removed
abbrev pub is_prunable : ℕ → RevokedToken → Bool
is_prunable now r = ltb 0 r.expires_at && ltb r.expires_at now

unfoldable pub prune_expired : ℕ → Session AuthDb → ℕ × Session AuthDb
prune_expired now s = (
  count_if (is_prunable now) s.working.revoked,
  commit (write (λ d. record d { revoked = keep_if (λ r. not (is_prunable now r)) d.revoked }) s),
)

-- AuditDao.record
unfoldable pub record_audit : AuditLog → AuthDb → AuthDb
record_audit row d = record d { audit = d.audit ++ row ∷ [] }

-- AuditDao.count_recent
unfoldable pub count_recent : String → String → ℕ → AuthDb → ℕ
count_recent actor_id action since d =
    count_if (λ a. column_is a.actor_id actor_id && a.action == action && leb since a.created_at)
      d.audit

abbrev pub later_of : Option ℕ → ℕ → Option ℕ
later_of none t = some t
later_of (some u) t = if ltb u t then some t else some u

abbrev pub latest : (AuditLog → Bool) → Option ℕ → List AuditLog → Option ℕ
latest p best [] = best
latest p best (a ∷ as_) = latest p (if p a then later_of best a.created_at else best) as_

-- AuditDao.last_event_at
unfoldable pub last_event_at : String → String → AuthDb → Option ℕ
last_event_at actor_id action d =
    latest (λ a. column_is a.actor_id actor_id && a.action == action) none d.audit
