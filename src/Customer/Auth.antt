-- ===== src/Customer/Auth.antt =====
-- services/customer-service/app/facades/auth_facade.py. A method takes the session and returns its
-- response with the session that it leaves; the clock, the uuids and the salt are arguments.
pub mod Refresh
pub mod Links
pub mod History
pub mod Denied
pub mod SingleUse
pub mod Resets
pub mod Family
pub mod Lockout
pub mod Unlocked
pub mod Invariant
pub mod Examples
use image2prompt.Base.{
  ℕ, ◌-◌, ◌*◌, String, Bool, true, false, not, ◌&&◌, ◌||◌, Option, none, some, List, [], ◌∷◌, leb,
  ltb, nat_eq, ◌==◌, ◌^+◌, get_or, if◌then◌else◌, Session, write, commit, Resp, success, failure,
  update_if,
}
use image2prompt.Customer.{Customer, AuditLog, RevokedToken, AuthDb}
use image2prompt.Customer.Daos.{
  get_by_email, get_by_id, create_customer, get_or_create_preference, is_revoked, revoke,
  is_family_revoked, revoke_family, record_audit, count_recent, last_event_at,
}
use image2prompt.Customer.Tokens.{
  Claims, Jwt, Bcrypt, hash_password, verify_password, Settings, Fresh, Tokens, issue,
  access_claims, after_minutes,
}

pub record Auth : Type 0 where
  pub access_token : String
  pub refresh_token : String
  pub customer_id : String
  pub email : String

pub record Mail : Type 0 where
  pub to : String
  pub subject : String
  pub link : String

pub record Env : Type 0 where
  pub jwt : Jwt
  pub bcrypt : Bcrypt
  pub settings : Settings

abbrev pub customer_event : ℕ → String → Customer → AuditLog
customer_event now action c = record {
  actor_id = some c.id;
  actor_email = some c.email;
  action = action;
  target = none;
  created_at = now;
}

-- fid or None
abbrev pub family_of : Claims → Option String
family_of c = if c.fid == "" then none else some c.fid

abbrev pub revocation : Claims → String → Option String → RevokedToken
revocation c reason family = record {
  jti = c.jti;
  expires_at = c.exp;
  reason = reason;
  family_id = family;
}

module _ (env : Env) (now : ℕ) where
  open env use {jwt, bcrypt, settings}

  abbrev pub signed_in : Fresh → Customer → Option String → Resp Auth
  signed_in fresh c family =
      let tok = issue jwt settings now fresh c.id c.email family in
      success (record {
        access_token = tok.access_token;
        refresh_token = tok.refresh_token;
        customer_id = c.id;
        email = c.email;
      })

  -- signup; `id` is the primary key that the row gets
  pub signup :
      Fresh
      → (id salt : String) → (email : String) (password : List ℕ) (name : Option String)
      → Session AuthDb
      → Resp Auth × Session AuthDb
  signup fresh id salt email password name s = elim (get_by_email email s.working) [
    | some _ ↦ (failure "conflict" "Email already registered", s)
    | none ↦
        let c : Customer = record {
          id = id;
          email = email;
          password_hash = hash_password bcrypt password salt;
          name = name;
          email_verified = false;
        } in
        (
          signed_in fresh c none,
          commit (
              write
                (λ d.
                  record_audit (customer_event now "customer.signup" c)
                    (get_or_create_preference id (create_customer c d)))
                s),
        )
  ]

  -- the start of the window in which failures count: an unlock resets it
  pub failures_since : String → AuthDb → ℕ
  failures_since id d =
      let floor = now - settings.login_lockout_window_minutes * 60 in
      elim (last_event_at id "customer.login.unlock" d) [
        | none ↦ floor
        | some unlocked ↦ if ltb floor unlocked then unlocked else floor
      ]

  -- the lockout test of `login`
  pub is_locked : Customer → AuthDb → Bool
  is_locked c d =
      not (nat_eq settings.login_lockout_threshold 0)
      && leb settings.login_lockout_threshold
          (count_recent c.id "customer.login.failure" (failures_since c.id d) d)

  abbrev pub locked_message : String
  locked_message =
      "Account temporarily locked after repeated failed sign-ins. Please try again later."

  abbrev pub failed_event : Option String → String → AuditLog
  failed_event id email = record {
    actor_id = id;
    actor_email = some email;
    action = "customer.login.failure";
    target = none;
    created_at = now;
  }

  -- login for an account that exists
  pub login_account :
      Fresh → String → List ℕ → Customer → Session AuthDb → Resp Auth × Session AuthDb
  login_account fresh email password c s =
      if is_locked c s.working
      then (
        failure "locked" locked_message,
        commit (write (record_audit (customer_event now "customer.login.locked" c)) s),
      )
      else if not (verify_password bcrypt password c.password_hash)
      then (
        failure "unauthorized" "Invalid credentials",
        commit (write (record_audit (failed_event (some c.id) email)) s),
      )
      else (
        signed_in fresh c none,
        commit (write (record_audit (customer_event now "customer.login.success" c)) s),
      )

  pub login : Fresh → String → List ℕ → Session AuthDb → Resp Auth × Session AuthDb
  login fresh email password s = elim (get_by_email email s.working) [
    | none ↦ (
      failure "unauthorized" "Invalid credentials",
      commit (write (record_audit (failed_event none email)) s),
    )
    | some c ↦ login_account fresh email password c s
  ]
