-- ===== src/Customer/Auth/Links.antt =====
-- services/customer-service/app/facades/auth_facade.py: the single-use links for a password reset
-- and for the verification of an address. What is mailed is part of the result; EmailService.send
-- never fails, and whether the mail arrives is left open.
use image2prompt.Base.{
  ℕ, String, true, not, Option, none, some, List, [], ◌∷◌, ◌==◌, ◌^+◌, get_or, update_if,
  if◌then◌else◌, Session, write, commit, Resp, success, failure,
}
use image2prompt.Customer.{Customer, AuthDb}
use image2prompt.Customer.Daos.{get_by_email, get_by_id, is_revoked, revoke, record_audit}
use image2prompt.Customer.Tokens.{Claims, hash_password, access_claims, after_minutes}
use image2prompt.Customer.Auth.{Env, Mail, customer_event, revocation}

module _ (env : Env) (now : ℕ) where
  open env use {jwt, bcrypt, settings}

  -- the link that is mailed; `jti` is the uuid of its token
  abbrev pub link_token : String → String → ℕ → Customer → String
  link_token typ jti minutes c =
      jwt.encode (access_claims c.id typ c.email jti (after_minutes now minutes))

  abbrev link_to : String → String → String
  link_to path token = settings.portal_base_url ^+ path ^+ "?token=" ^+ token

  abbrev generic_message : String
  generic_message = "If that email is registered, a reset link has been sent."

  unfoldable pub request_password_reset : String → String → AuthDb → Resp String × List Mail
  request_password_reset jti email d = elim (get_by_email email d) [
    | none ↦ (success generic_message, [])
    | some c ↦ (
      success generic_message,
      record {
        to = c.email;
        subject = "Reset your Image2Prompt password";
        link =
            link_to settings.password_reset_path
              (link_token "pwd_reset" jti settings.password_reset_expire_minutes c);
      }
          ∷ [],
    )
  ]

  unfoldable pub send_verification_email : String → String → AuthDb → Resp String × List Mail
  send_verification_email jti customer_id d = elim (get_by_id customer_id d) [
    | none ↦ (failure "not_found" "Unknown customer", [])
    | some c ↦ if c.email_verified then (success "Email already verified.", []) else (
      success "Verification email sent.",
      record {
        to = c.email;
        subject = "Verify your Image2Prompt email";
        link =
            link_to settings.email_verify_path
              (link_token "email_verify" jti settings.email_verify_expire_minutes c);
      }
          ∷ [],
    )
  ]

  -- _consume_token on decoded claims
  unfoldable pub usable : String → Option Claims → AuthDb → Option Claims
  usable typ none d = none
  usable typ (some c) d =
      if not (c.typ == typ) then none else if is_revoked c.jti d then none else some c

  -- _consume_token
  unfoldable pub consume_token : String → String → AuthDb → Option Claims
  unfolding usable
  consume_token typ token d = usable typ (jwt.decode now token) d

  abbrev pub set_password : String → String → AuthDb → AuthDb
  set_password id hashed d = record d {
    customers = update_if (λ c. c.id == id) (λ c. record c { password_hash = hashed }) d.customers;
  }

  abbrev pub set_verified : String → AuthDb → AuthDb
  set_verified id d = record d {
    customers = update_if (λ c. c.id == id) (λ c. record c { email_verified = true }) d.customers;
  }

  -- the account of a consumed token is changed, and the token is used up
  unfoldable pub use_up :
      (reason action done : String) (change : String → AuthDb → AuthDb)
      → Claims
      → Option Customer
      → Session AuthDb
      → Resp String × Session AuthDb
  use_up reason action done change c none s = (failure "unauthorized" "Unknown customer", s)
  use_up reason action done change c (some customer) s = (
    success done,
    commit (
        write
          (λ d.
            record_audit (customer_event now action customer)
              (revoke (revocation c reason none) (change customer.id d)))
          s),
  )

  unfoldable pub reset_password :
      (token : String) (new_password : List ℕ) (salt : String)
      → Session AuthDb
      → Resp String × Session AuthDb
  reset_password token new_password salt s = elim (consume_token "pwd_reset" token s.working) [
    | none ↦ (failure "unauthorized" "Invalid or expired reset link", s)
    | some c ↦
        use_up "pwd_reset" "customer.password_reset"
          "Your password has been reset. You can now sign in."
          (λ id. set_password id (hash_password bcrypt new_password salt)) c
          (get_by_id (get_or c.sub "") s.working) s
  ]

  unfoldable pub verify_email : String → Session AuthDb → Resp String × Session AuthDb
  verify_email token s = elim (consume_token "email_verify" token s.working) [
    | none ↦ (failure "unauthorized" "Invalid or expired link", s)
    | some c ↦
        use_up "email_verify" "customer.email_verified" "Email verified." set_verified c
          (get_by_id (get_or c.sub "") s.working) s
  ]
