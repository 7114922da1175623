-- ===== src/Customer/Profile/Examples.antt =====
-- A locked account that is unlocked, at concrete times.
use image2prompt.Base.{
  ℕ, ◌≡◌, refl, true, false, none, some, [], ◌∷◌, arith, Session, IsClean, opened, succeeded,
}
use image2prompt.Customer.{Customer, AuditLog, AuthDb}
use image2prompt.Customer.Daos.{get_by_id, get_by_email}
use image2prompt.Customer.Tokens.{verify_password}
use image2prompt.Customer.Auth.{is_locked, login}
use image2prompt.Customer.Auth.Examples.{env, fresh}
use image2prompt.Customer.Auth.Unlocked.{unlock_account-unlocks}
use image2prompt.Customer.Profile.{
  unlock_account, get_preferences, update_preferences, get_or_create, update,
}

abbrev ann : Customer
ann = record {
  id = "u1";
  email = "a@x.org";
  password_hash = "hash";
  name = none;
  email_verified = true;
}

abbrev failure_at : ℕ → AuditLog
failure_at now = record {
  actor_id = some "u1";
  actor_email = none;
  action = "customer.login.failure";
  target = none;
  created_at = now;
}

-- two failures, as many as lock the account
abbrev s : Session AuthDb
s = opened (record {
  customers = ann ∷ [];
  preferences = [];
  revoked = [];
  audit = failure_at 1 ∷ failure_at 2 ∷ [];
})

known : get_by_id "u1" s.working ≡ some ann
unfolding get_by_id
known = refl

addressed : get_by_email "a@x.org" s.working ≡ some ann
unfolding get_by_email
addressed = refl

verified : verify_password env.bcrypt [] "hash" ≡ true
unfolding verify_password
verified = refl

unlock_account-unlocks_example :
    IsClean (unlock_account 3 "u1" s).1
    × (is_locked env 4 ann (unlock_account 3 "u1" s).1.working ≡ false)
    × (succeeded (login env 4 fresh "a@x.org" [] (unlock_account 3 "u1" s).1).0 ≡ true)
unlock_account-unlocks_example =
    unlock_account-unlocks env 3 4 fresh "a@x.org" [] ann s known addressed
      (ground arith, (ground arith, tt)) verified

-- preferences are read as they were written, the others by default
preferences_run :
    (get_preferences "u1" (update_preferences "u1" (some ("mock" ∷ [])) none s).1).0
    ≡ record { customer_id = "u1"; storage_backend = "local"; default_provider_keys = "mock" ∷ [] }
unfolding get_preferences update_preferences get_or_create update
preferences_run = refl
