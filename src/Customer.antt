-- ===== src/Customer.antt =====
-- services/customer-service/app/models.py: the tables, as lists of rows in the order of insertion.
-- JSON columns that the modelled code does not read are left out.
pub mod Daos
pub mod Tokens
pub mod Auth
pub mod Profile
use image2prompt.Base.{ℕ, String, Bool, Option, List}

pub record Customer : Type 0 where
  pub id : String
  pub email : String
  pub password_hash : String
  pub name : Option String
  pub email_verified : Bool

pub record CustomerPreference : Type 0 where
  pub customer_id : String
  pub storage_backend : String
  pub default_provider_keys : List String

pub record AuditLog : Type 0 where
  pub actor_id : Option String
  pub actor_email : Option String
  pub action : String
  pub target : Option String
  pub created_at : ℕ

pub record RevokedToken : Type 0 where
  pub jti : String
  pub expires_at : ℕ
  pub reason : String
  pub family_id : Option String

-- the tables that the sign-in flows read and write
pub record AuthDb : Type 0 where
  pub customers : List Customer
  pub preferences : List CustomerPreference
  pub revoked : List RevokedToken
  pub audit : List AuditLog
