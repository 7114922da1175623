-- ===== src/Customer/Tokens.antt =====
-- services/shared/image2prompt_shared/security.py and services/customer-service/app/services/
-- token_service.py. bcrypt and PyJWT are parameters with the behaviour that they document.
use image2prompt.Base.{
  ℕ, ◌+◌, ◌*◌, ◌<◌, ◌≡◌, String, Bool, true, false, Option, some, List, take, get_or,
}

-- The claims of a JWT that the services read; a missing text claim is "" where the code reads it
-- with that default.
pub record Claims : Type 0 where
  pub sub : Option String
  pub typ : String
  pub email : Option String
  pub jti : String
  pub exp : ℕ
  pub fid : String

-- jwt.encode and jwt.decode under one secret. A token decodes only while its `exp` is ahead, and
-- always to the same claims.
pub record Jwt : Type 0 where
  pub encode : Claims → String
  pub decode : ℕ → String → Option Claims
  pub decode_unexpired : (now : ℕ) (t : String) (c : Claims) → decode now t ≡ some c → now < c.exp
  pub decode_stable :
      (now later : ℕ) (t : String) (c d : Claims)
      → decode now t ≡ some c
      → decode later t ≡ some d
      → d ≡ c

-- bcrypt over at most 72 bytes; `checkpw` raises on a hash that is no bcrypt hash (`none`).
pub record Bcrypt : Type 0 where
  pub hashpw : List ℕ → String → String
  pub checkpw : List ℕ → String → Option Bool
  pub checkpw-hashpw : (pw : List ℕ) (salt : String) → checkpw pw (hashpw pw salt) ≡ some true

abbrev pub bcrypt_max_bytes : ℕ
bcrypt_max_bytes = 72

module _ (b : Bcrypt) where
  open b use {hashpw, checkpw, checkpw-hashpw}

  -- hash_password; the salt is bcrypt.gensalt()
  unfoldable pub hash_password : List ℕ → String → String
  hash_password password salt = hashpw (take bcrypt_max_bytes password) salt

  -- verify_password
  unfoldable pub verify_password : List ℕ → String → Bool
  verify_password password hashed = get_or (checkpw (take bcrypt_max_bytes password) hashed) false

  pub verify_password-hash_password :
      (pw : List ℕ) (salt : String) → verify_password pw (hash_password pw salt) ≡ true
  unfolding verify_password hash_password
  verify_password-hash_password pw salt = rw checkpw-hashpw

-- the settings that the tokens and the flows read; minutes
pub record Settings : Type 0 where
  pub jwt_expire_minutes : ℕ
  pub jwt_refresh_expire_minutes : ℕ
  pub login_lockout_threshold : ℕ
  pub login_lockout_window_minutes : ℕ
  pub portal_base_url : String
  pub password_reset_path : String
  pub password_reset_expire_minutes : ℕ
  pub email_verify_path : String
  pub email_verify_expire_minutes : ℕ

-- the uuids that one issue draws
pub record Fresh : Type 0 where
  pub access_jti : String
  pub refresh_jti : String
  pub family_id : String

pub record Tokens : Type 0 where
  pub access_token : String
  pub refresh_token : String
  pub family_id : String

abbrev pub after_minutes : ℕ → ℕ → ℕ
after_minutes now minutes = now + minutes * 60

-- create_access_token: the payload that is encoded
abbrev pub access_claims : String → String → String → String → ℕ → Claims
access_claims subject typ email jti exp = record {
  sub = some subject;
  typ = typ;
  email = some email;
  jti = jti;
  exp = exp;
  fid = "";
}

-- create_refresh_token with the `fid` claim
abbrev pub refresh_claims : String → String → String → ℕ → String → Claims
refresh_claims subject email jti exp fid = record {
  sub = some subject;
  typ = "refresh";
  email = some email;
  jti = jti;
  exp = exp;
  fid = fid;
}

-- TokenService.issue
unfoldable pub issue : Jwt → Settings → ℕ → Fresh → String → String → Option String → Tokens
issue jwt settings now fresh customer_id email family =
    let family_id = get_or family fresh.family_id in
    record {
      access_token = jwt.encode (
          access_claims customer_id "customer" email fresh.access_jti
            (after_minutes now settings.jwt_expire_minutes));
      refresh_token = jwt.encode (
          refresh_claims customer_id email fresh.refresh_jti
            (after_minutes now settings.jwt_refresh_expire_minutes) family_id);
      family_id = family_id;
    }
