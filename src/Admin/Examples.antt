-- ===== src/Admin/Examples.antt =====
-- The sign-in of administrators at concrete tokens.
use image2prompt.Base.{
  ◌≡◌, refl, String, true, false, Option, none, some, [], ◌∷◌, ◌==◌, arith, if◌then◌else◌, Session,
  opened, succeeded,
}
use image2prompt.Admin.{AdminDb, Claims, Fresh, is_revoked}
use image2prompt.Admin.Auth.{Env, signed_in, refresh, refresh_claimed}
use image2prompt.Admin.Roles.{logout_op, after, admin_refresh_once}

-- the claims of a customer's refresh token
abbrev customer : Claims
customer = record {
  sub = "u1";
  typ = "refresh";
  email = "a@x.org";
  jti = "j1";
  exp = 100;
  role = none;
}

abbrev known : String → Option Claims
known t = if t == "token" then some customer else none

known-stable : (t : String) (c d : Claims) → known t ≡ some c → known t ≡ some d → d ≡ c
known-stable t c d h h' = ground (arith, h, h')

abbrev env : Env
env = record {
  jwt = record {
    encode = λ c. c.typ;
    decode = λ now t. known t;
    decode_stable = λ now later t c d h h'. known-stable t c d h h';
  };
  settings = record {
    jwt_expire_minutes = 15;
    jwt_refresh_expire_minutes = 60;
    login_lockout_threshold = 5;
    login_lockout_window_minutes = 15;
  };
  verify = λ password hashed. password == hashed;
}

abbrev fresh : Fresh
fresh = record { access_jti = "a"; refresh_jti = "r" }

abbrev s : Session AdminDb
s = opened (record { admins = []; revoked = []; audit = [] })

unused : is_revoked "j1" s.working ≡ false
unfolding is_revoked
unused = refl

accepted : succeeded (refresh env 1 fresh "token" s).0 ≡ true
unfolding refresh refresh_claimed is_revoked
accepted = refl

-- a refresh token that names no role, as the customers' do, buys a session with the role "admin"
roleless_run : (refresh env 1 fresh "token" s).0 ≡ signed_in env 1 fresh "u1" "a@x.org" "admin"
unfolding refresh refresh_claimed is_revoked
roleless_run = refl

admin_refresh_once_example :
    succeeded
      (refresh env 3 fresh "token"
        (after env ((2, logout_op "other") ∷ []) (refresh env 1 fresh "token" s).1)).0
    ≡ false
admin_refresh_once_example =
    admin_refresh_once env 1 3 fresh fresh "token" ((2, logout_op "other") ∷ []) s accepted
