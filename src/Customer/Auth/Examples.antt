-- ===== src/Customer/Auth/Examples.antt =====
-- The sign-in flows at concrete accounts and tokens.
use image2prompt.Base.{
  ℕ, ◌<◌, ◌≡◌, refl, String, true, false, Option, none, some, List, [], ◌∷◌, arith, ltb, ◌==◌,
  eq_iff, if◌then◌else◌, Session, opened, succeeded, failure, get_or,
}
use image2prompt.Customer.{Customer, RevokedToken, AuthDb}
use image2prompt.Customer.Daos.{
  get_by_email, get_by_id, is_revoked, is_family_revoked, count_recent, last_event_at,
  prune_expired,
}
use image2prompt.Customer.Tokens.{Claims, Fresh, verify_password}
use image2prompt.Customer.Auth.{Env, login, locked_message}
use image2prompt.Customer.Auth.Refresh.{refresh, refresh_claimed, rotate}
use image2prompt.Customer.Auth.Links.{reset_password, consume_token, usable, use_up}
use image2prompt.Customer.Auth.History.{Op, after}
use image2prompt.Customer.Auth.SingleUse.{refresh_once}
use image2prompt.Customer.Auth.Resets.{reset_password_once, reset_password-sets}
use image2prompt.Customer.Auth.Family.{
  InFamily, IsReused, reuse_burns_family, pruning_revives_family,
}
use image2prompt.Customer.Auth.Lockout.{Attempt, after_attempts, wrong_passwords_lock}
use image2prompt.Customer.Auth.Invariant.{IsSound, after-IsSound}

abbrev claims : String → String → ℕ → Claims
claims typ jti exp = record {
  sub = some "u1";
  typ = typ;
  email = some "a@x.org";
  jti = jti;
  exp = exp;
  fid = "f1";
}

-- three tokens, and nothing else, decode
abbrev known : String → Option Claims
known t =
    if t == "first"
    then some (claims "refresh" "j1" 100)
    else if t == "second"
    then some (claims "refresh" "j2" 200)
    else if t == "reset"
    then some (claims "pwd_reset" "j3" 50)
    else none

abbrev unexpired : ℕ → Option Claims → Option Claims
unexpired now none = none
unexpired now (some c) = if ltb now c.exp then some c else none

pub unexpired-ahead :
    (now : ℕ) (o : Option Claims) (c : Claims) → unexpired now o ≡ some c → now < c.exp
unexpired-ahead now none c h = absurd (ground (arith, h))
unexpired-ahead now (some d) c h = ground (arith, h)

pub unexpired-stable :
    (now later : ℕ) (o : Option Claims) (c d : Claims)
    → unexpired now o ≡ some c
    → unexpired later o ≡ some d
    → d ≡ c
unexpired-stable now later none c d h h' = absurd (ground (arith, h))
unexpired-stable now later (some e) c d h h' = ground (arith, h, h')

abbrev pub env : Env
env = record {
  jwt = record {
    encode = λ c. c.jti;
    decode = λ now t. unexpired now (known t);
    decode_unexpired = λ now t c h. unexpired-ahead now (known t) c h;
    decode_stable = λ now later t c d h h'. unexpired-stable now later (known t) c d h h';
  };
  bcrypt = record {
    hashpw = λ pw salt. "hash";
    checkpw = λ pw hashed. if hashed == "hash" then some true else some false;
    checkpw-hashpw = λ pw salt. refl;
  };
  settings = record {
    jwt_expire_minutes = 15;
    jwt_refresh_expire_minutes = 60;
    login_lockout_threshold = 2;
    login_lockout_window_minutes = 15;
    portal_base_url = "http://portal";
    password_reset_path = "/reset";
    password_reset_expire_minutes = 30;
    email_verify_path = "/verify";
    email_verify_expire_minutes = 30;
  };
}

abbrev pub fresh : Fresh
fresh = record { access_jti = "a"; refresh_jti = "r"; family_id = "f" }

abbrev ann : Customer
ann = record {
  id = "u1";
  email = "a@x.org";
  password_hash = "other";
  name = none;
  email_verified = true;
}

abbrev tables : List RevokedToken → AuthDb
tables rs = record { customers = ann ∷ []; preferences = []; revoked = rs; audit = [] }

abbrev s : Session AuthDb
s = opened (tables [])

-- "first" was rotated
abbrev rotated : Session AuthDb
rotated = opened (
    tables
      (record { jti = "j1"; expires_at = 100; reason = "rotated"; family_id = some "f1" } ∷ []))

refresh-first : succeeded (refresh env 1 fresh "first" s).0 ≡ true
unfolding refresh refresh_claimed rotate is_family_revoked is_revoked get_by_id
refresh-first = refl

refresh_once_example :
    succeeded
      (refresh env 3 fresh "first"
        (after env ((2, Op.prune) ∷ []) (refresh env 1 fresh "first" s).1)).0
    ≡ false
refresh_once_example =
    refresh_once env 1 3 fresh fresh "first" ((2, Op.prune) ∷ []) s refresh-first
      (ground arith, ground arith)

reset-ok : succeeded (reset_password env 1 "reset" [] "salt" s).0 ≡ true
unfolding reset_password consume_token usable use_up is_revoked get_by_id
reset-ok = refl

reset_password_once_example :
    succeeded
      (reset_password env 3 "reset" [] "salt"
        (after env ((2, Op.prune) ∷ []) (reset_password env 1 "reset" [] "salt" s).1)).0
    ≡ false
reset_password_once_example =
    reset_password_once env 1 3 "reset" [] [] "salt" "salt" ((2, Op.prune) ∷ []) s reset-ok
      (ground arith, ground arith)

reset_password-sets_example :
    (c : Claims) × (customer : Customer) × (env.jwt.decode 1 "reset" ≡ some c)
    × (get_by_id (get_or c.sub "") (reset_password env 1 "reset" [] "salt" s).1.working
        ≡ some customer)
    × (verify_password env.bcrypt [] customer.password_hash ≡ true)
reset_password-sets_example = reset_password-sets env 1 "reset" [] "salt" s reset-ok

member : (c : Claims) → c.typ ≡ "refresh" → c.fid ≡ "f1" → InFamily c "f1"
member c typ family = record {
  typ = typ;
  family = family;
  named = λ e. ground (arith, eq_iff "f1" "");
}

reused : IsReused (claims "refresh" "j1" 100) rotated.working
unfolding is_revoked is_family_revoked
reused = record {
  member = member (claims "refresh" "j1" 100) refl refl;
  used = refl;
  standing = refl;
}

reuse_burns_family_example :
    succeeded
      (refresh env 3 fresh "second"
        (after env ((2, Op.prune) ∷ []) (refresh env 1 fresh "first" rotated).1)).0
    ≡ false
reuse_burns_family_example =
    reuse_burns_family env 1 3 fresh fresh "first" "second" (claims "refresh" "j1" 100)
      (claims "refresh" "j2" 200) ((2, Op.prune) ∷ []) rotated refl reused
      (ground arith, ground arith) (ground arith) refl
      (member (claims "refresh" "j2" 200) refl refl)

unused : is_revoked "j2" rotated.working ≡ false
unfolding is_revoked
unused = refl

found : get_by_id "u1" rotated.working ≡ some ann
unfolding get_by_id
found = refl

pruning_revives_family_example :
    succeeded
      (refresh env 150 fresh "second"
        (prune_expired 150 (refresh env 1 fresh "first" rotated).1).1).0
    ≡ true
pruning_revives_family_example =
    pruning_revives_family env 1 150 fresh fresh "first" "second" (claims "refresh" "j1" 100)
      (claims "refresh" "j2" 200) ann rotated refl reused (ground arith) (ground arith) refl
      (member (claims "refresh" "j2" 200) refl refl) unused found

abbrev attempt : ℕ → Attempt
attempt now = record { now = now; fresh = fresh; password = [] }

ann-email : get_by_email "a@x.org" s.working ≡ some ann
unfolding get_by_email
ann-email = refl

ann-unlocked : last_event_at "u1" "customer.login.unlock" s.working ≡ none
unfolding last_event_at
ann-unlocked = refl

ann-failures : count_recent "u1" "customer.login.failure" 0 s.working ≡ 0
unfolding count_recent
ann-failures = refl

wrong : verify_password env.bcrypt [] "other" ≡ false
unfolding verify_password
wrong = refl

wrong_passwords_lock_example :
    (login env 12 fresh "a@x.org" []
      (after_attempts env "a@x.org" (attempt 11 ∷ attempt 10 ∷ []) s)).0
    ≡ failure "locked" (locked_message env 12)
wrong_passwords_lock_example =
    wrong_passwords_lock env "a@x.org" 12 fresh [] ann (attempt 11 ∷ attempt 10 ∷ []) s ann-email
      ann-unlocked ann-failures ((ground arith, wrong), ((ground arith, wrong), tt)) (ground arith)
      (ground arith)

after-IsSound_example :
    IsSound (after env ((2, Op.signup fresh "u2" "salt" "b@x.org" [] none) ∷ []) s)
after-IsSound_example =
    after-IsSound env ((2, Op.signup fresh "u2" "salt" "b@x.org" [] none) ∷ []) s
      (record { clean = refl; one_account = λ e. ground arith })
