-- ===== src/Admin/Users/Examples.antt =====
-- The management of administrators by concrete requests.
use image2prompt.Base.{
  ℕ, ◌+◌, ◌≡◌, refl, String, none, some, [], ◌∷◌, ◌==◌, eq_iff, arith, if◌then◌else◌, Session,
  opened, ◌⊎◌, inl, inr, ◌≤◌, sym, Bool-cases,
}
use image2prompt.Admin.{AdminUser, AdminDb, Claims, Jwt, record_audit}
use image2prompt.Admin.Access.{Principal, superadmin_only, principal_dep, role_dep}
use image2prompt.Admin.Users.{
  update_request, delete_request, manage, update_admin, update, delete_admin, delete,
}
use image2prompt.Admin.Users.Accounts.{IsOrderly}
use image2prompt.Admin.Users.Kept.{IsSuperadmin, IsKept, manage-IsKept}

-- the claims of the superadmin "a" and of the superadmin "b"
abbrev claims_of : String → Claims
claims_of id = record {
  sub = id;
  typ = "admin";
  email = "a@x.org";
  jti = "j1";
  exp = 100;
  role = some "superadmin";
}

claims-stable :
    (t : String) (c d : Claims) → some (claims_of t) ≡ some c → some (claims_of t) ≡ some d → d ≡ c
claims-stable t c d h h' = ground (arith, h, h')

-- a token is the id of the account
abbrev jwt : Jwt
jwt = record {
  encode = λ c. c.sub;
  decode = λ now t. some (claims_of t);
  decode_stable = λ now later t c d h h'. claims-stable t c d h h';
}

abbrev admin : (id email role : String) → AdminUser
admin id email role = record { id = id; email = email; password_hash = "h"; role = role }

abbrev s : Session AdminDb
s = opened (record {
  admins = admin "a" "a@x.org" "superadmin" ∷ admin "b" "b@x.org" "viewer" ∷ [];
  revoked = [];
  audit = [];
})

abbrev one_account : String → String → ℕ
one_account e x = if x == e then 1 else 0

two_addresses : (e : String) → one_account e "a@x.org" + one_account e "b@x.org" ≤ 1
two_addresses e = elim (Bool-cases ("a@x.org" == e)) [
  | inl h ↦ rw (sym ((eq_iff "a@x.org" e).0 h)) (omega arith)
  | inr h ↦ elim (Bool-cases ("b@x.org" == e)) [
    | inl g ↦ rw (h, g) (omega arith)
    | inr g ↦ rw (h, g) (omega arith)
  ]
]

s-IsOrderly : IsOrderly s.working.admins
s-IsOrderly = record { unique = λ e. omega (arith, two_addresses e); roles = (refl, (refl, tt)) }

manage-IsKept_example :
    (manage jwt 7 (some "a") (update_request "b" (some "admin") none) s ≡ s)
    ⊎ ((p : Principal) × IsSuperadmin jwt 7 (some "a") p
        × IsKept p.id s (manage jwt 7 (some "a") (update_request "b" (some "admin") none) s))
manage-IsKept_example =
    manage-IsKept jwt 7 (some "a") (update_request "b" (some "admin") none) s s-IsOrderly refl

-- the request of this witness changes the role
manage_runs :
    (manage jwt 7 (some "a") (update_request "b" (some "admin") none) s).durable.admins
    ≡ admin "a" "a@x.org" "superadmin" ∷ admin "b" "b@x.org" "admin" ∷ []
unfolding manage superadmin_only role_dep principal_dep update_admin update record_audit
manage_runs = refl

-- with the accounts of two superadmins and a token of each, the accounts can be left without one: "b"
-- deletes "a", and the token of "a" still deletes "b"
abbrev two : Session AdminDb
two = opened (record {
  admins = admin "a" "a@x.org" "superadmin" ∷ admin "b" "b@x.org" "superadmin" ∷ [];
  revoked = [];
  audit = [];
})

no_superadmin_left :
    (manage jwt 8
      (some "a")
      (delete_request "b")
      (manage jwt 7 (some "b") (delete_request "a") two)).durable.admins
    ≡ []
unfolding manage superadmin_only role_dep principal_dep delete_admin delete record_audit
no_superadmin_left = refl
