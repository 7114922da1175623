-- ===== src/Admin/Users/Kept.antt =====
-- What the management of administrators keeps: services/admin-service/app/facades/
-- admin_users_facade.py behind `superadmin_only`.
use image2prompt.Base.{
  ◌∙◌, ℕ, ◌≡◌, refl, String, true, false, ◌&&◌, Option, none, some, [], ◌∷◌, any, find?, update_if,
  contains, is_some, ◌==◌, eq_iff, arith, Bool-cases, Option-cases, Resp-cases, ◌⊎◌, inl, inr,
  Session, IsClean, success,
}
use image2prompt.Admin.{AdminUser, AdminDb, Claims, Jwt, record_audit}
use image2prompt.Admin.Access
use image2prompt.Admin.Access.{Principal, principal, principal_dep, role_dep, superadmin_only}
use image2prompt.Admin.Users
use image2prompt.Admin.Users.{
  valid_roles, create, updated, update, delete, create_admin, update_admin, unlock_admin,
  delete_admin, Request, create_request, update_request, unlock_request, delete_request, perform,
  manage,
}
use image2prompt.Admin.Users.Accounts.{
  IsOrderly, role_of, with_email-update, with_email-delete, roles-delete, roles-update,
  role_of-append, role_of-delete, role_of-update_other, role_of-update_none, create-IsOrderly,
}

-- What a request leaves: orderly accounts, nothing uncommitted, and the actor with the role it had.
pub record IsKept (id : String) (s t : Session AdminDb) : Type 0 where
  pub orderly : IsOrderly t.working.admins
  pub clean : IsClean t
  pub role :
      (r : String) → role_of id s.working.admins ≡ some r → role_of id t.working.admins ≡ some r

unchanged-IsKept :
    (id : String) (s : Session AdminDb) → IsOrderly s.working.admins → IsClean s → IsKept id s s
unchanged-IsKept id s o c = record { orderly = o; clean = c; role = λ r h. h }

module _ (now : ℕ) (actor : Principal) (s : Session AdminDb) (o : IsOrderly s.working.admins)
    (c : IsClean s) where
  create_admin-IsKept : (a : AdminUser) → IsKept actor.id s (create_admin now actor a s).1
  unfolding create_admin create record_audit
  create_admin-IsKept a = elim (Bool-cases (contains valid_roles a.role)) [
    | inr v ↦ rw v (unchanged-IsKept actor.id s o c)
    | inl v ↦ elim (Bool-cases (any (λ b. b.email == a.email) s.working.admins)) [
      | inl e ↦ rw (v, e) (unchanged-IsKept actor.id s o c)
      | inr e ↦
          rw (v, e)
            (record {
              orderly = create-IsOrderly a s.working.admins o v e;
              clean = refl;
              role = λ r h. role_of-append actor.id r s.working.admins (a ∷ []) h;
            })
    ]
  ]

  delete_admin-IsKept :
      (admin_id : String) → IsKept actor.id s (delete_admin now actor admin_id s).1
  unfolding delete_admin delete record_audit
  delete_admin-IsKept admin_id = elim (Bool-cases (admin_id == actor.id)) [
    | inl e ↦ rw e (unchanged-IsKept actor.id s o c)
    | inr e ↦ elim (Option-cases (find? (λ (a : AdminUser). a.id == admin_id) s.working.admins)) [
      | inl f ↦ rw (e, f, delete) (unchanged-IsKept actor.id s o c)
      | inr (a, f) ↦
          rw (e, f, delete)
            (record {
              orderly = record {
                unique =
                    λ m. omega (arith, o.unique m, with_email-delete m admin_id s.working.admins);
                roles = roles-delete admin_id s.working.admins o.roles;
              };
              clean = refl;
              role = λ r h. role_of-delete actor.id admin_id s.working.admins e ∙ h;
            })
    ]
  ]

  -- an update that the facade lets through changes the actor's role in no case
  role-update :
      (admin_id : String) (role hashed : Option String)
      → (is_some role && admin_id == actor.id) ≡ false
      → role_of actor.id
          (update_if (λ (a : AdminUser). a.id == admin_id) (updated role hashed) s.working.admins)
        ≡ role_of actor.id s.working.admins
  role-update admin_id none hashed h = role_of-update_none actor.id admin_id hashed s.working.admins
  role-update admin_id (some r) hashed h =
      role_of-update_other actor.id admin_id (some r) hashed s.working.admins h

  update_admin-IsKept :
      (admin_id : String) (role hashed : Option String)
      → IsKept actor.id s (update_admin now actor admin_id role hashed s).1
  unfolding update_admin update record_audit
  update_admin-IsKept admin_id role hashed = elim (Bool-cases (Users.is_valid role)) [
    | inr v ↦ rw v (unchanged-IsKept actor.id s o c)
    | inl v ↦ elim (Bool-cases (is_some role && admin_id == actor.id)) [
      | inl e ↦ rw (v, e) (unchanged-IsKept actor.id s o c)
      | inr e ↦ elim (Option-cases (find? (λ (a : AdminUser). a.id == admin_id) s.working.admins)) [
        | inl f ↦ rw (v, e, f, update) (unchanged-IsKept actor.id s o c)
        | inr (a, f) ↦
            rw (v, e, f, update)
              (record {
                orderly = record {
                  unique = λ m. omega (
                    arith,
                    o.unique m,
                    with_email-update m admin_id role hashed s.working.admins,
                  );
                  roles = roles-update admin_id role hashed s.working.admins v o.roles;
                };
                clean = refl;
                role = λ r h. role-update admin_id role hashed e ∙ h;
              })
      ]
    ]
  ]

  perform-IsKept : (req : Request) → IsKept actor.id s (perform now actor req s)
  unfolding unlock_admin record_audit
  perform-IsKept (create_request a) = create_admin-IsKept a
  perform-IsKept (update_request admin_id role hashed) = update_admin-IsKept admin_id role hashed
  perform-IsKept (delete_request admin_id) = delete_admin-IsKept admin_id
  perform-IsKept (unlock_request admin_id) = record { orderly = o; clean = refl; role = λ r h. h }

-- The claims that the guard of superadmins accepts.
pub record IsSuperadmin (jwt : Jwt) (now : ℕ) (token : Option String) (p : Principal) : Type 0 where
  pub text : String
  pub claims : Claims
  pub sent : token ≡ some text
  pub decoded : jwt.decode now text ≡ some claims
  pub typ : claims.typ ≡ "admin"
  pub role : claims.role ≡ some "superadmin"
  pub same : p ≡ principal claims

has_superadmin :
    (role : Option String)
    → Access.has_role ("superadmin" ∷ []) role ≡ true
    → role ≡ some "superadmin"
has_superadmin none h = ground (arith, h)
has_superadmin (some r) h = ground (arith, h, eq_iff "superadmin" r)

superadmin_only-decoded :
    (jwt : Jwt) (now : ℕ) (t : String) (p : Principal)
    → superadmin_only jwt now (some t) ≡ success p
    → IsSuperadmin jwt now (some t) p
unfolding superadmin_only role_dep principal_dep
superadmin_only-decoded jwt now t p h = elim (Option-cases (jwt.decode now t)) [
  | inl e ↦ absurd (ground (arith, h, e))
  | inr (c, e) ↦ elim (Bool-cases (c.typ == "admin")) [
    | inr f ↦ absurd (ground (arith, h, e, f))
    | inl f ↦ elim (Bool-cases (Access.has_role ("superadmin" ∷ []) c.role)) [
      | inr g ↦ absurd (ground (arith, h, e, f, g))
      | inl g ↦ record {
        text = t;
        claims = c;
        sent = refl;
        decoded = e;
        typ = (eq_iff c.typ "admin").0 f;
        role = has_superadmin c.role g;
        same = ground (arith, h, e, f, g);
      }
    ]
  ]
]

superadmin_only-IsSuperadmin :
    (jwt : Jwt) (now : ℕ) (token : Option String) (p : Principal)
    → superadmin_only jwt now token ≡ success p
    → IsSuperadmin jwt now token p
superadmin_only-IsSuperadmin jwt now none p h =
    absurd (unfold superadmin_only role_dep principal_dep in ground (arith, h))
superadmin_only-IsSuperadmin jwt now (some t) p h = superadmin_only-decoded jwt now t p h

-- Over accounts that are orderly and committed, a request that manages administrators changes nothing,
-- or it came with a token that decodes to the type "admin" and the role "superadmin"; then the
-- accounts stay orderly and committed, and the account that the token names keeps its role.
pub manage-IsKept :
    (jwt : Jwt) (now : ℕ) (token : Option String) (req : Request) (s : Session AdminDb)
    → IsOrderly s.working.admins
    → IsClean s
    → (manage jwt now token req s ≡ s)
      ⊎ ((p : Principal) × IsSuperadmin jwt now token p
          × IsKept p.id s (manage jwt now token req s))
unfolding manage
manage-IsKept jwt now token req s o c = elim (Resp-cases (superadmin_only jwt now token)) [
  | inr (code, message, e) ↦ inl (rw (e, manage) refl)
  | inl (p, e) ↦ inr (
    p,
    superadmin_only-IsSuperadmin jwt now token p e,
    rw (e, manage) (perform-IsKept now p s o c req),
  )
]
