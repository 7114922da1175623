-- ===== src/Admin/Users.antt =====
-- services/admin-service/app/facades/admin_users_facade.py, dao/admin_user_dao.py and the guard of
-- api/admin_users_controller.py. Password hashes, clocks and primary keys are arguments.
pub mod Accounts
pub mod Kept
pub mod Examples
use image2prompt.Base.{
  ℕ, String, Bool, true, false, not, ◌&&◌, Option, none, some, List, [], ◌∷◌, ◌++◌, any, find?,
  keep_if, update_if, newest_first, contains, get_or, is_some, ◌==◌, if◌then◌else◌, Session, write,
  commit, Resp, success, failure,
}
use image2prompt.Customer.{AuditLog}
use image2prompt.Admin.{AdminUser, AdminDb, Jwt, record_audit}
use image2prompt.Admin.Access.{Principal, superadmin_only}

-- _VALID_ROLES
abbrev pub valid_roles : List String
valid_roles = "superadmin" ∷ "admin" ∷ "viewer" ∷ []

abbrev pub bad_role : Resp AdminUser
bad_role = failure "bad_request" "role must be one of ['admin', 'superadmin', 'viewer']"

-- AdminUserDao.list
unfoldable pub list : AdminDb → List AdminUser
list d = newest_first d.admins

-- AdminUserDao.create, where `a` is the row to insert
unfoldable pub create : AdminUser → AdminDb → Resp AdminUser × AdminDb
create a d =
    if any (λ b. b.email == a.email) d.admins
    then (failure "conflict" "Email already exists", d)
    else (success a, record d { admins = d.admins ++ a ∷ [] })

-- the attributes that AdminUserDao.update writes; `hashed` is the hash of a password that is not empty
abbrev pub updated : (role hashed : Option String) → AdminUser → AdminUser
updated role hashed a = record a {
  role = get_or role a.role;
  password_hash = get_or hashed a.password_hash;
}

-- AdminUserDao.update
unfoldable pub update :
    (admin_id : String) → (role hashed : Option String) → AdminDb → Resp AdminUser × AdminDb
update admin_id role hashed d = elim (find? (λ a. a.id == admin_id) d.admins) [
  | none ↦ (failure "not_found" "Admin not found", d)
  | some a ↦ (
    success (updated role hashed a),
    record d { admins = update_if (λ b. b.id == admin_id) (updated role hashed) d.admins },
  )
]

-- AdminUserDao.delete
unfoldable pub delete : (admin_id : String) → AdminDb → Resp AdminUser × AdminDb
delete admin_id d = elim (find? (λ a. a.id == admin_id) d.admins) [
  | none ↦ (failure "not_found" "Admin not found", d)
  | some a ↦ (success a, record d { admins = keep_if (λ b. not (b.id == admin_id)) d.admins })
]

abbrev pub event : (now : ℕ) → Principal → (action target : String) → AuditLog
event now actor action target = record {
  actor_id = some actor.id;
  actor_email = some actor.email;
  action = action;
  target = some target;
  created_at = now;
}

-- the end of a facade's operation: on success the audit entry and the commit
abbrev pub settle :
    AuditLog → Resp AdminUser × AdminDb → Session AdminDb → Resp AdminUser × Session AdminDb
settle entry (failure code message, d) s = (failure code message, s)
settle entry (success a, d) s = (success a, commit (write (λ _. record_audit entry d) s))

abbrev pub is_valid : Option String → Bool
is_valid none = true
is_valid (some role) = contains valid_roles role

module _ (now : ℕ) (actor : Principal) where
  -- AdminUsersFacade.create_admin
  unfoldable pub create_admin : AdminUser → Session AdminDb → Resp AdminUser × Session AdminDb
  create_admin a s =
      if not (contains valid_roles a.role)
      then (bad_role, s)
      else settle (event now actor "admin_user.create" a.email) (create a s.working) s

  -- AdminUsersFacade.update_admin
  unfoldable pub update_admin :
      (admin_id : String)
      → (role hashed : Option String) → Session AdminDb
      → Resp AdminUser × Session AdminDb
  update_admin admin_id role hashed s =
      if not (is_valid role)
      then (bad_role, s)
      else if is_some role && admin_id == actor.id
      then (failure "bad_request" "You cannot change your own role", s)
      else settle (event now actor "admin_user.update" admin_id)
          (update admin_id role hashed s.working) s

  -- AdminUsersFacade.unlock_admin
  unfoldable pub unlock_admin : (admin_id : String) → Session AdminDb → Session AdminDb
  unlock_admin admin_id s =
      let unlock : AuditLog = record {
        actor_id = some admin_id;
        actor_email = none;
        action = "admin.login.unlock";
        target = none;
        created_at = now;
      } in
      commit (
        write
          (λ d. record_audit (event now actor "admin_user.unlock" admin_id) (record_audit unlock d))
          s)

  -- AdminUsersFacade.delete_admin
  unfoldable pub delete_admin :
      (admin_id : String) → Session AdminDb → Resp AdminUser × Session AdminDb
  delete_admin admin_id s =
      if admin_id == actor.id
      then (failure "bad_request" "You cannot delete your own account", s)
      else settle (event now actor "admin_user.delete" admin_id) (delete admin_id s.working) s

-- the requests that manage administrators; a creation comes with the row's key and its hash
pub data Request : Type 0 where
  create_request : AdminUser → Request
  update_request : (admin_id : String) → (role hashed : Option String) → Request
  unlock_request : (admin_id : String) → Request
  delete_request : (admin_id : String) → Request

-- what a superadmin's request does
abbrev pub perform : ℕ → Principal → Request → Session AdminDb → Session AdminDb
perform now actor (create_request a) s = (create_admin now actor a s).1
perform now actor (update_request admin_id role hashed) s =
    (update_admin now actor admin_id role hashed s).1
perform now actor (unlock_request admin_id) s = unlock_admin now actor admin_id s
perform now actor (delete_request admin_id) s = (delete_admin now actor admin_id s).1

-- the endpoint: `superadmin_only`, then the facade
unfoldable pub manage :
    Jwt → ℕ → (token : Option String) → Request → Session AdminDb → Session AdminDb
manage jwt now token req s = elim (superadmin_only jwt now token) [
  | failure code message ↦ s
  | success actor ↦ perform now actor req s
]
