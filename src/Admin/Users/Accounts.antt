-- ===== src/Admin/Users/Accounts.antt =====
-- The accounts of administrators as a list: addresses, roles and what an insertion, an update and a
-- deletion leave of them (services/admin-service/app/dao/admin_user_dao.py).
use image2prompt.Base.{
  ℕ, ◌≤◌, ◌≡◌, refl, String, true, false, not, Option, none, some, List, [], ◌∷◌, ◌++◌, any, All,
  All-append, keep_if, update_if, count_if, count_if-append, contains, ◌==◌, eq_iff, arith,
  if◌then◌else◌, Bool-cases, inl, inr,
}
use image2prompt.Admin.{AdminUser}
use image2prompt.Admin.Users
use image2prompt.Admin.Users.{
  valid_roles, create, updated, update, delete, create_admin, update_admin, unlock_admin,
  delete_admin, Request, create_request, update_request, unlock_request, delete_request, perform,
  manage,
}

abbrev pub with_email : String → List AdminUser → ℕ
with_email e = count_if (λ a. a.email == e)

abbrev pub HasValidRole : AdminUser → Type 0
HasValidRole a = contains valid_roles a.role ≡ true

-- No two accounts share an address, and every role is one of the three.
pub record IsOrderly (admins : List AdminUser) : Type 0 where
  pub unique : (e : String) → with_email e admins ≤ 1
  pub roles : All HasValidRole admins

-- the role of the account with an id
abbrev pub role_of : String → List AdminUser → Option String
role_of id [] = none
role_of id (a ∷ us) = if a.id == id then some a.role else role_of id us

with_email-none :
    (e : String) (us : List AdminUser) → any (λ a. a.email == e) us ≡ false → with_email e us ≡ 0
with_email-none e [] h = refl
with_email-none e (a ∷ us) h = ground (arith, h, with_email-none e us)

pub with_email-update :
    (e id : String) (role hashed : Option String) (us : List AdminUser)
    → with_email e (update_if (λ a. a.id == id) (updated role hashed) us) ≡ with_email e us
with_email-update e id role hashed [] = refl
with_email-update e id role hashed (a ∷ us) = ground (arith, with_email-update e id role hashed us)

pub with_email-delete :
    (e id : String) (us : List AdminUser)
    → with_email e (keep_if (λ a. not (a.id == id)) us) ≤ with_email e us
with_email-delete e id [] = omega arith
with_email-delete e id (a ∷ us) = ground (arith, with_email-delete e id us)

pub roles-delete :
    (id : String) (us : List AdminUser)
    → All HasValidRole us
    → All HasValidRole (keep_if (λ a. not (a.id == id)) us)
roles-delete id [] h = tt
roles-delete id (a ∷ us) (ha, h) = elim (Bool-cases (a.id == id)) [
  | inl e ↦ rw e (roles-delete id us h)
  | inr e ↦ rw e (ha, roles-delete id us h)
]

updated-HasValidRole :
    (role hashed : Option String) (a : AdminUser)
    → Users.is_valid role ≡ true
    → HasValidRole a
    → HasValidRole (updated role hashed a)
updated-HasValidRole none hashed a v h = h
updated-HasValidRole (some r) hashed a v h = v

pub roles-update :
    (id : String) (role hashed : Option String) (us : List AdminUser)
    → Users.is_valid role ≡ true
    → All HasValidRole us
    → All HasValidRole (update_if (λ a. a.id == id) (updated role hashed) us)
roles-update id role hashed [] v h = tt
roles-update id role hashed (a ∷ us) v (ha, h) = elim (Bool-cases (a.id == id)) [
  | inl e ↦ rw e (updated-HasValidRole role hashed a v ha, roles-update id role hashed us v h)
  | inr e ↦ rw e (ha, roles-update id role hashed us v h)
]

pub role_of-append :
    (id r : String) (us bs : List AdminUser)
    → role_of id us ≡ some r
    → role_of id (us ++ bs) ≡ some r
role_of-append id r [] bs h = ground (arith, h)
role_of-append id r (a ∷ us) bs h = ground (arith, h, role_of-append id r us bs)

pub role_of-delete :
    (id other : String) (us : List AdminUser)
    → (other == id) ≡ false
    → role_of id (keep_if (λ a. not (a.id == other)) us) ≡ role_of id us
role_of-delete id other [] n = refl
role_of-delete id other (a ∷ us) n =
    ground
      (arith, n, eq_iff a.id id, eq_iff a.id other, eq_iff other id, role_of-delete id other us n)

pub role_of-update_other :
    (id other : String) (role hashed : Option String) (us : List AdminUser)
    → (other == id) ≡ false
    → role_of id (update_if (λ a. a.id == other) (updated role hashed) us) ≡ role_of id us
role_of-update_other id other role hashed [] n = refl
role_of-update_other id other role hashed (a ∷ us) n = ground (
  arith,
  n,
  eq_iff a.id id,
  eq_iff a.id other,
  eq_iff other id,
  role_of-update_other id other role hashed us n,
)

pub role_of-update_none :
    (id other : String) (hashed : Option String) (us : List AdminUser)
    → role_of id (update_if (λ a. a.id == other) (updated none hashed) us) ≡ role_of id us
role_of-update_none id other hashed [] = refl
role_of-update_none id other hashed (a ∷ us) =
    ground (arith, role_of-update_none id other hashed us)

pub create-IsOrderly :
    (a : AdminUser) (us : List AdminUser)
    → IsOrderly us
    → contains valid_roles a.role ≡ true
    → any (λ b. b.email == a.email) us ≡ false
    → IsOrderly (us ++ a ∷ [])
create-IsOrderly a us o v n = record {
  unique = λ e. ground (
    arith,
    o.unique e,
    count_if-append (λ b. b.email == e) us (a ∷ []),
    with_email-none a.email us n,
    eq_iff a.email e,
  );
  roles = All-append HasValidRole us (a ∷ []) o.roles (v, tt);
}
