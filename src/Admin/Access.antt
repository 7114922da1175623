-- ===== src/Admin/Access.antt =====
-- services/shared/image2prompt_shared/auth_dep.py and services/admin-service/app/deps.py: who may call
-- an endpoint.
use image2prompt.Base.{
  ℕ, String, Bool, false, not, ◌&&◌, Option, none, some, List, [], ◌∷◌, contains, ◌==◌, ◌^+◌,
  if◌then◌else◌, Resp, success, failure,
}
use image2prompt.Admin.{Claims, Jwt}

-- Principal
pub record Principal : Type 0 where
  pub id : String
  pub type : String
  pub email : String
  pub claims : Claims

abbrev pub principal : Claims → Principal
principal c = record { id = c.sub; type = c.typ; email = c.email; claims = c }

abbrev pub require_type : String → Principal → Resp Principal
require_type required p =
    if not (required == "") && not (p.type == required)
    then failure "403" ("Requires " ^+ required ^+ " privileges")
    else success p

-- the dependency of make_principal_dep; the code of a failure is the status of its HTTPException, and
-- "" stands for no required type
unfoldable pub principal_dep :
    Jwt → (now : ℕ) → (required : String) → (token : Option String) → Resp Principal
principal_dep jwt now required none = failure "401" "Missing bearer token"
principal_dep jwt now required (some token) =
    if token == "" then failure "401" "Missing bearer token" else elim (jwt.decode now token) [
      | none ↦ failure "401" "Invalid or expired token"
      | some c ↦ require_type required (principal c)
    ]

abbrev pub has_role : List String → Option String → Bool
has_role roles none = false
has_role roles (some r) = contains roles r

-- the texts of a list as Python prints them
abbrev pub listed : List String → String
listed [] = ""
listed (x ∷ []) = "'" ^+ x ^+ "'"
listed (x ∷ y ∷ xs) = "'" ^+ x ^+ "', " ^+ listed (y ∷ xs)

abbrev pub require_role : List String → Resp Principal → Resp Principal
require_role roles (failure code message) = failure code message
require_role roles (success p) =
    if not (has_role roles p.claims.role)
    then failure "403" ("Requires one of roles: [" ^+ listed roles ^+ "]")
    else success p

-- the dependency of make_role_dep
unfoldable pub role_dep :
    Jwt
    → (now : ℕ) → (required : String) → (roles : List String) → (token : Option String)
    → Resp Principal
role_dep jwt now required roles token = require_role roles (principal_dep jwt now required token)

-- WRITE_ROLES
abbrev pub write_roles : List String
write_roles = "admin" ∷ "superadmin" ∷ []

unfoldable pub current_admin : Jwt → ℕ → Option String → Resp Principal
current_admin jwt now token = principal_dep jwt now "admin" token

unfoldable pub admin_writer : Jwt → ℕ → Option String → Resp Principal
admin_writer jwt now token = role_dep jwt now "admin" write_roles token

unfoldable pub superadmin_only : Jwt → ℕ → Option String → Resp Principal
superadmin_only jwt now token = role_dep jwt now "admin" ("superadmin" ∷ []) token
