-- ===== src/Customer/Auth/History.antt =====
-- Histories of the sign-in flows: requests and housekeeping in the order in which they run.
use image2prompt.Base.{ℕ, ◌≤◌, String, Option, List, [], ◌∷◌, Session, write, commit}
use image2prompt.Customer.{AuditLog, AuthDb}
use image2prompt.Customer.Daos.{prune_expired, record_audit}
use image2prompt.Customer.Tokens.{Fresh}
use image2prompt.Customer.Auth.{Env}
use image2prompt.Customer.Auth
use image2prompt.Customer.Auth.Refresh
use image2prompt.Customer.Auth.Links

-- the operations that change the tables; `audited` is a row that another feature commits
pub data Op : Type 0 where
  signup : Fresh → (id salt email : String) → List ℕ → Option String → Op
  login : Fresh → (email : String) → List ℕ → Op
  refresh : Fresh → (token : String) → Op
  logout : (token : String) → Op
  reset_password : (token : String) → List ℕ → (salt : String) → Op
  verify_email : (token : String) → Op
  prune : Op
  audited : AuditLog → Op

module _ (env : Env) where
  unfoldable pub step : ℕ → Op → Session AuthDb → Session AuthDb
  step now (signup fresh id salt email password name) s =
      (Auth.signup env now fresh id salt email password name s).1
  step now (login fresh email password) s = (Auth.login env now fresh email password s).1
  step now (refresh fresh token) s = (Refresh.refresh env now fresh token s).1
  step now (logout token) s = Refresh.logout env now token s
  step now (reset_password token password salt) s =
      (Links.reset_password env now token password salt s).1
  step now (verify_email token) s = (Links.verify_email env now token s).1
  step now prune s = (prune_expired now s).1
  step now (audited row) s = commit (write (record_audit row) s)

  -- after the operations, the latest at the head
  unfoldable pub after : List (ℕ × Op) → Session AuthDb → Session AuthDb
  after [] s = s
  after ((now, op) ∷ ops) s = step now op (after ops s)

-- The clock never goes back, from `start` to `end`.
abbrev pub IsForward : ℕ → List (ℕ × Op) → ℕ → Type 0
IsForward start [] end = start ≤ end
IsForward start ((now, op) ∷ ops) end = (now ≤ end) × IsForward start ops now
