-- ===== src/Base/Transactions.antt =====
-- A SQLAlchemy session: what is committed, and what the open transaction sees. `add`, `delete`,
-- attribute writes and `flush` change the second; `commit` makes it the first; an exception that
-- leaves the request discards it.
use mathlib.Core.Path.{◌≡◌}

pub record Session {ℓ} (D : Type ℓ) : Type ℓ where
  pub durable : D
  pub working : D

module _ {ℓ} {D : Type ℓ} where
  abbrev pub commit : Session D → Session D
  commit s = record { durable = s.working; working = s.working }

  abbrev pub rollback : Session D → Session D
  rollback s = record { durable = s.durable; working = s.durable }

  abbrev pub write : (D → D) → Session D → Session D
  write f s = record { durable = s.durable; working = f s.working }

  abbrev pub opened : D → Session D
  opened d = record { durable = d; working = d }

  -- Nothing is left uncommitted.
  abbrev pub IsClean : Session D → Type ℓ
  IsClean s = s.durable ≡ s.working
