-- ===== src/Customer/Auth/Unlocked.antt =====
-- An unlocked account can sign in: services/customer-service/app/facades/profile_facade.py and the
-- lockout of facades/auth_facade.py.
use image2prompt.Base.{
  ◌∙◌, ℕ, ◌-◌, ◌*◌, ◌≤◌, ◌<◌, ◌≡◌, refl, String, Bool, true, false, ◌&&◌, Option, none, some, List,
  [], ◌∷◌, ◌++◌, All, count_if, leb, ltb, ◌==◌, eq_refl, arith, if◌then◌else◌, Bool-cases, inl, inr,
  Session, IsClean, succeeded,
}
use image2prompt.Customer.{Customer, AuditLog, AuthDb}
use image2prompt.Customer.Daos.{
  column_is, get_by_id, get_by_email, record_audit, count_recent, later_of, latest, last_event_at,
}
use image2prompt.Customer.Tokens.{verify_password, Fresh}
use image2prompt.Customer.Auth.{Env, is_locked, failures_since, login_account, login}
use image2prompt.Customer.Auth.Lockout.{count_recent-record_audit}
use image2prompt.Customer.Profile.{unlock_event, unlock_account}

later_of-ge : (o : Option ℕ) (t : ℕ) → (u : ℕ) × (later_of o t ≡ some u) × (t ≤ u)
later_of-ge none t = (t, refl, omega arith)
later_of-ge (some u) t = elim (Bool-cases (ltb u t)) [
  | inl e ↦ (t, rw e refl, omega arith)
  | inr e ↦ (u, rw e refl, ground (arith, e))
]

latest-hit :
    (p : AuditLog → Bool) (best : Option ℕ) (as_ : List AuditLog) (a : AuditLog)
    → p a ≡ true
    → latest p best (as_ ++ a ∷ []) ≡ later_of (latest p best as_) a.created_at
latest-hit p best [] a h = rw h refl
latest-hit p best (b ∷ as_) a h =
    latest-hit p (if p b then later_of best b.created_at else best) as_ a h

-- entries before a time are not counted from it on
count_if-before :
    (id action : String) (now since : ℕ) (as_ : List AuditLog)
    → now ≤ since
    → All (λ (a : AuditLog). a.created_at < now) as_
    → count_if
        (λ (a : AuditLog). column_is a.actor_id id && a.action == action && leb since a.created_at)
        as_
      ≡ 0
count_if-before id action now since [] le h = refl
count_if-before id action now since (a ∷ as_) le (ha, h) =
    ground (arith, le, ha, count_if-before id action now since as_ le h)

none_recent :
    (id : String) (now since : ℕ) (d : AuthDb)
    → now ≤ since
    → All (λ (a : AuditLog). a.created_at < now) d.audit
    → count_recent id "customer.login.failure" since d ≡ 0
unfolding count_recent
none_recent id now since d le h = count_if-before id "customer.login.failure" now since d.audit le h

last_unlock :
    (now : ℕ) (c : Customer) (d : AuthDb)
    → (u : ℕ) × (last_event_at c.id "customer.login.unlock" (record_audit (unlock_event now c) d)
        ≡ some u)
      × (now ≤ u)
unfolding last_event_at record_audit
last_unlock now c d =
    let p : AuditLog → Bool =
      λ a. column_is a.actor_id c.id && a.action == "customer.login.unlock" in
    let (u, e, le) = later_of-ge (latest p none d.audit) now in
    (u, latest-hit p none d.audit (unlock_event now c) (ground (arith, eq_refl c.id)) ∙ e, le)

module _ (env : Env) where
  open env use {bcrypt, settings}

  failures_since-unlocked :
      (now later : ℕ) (c : Customer) (d : AuthDb)
      → now ≤ failures_since env later c.id (record_audit (unlock_event now c) d)
  unfolding failures_since
  failures_since-unlocked now later c d =
      let (u, e, le) = last_unlock now c d in
      rw (e, failures_since)
        (elim (Bool-cases (ltb (later - settings.login_lockout_window_minutes * 60) u)) [
          | inl f ↦ rw f le
          | inr f ↦ ground (arith, f, le)
        ])

  unlocked :
      (now later : ℕ) (c : Customer) (d : AuthDb)
      → All (λ (a : AuditLog). a.created_at < now) d.audit
      → is_locked env later c (record_audit (unlock_event now c) d) ≡ false
  unfolding is_locked
  unlocked now later c d h =
      let since = failures_since env later c.id (record_audit (unlock_event now c) d) in
      ground (
        arith,
        count_recent-record_audit c.id "customer.login.failure" since (unlock_event now c) d,
        none_recent c.id now since d (failures_since-unlocked now later c d) h,
      )

  login_account-succeeds :
      (now : ℕ) (fresh : Fresh) (email : String) (password : List ℕ) (c : Customer)
      (s : Session AuthDb)
      → is_locked env now c s.working ≡ false
      → verify_password bcrypt password c.password_hash ≡ true
      → succeeded (login_account env now fresh email password c s).0 ≡ true
  unfolding login_account
  login_account-succeeds now fresh email password c s free v = rw (free, v) refl

  login-succeeds :
      (now : ℕ) (fresh : Fresh) (email : String) (password : List ℕ) (c : Customer)
      (s : Session AuthDb)
      → get_by_email email s.working ≡ some c
      → is_locked env now c s.working ≡ false
      → verify_password bcrypt password c.password_hash ≡ true
      → succeeded (login env now fresh email password s).0 ≡ true
  unfolding login
  login-succeeds now fresh email password c s m free v =
      rw (m, login) (login_account-succeeds now fresh email password c s free v)

  get_by_email-unlocked :
      (now : ℕ) (email : String) (c : Customer) (d : AuthDb)
      → get_by_email email (record_audit (unlock_event now c) d) ≡ get_by_email email d
  unfolding get_by_email record_audit
  get_by_email-unlocked now email c d = refl

  -- After the unlock of a known account, at a time after every entry of the audit log, the account is
  -- not locked at any time until something more is recorded: a sign-in with its password succeeds, if
  -- the address leads to the account. The unlock is committed.
  pub unlock_account-unlocks :
      (now later : ℕ) (fresh : Fresh) (email : String) (password : List ℕ) (c : Customer)
      (s : Session AuthDb)
      → get_by_id c.id s.working ≡ some c
      → get_by_email email s.working ≡ some c
      → All (λ (a : AuditLog). a.created_at < now) s.working.audit
      → verify_password bcrypt password c.password_hash ≡ true
      → IsClean (unlock_account now c.id s).1
        × (is_locked env later c (unlock_account now c.id s).1.working ≡ false)
        × (succeeded (login env later fresh email password (unlock_account now c.id s).1).0 ≡ true)
  unfolding unlock_account
  unlock_account-unlocks now later fresh email password c s k m h v =
      let free = unlocked now later c s.working h in
      rw (k, unlock_account)
        (
          refl,
          free,
          login-succeeds later fresh email password c _
              (get_by_email-unlocked now email c s.working ∙ m) free v,
        )
