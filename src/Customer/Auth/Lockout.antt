-- ===== src/Customer/Auth/Lockout.antt =====
-- The lockout of `login` against the passwords that were tried.
use image2prompt.Base.{
  ℕ, ◌-◌, ◌*◌, ◌+◌, ◌≤◌, ◌≡◌, ◌≢◌, ◌⊎◌, refl, inl, inr, String, Bool, true, false, ◌&&◌, Option,
  none, some, List, [], ◌∷◌, ◌++◌, All, length, count_if, count_if-append, leb, ◌==◌, eq_refl,
  arith, Session, Bool-cases, failure, ◌∙◌, if◌then◌else◌,
}
use native.Mathlib.Numerals.{add-one}
use image2prompt.Customer.{Customer, AuditLog, AuthDb}
use image2prompt.Customer.Daos.{
  get_by_email, record_audit, count_recent, last_event_at, latest, later_of, column_is,
}
use image2prompt.Customer.Tokens.{Fresh, verify_password}
use image2prompt.Customer.Auth.{
  Env, login, login_account, is_locked, failures_since, locked_message, customer_event,
  failed_event,
}

pub record Attempt : Type 0 where
  pub now : ℕ
  pub fresh : Fresh
  pub password : List ℕ

latest-append :
    (p : AuditLog → Bool) (best : Option ℕ) (as_ : List AuditLog) (a : AuditLog)
    → p a ≡ false
    → latest p best (as_ ++ a ∷ []) ≡ latest p best as_
latest-append p best [] a h = ground arith
latest-append p best (b ∷ as_) a h =
    latest-append p (if p b then later_of best b.created_at else best) as_ a h

pub count_recent-record_audit :
    (id action : String) (since : ℕ) (row : AuditLog) (d : AuthDb)
    → count_recent id action since (record_audit row d)
      ≡ count_recent id action since d
        + (if column_is row.actor_id id && row.action == action && leb since row.created_at
            then 1
            else 0)
unfolding count_recent record_audit
count_recent-record_audit id action since row d = omega (
  arith,
  count_if-append
      (λ (a : AuditLog). column_is a.actor_id id && a.action == action && leb since a.created_at)
      d.audit (row ∷ []),
)

count_if_mono :
    (p q : AuditLog → Bool) (as_ : List AuditLog)
    → ((a : AuditLog) → p a ≡ true → q a ≡ true)
    → count_if p as_ ≤ count_if q as_
count_if_mono p q [] f = omega arith
count_if_mono p q (a ∷ as_) f = ground (arith, f a, count_if_mono p q as_ f)

count_recent-le :
    (id action : String) (since : ℕ) (d : AuthDb)
    → count_recent id action since d ≤ count_recent id action 0 d
unfolding count_recent
count_recent-le id action since d = count_if_mono _ _ d.audit (λ a h. ground arith)

abbrev failed : String
failed = "customer.login.failure"

module _ (env : Env) (email : String) where
  open env use {bcrypt, settings}

  -- after the attempts, the latest at the head
  pub after_attempts : List Attempt → Session AuthDb → Session AuthDb
  after_attempts [] s = s
  after_attempts (a ∷ as_) s = (login env a.now a.fresh email a.password (after_attempts as_ s)).1

  -- What an attempt on an account can rely on, `since` a time.
  record Ready (c : Customer) (since n : ℕ) (d : AuthDb) : Type 0 where
    known : get_by_email email d ≡ some c
    never_unlocked : last_event_at c.id "customer.login.unlock" d ≡ none
    recent : count_recent c.id failed since d ≡ count_recent c.id failed 0 d
    counted :
        (n ≤ count_recent c.id failed since d)
        ⊎ (settings.login_lockout_threshold ≤ count_recent c.id failed since d)

  last_event_at-record_audit :
      (id action : String) (row : AuditLog) (d : AuthDb)
      → (row.action == action) ≡ false
      → last_event_at id action (record_audit row d) ≡ last_event_at id action d
  unfolding last_event_at record_audit
  last_event_at-record_audit id action row d h =
      latest-append (λ (a : AuditLog). column_is a.actor_id id && a.action == action) none d.audit
        row (ground arith)

  get_by_email-record_audit :
      (row : AuditLog) (d : AuthDb) → get_by_email email (record_audit row d) ≡ get_by_email email d
  unfolding get_by_email record_audit
  get_by_email-record_audit row d = refl

  module _ (c : Customer) (since n : ℕ) (d : AuthDb) (r : Ready c since n d) where
    locked-Ready :
        (now : ℕ)
        → settings.login_lockout_threshold ≤ count_recent c.id failed since d
        → Ready c since (n + 1) (record_audit (customer_event now "customer.login.locked" c) d)
    locked-Ready now full =
        let row = customer_event now "customer.login.locked" c in
        record {
          known = get_by_email-record_audit row d ∙ r.known;
          never_unlocked =
              last_event_at-record_audit c.id "customer.login.unlock" row d refl ∙ r.never_unlocked;
          recent = ground (
            arith,
            r.recent,
            count_recent-record_audit c.id failed since row d,
            count_recent-record_audit c.id failed 0 row d,
          );
          counted = inr (ground (arith, count_recent-record_audit c.id failed since row d));
        }

    failed-Ready :
        (now : ℕ)
        → since ≤ now
        → Ready c since (n + 1) (record_audit (failed_event env now (some c.id) email) d)
    failed-Ready now fits =
        let row = failed_event env now (some c.id) email in
        record {
          known = get_by_email-record_audit row d ∙ r.known;
          never_unlocked =
              last_event_at-record_audit c.id "customer.login.unlock" row d refl ∙ r.never_unlocked;
          recent = ground (
            arith,
            r.recent,
            count_recent-record_audit c.id failed since row d,
            count_recent-record_audit c.id failed 0 row d,
          );
          counted =
              ground
                (arith, r.counted, eq_refl c.id, count_recent-record_audit c.id failed since row d);
        }

    -- The window of the test lies within the failures that were counted.
    is_locked-full :
        (now : ℕ)
        → is_locked env now c d ≡ true
        → settings.login_lockout_threshold ≤ count_recent c.id failed since d
    unfolding is_locked
    is_locked-full now h =
        ground (arith, r.recent, count_recent-le c.id failed (failures_since env now c.id d) d)

    -- The test at the end of the attempts sees all of them.
    full-is_locked :
        (now : ℕ)
        → since ≡ now - settings.login_lockout_window_minutes * 60
        → settings.login_lockout_threshold ≢ 0
        → settings.login_lockout_threshold ≤ n
        → is_locked env now c d ≡ true
    unfolding is_locked failures_since
    full-is_locked now e on enough = ground (arith, r.never_unlocked, r.counted)

  attempt-Ready :
      (c : Customer) (since n : ℕ) (a : Attempt) (s : Session AuthDb)
      → Ready c since n s.working
      → since ≤ a.now
      → verify_password bcrypt a.password c.password_hash ≡ false
      → Ready c since (n + 1) (login env a.now a.fresh email a.password s).1.working
  unfolding login login_account
  attempt-Ready c since n a s r fits wrong = elim (Bool-cases (is_locked env a.now c s.working)) [
    | inl locked ↦
        rw (r.known, login, locked)
          (locked-Ready c since n s.working r a.now
            (is_locked-full c since n s.working r a.now locked))
    | inr open_ ↦ rw (r.known, login, open_, wrong) (failed-Ready c since n s.working r a.now fits)
  ]

  attempts-Ready :
      (c : Customer) (since : ℕ) (as_ : List Attempt) (s : Session AuthDb)
      → Ready c since 0 s.working
      → All (λ a. (since ≤ a.now) × (verify_password bcrypt a.password c.password_hash ≡ false)) as_
      → Ready c since (length as_) (after_attempts as_ s).working
  unfolding after_attempts
  attempts-Ready c since [] s r h = r
  attempts-Ready c since (a ∷ as_) s r ((fits, wrong), h) = rw (← add-one) (
      attempt-Ready c since (length as_) a (after_attempts as_ s) (attempts-Ready c since as_ s r h)
        fits wrong)

  -- An account with no failed sign-in so far, and never unlocked, is refused with "locked" whatever
  -- the password is, once as many wrong passwords as the threshold were tried within the window.
  pub wrong_passwords_lock :
      (now : ℕ) (fresh : Fresh) (password : List ℕ) (c : Customer) (as_ : List Attempt)
      (s : Session AuthDb)
      → get_by_email email s.working ≡ some c
      → last_event_at c.id "customer.login.unlock" s.working ≡ none
      → count_recent c.id failed 0 s.working ≡ 0
      → All
          (λ a.
            (now - settings.login_lockout_window_minutes * 60 ≤ a.now)
            × (verify_password bcrypt a.password c.password_hash ≡ false))
          as_
      → settings.login_lockout_threshold ≢ 0
      → settings.login_lockout_threshold ≤ length as_
      → (login env now fresh email password (after_attempts as_ s)).0
        ≡ failure "locked" (locked_message env now)
  unfolding login login_account
  wrong_passwords_lock now fresh password c as_ s known fresh_account none_failed tried on enough =
      let since = now - settings.login_lockout_window_minutes * 60 in
      let start : Ready c since 0 s.working = record {
        known = known;
        never_unlocked = fresh_account;
        recent = omega (arith, count_recent-le c.id failed since s.working);
        counted = inl (omega arith);
      } in
      let end = attempts-Ready c since as_ s start tried in
      let locked = full-is_locked c since (length as_) _ end now refl on enough in
      rw (end.known, login, locked) refl
