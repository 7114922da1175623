-- ===== src/Customer/Profile.antt =====
-- services/customer-service/app/facades/profile_facade.py and dao/preference_dao.py: a customer's
-- account and preferences, and the unlock that an administrator asks for.
pub mod Examples
use image2prompt.Base.{
  ℕ, String, Option, none, some, List, [], ◌∷◌, ◌++◌, find?, update_if, get_or, ◌==◌, Session,
  write, commit, Resp, success, failure,
}
use image2prompt.Customer.{Customer, CustomerPreference, AuditLog, AuthDb}
use image2prompt.Customer.Daos.{get_by_id, record_audit}

abbrev pub default_preference : String → CustomerPreference
default_preference customer_id = record {
  customer_id = customer_id;
  storage_backend = "local";
  default_provider_keys = [];
}

-- PreferenceDao.get_or_create
unfoldable pub get_or_create : (customer_id : String) → AuthDb → CustomerPreference × AuthDb
get_or_create customer_id d = elim (find? (λ p. p.customer_id == customer_id) d.preferences) [
  | some p ↦ (p, d)
  | none ↦ (
    default_preference customer_id,
    record d { preferences = d.preferences ++ default_preference customer_id ∷ [] },
  )
]

abbrev pub updated :
    (keys : Option (List String))
    → (backend : Option String) → CustomerPreference
    → CustomerPreference
updated keys backend p = record p {
  default_provider_keys = get_or keys p.default_provider_keys;
  storage_backend = get_or backend p.storage_backend;
}

-- PreferenceDao.update
unfoldable pub update :
    (customer_id : String)
    → (keys : Option (List String)) → (backend : Option String) → AuthDb
    → CustomerPreference × AuthDb
update customer_id keys backend d =
    let (p, d') = get_or_create customer_id d in
    (
      updated keys backend p,
      record d' {
        preferences =
            update_if (λ q. q.customer_id == customer_id) (updated keys backend) d'.preferences;
      },
    )

-- ProfileFacade.get_me
unfoldable pub get_me : (customer_id : String) → AuthDb → Resp Customer
get_me customer_id d = elim (get_by_id customer_id d) [
  | none ↦ failure "not_found" "Customer not found"
  | some c ↦ success c
]

-- ProfileFacade.get_preferences
unfoldable pub get_preferences :
    (customer_id : String) → Session AuthDb → CustomerPreference × Session AuthDb
get_preferences customer_id s =
    let (p, d) = get_or_create customer_id s.working in (p, commit (write (λ _. d) s))

-- ProfileFacade.update_preferences
unfoldable pub update_preferences :
    (customer_id : String)
    → (keys : Option (List String)) → (backend : Option String) → Session AuthDb
    → CustomerPreference × Session AuthDb
update_preferences customer_id keys backend s =
    let (p, d) = update customer_id keys backend s.working in (p, commit (write (λ _. d) s))

abbrev pub unlock_event : ℕ → Customer → AuditLog
unlock_event now c = record {
  actor_id = some c.id;
  actor_email = some c.email;
  action = "customer.login.unlock";
  target = none;
  created_at = now;
}

-- ProfileFacade.unlock_account
unfoldable pub unlock_account :
    (now : ℕ) → (customer_id : String) → Session AuthDb → Resp String × Session AuthDb
unlock_account now customer_id s = elim (get_by_id customer_id s.working) [
  | none ↦ (failure "not_found" "Customer not found", s)
  | some c ↦ (success "Account unlocked.", commit (write (record_audit (unlock_event now c)) s))
]
