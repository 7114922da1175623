-- ===== src/Billing.antt =====
-- services/customer-service/app/models.py (payment settings and billing runs),
-- services/customer-service/app/dao/billing_dao.py and payment_dao.py. Amounts of money
-- are those of Base.Money.
pub mod Stripe
pub mod Payments
pub mod Sweep
pub mod Recorded
pub mod Once
pub mod Totals
pub mod Charged
pub mod Examples
use image2prompt.Base.{
  ℕ, String, Bool, true, false, ◌&&◌, Option, none, some, List, [], ◌∷◌, ◌++◌, find?, any,
  update_if, ◌==◌, if◌then◌else◌,
}
use image2prompt.Customer.{Customer}

-- the dict `data` of a row: the key that the code reads, and the others as one text
pub record PaymentData : Type 0 where
  pub stripe_customer_id : Option String
  pub others : String

pub record PaymentSettings : Type 0 where
  pub customer_id : String
  pub stored : PaymentData

pub record LineItem : Type 0 where
  pub stack : String
  pub kb_count : ℕ
  pub doc_count : ℕ
  pub monthly_cost : ℕ

pub record BillingRun : Type 0 where
  pub customer_id : String
  pub period : String
  pub plan_name : Option String
  pub amount : ℕ
  pub currency : String
  pub invoice_id : Option String
  pub status : String
  pub line_items : List LineItem

pub record BillingDb : Type 0 where
  pub customers : List Customer
  pub payments : List PaymentSettings
  pub runs : List BillingRun

abbrev pub no_data : PaymentData
no_data = record { stripe_customer_id = none; others = "" }

abbrev pub is_run : String → String → BillingRun → Bool
is_run customer_id period r = r.customer_id == customer_id && r.period == period

-- BillingDao.get_run
unfoldable pub get_run : (customer_id period : String) → BillingDb → Option BillingRun
get_run customer_id period d = find? (is_run customer_id period) d.runs

-- BillingDao.create_run: the unique constraint raises (`none`) on a second row
unfoldable pub create_run : BillingRun → BillingDb → Option BillingDb
create_run r d =
    if any (is_run r.customer_id r.period) d.runs
    then none
    else some (record d { runs = d.runs ++ r ∷ [] })

-- PaymentDao.get_or_create: the settings, with the row that may be new
unfoldable pub get_or_create : String → BillingDb → PaymentData × BillingDb
get_or_create customer_id d = elim (find? (λ p. p.customer_id == customer_id) d.payments) [
  | some p ↦ (p.stored, d)
  | none ↦ (
    no_data,
    record d {
      payments = d.payments ++ record { customer_id = customer_id; stored = no_data } ∷ [];
    },
  )
]

-- `ps.data = data` on the customer's row
unfoldable pub set_data : String → PaymentData → BillingDb → BillingDb
set_data customer_id new d = record d {
  payments =
      update_if (λ p. p.customer_id == customer_id) (λ p. record p { stored = new }) d.payments;
}

-- PaymentDao.update: all of the data is replaced
unfoldable pub update_payment : String → PaymentData → BillingDb → BillingDb
update_payment customer_id new d = set_data customer_id new (get_or_create customer_id d).1
