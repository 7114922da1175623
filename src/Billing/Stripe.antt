-- ===== src/Billing/Stripe.antt =====
-- services/customer-service/app/services/stripe_service.py. Stripe itself is a parameter: a call
-- succeeds with its answer or raises, and may have changed Stripe's data before it raised.
use image2prompt.Base.{
  ℕ, String, Bool, true, false, not, Option, none, some, List, [], ◌∷◌, keep_if, ltb, minor,
  from_minor, ◌==◌, if◌then◌else◌,
}

-- a finalized invoice, its amount in minor units; an amount that is absent is 0
pub record Invoice : Type 0 where
  pub id : String
  pub hosted_invoice_url : Option String
  pub amount_due : ℕ
  pub status : Option String

pub record StripeApi : Type 1 where
  pub Data : Type 0
  pub create_customer : (email : String) → Data → Option String × Data
  -- the amount in minor units
  pub create_item : (customer : String) → ℕ → (currency description : String) → Data → Bool × Data
  pub create_invoice : (customer : String) → Data → Option String × Data
  pub finalize_invoice : (invoice : String) → Data → Option Invoice × Data
  pub create_setup_intent : (customer : Option String) → Data → Option String × Data

pub record InvoiceLineItem : Type 0 where
  pub description : String
  pub amount : ℕ

-- EnsureCustomerResp
pub record Ensured : Type 0 where
  pub configured : Bool
  pub customer_id : Option String

-- CreateInvoiceResp
pub record Invoiced : Type 0 where
  pub success : Bool
  pub configured : Bool
  pub invoice_id : Option String
  pub hosted_invoice_url : Option String
  pub amount : ℕ
  pub status : Option String
  pub error_code : Option String

-- a text that is there and not empty
abbrev pub truthy : Option String → Option String
truthy none = none
truthy (some s) = if s == "" then none else some s

-- the answers that create no invoice
abbrev pub not_invoiced : Bool → Option String → Invoiced
not_invoiced configured status = record {
  success = true;
  configured = configured;
  invoice_id = none;
  hosted_invoice_url = none;
  amount = 0;
  status = status;
  error_code = none;
}

abbrev pub invoice_failed : Invoiced
invoice_failed = record {
  success = false;
  configured = false;
  invoice_id = none;
  hosted_invoice_url = none;
  amount = 0;
  status = none;
  error_code = some "upstream_error";
}

abbrev pub invoiced : Invoice → Invoiced
invoiced i = record {
  success = true;
  configured = true;
  invoice_id = some i.id;
  hosted_invoice_url = i.hosted_invoice_url;
  amount = from_minor i.amount_due;
  status = i.status;
  error_code = none;
}

-- [li for li in line_items if li.amount > 0]
unfoldable pub billable : List InvoiceLineItem → List InvoiceLineItem
billable items = keep_if (λ li. ltb 0 li.amount) items

module _ (api : StripeApi) (ready : Bool) where
  open api use {Data, create_customer, create_item, create_invoice, finalize_invoice}

  abbrev new_customer : Option String × Data → Ensured × Data
  new_customer (none, d) = (record { configured = false; customer_id = none }, d)
  new_customer (some id, d) = (record { configured = true; customer_id = some id }, d)

  -- StripeService.ensure_customer
  unfoldable pub ensure_customer : (email : String) → Option String → Data → Ensured × Data
  ensure_customer email existing d =
      if not ready
      then (record { configured = false; customer_id = none }, d)
      else elim (truthy existing) [
        | some id ↦ (record { configured = true; customer_id = some id }, d)
        | none ↦ new_customer (create_customer email d)
      ]

  -- one invoice item per line, up to the first call that raises
  unfoldable pub create_items :
      (customer currency : String) → List InvoiceLineItem → Data → Bool × Data
  create_items customer currency [] d = (true, d)
  create_items customer currency (li ∷ items) d =
      let (sent, d') = create_item customer (minor li.amount) currency li.description d in
      let rest = create_items customer currency items d' in if sent then rest else (false, d')

  abbrev after_finalize : Option Invoice × Data → Invoiced × Data
  after_finalize (none, d) = (invoice_failed, d)
  after_finalize (some i, d) = (invoiced i, d)

  abbrev after_invoice : Option String × Data → Invoiced × Data
  after_invoice (none, d) = (invoice_failed, d)
  after_invoice (some id, d) = after_finalize (finalize_invoice id d)

  -- the `try` block: the items, the invoice, its finalization
  unfoldable pub invoice_items :
      (customer currency : String) → List InvoiceLineItem → Data → Invoiced × Data
  invoice_items customer currency items d =
      let (sent, d') = create_items customer currency items d in
      if sent then after_invoice (create_invoice customer d') else (invoice_failed, d')

  abbrev pub bill : (currency : String) → List InvoiceLineItem → String → Data → Invoiced × Data
  bill currency [] customer d = (not_invoiced true (some "nothing_to_bill"), d)
  bill currency (li ∷ items) customer d = invoice_items customer currency (li ∷ items) d

  -- StripeService.create_invoice
  unfoldable pub create_invoice_for :
      Option String → (currency : String) → List InvoiceLineItem → Data → Invoiced × Data
  create_invoice_for customer currency items d =
      if not ready then (not_invoiced false none, d) else elim (truthy customer) [
        | none ↦ (not_invoiced true none, d)
        | some id ↦ bill currency (billable items) id d
      ]
