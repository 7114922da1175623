-- ===== src/Billing/Examples.antt =====
-- Charges at a concrete plan, against a Stripe that keeps one number.
use image2prompt.Base.{
  ℕ, ◌+◌, ◌≡◌, ◌≢◌, refl, String, true, false, none, some, List, [], ◌∷◌, arith, eq_iff, sum_by,
  minor, round2, from_minor, IsWithin, IsWhole, All, length, opened, get_or,
}
use image2prompt.Billing.{BillingRun, get_run, create_run, get_or_create, set_data}
use image2prompt.Billing.Stripe.{
  StripeApi, InvoiceLineItem, billable, create_items, invoice_items, create_invoice_for,
  ensure_customer,
}
use image2prompt.Billing.Payments.{
  Env, State, Charge, answered, already, closed, compute_subscription, ensure_stripe_customer,
  record_run, charge_new, charge_subscription,
}
use image2prompt.Billing.Once.{charge, after, charge_once}
use image2prompt.Billing.Totals.{Ledger, failed_bill_leaves_items}
use image2prompt.Billing.Charged.{billed, charge_new-total}

abbrev api : StripeApi
api = record {
  Data = ℕ;
  create_customer = λ email d. (some "cus", d);
  create_item = λ c n cur text d. (true, d + n);
  create_invoice = λ c d. (some "in", d);
  finalize_invoice = λ i d. (
    some (record { id = "in"; hosted_invoice_url = none; amount_due = d; status = some "open" }),
    d,
  );
  create_setup_intent = λ c d. (none, d);
}

abbrev ledger : Ledger api
ledger = record {
  items = λ id d. d;
  items-item = λ id n cur text d h. refl;
  items-customer = λ id email d. refl;
  items-invoice = λ id c d. refl;
  items-finalize = λ id i d. refl;
}

abbrev env : Env
env = record {
  api = api;
  ready = true;
  stripe_currency = "usd";
  subscription = λ c. record {
    has_subscription = true;
    plan_name = some "basic";
    stacks = ("pgvector", 5_000_000) ∷ ("chroma", 7_000_000) ∷ [];
  };
  kb_usage = λ c. record { stack = "pgvector"; kb_count = 2; doc_count = 9 } ∷ [];
}

abbrev s : State ℕ
s = record { session = opened (record { customers = []; payments = []; runs = [] }); stripe = 0 }

abbrev first : Charge
first = record {
  success = true;
  configured = true;
  already_billed = false;
  invoice_id = some "in";
  amount = 5_000_000;
  currency = "usd";
  status = some "open";
  line_items =
      record { stack = "pgvector"; kb_count = 2; doc_count = 9; monthly_cost = 5_000_000 } ∷ [];
  period = "2025-01";
  error_code = none;
}

charge_new-first : (charge_new env "u1" "2025-01" s).0 ≡ answered first
unfolding charge_new compute_subscription ensure_stripe_customer get_or_create ensure_customer
    set_data create_invoice_for billable invoice_items create_items record_run create_run minor
    round2
charge_new-first = refl

charge-first : (charge_subscription env "u1" "2025-01" s).0 ≡ answered first
unfolding charge_subscription get_run
charge-first = charge_new-first

invoiced : get_or first.invoice_id "" ≢ ""
invoiced e = ground (arith, eq_iff "in" "")

charge_once_example :
    (run : BillingRun) × (run.invoice_id ≡ some "in")
    × (charge_subscription env "u1" "2025-01" (
          after env
            (charge "u2" "2025-01" ∷ [])
            (closed env (charge_subscription env "u1" "2025-01" s).1))
        ≡ (
          answered (already env "2025-01" run),
          after env
              (charge "u2" "2025-01" ∷ [])
              (closed env (charge_subscription env "u1" "2025-01" s).1),
        ))
charge_once_example =
    charge_once env "u1" "2025-01" s first (charge "u2" "2025-01" ∷ []) refl charge-first refl
      invoiced

charge_new-total_example :
    (id : String) × ((charge_new env "u1" "2025-01" s).1.stripe ≡ 0 + billed env ledger "u1")
    × IsWithin
        (length (compute_subscription env "u1").line_items + 1)
        (from_minor (billed env ledger "u1"))
        (compute_subscription env "u1").monthly_total
    × (All (λ li. IsWhole li.monthly_cost) (compute_subscription env "u1").line_items
        → from_minor (billed env ledger "u1") ≡ (compute_subscription env "u1").monthly_total)
charge_new-total_example =
    charge_new-total env ledger "u1" "2025-01" s first charge_new-first refl invoiced

-- the same, but no invoice can be created
abbrev down : StripeApi
down = record api { create_invoice = λ c d. (none, d) }

abbrev down_ledger : Ledger down
down_ledger = record {
  items = λ id d. d;
  items-item = λ id n cur text d h. refl;
  items-customer = λ id email d. refl;
  items-invoice = λ id c d. refl;
  items-finalize = λ id i d. refl;
}

abbrev lines : List InvoiceLineItem
lines = record { description = "bank"; amount = 5_000_000 } ∷ []

failed_bill_leaves_items_example :
    ((create_invoice_for down true (some "cus") "usd" lines 0).0.success ≡ false)
    × ((create_invoice_for down true (some "cus") "usd" lines 0).1
        ≡ 0 + sum_by (λ li. minor li.amount) lines)
failed_bill_leaves_items_example =
    failed_bill_leaves_items down true down_ledger "cus" "usd" lines 0 refl
      (λ e. ground (arith, eq_iff "cus" "")) (ground arith) (λ n text d. refl) (λ d. refl)
