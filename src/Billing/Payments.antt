-- ===== src/Billing/Payments.antt =====
-- services/customer-service/app/facades/payments_facade.py, and the monthly sweep of
-- services/customer-service/app/main.py. The services that are asked for plans and usage, and Stripe,
-- are parameters.
mod Bills
pub use Bills.*
use image2prompt.Base.{
  ℕ, String, Bool, true, false, not, ◌&&◌, ◌^+◌, show, Option, none, some, List, [], ◌∷◌, map,
  sum_by, round2, find?, get_or, is_some, nat_eq, ◌==◌, if◌then◌else◌, Session, write, commit,
  rollback,
}
use image2prompt.Kb.Daos.{StackUsage}
use image2prompt.Billing.{
  PaymentData, LineItem, BillingRun, BillingDb, get_run, create_run, get_or_create, set_data,
  update_payment,
}
use image2prompt.Billing.Stripe.{
  StripeApi, InvoiceLineItem, Ensured, Invoiced, ensure_customer, create_invoice_for,
}

module _ (env : Env) where
  open env use {api, ready, stripe_currency, subscription, kb_usage}
  open api use {Data}

  -- _compute_subscription
  unfoldable pub compute_subscription : String → Breakdown
  compute_subscription customer_id =
      let sub = subscription customer_id in
      let items = line_items sub.stacks (kb_usage customer_id) in
      record {
        has_subscription = sub.has_subscription;
        plan_name = sub.plan_name;
        line_items = items;
        monthly_total = round2 (sum_by (λ li. li.monthly_cost) items);
        currency = stripe_currency;
      }

  -- the new id is stored where it differs from the one that is there
  abbrev pub store_id :
      String → PaymentData → Ensured → Session BillingDb → Option String × Session BillingDb
  store_id customer_id kept ensured s = elim ensured.customer_id [
    | none ↦ (kept.stripe_customer_id, s)
    | some id ↦
        if ensured.configured && not (id == "") && not (get_or kept.stripe_customer_id "" == id)
        then (
          some id,
          commit (write (set_data customer_id (record kept { stripe_customer_id = some id })) s),
        )
        else (kept.stripe_customer_id, s)
  ]

  -- _ensure_stripe_customer: Stripe's id and whether Stripe is configured
  unfoldable pub ensure_stripe_customer : String → State Data → (Option String × Bool) × State Data
  ensure_stripe_customer customer_id s =
      let (kept, d) = get_or_create customer_id s.session.working in
      let (ensured, stripe) =
        ensure_customer api ready (email_of customer_id d) kept.stripe_customer_id s.stripe in
      let (id, session) = store_id customer_id kept ensured (write (λ _. d) s.session) in
      ((id, ensured.configured), record { session = session; stripe = stripe })

  -- PaymentsFacade.update_settings
  unfoldable pub update_settings : String → PaymentData → State Data → State Data
  update_settings customer_id kept s = record s {
    session = commit (write (update_payment customer_id kept) s.session);
  }

  abbrev pub run_of : (customer_id period : String) → Breakdown → Invoiced → BillingRun
  run_of customer_id period sub inv = record {
    customer_id = customer_id;
    period = period;
    plan_name = sub.plan_name;
    amount = amount_or inv.amount sub.monthly_total;
    currency = sub.currency;
    invoice_id = inv.invoice_id;
    status = get_or inv.status "created";
    line_items = sub.line_items;
  }

  abbrev pub charged : (period : String) → Breakdown → Invoiced → Charge
  charged period sub inv = record {
    success = inv.success;
    configured = inv.configured;
    already_billed = false;
    invoice_id = inv.invoice_id;
    amount = amount_or inv.amount sub.monthly_total;
    currency = sub.currency;
    status = inv.status;
    line_items = sub.line_items;
    period = period;
    error_code = inv.error_code;
  }

  -- the run is recorded when an invoice was created; a second run raises
  unfoldable pub record_run :
      (customer_id period : String) → Breakdown → Invoiced → State Data → Outcome × State Data
  record_run customer_id period sub inv s =
      if inv.success && not (get_or inv.invoice_id "" == "")
      then elim (create_run (run_of customer_id period sub inv) s.session.working) [
        | none ↦ (threw, s)
        | some d ↦ (
          answered (charged period sub inv),
          record s { session = commit (write (λ _. d) s.session) },
        )
      ]
      else (answered (charged period sub inv), s)

  -- the charge after the guard
  unfoldable pub charge_new : (customer_id period : String) → State Data → Outcome × State Data
  charge_new customer_id period s =
      let sub = compute_subscription customer_id in
      let ((id, configured), s') = ensure_stripe_customer customer_id s in
      if not configured
      then (
        answered (record {
          success = true;
          configured = false;
          already_billed = false;
          invoice_id = none;
          amount = sub.monthly_total;
          currency = sub.currency;
          status = some "stripe_not_configured";
          line_items = sub.line_items;
          period = period;
          error_code = none;
        }),
        s',
      )
      else (let (inv, stripe) =
            create_invoice_for api ready id sub.currency (map invoice_line sub.line_items)
              s'.stripe in
          record_run customer_id period sub inv (record s' { stripe = stripe }))

  abbrev pub already : (period : String) → BillingRun → Charge
  already period run = record {
    success = true;
    configured = true;
    already_billed = true;
    invoice_id = run.invoice_id;
    amount = run.amount;
    currency = run.currency;
    status = some run.status;
    line_items = run.line_items;
    period = period;
    error_code = none;
  }

  abbrev pub has_invoice : BillingRun → Bool
  has_invoice run = not (get_or run.invoice_id "" == "")

  -- PaymentsFacade.charge_subscription
  unfoldable pub charge_subscription :
      (customer_id period : String) → State Data → Outcome × State Data
  charge_subscription customer_id period s = elim (get_run customer_id period s.session.working) [
    | none ↦ charge_new customer_id period s
    | some run ↦
        if has_invoice run
        then (answered (already period run), s)
        else charge_new customer_id period s
  ]

  -- the session of a request closes: what was not committed is gone
  abbrev pub closed : State Data → State Data
  closed s = record s { session = rollback s.session }
