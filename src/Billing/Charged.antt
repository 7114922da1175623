-- ===== src/Billing/Charged.antt =====
-- What a charge puts on a customer's account at Stripe.
use image2prompt.Base.{
  ℕ, ◌+◌, ◌≡◌, ◌≢◌, refl, inl, inr, String, true, Option, List, [], ◌∷◌, All, length, map, sum_by,
  minor, from_minor, round2, IsWithin, IsWhole, minor-IsWithin, minor-IsWhole,
  sum_by-minor-IsWithin, sum_by-minor-IsWhole, get_or, arith, Option-cases, Bool-cases,
}
use image2prompt.Billing.{LineItem}
use image2prompt.Billing.Stripe.{
  InvoiceLineItem, Invoiced, truthy, ensure_customer, billable, create_invoice_for,
}
use image2prompt.Billing.Payments.{
  Env, State, Charge, answered, invoice_line, compute_subscription, ensure_stripe_customer,
  record_run, charge_new,
}
use image2prompt.Billing.Totals.{Ledger, total-billable, total-invoice_line, bill-total}

module _ (env : Env) (ledger : Ledger env.api) where
  open env use {api, ready}
  open api use {Data}
  open ledger use {items, items-customer}

  items-ensure_customer :
      (id email : String) (existing : Option String) (d : Data)
      → items id (ensure_customer api ready email existing d).1 ≡ items id d
  unfolding ensure_customer
  items-ensure_customer id email existing d = ground (arith, items-customer id email d)

  items-ensure :
      (id c : String) (s : State Data)
      → items id (ensure_stripe_customer env c s).1.stripe ≡ items id s.stripe
  unfolding ensure_stripe_customer
  items-ensure id c s = items-ensure_customer id _ _ s.stripe

  items-create_invoice_for :
      (cust : Option String) (cur : String) (lis : List InvoiceLineItem) (d : Data)
      → (create_invoice_for api ready cust cur lis d).0.success ≡ true
      → get_or (create_invoice_for api ready cust cur lis d).0.invoice_id "" ≢ ""
      → (id : String) × (items id (create_invoice_for api ready cust cur lis d).1
          ≡ items id d + sum_by (λ li. minor li.amount) lis)
  unfolding create_invoice_for
  items-create_invoice_for cust cur lis d ok made = elim (Bool-cases ready) [
    | inr off ↦ absurd (made (rw (off, create_invoice_for) refl))
    | inl on ↦ elim (Option-cases (truthy cust)) [
      | inl none_named ↦ absurd (made (rw (on, create_invoice_for, none_named) refl))
      | inr (id, named) ↦ (
        id,
        rw (on, create_invoice_for, named)
            (ground (
              arith,
              on,
              named,
              bill-total api ready ledger cur id (billable lis) d,
              total-billable lis,
            )),
      )
    ]
  ]

  record_run-answered :
      (c p : String) (inv : Invoiced) (s : State Data) (x : Charge)
      → (record_run env c p (compute_subscription env c) inv s).0 ≡ answered x
      → (x.success ≡ inv.success) × (x.invoice_id ≡ inv.invoice_id)
  unfolding record_run
  record_run-answered c p inv s x h = ground arith

  stripe-record_run :
      (c p : String) (inv : Invoiced) (s : State Data)
      → (record_run env c p (compute_subscription env c) inv s).1.stripe ≡ s.stripe
  unfolding record_run
  stripe-record_run c p inv s = ground arith

  -- what a charge adds at Stripe, in minor units
  abbrev pub billed : (customer_id : String) → ℕ
  billed c = sum_by (λ li. minor li.monthly_cost) (compute_subscription env c).line_items

  -- the total is rounded once, the items one by one
  billed-IsWithin :
      (c : String)
      → IsWithin
          (length (compute_subscription env c).line_items + 1)
          (from_minor (billed c))
          (compute_subscription env c).monthly_total
  unfolding compute_subscription round2
  billed-IsWithin c =
      let lines = (compute_subscription env c).line_items in
      let (a, b) = sum_by-minor-IsWithin (λ li. li.monthly_cost) lines in
      let (d, e) = minor-IsWithin (sum_by (λ li. li.monthly_cost) lines) in
      (omega (arith, a, b, d, e), omega (arith, a, b, d, e))

  sum_by-IsWhole :
      (lines : List LineItem)
      → All (λ li. IsWhole li.monthly_cost) lines
      → IsWhole (sum_by (λ li. li.monthly_cost) lines)
  sum_by-IsWhole [] h = (0, refl)
  sum_by-IsWhole (li ∷ lines) ((m, e), h) =
      let (k, f) = sum_by-IsWhole lines h in (m + k, omega (arith, e, f))

  billed-IsWhole :
      (c : String)
      → All (λ li. IsWhole li.monthly_cost) (compute_subscription env c).line_items
      → from_minor (billed c) ≡ (compute_subscription env c).monthly_total
  unfolding compute_subscription round2
  billed-IsWhole c h =
      let lines = (compute_subscription env c).line_items in
      omega (
        arith,
        sum_by-minor-IsWhole (λ li. li.monthly_cost) lines h,
        minor-IsWhole (sum_by (λ li. li.monthly_cost) lines) (sum_by-IsWhole lines h),
      )

  -- A charge of a period without a run that comes back with an invoice has added, to the invoice items
  -- of one customer at Stripe, the cost of every line, each rounded to minor units. That differs from
  -- the monthly total by at most half a minor unit for each line and another half, and is the monthly
  -- total where every line costs a whole number of minor units.
  pub charge_new-total :
      (c p : String) (s : State Data) (x : Charge)
      → (charge_new env c p s).0 ≡ answered x
      → x.success ≡ true
      → get_or x.invoice_id "" ≢ ""
      → (id : String) × (items id (charge_new env c p s).1.stripe ≡ items id s.stripe + billed c)
        × IsWithin
            (length (compute_subscription env c).line_items + 1)
            (from_minor (billed c))
            (compute_subscription env c).monthly_total
        × (All (λ li. IsWhole li.monthly_cost) (compute_subscription env c).line_items
            → from_minor (billed c) ≡ (compute_subscription env c).monthly_total)
  unfolding charge_new
  charge_new-total c p s x e ok invoiced =
      let ensured = ensure_stripe_customer env c s in
      let sub = compute_subscription env c in
      let made =
        create_invoice_for api ready ensured.0.0 sub.currency (map invoice_line sub.line_items)
          ensured.1.stripe in
      let t : State Data = record { session = ensured.1.session; stripe = made.1 } in
      elim (Bool-cases ensured.0.1) [
        | inr off ↦ absurd (invoiced (ground (arith, off, e)))
        | inl on ↦
            let same = record_run-answered c p made.0 t x (ground (arith, on, e)) in
            let (id, total) =
              items-create_invoice_for ensured.0.0 sub.currency (map invoice_line sub.line_items)
                ensured.1.stripe (ground (arith, same, ok))
                (λ empty. invoiced (ground (arith, same, empty))) in
            (
              id,
              rw (on, charge_new, stripe-record_run)
                  (ground (arith, total, items-ensure id c s, total-invoice_line sub.line_items)),
              billed-IsWithin c,
              billed-IsWhole c,
            )
      ]
