-- ===== src/Billing/Totals.antt =====
-- What the bills put on a customer's account at Stripe.
use image2prompt.Base.{
  ℕ, ◌+◌, ◌<◌, ◌≡◌, ◌≢◌, refl, inl, inr, String, Bool, true, false, none, some, List, [], ◌∷◌, map,
  sum_by, minor, eq_iff, arith, Option-cases,
}
use image2prompt.Billing.{LineItem}
use image2prompt.Billing.Stripe.{
  StripeApi, InvoiceLineItem, billable, bill, create_items, invoice_items, create_invoice_for,
}
use image2prompt.Billing.Payments.{invoice_line}

-- What is on a customer's invoice items at Stripe, and how the calls change it, as Stripe documents
-- it, in minor units: a created item adds its amount, and no other call here touches the items.
pub record Ledger (api : StripeApi) : Type 0 where
  pub items : String → api.Data → ℕ
  pub items-item :
      (id : String) (n : ℕ) (cur text : String) (d : api.Data)
      → (api.create_item id n cur text d).0 ≡ true
      → items id (api.create_item id n cur text d).1 ≡ items id d + n
  pub items-customer :
      (id email : String) (d : api.Data) → items id (api.create_customer email d).1 ≡ items id d
  pub items-invoice :
      (id c : String) (d : api.Data) → items id (api.create_invoice c d).1 ≡ items id d
  pub items-finalize :
      (id i : String) (d : api.Data) → items id (api.finalize_invoice i d).1 ≡ items id d

pub total-billable :
    (items : List InvoiceLineItem)
    → sum_by (λ li. minor li.amount) (billable items) ≡ sum_by (λ li. minor li.amount) items
unfolding billable minor
total-billable [] = refl
total-billable (li ∷ items) = ground (arith, total-billable items)

amount-billable :
    (items : List InvoiceLineItem)
    → sum_by (λ li. li.amount) (billable items) ≡ sum_by (λ li. li.amount) items
unfolding billable
amount-billable [] = refl
amount-billable (li ∷ items) = ground (arith, amount-billable items)

pub total-invoice_line :
    (items : List LineItem)
    → sum_by (λ li. minor li.amount) (map invoice_line items)
      ≡ sum_by (λ li. minor li.monthly_cost) items
total-invoice_line [] = refl
total-invoice_line (li ∷ items) = ground (arith, total-invoice_line items)

module _ (api : StripeApi) (ready : Bool) (ledger : Ledger api) where
  open api use {Data, create_item, create_invoice, finalize_invoice}
  open ledger use {items, items-item, items-invoice, items-finalize}

  items-create_items :
      (id cur : String) (lis : List InvoiceLineItem) (d : Data)
      → (create_items api ready id cur lis d).0 ≡ true
      → items id (create_items api ready id cur lis d).1
        ≡ items id d + sum_by (λ li. minor li.amount) lis
  unfolding create_items
  items-create_items id cur [] d h = ground arith
  items-create_items id cur (li ∷ lis) d h =
      let d' = (create_item id (minor li.amount) cur li.description d).1 in
      ground (
        arith,
        items-item id (minor li.amount) cur li.description d,
        items-create_items id cur lis d',
      )

  items-invoice_items :
      (id cur : String) (lis : List InvoiceLineItem) (d : Data)
      → (invoice_items api ready id cur lis d).0.success ≡ true
      → items id (invoice_items api ready id cur lis d).1
        ≡ items id d + sum_by (λ li. minor li.amount) lis
  unfolding invoice_items
  items-invoice_items id cur lis d h =
      let d' = (create_items api ready id cur lis d).1 in
      let made = create_invoice id d' in
      elim (Option-cases made.0) [
        | inl failed ↦ absurd (ground (arith, failed))
        | inr (invoice, e) ↦ ground (
          arith,
          e,
          items-create_items id cur lis d,
          items-invoice id id d',
          items-finalize id invoice made.1,
        )
      ]

  created-create_items :
      (id cur : String) (lis : List InvoiceLineItem) (d : Data)
      → ((n : ℕ) (text : String) (d' : Data) → (create_item id n cur text d').0 ≡ true)
      → (create_items api ready id cur lis d).0 ≡ true
  unfolding create_items
  created-create_items id cur [] d h = refl
  created-create_items id cur (li ∷ lis) d h =
      rw (h (minor li.amount) li.description d, create_items) (created-create_items id cur lis _ h)

  pub bill-total :
      (cur id : String) (lis : List InvoiceLineItem) (d : Data)
      → (bill api ready cur lis id d).0.success ≡ true
      → items id (bill api ready cur lis id d).1 ≡ items id d + sum_by (λ li. minor li.amount) lis
  bill-total cur id [] d h = omega arith
  bill-total cur id (li ∷ lis) d h = items-invoice_items id cur (li ∷ lis) d h

  bill-fails :
      (id cur : String) (lis : List InvoiceLineItem) (d : Data)
      → 0 < sum_by (λ li. li.amount) lis
      → ((n : ℕ) (text : String) (d' : Data) → (create_item id n cur text d').0 ≡ true)
      → ((d' : Data) → (create_invoice id d').0 ≡ none)
      → ((bill api ready cur lis id d).0.success ≡ false)
        × (items id (bill api ready cur lis id d).1
            ≡ items id d + sum_by (λ li. minor li.amount) lis)
  unfolding invoice_items
  bill-fails id cur [] d some_due sent raises = absurd (omega arith)
  bill-fails id cur (li ∷ lis) d some_due sent raises =
      let d' = (create_items api ready id cur (li ∷ lis) d).1 in
      ground (
        arith,
        created-create_items id cur (li ∷ lis) d sent,
        items-create_items id cur (li ∷ lis) d,
        raises d',
        items-invoice id id d',
      )

  -- A bill whose invoice cannot be created is answered as a failure, and leaves all of its items,
  -- each rounded to minor units, on the customer's account, where the next bill creates them again.
  pub failed_bill_leaves_items :
      (id cur : String) (lis : List InvoiceLineItem) (d : Data)
      → ready ≡ true
      → id ≢ ""
      → 0 < sum_by (λ li. li.amount) lis
      → ((n : ℕ) (text : String) (d' : Data) → (create_item id n cur text d').0 ≡ true)
      → ((d' : Data) → (create_invoice id d').0 ≡ none)
      → ((create_invoice_for api ready (some id) cur lis d).0.success ≡ false)
        × (items id (create_invoice_for api ready (some id) cur lis d).1
            ≡ items id d + sum_by (λ li. minor li.amount) lis)
  unfolding create_invoice_for
  failed_bill_leaves_items id cur lis d on named some_due sent raises =
      let total = total-billable lis in
      let (fails, left) =
        bill-fails id cur (billable lis) d (omega (arith, amount-billable lis, some_due)) sent
          raises in
      rw (on, create_invoice_for) (ground (arith, eq_iff id "", fails, left, total))
