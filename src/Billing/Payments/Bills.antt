-- ===== src/Billing/Payments/Bills.antt =====
-- services/customer-service/app/facades/payments_facade.py: the data of a charge, and its lines.
use image2prompt.Base.{
  ℕ, String, Bool, not, ◌&&◌, ◌^+◌, show, Option, none, some, List, [], ◌∷◌, find?, is_some, nat_eq,
  ◌==◌, if◌then◌else◌, Session,
}
use image2prompt.Kb.Daos.{StackUsage}
use image2prompt.Billing.{LineItem, BillingDb}
use image2prompt.Billing.Stripe.{StripeApi, InvoiceLineItem}

-- BillingClient.get_subscription: the plan's price per stack
pub record Plan : Type 0 where
  pub has_subscription : Bool
  pub plan_name : Option String
  pub stacks : List (String × ℕ)

pub record Env : Type 1 where
  pub api : StripeApi
  -- bool(settings.stripe_api_key)
  pub ready : Bool
  pub stripe_currency : String
  pub subscription : String → Plan
  pub kb_usage : String → List StackUsage

-- the session, and Stripe's data, which no rollback reaches
pub record State (D : Type 0) : Type 0 where
  pub session : Session BillingDb
  pub stripe : D

-- _compute_subscription
pub record Breakdown : Type 0 where
  pub has_subscription : Bool
  pub plan_name : Option String
  pub line_items : List LineItem
  pub monthly_total : ℕ
  pub currency : String

-- ChargeSubscriptionResp
pub record Charge : Type 0 where
  pub success : Bool
  pub configured : Bool
  pub already_billed : Bool
  pub invoice_id : Option String
  pub amount : ℕ
  pub currency : String
  pub status : Option String
  pub line_items : List LineItem
  pub period : String
  pub error_code : Option String

pub data Outcome : Type 0 where
  answered : Charge → Outcome
  threw : Outcome

-- prices.get(stack, 0.0) of the dict: of two prices of a stack the later one counts
abbrev pub price_of : List (String × ℕ) → String → ℕ
price_of [] stack = 0
price_of ((name, cost) ∷ prices) stack =
    let later = price_of prices stack in
    if name == stack && not (is_some (find? (λ (p : String × ℕ). p.0 == stack) prices))
    then cost
    else later

abbrev pub line_items : List (String × ℕ) → List StackUsage → List LineItem
line_items prices [] = []
line_items prices (u ∷ us) =
    let rest = line_items prices us in
    if nat_eq u.kb_count 0
    then rest
    else record {
      stack = u.stack;
      kb_count = u.kb_count;
      doc_count = u.doc_count;
      monthly_cost = price_of prices u.stack;
    }
      ∷ rest

abbrev pub invoice_line : LineItem → InvoiceLineItem
invoice_line li = record {
  description =
      "Project KB — "
      ^+ li.stack
      ^+ " ("
      ^+ show li.kb_count
      ^+ " KB, "
      ^+ show li.doc_count
      ^+ " docs)";
  amount = li.monthly_cost;
}

-- `x or y` on amounts
abbrev pub amount_or : ℕ → ℕ → ℕ
amount_or x y = if nat_eq x 0 then y else x

abbrev pub email_of : String → BillingDb → String
email_of id d = elim (find? (λ c. c.id == id) d.customers) [ none ↦ "" | some c ↦ c.email ]
