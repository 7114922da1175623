-- ===== src/Billing/Sweep.antt =====
-- services/customer-service/app/main.py: the monthly billing sweep.
use image2prompt.Base.{ℕ, ◌+◌, String, not, ◌||◌, List, [], ◌∷◌, get_or, ◌==◌, if◌then◌else◌}
use image2prompt.Billing.Payments.{
  Env, State, Outcome, answered, threw, charge_subscription, closed,
}

module _ (env : Env) where
  open env use {api}
  open api use {Data}

  pub record Tally : Type 0 where
    pub billed : ℕ
    pub skipped : ℕ
    pub failed : ℕ

  -- one customer of the sweep, counted
  unfoldable pub tally : Outcome → Tally → Tally
  tally threw t = record t { failed = t.failed + 1 }
  tally (answered c) t =
      let status = get_or c.status "" in
      if not c.success
      then record t { failed = t.failed + 1 }
      else if c.already_billed || status == "nothing_to_bill" || status == "stripe_not_configured"
      then record t { skipped = t.skipped + 1 }
      else record t { billed = t.billed + 1 }

  -- _run_billing_sweep over the customers of the active subscriptions, in one period
  unfoldable pub sweep : (period : String) → List String → Tally → State Data → Tally × State Data
  sweep period [] t s = (t, s)
  sweep period (customer_id ∷ ids) t s =
      if customer_id == ""
      then sweep period ids t s
      else (let (out, s') = charge_subscription env customer_id period s in
          sweep period ids (tally out t) (closed env s'))
