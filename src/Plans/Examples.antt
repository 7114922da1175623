-- ===== src/Plans/Examples.antt =====
-- Plans at concrete rows.
use image2prompt.Base.{
  ◌≡◌, refl, none, some, [], ◌∷◌, arith, sum_by, opened, All, length, IsWithin, IsWhole,
}
use image2prompt.Plans.{
  amount, entry, SubscriptionPlan, PlansDb, price_of, revenue_rollup, list_active,
}
use image2prompt.Plans.Sound.{IsSound, create, assign, after, plans-IsSound}
use image2prompt.Plans.Revenue.{pair_price, revenue_rollup-total}

abbrev basic : SubscriptionPlan
basic = record {
  id = "p1";
  name = "basic";
  description = none;
  status = "active";
  stacks = entry (some "pgvector") (amount 5_000_000) ∷ [];
  max_kbs = none;
  max_docs_per_kb = none;
}

abbrev tables : PlansDb
tables = record {
  plans = basic ∷ [];
  subscriptions =
      record { customer_id = "u1"; customer_email = none; plan_id = "p1"; status = "active" } ∷ [];
  audit = [];
}

revenue_rollup-total_example :
    IsWithin
      (length tables.plans)
      (revenue_rollup tables).0
      (sum_by pair_price (list_active tables.plans tables.subscriptions))
    × (All (λ p. IsWhole (price_of p.stacks)) tables.plans
        → (revenue_rollup tables).0
          ≡ sum_by pair_price (list_active tables.plans tables.subscriptions))
revenue_rollup-total_example = revenue_rollup-total tables

plans-IsSound_example : IsSound (
    after
      (assign "u1" none "p1" ∷ create basic ∷ [])
      (opened (record { plans = []; subscriptions = []; audit = [] })))
plans-IsSound_example =
    plans-IsSound (assign "u1" none "p1" ∷ create basic ∷ [])
      (opened (record { plans = []; subscriptions = []; audit = [] }))
      (record { clean = refl; priced = tt; one_plan = λ c. ground arith })
