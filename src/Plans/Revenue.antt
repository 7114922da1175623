-- ===== src/Plans/Revenue.antt =====
-- The revenue that the dashboard shows, against the subscriptions that the sweep bills.
use image2prompt.Base.{
  ℕ, ◌+◌, ◌*◌, ◌≡◌, All, length, count_if, minor, from_minor, round2, IsWithin, IsWhole,
  minor-from_minor, sum_by-minor-IsWithin, sum_by-minor-IsWhole, refl, ◌&&◌, List, [], ◌∷◌, ◌++◌,
  map, sum_by, ◌==◌, eq_iff, if◌then◌else◌, arith, Bool-cases, inl, inr,
}
use image2prompt.Plans.{
  SubscriptionPlan, CustomerSubscription, PlansDb, price_of, is_active, plan_revenue,
  revenue_rollup, join_plans, list_active,
}

-- the list price of a joined pair
abbrev pub pair_price : CustomerSubscription × SubscriptionPlan → ℕ
pair_price x = price_of x.1.stacks

sum_by-append :
    {A : Type 0} (f : A → ℕ) (xs ys : List A) → sum_by f (xs ++ ys) ≡ sum_by f xs + sum_by f ys
sum_by-append f [] ys = omega arith
sum_by-append f (x ∷ xs) ys = omega (arith, sum_by-append f xs ys)

-- a plan's revenue before it is rounded
abbrev pub raw_mrr : List CustomerSubscription → SubscriptionPlan → ℕ
raw_mrr ss p = price_of p.stacks * count_if (λ s. is_active s && s.plan_id == p.id) ss

-- the plans' revenue of one more subscription
raw_mrr-cons :
    (s : CustomerSubscription) (ss : List CustomerSubscription) (ps : List SubscriptionPlan)
    → sum_by (raw_mrr (s ∷ ss)) ps
      ≡ (if is_active s then sum_by pair_price (join_plans ps s) else 0) + sum_by (raw_mrr ss) ps
raw_mrr-cons s ss [] = ground arith
raw_mrr-cons s ss (p ∷ ps) =
    let rest = raw_mrr-cons s ss ps in
    elim (Bool-cases (is_active s && s.plan_id == p.id)) [
      | inl hit ↦ ground (arith, rest, hit, eq_iff s.plan_id p.id, eq_iff p.id s.plan_id)
      | inr miss ↦ ground (arith, rest, miss, eq_iff s.plan_id p.id, eq_iff p.id s.plan_id)
    ]

raw_mrr-nil : (ps : List SubscriptionPlan) → sum_by (raw_mrr []) ps ≡ 0
raw_mrr-nil [] = refl
raw_mrr-nil (p ∷ ps) = omega (arith, raw_mrr-nil ps)

-- the prices of the active subscriptions
raw_mrr-active :
    (ps : List SubscriptionPlan) (ss : List CustomerSubscription)
    → sum_by (raw_mrr ss) ps ≡ sum_by pair_price (list_active ps ss)
unfolding list_active
raw_mrr-active ps [] = raw_mrr-nil ps
raw_mrr-active ps (s ∷ ss) = ground (
  arith,
  raw_mrr-active ps ss,
  raw_mrr-cons s ss ps,
  sum_by-append pair_price (join_plans ps s) (list_active ps ss),
)

-- the rows' revenue is rounded plan by plan
mrr-minor :
    (ss : List CustomerSubscription) (ps : List SubscriptionPlan)
    → sum_by (λ r. r.mrr) (map (plan_revenue ss) ps)
      ≡ from_minor (sum_by (λ p. minor (raw_mrr ss p)) ps)
unfolding plan_revenue round2
mrr-minor ss [] = refl
mrr-minor ss (p ∷ ps) = omega (arith, mrr-minor ss ps)

raw_mrr-IsWhole :
    (ss : List CustomerSubscription) (ps : List SubscriptionPlan)
    → All (λ p. IsWhole (price_of p.stacks)) ps
    → All (λ p. IsWhole (raw_mrr ss p)) ps
raw_mrr-IsWhole ss [] h = tt
raw_mrr-IsWhole ss (p ∷ ps) ((m, e), h) = (
  (m * count_if (λ s. is_active s && s.plan_id == p.id) ss, rw e (grind arith)),
  raw_mrr-IsWhole ss ps h,
)

rollup-rounded :
    (d : PlansDb)
    → (revenue_rollup d).0 ≡ from_minor (sum_by (λ p. minor (raw_mrr d.subscriptions p)) d.plans)
unfolding revenue_rollup round2
rollup-rounded d = ground (
  arith,
  mrr-minor d.subscriptions d.plans,
  minor-from_minor (sum_by (λ p. minor (raw_mrr d.subscriptions p)) d.plans),
)

-- The total of the revenue rollup, against the sum of the plans' list prices over the active
-- subscriptions that the billing sweep is handed: they differ by at most half a minor unit for each
-- plan, since the rollup rounds plan by plan, and are equal where every plan's price is a whole number
-- of minor units.
pub revenue_rollup-total :
    (d : PlansDb)
    → IsWithin
        (length d.plans)
        (revenue_rollup d).0
        (sum_by pair_price (list_active d.plans d.subscriptions))
      × (All (λ p. IsWhole (price_of p.stacks)) d.plans
          → (revenue_rollup d).0 ≡ sum_by pair_price (list_active d.plans d.subscriptions))
revenue_rollup-total d =
    let total = rollup-rounded d in
    let active = raw_mrr-active d.plans d.subscriptions in
    let (a, b) = sum_by-minor-IsWithin (raw_mrr d.subscriptions) d.plans in
    (
      (omega (arith, total, active, a, b), omega (arith, total, active, a, b)),
      (λ h. omega (
        arith,
        total,
        active,
        sum_by-minor-IsWhole (raw_mrr d.subscriptions) d.plans
            (raw_mrr-IsWhole d.subscriptions d.plans h),
      )),
    )
