-- ===== src/Plans.antt =====
-- services/admin-service/app/models.py (subscription plans), services/admin-service/app/tech_stacks.py,
-- and services/admin-service/app/dao/subscription_dao.py. Costs are amounts of
-- Base.Money. Searching by ILIKE is left out.
pub mod Facade
pub mod Sound
pub mod Revenue
pub mod Examples
use image2prompt.Base.{
  ℕ, ◌*◌, ◌+◌, String, Bool, true, false, not, ◌&&◌, Option, none, some, List, [], ◌∷◌, ◌++◌, map,
  keep_if, find?, any, count_if, update_if, sum_by, round2, get_or, is_some, ◌==◌, if◌then◌else◌,
  Resp, success, failure,
}

-- the JSON value under "monthly_cost"
pub data Cost : Type 0 where
  missing : Cost
  amount : ℕ → Cost
  negative : Cost
  not_number : Cost

-- an entry of the JSON list `stacks`
pub data Entry : Type 0 where
  not_dict : Entry
  entry : (stack : Option String) → Cost → Entry

pub record SubscriptionPlan : Type 0 where
  pub id : String
  pub name : String
  pub description : Option String
  pub status : String
  pub stacks : List Entry
  pub max_kbs : Option ℕ
  pub max_docs_per_kb : Option ℕ

pub record CustomerSubscription : Type 0 where
  pub customer_id : String
  pub customer_email : Option String
  pub plan_id : String
  pub status : String

pub record AuditRow : Type 0 where
  pub action : String
  pub target : Option String

pub record PlansDb : Type 0 where
  pub plans : List SubscriptionPlan
  pub subscriptions : List CustomerSubscription
  pub audit : List AuditRow

-- UpdatePlanReq: an attribute that is None is left as it is
pub record UpdatePlan : Type 0 where
  pub plan_id : String
  pub name : Option String
  pub description : Option String
  pub status : Option String
  pub stacks : Option (List Entry)
  pub set_max_kbs : Bool
  pub max_kbs : Option ℕ
  pub set_max_docs_per_kb : Bool
  pub max_docs_per_kb : Option ℕ

abbrev pub named : String → SubscriptionPlan → Bool
named name p = p.name == name

-- SubscriptionDao.create_plan; the row is built by the caller
unfoldable pub create_plan : SubscriptionPlan → PlansDb → Resp SubscriptionPlan × PlansDb
create_plan p d =
    if any (named p.name) d.plans
    then (failure "conflict" "Plan name already exists", d)
    else (success p, record d { plans = d.plans ++ p ∷ [] })

abbrev pub keep_or : {A : Type 0} → A → Option A → A
keep_or old new = get_or new old

-- the attribute writes of an update
unfoldable pub updated : UpdatePlan → SubscriptionPlan → SubscriptionPlan
updated u p = record p {
  name = keep_or p.name u.name;
  description = if is_some u.description then u.description else p.description;
  status = keep_or p.status u.status;
  stacks = keep_or p.stacks u.stacks;
  max_kbs = if u.set_max_kbs then u.max_kbs else p.max_kbs;
  max_docs_per_kb = if u.set_max_docs_per_kb then u.max_docs_per_kb else p.max_docs_per_kb;
}

-- whether another plan has the name: the flush then violates the unique constraint
abbrev pub name_taken : SubscriptionPlan → List SubscriptionPlan → Bool
name_taken p ps = any (λ q. q.name == p.name && not (q.id == p.id)) ps

-- SubscriptionDao.update_plan; `none` where the flush raises
unfoldable pub update_plan : UpdatePlan → PlansDb → Option (Resp SubscriptionPlan) × PlansDb
update_plan u d = elim (find? (λ p. p.id == u.plan_id) d.plans) [
  | none ↦ (some (failure "not_found" "Plan not found"), d)
  | some p ↦
      let new = updated u p in
      if name_taken new d.plans then (none, d) else (
        some (success new),
        record d { plans = update_if (λ q. q.id == p.id) (updated u) d.plans },
      )
]

-- SubscriptionDao.get_plan
unfoldable pub get_plan : String → PlansDb → Resp SubscriptionPlan
get_plan plan_id d = elim (find? (λ p. p.id == plan_id) d.plans) [
  | none ↦ failure "not_found" "Plan not found"
  | some p ↦ success p
]

abbrev pub of_customer : String → CustomerSubscription → Bool
of_customer customer_id s = s.customer_id == customer_id

abbrev pub active_row :
    (customer_id : String) → Option String → (plan_id : String) → CustomerSubscription
active_row customer_id email plan_id = record {
  customer_id = customer_id;
  customer_email = email;
  plan_id = plan_id;
  status = "active";
}

-- the customer's row, new or rewritten
unfoldable pub put_subscription :
    CustomerSubscription → List CustomerSubscription → List CustomerSubscription
put_subscription s ss =
    if any (of_customer s.customer_id) ss
    then update_if (of_customer s.customer_id) (λ _. s) ss
    else ss ++ s ∷ []

-- SubscriptionDao.assign
unfoldable pub assign :
    (customer_id : String)
    → Option String
    → (plan_id : String) → PlansDb
    → Resp (CustomerSubscription × SubscriptionPlan) × PlansDb
assign customer_id email plan_id d = elim (find? (λ p. p.id == plan_id) d.plans) [
  | none ↦ (failure "not_found" "Plan not found", d)
  | some plan ↦
      let row = active_row customer_id email plan_id in
      (success (row, plan), record d { subscriptions = put_subscription row d.subscriptions })
]

-- SubscriptionDao.get_customer_subscription: the row and its plan, if there are such
unfoldable pub get_customer_subscription :
    String → PlansDb → Option (CustomerSubscription × Option SubscriptionPlan)
get_customer_subscription customer_id d = elim (find? (of_customer customer_id) d.subscriptions) [
  | none ↦ none
  | some s ↦ some (s, find? (λ p. p.id == s.plan_id) d.plans)
]

-- s.get("monthly_cost") or 0, of an entry that was validated
abbrev pub cost_of : Entry → ℕ
cost_of (entry stack (amount n)) = n
cost_of _ = 0

abbrev pub price_of : List Entry → ℕ
price_of stacks = sum_by cost_of stacks

abbrev pub is_active : CustomerSubscription → Bool
is_active s = s.status == "active"

pub record PlanRevenue : Type 0 where
  pub plan_id : String
  pub plan_name : String
  pub customers : ℕ
  pub plan_price : ℕ
  pub mrr : ℕ

-- the row of a plan in the rollup
unfoldable pub plan_revenue : List CustomerSubscription → SubscriptionPlan → PlanRevenue
plan_revenue ss p =
    let customers = count_if (λ s. is_active s && s.plan_id == p.id) ss in
    record {
      plan_id = p.id;
      plan_name = p.name;
      customers = customers;
      plan_price = round2 (price_of p.stacks);
      mrr = round2 (price_of p.stacks * customers);
    }

-- SubscriptionDao.revenue_rollup, up to the order of the rows
unfoldable pub revenue_rollup : PlansDb → ℕ × List PlanRevenue
revenue_rollup d =
    let rows = map (plan_revenue d.subscriptions) d.plans in
    (round2 (sum_by (λ r. r.mrr) rows), rows)

-- SubscriptionDao.list_active_subscriptions: the join, in the order of the subscriptions
abbrev pub join_plans :
    List SubscriptionPlan → CustomerSubscription → List (CustomerSubscription × SubscriptionPlan)
join_plans ps s = map (λ p. (s, p)) (keep_if (λ p. p.id == s.plan_id) ps)

unfoldable pub list_active :
    List SubscriptionPlan
    → List CustomerSubscription
    → List (CustomerSubscription × SubscriptionPlan)
list_active ps [] = []
list_active ps (s ∷ ss) =
    let rest = list_active ps ss in if is_active s then join_plans ps s ++ rest else rest
