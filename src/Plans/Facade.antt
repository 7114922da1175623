-- ===== src/Plans/Facade.antt =====
-- services/admin-service/app/facades/subscriptions_facade.py.
use image2prompt.Base.{
  String, not, Option, none, some, List, [], ◌∷◌, ◌++◌, ◌^+◌, get_or, ◌==◌, if◌then◌else◌, Session,
  write, commit, Resp, success, failure,
}
use image2prompt.Kb.{is_valid_stack}
use image2prompt.Plans.{
  Cost, missing, amount, negative, not_number, Entry, not_dict, entry, SubscriptionPlan,
  CustomerSubscription, AuditRow, PlansDb, UpdatePlan,
}
use image2prompt.Plans

abbrev pub check_cost : String → Cost → Option String
check_cost stack missing = none
check_cost stack (amount n) = none
check_cost stack _ = some ("monthly_cost for " ^+ stack ^+ " must be a non-negative number")

-- one round of _validate_stacks; the catalogue is the one of the knowledge banks
abbrev pub check_entry : Entry → Option String
check_entry not_dict = some "each stack entry needs a 'stack' key"
check_entry (entry none cost) = some "each stack entry needs a 'stack' key"
check_entry (entry (some stack) cost) =
    if not (is_valid_stack stack)
    then some ("unknown tech stack: " ^+ stack)
    else check_cost stack cost

-- _validate_stacks of a list, which the schemas of the requests (PlanCreate, PlanUpdate) enforce
unfoldable pub validate_stacks : List Entry → Option String
validate_stacks [] = none
validate_stacks (e ∷ es) =
    let rest = validate_stacks es in elim (check_entry e) [ some err ↦ some err | none ↦ rest ]

-- _audit
abbrev pub audited : String → Option String → PlansDb → PlansDb
audited action target d = record d {
  audit = d.audit ++ record { action = action; target = target } ∷ [];
}

-- a DAO's answer: a success is audited and committed
unfoldable pub settle :
    {A : Type 0}
    → (action : String) → Option String
    → Resp A × PlansDb
    → Session PlansDb
    → Resp A × Session PlansDb
settle action target (failure code message, d) s = (failure code message, write (λ _. d) s)
settle action target (success x, d) s = (success x, commit (write (λ _. audited action target d) s))

-- SubscriptionsFacade.create_plan
unfoldable pub create_plan :
    SubscriptionPlan → Session PlansDb → Resp SubscriptionPlan × Session PlansDb
create_plan p s = elim (validate_stacks p.stacks) [
  | some err ↦ (failure "bad_request" err, s)
  | none ↦ settle "subscription.plan.create" (some p.name) (Plans.create_plan p s.working) s
]

-- the stacks of an update, where it has some
abbrev pub check_update : Option (List Entry) → Option String
check_update none = none
check_update (some stacks) = validate_stacks stacks

abbrev pub settle_update :
    UpdatePlan
    → Option (Resp SubscriptionPlan) × PlansDb
    → Session PlansDb
    → Option (Resp SubscriptionPlan) × Session PlansDb
settle_update u (none, d) s = (none, s)
settle_update u (some r, d) s =
    let (resp, s') = settle "subscription.plan.update" (some u.plan_id) (r, d) s in (some resp, s')

-- SubscriptionsFacade.update_plan; `none` where it raises, and the session is rolled back
unfoldable pub update_plan :
    UpdatePlan → Session PlansDb → Option (Resp SubscriptionPlan) × Session PlansDb
update_plan u s = elim (check_update u.stacks) [
  | some err ↦ (some (failure "bad_request" err), s)
  | none ↦ settle_update u (Plans.update_plan u s.working) s
]

-- customer_email or customer_id
abbrev pub email_or : Option String → String → String
email_or email customer_id = if get_or email "" == "" then customer_id else get_or email ""

-- SubscriptionsFacade.assign
unfoldable pub assign :
    (customer_id : String)
    → Option String
    → (plan_id : String) → Session PlansDb
    → Resp (CustomerSubscription × SubscriptionPlan) × Session PlansDb
assign customer_id email plan_id s =
    settle "subscription.assign" (some (email_or email customer_id))
      (Plans.assign customer_id email plan_id s.working) s
