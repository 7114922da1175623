-- ===== src/Plans/Sound.antt =====
-- What every sequence of changes to plans and subscriptions keeps.
use image2prompt.Base.{
  ℕ, true, contains, ◌≤◌, ◌≡◌, refl, sym, subst, String, false, Option, none, some, List, [], ◌∷◌,
  All, All-append, any, count_if, count_if-append, update_if, find?, ◌==◌, eq_iff, arith,
  Option-cases, Bool-cases, inl, inr, Session, IsClean, rollback,
}
use image2prompt.Kb.{is_valid_stack}
use image2prompt.Plans.{
  missing, amount, negative, not_number, not_dict, entry, Entry, SubscriptionPlan,
  CustomerSubscription, PlansDb, UpdatePlan, of_customer, put_subscription, updated, named,
  name_taken, active_row,
}
use image2prompt.Plans
use image2prompt.Plans.Facade
use image2prompt.Plans.Facade.{
  validate_stacks, check_entry, settle, audited, check_update, settle_update,
}

-- the eight stacks that a plan can price
abbrev pub catalogue : List String
catalogue =
    "bedrock" ∷ "opensearch" ∷ "pgvector" ∷ "mongodb" ∷ "weaviate" ∷ "pinecone" ∷ "chroma" ∷ "neo4j"
    ∷ []

-- An entry names a stack of the catalogue, and its cost is absent or a number that is not negative.
pub data IsEntryPriced : Entry → Type 0 where
  unpriced :
      (stack : String)
      → contains catalogue stack ≡ true
      → IsEntryPriced (entry (some stack) missing)
  priced :
      (stack : String) (n : ℕ)
      → contains catalogue stack ≡ true
      → IsEntryPriced (entry (some stack) (amount n))

abbrev pub IsPriced : SubscriptionPlan → Type 0
IsPriced p = All IsEntryPriced p.stacks

check_entry-IsEntryPriced : (e : Entry) → check_entry e ≡ none → IsEntryPriced e
unfolding is_valid_stack
check_entry-IsEntryPriced not_dict h = ground (arith, h)
check_entry-IsEntryPriced (entry none c) h = ground (arith, h)
check_entry-IsEntryPriced (entry (some stack) missing) h = unpriced stack (ground (arith, h))
check_entry-IsEntryPriced (entry (some stack) (amount n)) h = priced stack n (ground (arith, h))
check_entry-IsEntryPriced (entry (some stack) negative) h = ground (arith, h)
check_entry-IsEntryPriced (entry (some stack) not_number) h = ground (arith, h)

-- what the validation accepts is priced
validated : (es : List Entry) → validate_stacks es ≡ none → All IsEntryPriced es
unfolding validate_stacks
validated [] h = tt
validated (e ∷ es) h = elim (Option-cases (check_entry e)) [
  | inr (err, f) ↦ absurd (ground (arith, h, f))
  | inl f ↦ (check_entry-IsEntryPriced e f, validated es (ground (arith, h, f)))
]

pub record IsSound (s : Session PlansDb) : Type 0 where
  pub clean : IsClean s
  pub priced : All IsPriced s.working.plans
  pub one_plan : (c : String) → count_if (of_customer c) s.working.subscriptions ≤ 1

-- the requests that change the tables; a request that raises is rolled back
pub data Op : Type 0 where
  create : SubscriptionPlan → Op
  update : UpdatePlan → Op
  assign : (customer_id : String) → Option String → (plan_id : String) → Op

abbrev pub finished : {A : Type 0} → Option A × Session PlansDb → Session PlansDb
finished (none, s) = rollback s
finished (some r, s) = s

unfoldable pub step : Op → Session PlansDb → Session PlansDb
step (create p) s = (Facade.create_plan p s).1
step (update u) s = finished (Facade.update_plan u s)
step (assign c email plan_id) s = (Facade.assign c email plan_id s).1

-- after the requests, the latest at the head
unfoldable pub after : List Op → Session PlansDb → Session PlansDb
after [] s = s
after (op ∷ ops) s = step op (after ops s)

count_if-none :
    (c : String) (ss : List CustomerSubscription)
    → any (of_customer c) ss ≡ false
    → count_if (of_customer c) ss ≡ 0
count_if-none c [] h = refl
count_if-none c (s ∷ ss) h = ground (arith, count_if-none c ss)

count_if-update_if :
    (c : String) (row : CustomerSubscription) (ss : List CustomerSubscription)
    → count_if (of_customer c) (update_if (of_customer row.customer_id) (λ _. row) ss)
      ≡ count_if (of_customer c) ss
count_if-update_if c row [] = refl
count_if-update_if c row (s ∷ ss) =
    ground (arith, count_if-update_if c row ss, eq_iff s.customer_id row.customer_id)

put_subscription-le :
    (row : CustomerSubscription) (ss : List CustomerSubscription)
    → ((c : String) → count_if (of_customer c) ss ≤ 1)
    → (c : String) → count_if (of_customer c) (put_subscription row ss) ≤ 1
unfolding put_subscription
put_subscription-le row ss h c = ground (
  arith,
  h c,
  count_if-update_if c row ss,
  count_if-append (of_customer c) ss (row ∷ []),
  count_if-none c ss,
  eq_iff row.customer_id c,
)

updated-IsPriced :
    (u : UpdatePlan) (p : SubscriptionPlan)
    → check_update u.stacks ≡ none
    → IsPriced p
    → IsPriced (updated u p)
unfolding updated
updated-IsPriced u p h q = elim (Option-cases u.stacks) [
  | inl e ↦ rw e q
  | inr (stacks, e) ↦ rw e (validated stacks (ground (arith, e, h)))
]

All-update_if :
    (u : UpdatePlan) (id : String) (ps : List SubscriptionPlan)
    → check_update u.stacks ≡ none
    → All IsPriced ps
    → All IsPriced (update_if (λ q. q.id == id) (updated u) ps)
All-update_if u id [] h a = tt
All-update_if u id (p ∷ ps) h (q, a) =
    (ground (arith, q, updated-IsPriced u p h q), All-update_if u id ps h a)

create-IsSound :
    (p : SubscriptionPlan) (s : Session PlansDb) → IsSound s → IsSound (Facade.create_plan p s).1
unfolding Facade.create_plan Plans.create_plan settle
create-IsSound p s h = elim (Option-cases (validate_stacks p.stacks)) [
  | inr (err, e) ↦ rw (e, Facade.create_plan) h
  | inl ok ↦ elim (Bool-cases (any (named p.name) s.working.plans)) [
    | inl taken ↦ rw (ok, Facade.create_plan, taken) h
    | inr free ↦
        rw (ok, Facade.create_plan, free)
          (record {
            clean = refl;
            priced =
                All-append IsPriced s.working.plans (p ∷ []) h.priced (validated p.stacks ok, tt);
            one_plan = h.one_plan;
          })
  ]
]

rollback-IsSound : (s : Session PlansDb) → IsSound s → IsSound (rollback s)
rollback-IsSound s h = record {
  clean = refl;
  priced = subst (λ (d : PlansDb). All IsPriced d.plans) (sym h.clean) h.priced;
  one_plan = λ c. ground (arith, h.clean, h.one_plan c);
}

update-IsSound :
    (u : UpdatePlan) (s : Session PlansDb) → IsSound s → IsSound (finished (Facade.update_plan u s))
unfolding Facade.update_plan Plans.update_plan settle
update-IsSound u s h = elim (Option-cases (check_update u.stacks)) [
  | inr (err, e) ↦ rw (e, Facade.update_plan) h
  | inl ok ↦
      elim (Option-cases (find? (λ (p : SubscriptionPlan). p.id == u.plan_id) s.working.plans)) [
        | inl e ↦ rw (ok, Facade.update_plan, e, Plans.update_plan) h
        | inr (p, e) ↦ elim (Bool-cases (name_taken (updated u p) s.working.plans)) [
          | inl taken ↦
              rw (ok, Facade.update_plan, e, Plans.update_plan, taken) (rollback-IsSound s h)
          | inr free ↦
              rw (ok, Facade.update_plan, e, Plans.update_plan, free)
                (record {
                  clean = refl;
                  priced = All-update_if u p.id s.working.plans ok h.priced;
                  one_plan = h.one_plan;
                })
        ]
      ]
]

assign-IsSound :
    (c : String) (email : Option String) (plan_id : String) (s : Session PlansDb)
    → IsSound s
    → IsSound (Facade.assign c email plan_id s).1
unfolding Facade.assign Plans.assign settle
assign-IsSound c email plan_id s h =
    elim (Option-cases (find? (λ (p : SubscriptionPlan). p.id == plan_id) s.working.plans)) [
      | inl e ↦ rw (e, Facade.assign, Plans.assign) h
      | inr (p, e) ↦
          rw (e, Facade.assign, Plans.assign)
            (record {
              clean = refl;
              priced = h.priced;
              one_plan =
                  put_subscription-le (active_row c email plan_id) s.working.subscriptions
                    h.one_plan;
            })
    ]

step-IsSound : (op : Op) (s : Session PlansDb) → IsSound s → IsSound (step op s)
unfolding step
step-IsSound (create p) s h = create-IsSound p s h
step-IsSound (update u) s h = update-IsSound u s h
step-IsSound (assign c email plan_id) s h = assign-IsSound c email plan_id s h

-- Whatever plans are created and changed and customers assigned: from tables that satisfy it, nothing
-- is left uncommitted, every entry of a stored plan names one of the eight stacks, with a cost that is absent or a number
-- not below zero, and
-- no customer has two subscriptions.
pub plans-IsSound : (ops : List Op) (s : Session PlansDb) → IsSound s → IsSound (after ops s)
unfolding after
plans-IsSound [] s h = h
plans-IsSound (op ∷ ops) s h = step-IsSound op (after ops s) (plans-IsSound ops s h)
