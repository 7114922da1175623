-- ===== src/Billing/Recorded.antt =====
-- What one charge does to the billing runs.
use image2prompt.Base.{
  ◌≡◌, ◌≢◌, refl, inl, inr, String, true, false, not, ◌&&◌, none, some, List, [], ◌∷◌, ◌++◌, find?,
  any, ◌==◌, eq_iff, get_or, arith, Option-cases, Bool-cases, Session, write,
}
use image2prompt.Billing.{
  PaymentData, BillingRun, BillingDb, is_run, get_run, create_run, get_or_create, set_data,
}
use image2prompt.Billing.Stripe.{Ensured, Invoiced, ensure_customer}
use image2prompt.Billing.Payments.{
  Env, State, Breakdown, Charge, Outcome, answered, compute_subscription, store_id, email_of,
  ensure_stripe_customer, run_of, record_run, charge_new, has_invoice, charge_subscription,
}

-- Both sides of the session hold these runs.
pub record HasRuns (rs : List BillingRun) (s : Session BillingDb) : Type 0 where
  pub working : s.working.runs ≡ rs
  pub durable : s.durable.runs ≡ rs

pub runs-get_or_create : (id : String) (d : BillingDb) → (get_or_create id d).1.runs ≡ d.runs
unfolding get_or_create
runs-get_or_create id d = ground arith

find?-is_run :
    (c p : String) (rs : List BillingRun) (run : BillingRun)
    → find? (is_run c p) rs ≡ some run
    → any (is_run c p) rs ≡ true
find?-is_run c p [] run h = absurd (ground (arith, h))
find?-is_run c p (r ∷ rs) run h = ground (arith, find?-is_run c p rs run)

pub not_found :
    (c p : String) (rs : List BillingRun)
    → any (is_run c p) rs ≡ false
    → find? (is_run c p) rs ≡ none
not_found c p [] h = refl
not_found c p (r ∷ rs) h = ground (arith, not_found c p rs)

module _ (env : Env) where
  open env use {api, ready}
  open api use {Data}

  HasRuns-store_id :
      (rs : List BillingRun) (id : String) (kept : PaymentData) (ensured : Ensured)
      (s : Session BillingDb)
      → HasRuns rs s
      → HasRuns rs (store_id env id kept ensured s).1
  unfolding set_data
  HasRuns-store_id rs id kept ensured s h = record {
    working = ground (arith, h.working);
    durable = ground (arith, h.working, h.durable);
  }

  HasRuns-ensure :
      (rs : List BillingRun) (id : String) (s : State Data)
      → HasRuns rs s.session
      → HasRuns rs (ensure_stripe_customer env id s).1.session
  unfolding ensure_stripe_customer
  HasRuns-ensure rs id s h =
      let (kept, d) = get_or_create id s.session.working in
      HasRuns-store_id rs id kept
        (ensure_customer api ready (email_of id d) kept.stripe_customer_id s.stripe).0
        (write (λ _. d) s.session)
        (record {
          working = ground (arith, runs-get_or_create id s.session.working, h.working);
          durable = h.durable;
        })

  -- What a charge does to the runs: nothing, or one more for its customer and period, which had none.
  pub data Recorded (c p : String) (rs : List BillingRun) (out : Outcome) (s' : State Data)
      : Type 0 where
    unrecorded :
        HasRuns rs s'.session
        → ((x : Charge)
            → out ≡ answered x
            → x.success ≡ true
            → get_or x.invoice_id "" ≢ ""
            → (run : BillingRun) × (find? (is_run c p) rs ≡ some run)
              × (run.invoice_id ≡ x.invoice_id))
        → Recorded c p rs out s'
    recorded :
        (run : BillingRun)
        → HasRuns (rs ++ run ∷ []) s'.session
        → any (is_run c p) rs ≡ false
        → (run.customer_id ≡ c) × (run.period ≡ p)
        → ((x : Charge) → out ≡ answered x → run.invoice_id ≡ x.invoice_id)
        → Recorded c p rs out s'

  record_run-Recorded :
      (c p : String) (rs : List BillingRun) (sub : Breakdown) (inv : Invoiced) (s : State Data)
      → HasRuns rs s.session
      → Recorded c p rs (record_run env c p sub inv s).0 (record_run env c p sub inv s).1
  unfolding record_run create_run
  record_run-Recorded c p rs sub inv s h =
      elim (Bool-cases (inv.success && not (get_or inv.invoice_id "" == ""))) [
        | inr nothing ↦
            rw (nothing, record_run)
              (unrecorded h
                (λ x e ok id. absurd (ground (arith, e, eq_iff (get_or inv.invoice_id "") ""))))
        | inl made ↦ elim (Bool-cases (any (is_run c p) s.session.working.runs)) [
          | inl taken ↦
              rw (made, record_run, taken) (unrecorded h (λ x e ok id. absurd (ground (arith, e))))
          | inr free ↦
              rw (made, record_run, free)
                (recorded (run_of env c p sub inv)
                  (record {
                    working = ground (arith, h.working);
                    durable = ground (arith, h.working);
                  })
                  (ground (arith, free, h.working)) (refl, refl) (λ x e. ground (arith, e)))
        ]
      ]

  charge_new-Recorded :
      (c p : String) (rs : List BillingRun) (s : State Data)
      → HasRuns rs s.session
      → Recorded c p rs (charge_new env c p s).0 (charge_new env c p s).1
  unfolding charge_new
  charge_new-Recorded c p rs s h =
      let same = HasRuns-ensure rs c s h in
      elim (Bool-cases (ensure_stripe_customer env c s).0.1) [
        | inr off ↦
            rw (off, charge_new) (unrecorded same (λ x e ok id. absurd (id (ground (arith, e)))))
        | inl on ↦
            rw (on, charge_new)
              (record_run-Recorded c p rs (compute_subscription env c) _ _
                (record { working = same.working; durable = same.durable }))
      ]

  pub charge-Recorded :
      (c p : String) (rs : List BillingRun) (s : State Data)
      → HasRuns rs s.session
      → Recorded c p rs (charge_subscription env c p s).0 (charge_subscription env c p s).1
  unfolding charge_subscription get_run
  charge-Recorded c p rs s h = elim (Option-cases (get_run c p s.session.working)) [
    | inl e ↦ rw (e, charge_subscription) (charge_new-Recorded c p rs s h)
    | inr (run, e) ↦ elim (Bool-cases (has_invoice env run)) [
      | inr void ↦ rw (e, charge_subscription, void) (charge_new-Recorded c p rs s h)
      | inl billed ↦
          rw (e, charge_subscription, billed)
            (unrecorded h (λ x is ok id. (run, ground (arith, e, h.working), ground (arith, is))))
    ]
  ]
