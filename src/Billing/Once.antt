-- ===== src/Billing/Once.antt =====
-- A month is billed once.
use image2prompt.Base.{
  ◌≡◌, ◌≢◌, refl, String, true, some, List, [], ◌∷◌, ◌++◌, find?, find?-append, eq_iff, eq_refl,
  get_or, arith, Session, rollback, IsClean,
}
use image2prompt.Billing.{
  PaymentData, BillingRun, BillingDb, is_run, get_run, get_or_create, set_data, update_payment,
}
use image2prompt.Billing.Payments.{
  Env, State, Charge, answered, update_settings, already, charge_subscription, closed,
}
use image2prompt.Billing.Recorded.{
  HasRuns, runs-get_or_create, unrecorded, recorded, charge-Recorded, not_found,
}

module _ (env : Env) where
  open env use {api}
  open api use {Data}

  -- the requests that touch the runs or the settings, each in a session of its own
  pub data Op : Type 0 where
    charge : (customer_id period : String) → Op
    update : (customer_id : String) → PaymentData → Op

  unfoldable pub step : Op → State Data → State Data
  step (charge c p) s = closed env (charge_subscription env c p s).1
  step (update c kept) s = closed env (update_settings env c kept s)

  -- after the requests, the latest at the head
  unfoldable pub after : List Op → State Data → State Data
  after [] s = s
  after (op ∷ ops) s = step op (after ops s)

  -- One request adds runs at the end, if any, each for a customer and period that had none.
  record Grows (rs : List BillingRun) (s : State Data) : Type 0 where
    runs : List BillingRun
    has : HasRuns runs s.session
    keeps :
        (c p : String) (run : BillingRun)
        → find? (is_run c p) rs ≡ some run
        → find? (is_run c p) runs ≡ some run

  HasRuns-closed :
      (rs : List BillingRun) (s : Session BillingDb) → HasRuns rs s → HasRuns rs (rollback s)
  HasRuns-closed rs s h = record { working = h.durable; durable = h.durable }

  step-Grows :
      (op : Op) (rs : List BillingRun) (s : State Data)
      → HasRuns rs s.session
      → Grows rs (step op s)
  unfolding step update_settings update_payment set_data
  step-Grows (update c kept) rs s h = record {
    runs = rs;
    has =
        let same : (get_or_create c s.session.working).1.runs ≡ rs =
          ground (arith, runs-get_or_create c s.session.working, h.working) in
        record { working = same; durable = same };
    keeps = λ c p run e. e;
  }
  step-Grows (charge c p) rs s h = elim (charge-Recorded env c p rs s h) [
    | unrecorded has _ ↦ record { runs = rs; has = HasRuns-closed rs _ has; keeps = λ c p run e. e }
    | recorded r has free (same_c, same_p) _ ↦ record {
      runs = rs ++ r ∷ [];
      has = HasRuns-closed _ _ has;
      keeps = λ c' p' run e. ground (arith, e, find?-append (is_run c' p') rs (r ∷ []));
    }
  ]

  after-Grows :
      (ops : List Op) (rs : List BillingRun) (s : State Data)
      → HasRuns rs s.session
      → Grows rs (after ops s)
  unfolding after
  after-Grows [] rs s h = record { runs = rs; has = h; keeps = λ c p run e. e }
  after-Grows (op ∷ ops) rs s h =
      let before = after-Grows ops rs s h in
      let last = step-Grows op before.runs (after ops s) before.has in
      record {
        runs = last.runs;
        has = last.has;
        keeps = λ c p run e. last.keeps c p run (before.keeps c p run e);
      }

  charge-again :
      (c p : String) (s : State Data) (run : BillingRun)
      → get_run c p s.session.working ≡ some run
      → get_or run.invoice_id "" ≢ ""
      → charge_subscription env c p s ≡ (answered (already env p run), s)
  unfolding charge_subscription
  charge-again c p s run e id =
      rw (e, charge_subscription) (ground (arith, eq_iff (get_or run.invoice_id "") ""))

  -- A charge that came back with an invoice is the only one of its customer and period: after any
  -- charges and changes of settings, charging again answers "already billed" with the same invoice,
  -- and changes neither the tables nor anything at Stripe.
  pub charge_once :
      (c p : String) (s : State Data) (x : Charge) (ops : List Op)
      → IsClean s.session
      → (charge_subscription env c p s).0 ≡ answered x
      → x.success ≡ true
      → get_or x.invoice_id "" ≢ ""
      → (run : BillingRun) × (run.invoice_id ≡ x.invoice_id)
        × (charge_subscription env c p (after ops (closed env (charge_subscription env c p s).1))
            ≡ (
              answered (already env p run),
              after ops (closed env (charge_subscription env c p s).1),
            ))
  unfolding get_run
  charge_once c p s x ops clean e ok id =
      elim (charge-Recorded env c p s.session.durable.runs s
        (record { working = ground (arith, clean); durable = refl })) [
          | unrecorded has why ↦
              let (run, found, same) = why x e ok id in
              let all =
                after-Grows ops _ (closed env (charge_subscription env c p s).1)
                  (HasRuns-closed _ _ has) in
              (
                run,
                same,
                charge-again c p _ run (ground (arith, all.has.working, all.keeps c p run found))
                    (ground (arith, same, id)),
              )
          | recorded run has free (same_c, same_p) why ↦
              let all =
                after-Grows ops _ (closed env (charge_subscription env c p s).1)
                  (HasRuns-closed _ _ has) in
              (
                run,
                why x e,
                charge-again c p _ run
                    (ground (
                      arith,
                      all.has.working,
                      all.keeps c p run,
                      same_c,
                      same_p,
                      eq_refl c,
                      eq_refl p,
                      not_found c p s.session.durable.runs free,
                      find?-append (is_run c p) s.session.durable.runs (run ∷ []),
                    ))
                    (ground (arith, why x e, id)),
              )
        ]
