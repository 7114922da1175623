-- ===== src/Gateway/Csp/Bounded.antt =====
-- How much one CSP report request sends on: services/gateway/app/main.py, `csp_report`.
use image2prompt.Base.{
  subst, eq_iff, ℕ, zero, suc, ◌≤◌, ◌≡◌, ◌≢◌, refl, String, Bool, true, false, Option, some, List,
  [], ◌∷◌, length, ◌==◌, arith, if◌then◌else◌, Option-cases, Bool-cases, inl, inr, ◌⊎◌,
}
use image2prompt.Gateway.Headers.{get_header}
use image2prompt.Gateway.RateLimit.{RateLimiter}
use image2prompt.Gateway.Proxy.{Request, Env, rate_key, rate_limited}
use image2prompt.Gateway.Csp.{
  Json, null, flag, number, text, object, array, Items, no_items, item, Fields, Report, Kind,
  skipped, reported, malformed, kind_of, modern_report, reports_of, legacy, get, cap,
  normalize_csp_reports, or_nothing, header_or, reports_in, csp_report,
}

abbrev pub is_reported : Kind → Bool
is_reported skipped = false
is_reported malformed = false
is_reported (reported it body) = true

-- the reports among the first n items
abbrev pub count_reports : ℕ → Items → ℕ
count_reports zero its = 0
count_reports (suc n) no_items = 0
count_reports (suc n) (item it its) =
    let rest = count_reports n its in if is_reported (kind_of it) then suc rest else rest

-- none of the first n items has a body that is neither an object nor falsy
abbrev pub AreReadable : ℕ → Items → Type 0
AreReadable zero its = Unit
AreReadable (suc n) no_items = Unit
AreReadable (suc n) (item it its) = (kind_of it ≢ malformed) × AreReadable n its

Kind-cases :
    (k : Kind)
    → (k ≡ skipped) ⊎ ((k ≡ malformed) ⊎ ((it : Fields) × (body : Fields) × (k ≡ reported it body)))
Kind-cases skipped = inl refl
Kind-cases malformed = inr (inl refl)
Kind-cases (reported it body) = inr (inr (it, body, refl))

length-reports_of-le :
    (user_agent : String) (n : ℕ) (its : Items)
    → length (or_nothing (reports_of user_agent n its)) ≤ n
unfolding reports_of
length-reports_of-le user_agent zero its = omega arith
length-reports_of-le user_agent (suc n) no_items = omega arith
length-reports_of-le user_agent (suc n) (item it its) =
    let rest = length-reports_of-le user_agent n its in
    elim (Kind-cases (kind_of it)) [
      | inl e ↦ rw (e, reports_of) (omega (arith, rest))
      | inr (inl e) ↦ rw (e, reports_of) (omega arith)
      | inr (inr (i, b, e)) ↦ elim (Option-cases (reports_of user_agent n its)) [
        | inl f ↦ rw (e, f, reports_of) (omega arith)
        | inr (rs, f) ↦
            let bound : length rs ≤ n = subst (λ o. length (or_nothing o) ≤ n) f rest in
            rw (e, f, reports_of) (omega (arith, bound))
      ]
    ]

reports_of-count :
    (user_agent : String) (n : ℕ) (its : Items)
    → AreReadable n its
    → (rs : List Report) × (reports_of user_agent n its ≡ some rs)
      × (length rs ≡ count_reports n its)
unfolding reports_of
reports_of-count user_agent zero its h = ([], refl, refl)
reports_of-count user_agent (suc n) no_items h = ([], refl, refl)
reports_of-count user_agent (suc n) (item it its) (hi, h) =
    let (rs, e, l) = reports_of-count user_agent n its h in
    elim (Kind-cases (kind_of it)) [
      | inl k ↦ (rs, rw (k, e, reports_of) refl, rw k l)
      | inr (inl k) ↦ absurd (hi k)
      | inr (inr (i, b, k)) ↦
          (modern_report user_agent i b ∷ rs, rw (k, e, reports_of) refl, rw k (omega (arith, l)))
    ]

length-legacy-le : (user_agent : String) (v : Json) → length (legacy user_agent v) ≤ 20
length-legacy-le user_agent null = omega arith
length-legacy-le user_agent (flag b) = omega arith
length-legacy-le user_agent (number n) = omega arith
length-legacy-le user_agent (text s) = omega arith
length-legacy-le user_agent (object r) = omega arith
length-legacy-le user_agent (array its) = omega arith

length-normalize-le :
    (payload : Json) (user_agent : String)
    → length (or_nothing (normalize_csp_reports payload user_agent)) ≤ 20
unfolding normalize_csp_reports
length-normalize-le null user_agent = omega arith
length-normalize-le (flag b) user_agent = omega arith
length-normalize-le (number n) user_agent = omega arith
length-normalize-le (text s) user_agent = omega arith
length-normalize-le (object fs) user_agent = length-legacy-le user_agent (get "csp-report" fs)
length-normalize-le (array its) user_agent = length-reports_of-le user_agent cap its

module _ {limiter : RateLimiter} (env : Env limiter) (loads : String → Option Json) where
  length-reports_in-le :
      (body user_agent : String) → length (reports_in env loads body user_agent) ≤ 20
  length-reports_in-le body user_agent = elim (Bool-cases (body == "")) [
    | inl e ↦ rw e (omega arith)
    | inr e ↦ elim (Option-cases (loads body)) [
      | inl f ↦ rw (e, f) (omega arith)
      | inr (payload, f) ↦ rw (e, f) (length-normalize-le payload user_agent)
    ]
  ]

  reports_in-array :
      (body user_agent : String) (its : Items)
      → body ≢ ""
      → loads body ≡ some (array its)
      → AreReadable 20 its
      → length (reports_in env loads body user_agent) ≡ count_reports 20 its
  unfolding normalize_csp_reports
  reports_in-array body user_agent its n e r =
      let (rs, f, l) = reports_of-count user_agent 20 its r in
      let some_body : (body == "") ≡ false = ground (arith, eq_iff body "") in
      rw (some_body, e) (rw f l)

  -- Whatever is sent to the sink, it answers 204 and posts at most 20 reports to the admin service, and
  -- none when the client is over its budget. Within the budget, a list whose first 20 items are
  -- readable has as many posted as there are reports among these items.
  pub csp_report-bounded :
      (req : Request) (s : limiter.State)
      → ((csp_report env loads req s).0.status ≡ 204)
        × (length (csp_report env loads req s).0.posted ≤ 20)
        × ((rate_limited env env.now (rate_key env req) env.settings.rate_limit_rpm s).0 ≡ true
            → (csp_report env loads req s).0.posted ≡ [])
        × ((its : Items)
            → (rate_limited env env.now (rate_key env req) env.settings.rate_limit_rpm s).0 ≡ false
            → req.body ≢ ""
            → loads req.body ≡ some (array its)
            → AreReadable 20 its
            → length (csp_report env loads req s).0.posted ≡ count_reports 20 its)
  unfolding csp_report
  csp_report-bounded req s =
      let limited = (rate_limited env env.now (rate_key env req) env.settings.rate_limit_rpm s).0 in
      let agent = header_or (get_header "user-agent" req.headers) in
      (
        refl,
        elim (Bool-cases limited) [
          | inl e ↦ rw e (omega arith)
          | inr e ↦ rw e (length-reports_in-le req.body agent)
        ],
        (λ e. rw e refl),
        (λ its e n f r. rw e (reports_in-array req.body agent its n f r)),
      )
