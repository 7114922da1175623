-- ===== src/Violations/Counted.antt =====
-- What the table of CSP violations counts: services/admin-service/app/dao/csp_violation_dao.py.
use image2prompt.Base.{
  Option, ℕ, ◌+◌, ◌≤◌, ◌<◌, ◌≡◌, refl, String, true, false, List, [], ◌∷◌, ◌++◌, All, All-append,
  any, count_if, count_if-append, length, sum_by, ◌==◌, eq_iff, arith, if◌then◌else◌, Bool-cases,
  inl, inr, Session, IsClean,
}
use image2prompt.Violations.{
  Summary, IngestViolationReq, CspViolation, add_summary, touch, total_of, summarise, fingerprint,
  new_row, create, ingest,
}

add_summary-sum :
    (d : Option String) (n : ℕ) (gs : Summary)
    → sum_by (λ g. g.1) (add_summary d n gs) ≡ sum_by (λ g. g.1) gs + n
add_summary-sum d n [] = omega arith
add_summary-sum d n ((e, m) ∷ gs) = ground (arith, add_summary-sum d n gs)

module _ {R : Type 0} where
  -- how often reports with a fingerprint were counted
  abbrev pub seen : String → List (CspViolation R) → ℕ
  seen fp [] = 0
  seen fp (v ∷ vs) = (if v.fingerprint == fp then v.count else 0) + seen fp vs

  abbrev pub rows_with : String → List (CspViolation R) → ℕ
  rows_with fp = count_if (λ v. v.fingerprint == fp)

  -- Counts are positive, and no two rows have one fingerprint.
  pub record IsDeduped (vs : List (CspViolation R)) : Type 0 where
    pub positive : All (λ v. 0 < v.count) vs
    pub unique : (fp : String) → rows_with fp vs ≤ 1

  seen-touch :
      (fp other : String) (now : ℕ) (vs : List (CspViolation R))
      → All (λ v. 0 < v.count) vs
      → any (λ v. v.fingerprint == fp) vs ≡ true
      → seen other (touch fp now vs) ≡ seen other vs + (if fp == other then 1 else 0)
  seen-touch fp other now [] p h = ground (arith, h)
  seen-touch fp other now (v ∷ vs) (pv, p) h = ground (
    arith,
    pv,
    h,
    eq_iff v.fingerprint fp,
    eq_iff v.fingerprint other,
    eq_iff fp other,
    seen-touch fp other now vs p,
  )

  total-touch :
      (fp : String) (now : ℕ) (vs : List (CspViolation R))
      → All (λ v. 0 < v.count) vs
      → any (λ v. v.fingerprint == fp) vs ≡ true
      → total_of (touch fp now vs) ≡ total_of vs + 1
  total-touch fp now [] p h = ground (arith, h)
  total-touch fp now (v ∷ vs) (pv, p) h = ground (arith, pv, h, total-touch fp now vs p)

  rows_with-touch :
      (fp other : String) (now : ℕ) (vs : List (CspViolation R))
      → rows_with other (touch fp now vs) ≡ rows_with other vs
  rows_with-touch fp other now [] = refl
  rows_with-touch fp other now (v ∷ vs) = ground (arith, rows_with-touch fp other now vs)

  positive-touch :
      (fp : String) (now : ℕ) (vs : List (CspViolation R))
      → All (λ v. 0 < v.count) vs
      → All (λ v. 0 < v.count) (touch fp now vs)
  positive-touch fp now [] p = tt
  positive-touch fp now (v ∷ vs) (pv, p) = ground (arith, pv, p, positive-touch fp now vs p)

  rows_with-none :
      (fp : String) (vs : List (CspViolation R))
      → any (λ v. v.fingerprint == fp) vs ≡ false
      → rows_with fp vs ≡ 0
  rows_with-none fp [] h = refl
  rows_with-none fp (v ∷ vs) h = ground (arith, h, rows_with-none fp vs)

  seen-append :
      (fp : String) (vs ws : List (CspViolation R)) → seen fp (vs ++ ws) ≡ seen fp vs + seen fp ws
  seen-append fp [] ws = omega arith
  seen-append fp (v ∷ vs) ws = omega (arith, seen-append fp vs ws)

  total-append : (vs ws : List (CspViolation R)) → total_of (vs ++ ws) ≡ total_of vs + total_of ws
  total-append [] ws = omega arith
  total-append (v ∷ vs) ws = omega (arith, total-append vs ws)

  summarise-sum : (vs : List (CspViolation R)) → sum_by (λ g. g.1) (summarise vs) ≡ total_of vs
  summarise-sum [] = refl
  summarise-sum (v ∷ vs) =
      ground (
        arith,
        summarise-sum vs,
        add_summary-sum v.report.violated_directive v.count (summarise vs),
      )

  module _ (sha256 : String → String) where
    -- the reports among some that have a fingerprint
    abbrev pub reports_with : String → List (ℕ × IngestViolationReq R) → ℕ
    reports_with fp [] = 0
    reports_with fp ((now, req) ∷ rs) =
        (if fingerprint sha256 req == fp then 1 else 0) + reports_with fp rs

    -- reports that come in, one request after the other, each with its time
    abbrev pub ingest_all :
        List (ℕ × IngestViolationReq R)
        → Session (List (CspViolation R))
        → Session (List (CspViolation R))
    ingest_all [] s = s
    ingest_all ((now, req) ∷ rs) s = ingest_all rs (ingest sha256 now req s)

    create-seen :
        (other : String) (now : ℕ) (req : IngestViolationReq R) (vs : List (CspViolation R))
        → IsDeduped vs
        → seen other (create sha256 now req vs)
          ≡ seen other vs + (if fingerprint sha256 req == other then 1 else 0)
    unfolding create
    create-seen other now req vs h =
        let fp = fingerprint sha256 req in
        elim (Bool-cases (any (λ v. v.fingerprint == fp) vs)) [
          | inl e ↦ rw e (seen-touch fp other now vs h.positive e)
          | inr e ↦ rw e (ground (arith, seen-append other vs (new_row sha256 now req ∷ [])))
        ]

    create-total :
        (now : ℕ) (req : IngestViolationReq R) (vs : List (CspViolation R))
        → IsDeduped vs
        → total_of (create sha256 now req vs) ≡ total_of vs + 1
    unfolding create
    create-total now req vs h =
        let fp = fingerprint sha256 req in
        elim (Bool-cases (any (λ v. v.fingerprint == fp) vs)) [
          | inl e ↦ rw e (total-touch fp now vs h.positive e)
          | inr e ↦ rw e (ground (arith, total-append vs (new_row sha256 now req ∷ [])))
        ]

    create-IsDeduped :
        (now : ℕ) (req : IngestViolationReq R) (vs : List (CspViolation R))
        → IsDeduped vs
        → IsDeduped (create sha256 now req vs)
    unfolding create
    create-IsDeduped now req vs h =
        let fp = fingerprint sha256 req in
        elim (Bool-cases (any (λ v. v.fingerprint == fp) vs)) [
          | inl e ↦ rw e (record {
            positive = positive-touch fp now vs h.positive;
            unique = λ other. omega (arith, h.unique other, rows_with-touch fp other now vs);
          })
          | inr e ↦ rw e (record {
            positive = All-append _ vs (new_row sha256 now req ∷ []) h.positive (omega arith, tt);
            unique = λ other. ground (
              arith,
              h.unique other,
              count_if-append (λ v. v.fingerprint == other) vs (new_row sha256 now req ∷ []),
              rows_with-none fp vs e,
              eq_iff fp other,
            );
          })
        ]

    -- However many reports come in, and in whatever order: starting from a table with one row for each
    -- fingerprint, it stays so; a fingerprint is counted as often more as reports with it came, and the
    -- total, which the summary by directive adds up to, grows by the number of the reports; and
    -- nothing is left uncommitted.
    pub ingest_all-IsDeduped :
        (rs : List (ℕ × IngestViolationReq R)) (s : Session (List (CspViolation R)))
        → IsClean s
        → IsDeduped s.working
        → IsDeduped (ingest_all rs s).working
          × ((fp : String)
              → seen fp (ingest_all rs s).working ≡ seen fp s.working + reports_with fp rs)
          × (total_of (ingest_all rs s).working ≡ total_of s.working + length rs)
          × (sum_by (λ (g : Option String × ℕ). g.1) (summarise (ingest_all rs s).working)
              ≡ total_of s.working + length rs)
          × IsClean (ingest_all rs s)
    unfolding ingest
    ingest_all-IsDeduped [] s c h =
        (h, (λ fp. omega arith), omega arith, omega (arith, summarise-sum s.working), c)
    ingest_all-IsDeduped ((now, req) ∷ rs) s c h =
        let vs = create sha256 now req s.working in
        let (deduped, counts, total, summary, clean) =
          ingest_all-IsDeduped rs (ingest sha256 now req s) refl
            (create-IsDeduped now req s.working h) in
        (
          deduped,
          (λ fp. omega (arith, counts fp, create-seen fp now req s.working h)),
          omega (arith, total, create-total now req s.working h),
          omega (arith, summary, create-total now req s.working h),
          clean,
        )
