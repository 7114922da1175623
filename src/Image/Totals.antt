-- ===== src/Image/Totals.antt =====
-- The totals of services/image-processing-service/app/dao/stats_dao.py add up.
use image2prompt.Base.{
  length-newest_first, ◌<◌, ℕ, ◌+◌, ◌≤◌, ◌≡◌, refl, List, [], ◌∷◌, length, take, count_if, sum_by,
  All, All-imp, All-take, length-take-le, All-newest_first, nat_eq, arith, if◌then◌else◌,
}
use image2prompt.Image.{ProcReqLog, ProcReqLogProvider, ImageDb, RequestStatus}
use image2prompt.Image.Daos.{is_success}
use image2prompt.Image.Stats.{
  add_status, by_status, ProviderStats, errors, success_case, add_row, by_provider, add_day, by_day,
  stats,
}

add_status-sum :
    (st : RequestStatus) (gs : List (RequestStatus × ℕ))
    → sum_by (λ g. g.1) (add_status st gs) ≡ sum_by (λ g. g.1) gs + 1
add_status-sum st [] = omega arith
add_status-sum st ((t, n) ∷ gs) = ground (arith, add_status-sum st gs)

by_status-sum : (rs : List ProcReqLog) → sum_by (λ g. g.1) (by_status rs) ≡ length rs
by_status-sum [] = refl
by_status-sum (r ∷ rs) = ground (arith, by_status-sum rs, add_status-sum r.status (by_status rs))

add_row-sums :
    (row : ProcReqLogProvider) (ps : List ProviderStats)
    → (sum_by (λ p. p.count) (add_row row ps) ≡ sum_by (λ p. p.count) ps + 1)
      × (sum_by (λ p. p.success) (add_row row ps) ≡ sum_by (λ p. p.success) ps + success_case row)
add_row-sums row [] = ground arith
add_row-sums row (p ∷ ps) = ground (arith, add_row-sums row ps)

add_row-le :
    (row : ProcReqLogProvider) (ps : List ProviderStats)
    → All (λ p. p.success ≤ p.count) ps
    → All (λ p. p.success ≤ p.count) (add_row row ps)
add_row-le row [] h = ground arith
add_row-le row (p ∷ ps) (hp, h) = ground (arith, hp, h, add_row-le row ps h)

by_provider-sums :
    (rows : List ProcReqLogProvider)
    → (sum_by (λ p. p.count) (by_provider rows) ≡ length rows)
      × (sum_by (λ p. p.success) (by_provider rows) ≡ count_if (λ row. is_success row.status) rows)
      × All (λ p. p.success ≤ p.count) (by_provider rows)
by_provider-sums [] = (refl, refl, tt)
by_provider-sums (row ∷ rows) =
    let (c, s, l) = by_provider-sums rows in
    let a = add_row-sums row (by_provider rows) in
    (ground (arith, c, a), ground (arith, s, a), add_row-le row (by_provider rows) l)

-- the count of a day, 0 for a day that is not there
abbrev count_on : ℕ → List (ℕ × ℕ) → ℕ
count_on d [] = 0
count_on d ((e, n) ∷ gs) = let rest = count_on d gs in if nat_eq e d then n else rest

-- Days descend, each below the bound where there is one.
abbrev Descends : List (ℕ × ℕ) → Type 0
Descends [] = Unit
Descends (g ∷ gs) = All (λ (h : ℕ × ℕ). h.0 < g.0) gs × Descends gs

count_on-below : (d : ℕ) (gs : List (ℕ × ℕ)) → All (λ (h : ℕ × ℕ). h.0 < d) gs → count_on d gs ≡ 0
count_on-below d [] h = refl
count_on-below d ((e, n) ∷ gs) (he, h) = ground (arith, he, count_on-below d gs h)

below_trans :
    (f d : ℕ) (gs : List (ℕ × ℕ))
    → All (λ (h : ℕ × ℕ). h.0 < f) gs
    → f < d
    → All (λ (h : ℕ × ℕ). h.0 < d) gs
below_trans f d gs h l = All-imp gs (λ g k. omega arith) h

count_on-add_day :
    (e d : ℕ) (gs : List (ℕ × ℕ))
    → Descends gs
    → count_on e (add_day d gs) ≡ count_on e gs + (if nat_eq d e then 1 else 0)
count_on-add_day e d [] h = ground arith
count_on-add_day e d ((f, n) ∷ gs) (hf, h) = ground (
  arith,
  count_on-add_day e d gs h,
  count_on-below f gs hf,
  count_on-below d gs,
  below_trans f d gs hf,
)

below-add_day :
    (d e : ℕ) (gs : List (ℕ × ℕ))
    → d < e
    → All (λ (h : ℕ × ℕ). h.0 < e) gs
    → All (λ (h : ℕ × ℕ). h.0 < e) (add_day d gs)
below-add_day d e [] l h = (l, tt)
below-add_day d e ((f, n) ∷ gs) l (hf, h) = ground (arith, l, hf, h, below-add_day d e gs l h)

Descends-add_day : (d : ℕ) (gs : List (ℕ × ℕ)) → Descends gs → Descends (add_day d gs)
Descends-add_day d [] h = (tt, tt)
Descends-add_day d ((f, n) ∷ gs) (hf, h) = ground (
  arith,
  hf,
  h,
  Descends-add_day d gs h,
  below_trans f d gs hf,
  λ (l : d < f). below-add_day d f gs l hf,
)

by_day_lem :
    (rs : List ProcReqLog)
    → Descends (by_day rs) × ((e : ℕ) → count_on e (by_day rs) ≡ count_if (λ r. nat_eq r.day e) rs)
by_day_lem [] = (tt, λ e. refl)
by_day_lem (r ∷ rs) =
    let (down, counts) = by_day_lem rs in
    (
      Descends-add_day r.day (by_day rs) down,
      λ e. ground (arith, counts e, count_on-add_day e r.day (by_day rs) down),
    )

-- each entry of a descending list is what is counted on its day
entries_count :
    (f : ℕ → ℕ) (gs : List (ℕ × ℕ))
    → Descends gs
    → ((e : ℕ) → 0 < count_on e gs → count_on e gs ≡ f e)
    → All (λ (g : ℕ × ℕ). 0 < g.1) gs
    → All (λ (g : ℕ × ℕ). g.1 ≡ f g.0) gs
entries_count f [] down h pos = tt
entries_count f ((e, n) ∷ gs) (below, down) h (p, pos) = (
  ground (arith, h e),
  entries_count f gs down (λ d q. ground (arith, h d, count_on-below e gs below, q)) pos,
)

add_day_pos :
    (d : ℕ) (gs : List (ℕ × ℕ))
    → All (λ (g : ℕ × ℕ). 0 < g.1) gs
    → All (λ (g : ℕ × ℕ). 0 < g.1) (add_day d gs)
add_day_pos d [] h = (omega arith, tt)
add_day_pos d ((e, n) ∷ gs) (he, h) = ground (arith, he, h, add_day_pos d gs h)

by_day_pos : (rs : List ProcReqLog) → All (λ (g : ℕ × ℕ). 0 < g.1) (by_day rs)
by_day_pos [] = tt
by_day_pos (r ∷ rs) = add_day_pos r.day (by_day rs) (by_day_pos rs)

-- The dashboard's numbers add up: the statuses to the requests, the providers' counts to the rows and
-- their successes to the rows that succeeded; no provider has more successes than rows, so that the
-- errors are the rest; at most the asked number of days is shown, each with the number of its requests.
pub stats-add_up :
    (days : ℕ) (d : ImageDb)
    → (sum_by (λ (g : RequestStatus × ℕ). g.1) (stats days d).by_status
        ≡ (stats days d).total_requests)
      × (sum_by (λ (p : ProviderStats). p.count) (stats days d).providers ≡ length d.rows)
      × (sum_by (λ (p : ProviderStats). p.success) (stats days d).providers
          ≡ count_if (λ row. is_success row.status) d.rows)
      × All (λ (p : ProviderStats). p.success + errors p ≡ p.count) (stats days d).providers
      × (length (stats days d).over_time ≤ days)
      × All
          (λ (g : ℕ × ℕ). g.1 ≡ count_if (λ r. nat_eq r.day g.0) d.requests)
          (stats days d).over_time
unfolding stats
stats-add_up days d =
    let (counts, successes, le) = by_provider-sums d.rows in
    let (down, on) = by_day_lem d.requests in
    (
      by_status-sum d.requests,
      counts,
      successes,
      All-imp (by_provider d.rows) (λ p l. omega arith) le,
      (let l = length-take-le days (by_day d.requests) in
          omega (arith, l, length-newest_first (take days (by_day d.requests)))),
      All-newest_first _ _ (
          All-take _ days (by_day d.requests) (
            entries_count (λ e. count_if (λ r. nat_eq r.day e) d.requests) (by_day d.requests) down
              (λ e p. on e) (by_day_pos d.requests))),
    )
