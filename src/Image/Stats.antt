-- ===== src/Image/Stats.antt =====
-- services/image-processing-service/app/dao/stats_dao.py: the totals over all customers. The average
-- latency, a floating-point number, is left out; a group of GROUP BY comes with its first row, except
-- where the source orders.
use image2prompt.Base.{
  ℕ, ◌+◌, ◌-◌, String, Bool, true, false, List, [], ◌∷◌, length, take, newest_first, nat_eq, ltb,
  ◌==◌, if◌then◌else◌,
}
use image2prompt.Image.{ProcReqLog, ProcReqLogProvider, ImageDb, RequestStatus}
use image2prompt.Image.Daos.{is_success}

abbrev pub same_status : RequestStatus → RequestStatus → Bool
same_status RequestStatus.processing RequestStatus.processing = true
same_status RequestStatus.completed RequestStatus.completed = true
same_status RequestStatus.failed RequestStatus.failed = true
same_status _ _ = false

-- an entry of by_status
abbrev pub add_status : RequestStatus → List (RequestStatus × ℕ) → List (RequestStatus × ℕ)
add_status st [] = (st, 1) ∷ []
add_status st ((t, n) ∷ gs) =
    if same_status t st then (t, n + 1) ∷ gs else (t, n) ∷ add_status st gs

abbrev pub by_status : List ProcReqLog → List (RequestStatus × ℕ)
by_status [] = []
by_status (r ∷ rs) = add_status r.status (by_status rs)

pub record ProviderStats : Type 0 where
  pub provider_key : String
  pub count : ℕ
  pub success : ℕ

-- "error": int(count) - success
abbrev pub errors : ProviderStats → ℕ
errors p = p.count - p.success

-- the row's 1 or 0 of `success_case`
abbrev pub success_case : ProcReqLogProvider → ℕ
success_case row = if is_success row.status then 1 else 0

abbrev pub add_row : ProcReqLogProvider → List ProviderStats → List ProviderStats
add_row row [] =
    record { provider_key = row.provider_key; count = 1; success = success_case row } ∷ []
add_row row (p ∷ ps) =
    if p.provider_key == row.provider_key
    then record p { count = p.count + 1; success = p.success + success_case row } ∷ ps
    else p ∷ add_row row ps

abbrev pub by_provider : List ProcReqLogProvider → List ProviderStats
by_provider [] = []
by_provider (row ∷ rows) = add_row row (by_provider rows)

-- a day with its count, in a list with the latest day first
abbrev pub add_day : ℕ → List (ℕ × ℕ) → List (ℕ × ℕ)
add_day d [] = (d, 1) ∷ []
add_day d ((e, n) ∷ gs) =
    if nat_eq e d
    then (e, n + 1) ∷ gs
    else if ltb e d
    then (d, 1) ∷ (e, n) ∷ gs
    else (e, n) ∷ add_day d gs

abbrev pub by_day : List ProcReqLog → List (ℕ × ℕ)
by_day [] = []
by_day (r ∷ rs) = add_day r.day (by_day rs)

-- StatsResp
pub record StatsResp : Type 0 where
  pub total_requests : ℕ
  pub by_status : List (RequestStatus × ℕ)
  pub providers : List ProviderStats
  pub over_time : List (ℕ × ℕ)

-- StatsDao.stats; `newest_first` is the `reverse`
unfoldable pub stats : (days : ℕ) → ImageDb → StatsResp
stats days d = record {
  total_requests = length d.requests;
  by_status = by_status d.requests;
  providers = by_provider d.rows;
  over_time = newest_first (take days (by_day d.requests));
}
