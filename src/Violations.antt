-- ===== src/Violations.antt =====
-- services/admin-service/app/dao/csp_violation_dao.py and facades/csp_facade.py: the CSP violations
-- that the gateway's sink posts (CspViolation of models.py). SHA-256 is a parameter, and so is the
-- time, in seconds.
pub mod Counted
pub mod Examples
use image2prompt.Base.{
  ℕ, ◌+◌, String, Bool, true, false, not, ◌||◌, ◌^+◌, show, Option, none, some, List, [], ◌∷◌, ◌++◌,
  any, keep_if, count_if, length, take, sum_by, get_or, ltb, leb, nat_eq, ◌==◌, if◌then◌else◌,
  Session, write, commit,
}

-- IngestViolationReq; R is the type of the raw report
pub record IngestViolationReq (R : Type 0) : Type 0 where
  pub document_uri : Option String
  pub violated_directive : Option String
  pub blocked_uri : Option String
  pub source_file : Option String
  pub line_number : Option ℕ
  pub disposition : Option String
  pub user_agent : Option String
  pub raw : R

-- a row: what was reported first, how often, and when last
pub record CspViolation (R : Type 0) : Type 0 where
  pub fingerprint : String
  pub count : ℕ
  pub report : IngestViolationReq R
  pub updated_at : ℕ

-- str(line or "")
abbrev pub line_text : Option ℕ → String
line_text none = ""
line_text (some n) = if nat_eq n 0 then "" else show n

-- a row with `fp` seen once more: existing.count = (existing.count or 1) + 1
abbrev pub once_more : ℕ → ℕ
once_more n = (if nat_eq n 0 then 1 else n) + 1

-- an entry of the summary
abbrev pub Summary : Type 0
Summary = List (Option String × ℕ)

abbrev pub same_directive : Option String → Option String → Bool
same_directive none none = true
same_directive (some a) (some b) = a == b
same_directive _ _ = false

abbrev pub add_summary : Option String → ℕ → Summary → Summary
add_summary d n [] = (d, n) ∷ []
add_summary d n ((e, m) ∷ gs) =
    if same_directive e d then (e, m + n) ∷ gs else (e, m) ∷ add_summary d n gs

-- the first of the groups with the largest sum
abbrev pub top_of : Option String × ℕ → Summary → Option String × ℕ
top_of best [] = best
top_of (d, n) ((e, m) ∷ gs) = if ltb n m then top_of (e, m) gs else top_of (d, n) gs

abbrev pub top_directive : Summary → Option String
top_directive [] = none
top_directive (g ∷ gs) = (top_of g gs).0

-- CspStatsResp
pub record CspStatsResp : Type 0 where
  pub total : ℕ
  pub distinct : ℕ
  pub top : Option String

module _ {R : Type 0} where
  -- ORDER BY updated_at DESC
  abbrev pub insert_latest : CspViolation R → List (CspViolation R) → List (CspViolation R)
  insert_latest v [] = v ∷ []
  insert_latest v (w ∷ ws) =
      if leb w.updated_at v.updated_at then v ∷ w ∷ ws else w ∷ insert_latest v ws

  abbrev pub latest_first : List (CspViolation R) → List (CspViolation R)
  latest_first [] = []
  latest_first (v ∷ vs) = insert_latest v (latest_first vs)

  -- the first row with the fingerprint, seen once more
  abbrev pub touch : (fp : String) (now : ℕ) → List (CspViolation R) → List (CspViolation R)
  touch fp now [] = []
  touch fp now (v ∷ vs) =
      if v.fingerprint == fp
      then record v { count = once_more v.count; updated_at = now } ∷ vs
      else v ∷ touch fp now vs

  abbrev pub total_of : List (CspViolation R) → ℕ
  total_of = sum_by (λ v. v.count)

  -- GROUP BY violated_directive with the sums of the counts
  abbrev pub summarise : List (CspViolation R) → Summary
  summarise [] = []
  summarise (v ∷ vs) = add_summary v.report.violated_directive v.count (summarise vs)

  -- CspViolationDao.list: the rows, the summary up to its order, the total
  unfoldable pub list : (limit : ℕ) → List (CspViolation R) → List (CspViolation R) × Summary × ℕ
  list limit vs = (take limit (latest_first vs), summarise vs, total_of vs)

  -- CspViolationDao.stats
  unfoldable pub stats : List (CspViolation R) → CspStatsResp
  stats vs = record {
    total = total_of vs;
    distinct = length vs;
    top = top_directive (summarise vs);
  }

  -- CspViolationDao.prune_older_than
  unfoldable pub prune_older_than :
      (cutoff : ℕ) → Session (List (CspViolation R)) → ℕ × Session (List (CspViolation R))
  prune_older_than cutoff s = (
    count_if (λ v. ltb v.updated_at cutoff) s.working,
    commit (write (keep_if (λ v. not (ltb v.updated_at cutoff))) s),
  )

  module _ (sha256 : String → String) where
    -- _fingerprint
    unfoldable pub fingerprint : IngestViolationReq R → String
    fingerprint req = sha256 (
        get_or req.violated_directive ""
        ^+ "|"
        ^+ get_or req.blocked_uri ""
        ^+ "|"
        ^+ get_or req.document_uri ""
        ^+ "|"
        ^+ get_or req.source_file ""
        ^+ "|"
        ^+ line_text req.line_number)

    abbrev pub new_row : ℕ → IngestViolationReq R → CspViolation R
    new_row now req = record {
      fingerprint = fingerprint req;
      count = 1;
      report = req;
      updated_at = now;
    }

    -- CspViolationDao.create
    unfoldable pub create :
        (now : ℕ) → IngestViolationReq R → List (CspViolation R) → List (CspViolation R)
    create now req vs =
        if any (λ v. v.fingerprint == fingerprint req) vs
        then touch (fingerprint req) now vs
        else vs ++ new_row now req ∷ []

    -- CspFacade.ingest
    unfoldable pub ingest :
        (now : ℕ)
        → IngestViolationReq R
        → Session (List (CspViolation R))
        → Session (List (CspViolation R))
    ingest now req s = commit (write (create now req) s)
