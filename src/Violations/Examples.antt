-- ===== src/Violations/Examples.antt =====
-- Three reports of which two are the same: the witness.
use image2prompt.Base.{
  ℕ, ◌+◌, ◌≡◌, refl, String, Option, none, some, List, [], ◌∷◌, sum_by, arith, Session, opened,
  IsClean,
}
use image2prompt.Violations.{IngestViolationReq, CspViolation, total_of, summarise}
use image2prompt.Violations.Counted.{
  IsDeduped, seen, reports_with, ingest_all, ingest_all-IsDeduped,
}

abbrev digest : String → String
digest s = s

abbrev report : String → IngestViolationReq String
report uri = record {
  document_uri = some uri;
  violated_directive = some "img-src";
  blocked_uri = some "data";
  source_file = none;
  line_number = some 3;
  disposition = none;
  user_agent = none;
  raw = "{}";
}

abbrev reports : List (ℕ × IngestViolationReq String)
reports = (1, report "a") ∷ (2, report "b") ∷ (3, report "a") ∷ []

abbrev empty : Session (List (CspViolation String))
empty = opened []

empty-IsDeduped : IsDeduped empty.working
empty-IsDeduped = record { positive = tt; unique = λ fp. omega arith }

ingest_all-IsDeduped_example :
    IsDeduped (ingest_all digest reports empty).working
    × ((fp : String)
        → seen fp (ingest_all digest reports empty).working
          ≡ seen fp empty.working + reports_with digest fp reports)
    × (total_of (ingest_all digest reports empty).working ≡ 0 + 3)
    × (sum_by (λ (g : Option String × ℕ). g.1) (summarise (ingest_all digest reports empty).working)
        ≡ 0 + 3)
    × IsClean (ingest_all digest reports empty)
ingest_all-IsDeduped_example = ingest_all-IsDeduped digest reports empty refl empty-IsDeduped
