-- ===== src/Kb/Jobs.antt =====
-- services/kb-service/app/facades/kb_facade.py: the ingest jobs, which run in the background.
use image2prompt.Base.{String, take_text, none, some, List, update_if, ◌==◌, Resp, success, failure}
use image2prompt.Kb.{KbIngestJob, KbDb, JobStatus}
use image2prompt.Kb.Daos
use image2prompt.Kb.Banks.{Env, State, db_of, on_db, committed}
use image2prompt.Kb.Ingest.{Outcome, answered, threw, ingest}

-- the attributes that a run of the job writes
abbrev pub finish : Outcome → String → KbIngestJob → KbIngestJob
finish threw exc job = record job {
  status = JobStatus.error;
  error_text = some (take_text 1024 exc);
}
finish (answered (failure code message)) exc job = record job {
  status = JobStatus.error;
  error_text = some message;
}
finish (answered (success r)) exc job = record job {
  status = JobStatus.done;
  ingested = r.ingested;
  skipped = r.skipped;
}

module _ {V : Type 0} (env : Env V) where
  -- KbFacade.create_ingest_job; `id` is the primary key that the row gets
  unfoldable pub create_ingest_job :
      (id customer_id kb_id : String) → List String → State V → Resp KbIngestJob × State V
  create_ingest_job id customer_id kb_id generation_ids s =
      elim (Daos.get_kb customer_id kb_id (db_of s)) [
        | failure code message ↦ (failure code message, s)
        | success kb ↦
            let job = Daos.new_job id customer_id kb_id generation_ids in
            (success job, committed (on_db (Daos.add_job job) s))
      ]

  -- attribute writes on a job's row
  unfoldable pub on_job : String → (KbIngestJob → KbIngestJob) → KbDb V → KbDb V
  on_job job_id f d = record d { jobs = update_if (λ j. j.id == job_id) f d.jobs }

  -- the job is marked as running
  abbrev pub started : (job_id : String) → State V → State V
  started job_id s =
      committed (on_db (on_job job_id (λ j. record j { status = JobStatus.running })) s)

  -- KbFacade.run_ingest_job; `exc` is the text of the exception, should there be one
  unfoldable pub run_ingest_job : (job_id exc : String) → State V → Resp KbIngestJob × State V
  run_ingest_job job_id exc s = elim (Daos.get_ingest_job_by_id job_id (db_of s)) [
    | none ↦ (failure "not_found" "Ingest job not found", s)
    | some job ↦
        let (outcome, s') =
          ingest env job.customer_id job.kb_id job.requested_ids (started job_id s) in
        (
          success (finish outcome exc (record job { status = JobStatus.running })),
          committed (on_db (on_job job_id (finish outcome exc)) s'),
        )
  ]
