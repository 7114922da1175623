-- ===== src/Kb/Daos.antt =====
-- services/kb-service/app/dao/kb_dao.py, over the tables of the open transaction. The newest rows
-- come first where the source orders by creation time; a `flush` has no effect of its own.
use image2prompt.Base.{
  newest_first, ℕ, ◌+◌, String, Bool, not, ◌&&◌, ◌||◌, Option, none, some, List, [], ◌∷◌, ◌++◌,
  length, keep_if, find?, count_if, ltb, ◌==◌, if◌then◌else◌, Resp, success, failure,
}
use image2prompt.Kb.{KbGroup, ProjectKb, Payload, KbDocument, KbIngestJob, KbDb, JobStatus}

-- a row that belongs to the customer, or nothing
abbrev pub own_group : String → Option KbGroup → Option KbGroup
own_group customer_id none = none
own_group customer_id (some g) = if g.customer_id == customer_id then some g else none

abbrev pub own_kb : String → Option ProjectKb → Resp ProjectKb
own_kb customer_id none = failure "not_found" "KB not found"
own_kb customer_id (some kb) =
    if not (kb.customer_id == customer_id) then failure "not_found" "KB not found" else success kb

-- KbDao.create_ingest_job: the row
unfoldable pub new_job : (id customer_id kb_id : String) → List String → KbIngestJob
new_job id customer_id kb_id generation_ids = record {
  id = id;
  kb_id = kb_id;
  customer_id = customer_id;
  status = JobStatus.pending;
  requested_ids = generation_ids;
  requested = length generation_ids;
  ingested = 0;
  skipped = 0;
  error_text = none;
}

abbrev pub own_job : (customer_id kb_id : String) → Option KbIngestJob → Resp KbIngestJob
own_job customer_id kb_id none = failure "not_found" "Ingest job not found"
own_job customer_id kb_id (some job) =
    if not (job.customer_id == customer_id) || not (job.kb_id == kb_id)
    then failure "not_found" "Ingest job not found"
    else success job

-- a row of the usage answer
pub record StackUsage : Type 0 where
  pub stack : String
  pub kb_count : ℕ
  pub doc_count : ℕ

-- the groups of GROUP BY tech_stack, in the order of their first rows
abbrev pub add_usage : ProjectKb → List StackUsage → List StackUsage
add_usage k [] = record { stack = k.tech_stack; kb_count = 1; doc_count = k.doc_count } ∷ []
add_usage k (u ∷ us) =
    if u.stack == k.tech_stack
    then record u { kb_count = u.kb_count + 1; doc_count = u.doc_count + k.doc_count } ∷ us
    else u ∷ add_usage k us

abbrev pub group_usage : List ProjectKb → List StackUsage
group_usage [] = []
group_usage (k ∷ ks) = add_usage k (group_usage ks)

module _ {V : Type 0} where
  -- KbDao.create_group, the row inserted
  unfoldable pub create_group : KbGroup → KbDb V → KbDb V
  create_group g d = record d { groups = d.groups ++ g ∷ [] }

  -- KbDao.list_groups; "" stands for no project
  unfoldable pub list_groups : (customer_id project_id : String) → KbDb V → List KbGroup
  list_groups customer_id project_id d = newest_first (
      keep_if
        (λ g. g.customer_id == customer_id && (project_id == "" || g.project_id == project_id))
        d.groups)

  -- KbDao.get_group
  unfoldable pub get_group : (customer_id group_id : String) → KbDb V → Option KbGroup
  get_group customer_id group_id d = own_group customer_id (find? (λ g. g.id == group_id) d.groups)

  -- KbDao.create_kb, the row inserted
  unfoldable pub create_kb : ProjectKb → KbDb V → KbDb V
  create_kb kb d = record d { kbs = d.kbs ++ kb ∷ [] }

  -- KbDao.list_kbs; "" stands for no group
  unfoldable pub list_kbs : (customer_id group_id : String) → KbDb V → List ProjectKb
  list_kbs customer_id group_id d = newest_first (
      keep_if (λ k. k.customer_id == customer_id && (group_id == "" || k.group_id == group_id))
        d.kbs)

  -- KbDao.count_kbs
  unfoldable pub count_kbs : String → KbDb V → ℕ
  count_kbs customer_id d = count_if (λ k. k.customer_id == customer_id) d.kbs

  -- KbDao.get_kb
  unfoldable pub get_kb : (customer_id kb_id : String) → KbDb V → Resp ProjectKb
  get_kb customer_id kb_id d = own_kb customer_id (find? (λ k. k.id == kb_id) d.kbs)

  abbrev pub docs_of : String → KbDb V → ℕ
  docs_of kb_id d = count_if (λ r. r.kb_id == kb_id) d.documents

  -- KbDao.delete_kb_row
  unfoldable pub delete_kb_row : ProjectKb → KbDb V → ℕ × KbDb V
  delete_kb_row kb d = (
    docs_of kb.id d,
    record d {
      documents = keep_if (λ r. not (r.kb_id == kb.id)) d.documents;
      kbs = keep_if (λ k. not (k.id == kb.id)) d.kbs;
    },
  )

  -- KbDao.delete_group_row
  unfoldable pub delete_group_row : KbGroup → KbDb V → KbDb V
  delete_group_row g d = record d { groups = keep_if (λ h. not (h.id == g.id)) d.groups }

  abbrev pub copies : (kb_id generation_id : String) → KbDb V → ℕ
  copies kb_id generation_id d =
      count_if (λ r. r.kb_id == kb_id && r.generation_id == generation_id) d.documents

  -- KbDao.doc_exists
  unfoldable pub doc_exists : (kb_id generation_id : String) → KbDb V → Bool
  doc_exists kb_id generation_id d = ltb 0 (copies kb_id generation_id d)

  -- KbDao.add_doc
  unfoldable pub add_doc : (kb_id generation_id title : String) → Payload → KbDb V → KbDb V
  add_doc kb_id generation_id title meta d = record d {
    documents =
        d.documents
        ++ record { kb_id = kb_id; generation_id = generation_id; title = title; meta = meta } ∷ [];
  }

  -- KbDao.list_docs
  unfoldable pub list_docs : String → KbDb V → List KbDocument
  list_docs kb_id d = newest_first (keep_if (λ r. r.kb_id == kb_id) d.documents)

  unfoldable pub add_job : KbIngestJob → KbDb V → KbDb V
  add_job job d = record d { jobs = d.jobs ++ job ∷ [] }

  -- KbDao.get_ingest_job_by_id
  unfoldable pub get_ingest_job_by_id : String → KbDb V → Option KbIngestJob
  get_ingest_job_by_id job_id d = find? (λ j. j.id == job_id) d.jobs

  -- KbDao.get_ingest_job
  unfoldable pub get_ingest_job : (customer_id kb_id job_id : String) → KbDb V → Resp KbIngestJob
  get_ingest_job customer_id kb_id job_id d =
      own_job customer_id kb_id (get_ingest_job_by_id job_id d)

  -- KbDao.usage_by_customer, up to the order of the stacks
  unfoldable pub usage_by_customer : String → KbDb V → List StackUsage
  usage_by_customer customer_id d = group_usage (keep_if (λ k. k.customer_id == customer_id) d.kbs)
