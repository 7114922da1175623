-- ===== src/Image/Daos.antt =====
-- services/image-processing-service/app/dao: file_ref_dao.py, proc_req_dao.py, prompt_dao.py and
-- stats_dao.py, over the tables of the open transaction. A `flush` has no effect of its own; primary
-- keys that the database makes are arguments.
use image2prompt.Base.{
  ℕ, ◌+◌, String, Bool, true, false, not, ◌&&◌, Option, none, some, List, [], ◌∷◌, ◌++◌, keep_if,
  find?, contains, page, newest_first, get_or, is_some, lookup, Dict, ◌==◌, if◌then◌else◌, Resp,
  success, failure,
}
use image2prompt.Image.{
  FileRef, ProcReqLog, ProcReqLogProvider, UploadMeta, ImageDb, RequestStatus, RowStatus,
}

-- FileRefDao.create, the row inserted
unfoldable pub create_file_ref : FileRef → ImageDb → ImageDb
create_file_ref f d = record d { file_refs = d.file_refs ++ f ∷ [] }

-- CreateProcReqReq
pub record CreateProcReqReq : Type 0 where
  pub customer_id : String
  pub project_id : Option String
  pub file_ref_id : String
  pub instruction : String
  pub selected_providers : List String
  pub provider_id_map : Dict String
  pub meta : UploadMeta

abbrev pub new_request : (id : String) (day : ℕ) → CreateProcReqReq → ProcReqLog
new_request id day req = record {
  id = id;
  customer_id = req.customer_id;
  project_id = req.project_id;
  file_ref_id = req.file_ref_id;
  instruction = req.instruction;
  status = RequestStatus.processing;
  requested_providers = req.selected_providers;
  meta = req.meta;
  day = day;
}

abbrev pub pending_row :
    (row_id request_id : String) → CreateProcReqReq → (key : String) → ProcReqLogProvider
pending_row row_id request_id req key = record {
  id = row_id;
  proc_req_id = request_id;
  provider_key = key;
  provider_id = lookup key req.provider_id_map;
  status = RowStatus.pending;
  request_instruction = req.instruction;
  response_payload = none;
  output_text = none;
  latency_ms = none;
  error = none;
}

-- the loop over the selected providers; `row_id n` is the key of the n-th row
abbrev pub pending_rows :
    (ℕ → String) → String → CreateProcReqReq → ℕ → List String → List ProcReqLogProvider
pending_rows row_id id req n [] = []
pending_rows row_id id req n (key ∷ ks) =
    pending_row (row_id n) id req key ∷ pending_rows row_id id req (n + 1) ks

-- ProcReqDao.create
unfoldable pub create :
    (id : String) (day : ℕ) → (ℕ → String) → CreateProcReqReq → ImageDb → ProcReqLog × ImageDb
create id day row_id req d = (
  new_request id day req,
  record d {
    requests = d.requests ++ new_request id day req ∷ [];
    rows = d.rows ++ pending_rows row_id id req 0 req.selected_providers;
  },
)

abbrev pub is_of : String → ProcReqLog → Bool
is_of customer_id r = r.customer_id == customer_id

-- ProcReqDao.list
unfoldable pub list : (customer_id : String) (limit offset : ℕ) → ImageDb → List ProcReqLog
list customer_id limit offset d =
    page limit offset (newest_first (keep_if (is_of customer_id) d.requests))

-- ProcReqDao.resolve
unfoldable pub resolve :
    (customer_id : String) (request_ids : List String) → ImageDb → List ProcReqLog
resolve customer_id [] d = []
resolve customer_id (i ∷ ids) d =
    keep_if (λ r. is_of customer_id r && contains (i ∷ ids) r.id) d.requests

abbrev pub own : String → Option ProcReqLog → Resp ProcReqLog
own customer_id none = failure "not_found" "Request not found"
own customer_id (some r) =
    if not (is_of customer_id r) then failure "not_found" "Request not found" else success r

-- ProcReqDao.get
unfoldable pub get : (customer_id request_id : String) → ImageDb → Resp ProcReqLog
get customer_id request_id d = own customer_id (find? (λ r. r.id == request_id) d.requests)

pub record PromptItem : Type 0 where
  pub request_id : String
  pub provider_result_id : String
  pub provider_key : String
  pub output_text : String
  pub file_ref_id : String

abbrev pub is_success : RowStatus → Bool
is_success RowStatus.success = true
is_success RowStatus.pending = false
is_success RowStatus.error = false

-- the WHERE of PromptDao.list; `matches` is the ILIKE of the search, or always true without one
abbrev pub is_prompt : (String → Bool) → ProcReqLogProvider → Bool
is_prompt matches row =
    is_success row.status && (is_some row.output_text && matches (get_or row.output_text ""))

abbrev pub prompt_item : ProcReqLogProvider → ProcReqLog → PromptItem
prompt_item row proc = record {
  request_id = proc.id;
  provider_result_id = row.id;
  provider_key = row.provider_key;
  output_text = get_or row.output_text "";
  file_ref_id = proc.file_ref_id;
}

-- the JOIN: the request of a row is the one with the id that it names
abbrev pub join_prompts :
    (customer_id : String)
    → (String → Bool)
    → List ProcReqLog
    → List ProcReqLogProvider
    → List PromptItem
join_prompts customer_id matches requests [] = []
join_prompts customer_id matches requests (row ∷ rows) =
    let rest = join_prompts customer_id matches requests rows in
    elim (find? (λ r. r.id == row.proc_req_id) requests) [
      | none ↦ rest
      | some proc ↦
          if is_of customer_id proc && is_prompt matches row
          then prompt_item row proc ∷ rest
          else rest
    ]

-- PromptDao.list
unfoldable pub list_prompts :
    (customer_id : String) → (String → Bool) → (limit offset : ℕ) → ImageDb → List PromptItem
list_prompts customer_id matches limit offset d =
    page limit offset (newest_first (join_prompts customer_id matches d.requests d.rows))
