-- ===== src/Image.antt =====
-- services/image-processing-service/app/models.py: the tables of the image requests, as lists of rows
-- in the order of insertion; and the answers of the other services. Time stamps are left out, and of
-- a vendor's answer the raw part.
pub mod Daos
pub mod Peers
pub mod Process
pub mod Settled
pub mod Added
pub mod Runs
pub mod Resolved
pub mod Answers
pub mod Wire
pub mod Tenants
pub mod Stats
pub mod Totals
pub mod Examples
use image2prompt.Base.{ℕ, String, Option, List, Dict}
use image2prompt.Adapters.{ErrorInfo, InvokeResponse}

pub record FileRef : Type 0 where
  pub id : String
  pub customer_id : String
  pub backend : String
  pub location : String
  pub content_type : String
  pub size : ℕ
  pub original_filename : String

pub data RequestStatus : Type 0 where
  processing : RequestStatus
  completed : RequestStatus
  failed : RequestStatus

pub data RowStatus : Type 0 where
  pending : RowStatus
  success : RowStatus
  error : RowStatus

-- the dict `meta` of a request
pub record UploadMeta : Type 0 where
  pub content_type : String
  pub filename : String
  pub size : ℕ

pub record ProcReqLog : Type 0 where
  pub id : String
  pub customer_id : String
  pub project_id : Option String
  pub file_ref_id : String
  pub instruction : String
  pub status : RequestStatus
  pub requested_providers : List String
  pub meta : UploadMeta
  -- the date of created_at
  pub day : ℕ

-- what the dispatch to a provider ends with, as the facade reads it
pub record Payload : Type 0 where
  pub status : String
  pub output_text : Option String
  pub latency_ms : Option ℕ
  pub error : Option ErrorInfo

-- `none` for the empty response_payload of a row that is pending
pub record ProcReqLogProvider : Type 0 where
  pub id : String
  pub proc_req_id : String
  pub provider_key : String
  pub provider_id : Option String
  pub status : RowStatus
  pub request_instruction : String
  pub response_payload : Option Payload
  pub output_text : Option String
  pub latency_ms : Option ℕ
  pub error : Option ErrorInfo

pub record ImageDb : Type 0 where
  pub file_refs : List FileRef
  pub requests : List ProcReqLog
  pub rows : List ProcReqLogProvider

-- a provider as the admin service lists it; C is the type of a configuration
pub record EnabledProvider (C : Type 0) : Type 0 where
  pub id : String
  pub key : String
  pub name : String
  pub config : C

-- the customer service's answer on preferences; absent or null keys count as [], an absent backend as "local"
pub record Preferences : Type 0 where
  pub default_provider_keys : List String
  pub storage_backend : String

-- ResolveProvidersResp
pub record Resolution (C : Type 0) : Type 0 where
  pub selected : List String
  pub provider_id_map : Dict String
  pub config_map : Dict C
  pub storage_backend : String
