-- ===== src/Image/Peers.antt =====
-- What services/image-processing-service exchanges with the services around it: the requests of
-- app/dtos/internal_dtos.py, and, as parameters, the answers of the admin and the customer service, of
-- the provider adapters, the storage and a connected drive.
use image2prompt.Base.{ℕ, String, Option, List}
use image2prompt.Image.{Payload, EnabledProvider, Preferences}

-- DispatchReq
pub record DispatchReq (C : Type 0) : Type 0 where
  pub provider_key : String
  pub request_id : String
  pub instruction : String
  pub image_base64 : String
  pub media_type : String
  pub config : C

-- how a call over HTTP ends: with the body, or with an exception of a class
pub data Posted : Type 0 where
  body : Payload → Posted
  raised : (class message : String) → Posted

-- what the storage backend answers
pub data Saved : Type 0 where
  stored : (backend location content_type : String) (size : ℕ) → Saved
  refused : (message : String) → Saved

-- ProcessImageReq; B is the type of the image's bytes
pub record ProcessImageReq (B : Type 0) : Type 0 where
  pub customer_id : String
  pub image_bytes : B
  pub content_type : String
  pub filename : String
  pub instruction : String
  pub project_id : Option String
  pub requested_providers : List String

-- the primary keys that a request's rows get, and its day
pub record Ids : Type 0 where
  pub file_ref : String
  pub request : String
  pub row : ℕ → String
  pub day : ℕ

-- a fetched file; the empty content is `none`
pub data Fetched (B : Type 0) : Type 0 where
  content : Option B → (content_type : String) → Fetched B
  unreachable : (message : String) → Fetched B

pub record Env (C B : Type 0) : Type 0 where
  pub preferences : String → Option Preferences
  pub enabled : Option (List (EnabledProvider C))
  -- backend.save, with a key made of the customer, a random id and the extension
  pub save : (backend customer_id filename content_type : String) → B → Saved
  -- the n-th call of the adapters
  pub post_invoke : ℕ → DispatchReq C → Posted
  pub no_config : C
  pub size : B → ℕ
  pub b64encode : B → String
  pub fetch : (customer_id connection_id file_id : String) → Fetched B
