-- ===== src/Adapters.antt =====
-- services/ai-adapters/app: controllers/base.py, registry.py (`build_registry`), services/
-- invoke_service.py, facades/invoke_facade.py and api/invoke_controller.py. What a controller's SDK
-- does with a request is a parameter; the raw answer of the vendor is left out.
use image2prompt.Base.{
  ℕ, String, Bool, ◌^+◌, Option, none, some, List, [], ◌∷◌, map, Dict, lookup, insert,
}

-- ProviderInvokeReq; C is the type of a configuration
pub record ProviderInvokeReq (C : Type 0) : Type 0 where
  pub request_id : String
  pub instruction : String
  pub image_base64 : String
  pub media_type : String
  pub config : C

-- how the call of a controller ends: with its output, with NotImplementedError, or with another
-- exception of a class
pub data Called : Type 0 where
  returned : (output_text : String) → Called
  not_implemented : (message : String) → Called
  threw : (class message : String) → Called

-- ProviderController
pub record Controller (C : Type 0) : Type 0 where
  pub key : String
  pub implemented : Bool
  pub invoke : ProviderInvokeReq C → Called

-- the dict `error` of an answer
pub record ErrorInfo : Type 0 where
  pub type : String
  pub message : String

-- InvokeReq
pub record InvokeReq (C : Type 0) : Type 0 where
  pub provider_key : String
  pub request_id : String
  pub instruction : String
  pub image_base64 : String
  pub media_type : String
  pub config : C

-- InvokeResp, as far as it goes over the wire as InvokeResponse
pub record InvokeResponse : Type 0 where
  pub provider_key : String
  pub request_id : String
  pub status : String
  pub output_text : Option String
  pub latency_ms : Option ℕ
  pub error : Option ErrorInfo

-- InvokeResp.failure with its code and message, or an InvokeResp that succeeds
pub data Dispatched : Type 0 where
  unknown : (code message : String) → Dispatched
  answered : InvokeResponse → Dispatched

-- ProviderInfoItem
pub record ProviderInfoItem : Type 0 where
  pub key : String
  pub implemented : Bool

module _ {C : Type 0} where
  -- {c.key: c for c in controllers}
  abbrev collect : Dict (Controller C) → List (Controller C) → Dict (Controller C)
  collect out [] = out
  collect out (c ∷ cs) = collect (insert c.key c out) cs

  -- build_registry
  unfoldable pub build_registry : List (Controller C) → Dict (Controller C)
  build_registry controllers = collect [] controllers

  abbrev pub provider_req : InvokeReq C → ProviderInvokeReq C
  provider_req req = record {
    request_id = req.request_id;
    instruction = req.instruction;
    image_base64 = req.image_base64;
    media_type = req.media_type;
    config = req.config;
  }

  -- the envelope of an error
  abbrev pub envelope : InvokeReq C → ℕ → (type message : String) → InvokeResponse
  envelope req latency type message = record {
    provider_key = req.provider_key;
    request_id = req.request_id;
    status = "error";
    output_text = none;
    latency_ms = some latency;
    error = some (record { type = type; message = message });
  }

  -- the answer of a controller that is registered, after `latency` milliseconds
  unfoldable pub answer_of : InvokeReq C → ℕ → Called → InvokeResponse
  answer_of req latency (returned output_text) = record {
    provider_key = req.provider_key;
    request_id = req.request_id;
    status = "success";
    output_text = some output_text;
    latency_ms = some latency;
    error = none;
  }
  answer_of req latency (not_implemented message) = envelope req latency "not_implemented" message
  answer_of req latency (threw class message) = envelope req latency class message

  -- InvokeService.dispatch, to which InvokeFacade.invoke passes
  unfoldable pub dispatch : Dict (Controller C) → ℕ → InvokeReq C → Dispatched
  dispatch registry latency req = elim (lookup req.provider_key registry) [
    | none ↦ unknown "not_found" ("Unknown provider: " ^+ req.provider_key)
    | some c ↦ answered (answer_of req latency (c.invoke (provider_req req)))
  ]

  abbrev info : String × Controller C → ProviderInfoItem
  info (k, c) = record { key = k; implemented = c.implemented }

  -- InvokeFacade.list_providers
  unfoldable pub list_providers : Dict (Controller C) → List ProviderInfoItem
  list_providers registry = map info registry
