-- ===== src/Image/Wire.antt =====
-- The call of the provider adapters as it runs: services/image-processing-service/app/services/
-- ai_dispatch_service.py posts to services/ai-adapters/app/api/invoke_controller.py, whose answer
-- decides the row.
use image2prompt.Base.{
  ◌||◌, ◌==◌, ◌+◌, eq_refl, ap, false, Session, List, [], ◌∷◌, map, ℕ, ◌≡◌, refl, String, Bool,
  Option, none, some, Dict, lookup, arith, Option-cases, inl, inr,
}
use image2prompt.Adapters.{
  ErrorInfo, Called, returned, not_implemented, threw, Controller, InvokeReq, InvokeResponse,
  Dispatched, unknown, answered, dispatch, answer_of, provider_req,
}
use image2prompt.Image.Answers.{rows_of, with_file, process_image-stored, stored-rows}
use image2prompt.Image.Runs.{IsUnused}
use image2prompt.Image.Settled.{IsSettled}
use image2prompt.Image.Daos.{CreateProcReqReq, pending_row, pending_rows, create_file_ref}
use image2prompt.Image.{ImageDb, Resolution, ProcReqLogProvider, Payload, RowStatus}
use image2prompt.Image.Peers.{ProcessImageReq, Ids, Env, stored, DispatchReq, Posted, body, raised}
use image2prompt.Image.Process.{
  payload_of, settle, fan_out, create_req, dispatch_req, resolve, process_image,
}

-- the fields of the answer that the facade reads
abbrev pub payload_from : InvokeResponse → Payload
payload_from r = record {
  status = r.status;
  output_text = r.output_text;
  latency_ms = r.latency_ms;
  error = r.error;
}

-- The controller answers an InvokeResp that fails with status 404, which raise_for_status turns into
-- an exception; `http_error` is its text.
unfoldable pub over_http : (http_error : String) → Dispatched → Posted
over_http http_error (unknown code message) = raised "HTTPStatusError" http_error
over_http http_error (answered r) = body (payload_from r)

-- how a row ends: its status, its text and its error
abbrev pub outcome : ProcReqLogProvider → RowStatus × Option String × Option ErrorInfo
outcome row = (row.status, row.output_text, row.error)

-- how it is to end, by what the controller's call did; `none` where no controller is registered
abbrev pub verdict :
    (http_error : String) → Option Called → RowStatus × Option String × Option ErrorInfo
verdict http_error none =
    (RowStatus.error, none, some (record { type = "HTTPStatusError"; message = http_error }))
verdict http_error (some (returned text)) = (RowStatus.success, some text, none)
verdict http_error (some (not_implemented message)) =
    (RowStatus.error, none, some (record { type = "not_implemented"; message = message }))
verdict http_error (some (threw class message)) =
    (RowStatus.error, none, some (record { type = class; message = message }))

verdict-answer :
    {C : Type 0} (http_error : String) (latency : ℕ) (req : InvokeReq C) (c : Called)
    (row : ProcReqLogProvider)
    → row.output_text ≡ none
    → row.error ≡ none
    → outcome (settle (payload_of (over_http http_error (answered (answer_of req latency c)))) row)
      ≡ verdict http_error (some c)
unfolding over_http answer_of settle payload_of
verdict-answer http_error latency req (returned text) row ho he = ground arith
verdict-answer http_error latency req (not_implemented message) row ho he = ground arith
verdict-answer http_error latency req (threw class message) row ho he = ground arith

verdict-unknown :
    (http_error code message : String) (row : ProcReqLogProvider)
    → row.output_text ≡ none
    → outcome (settle (payload_of (over_http http_error (unknown code message))) row)
      ≡ verdict http_error none
unfolding over_http settle payload_of
verdict-unknown http_error code message row ho = ground arith

module _ {C : Type 0} (registry : Dict (Controller C)) where
  abbrev pub invoke_req : DispatchReq C → InvokeReq C
  invoke_req req = record {
    provider_key = req.provider_key;
    request_id = req.request_id;
    instruction = req.instruction;
    image_base64 = req.image_base64;
    media_type = req.media_type;
    config = req.config;
  }

  -- the adapters at the other end, which take `latency` milliseconds
  unfoldable pub post : (http_error : String) (latency : ℕ) → DispatchReq C → Posted
  post http_error latency req = over_http http_error (dispatch registry latency (invoke_req req))

  -- the call of the controller that is registered for the provider, if there is one
  abbrev pub called : DispatchReq C → Option Called
  called req = elim (lookup req.provider_key registry) [
    | none ↦ none
    | some c ↦ some (c.invoke (provider_req (invoke_req req)))
  ]

  verdict-post :
      (http_error : String) (latency : ℕ) (req : DispatchReq C) (row : ProcReqLogProvider)
      → row.output_text ≡ none
      → row.error ≡ none
      → outcome (settle (payload_of (post http_error latency req)) row)
        ≡ verdict http_error (called req)
  unfolding post dispatch
  verdict-post http_error latency req row ho he =
      elim (Option-cases (lookup req.provider_key registry)) [
        | inl e ↦ rw (e, dispatch, called) (verdict-unknown http_error _ _ row ho)
        | inr (c, e) ↦
            rw (e, dispatch, called)
              (verdict-answer http_error latency (invoke_req req) _ row ho he)
      ]

  module _ {B : Type 0} (env : Env C B) (http_error : String) (latency : ℕ → ℕ) where
    wired_rows :
        (to : String → DispatchReq C) (id : String) (row_id : ℕ → String) (req : CreateProcReqReq)
        (a : Bool) (n m : ℕ) (ks : List String)
        → ((i : ℕ) (r : DispatchReq C) → env.post_invoke i r ≡ post http_error (latency i) r)
        → map outcome (fan_out env to id a n (pending_rows row_id id req m ks)).1
          ≡ map (λ k. verdict http_error (called (to k))) ks
    unfolding fan_out
    wired_rows to id row_id req a n m [] w = refl
    wired_rows to id row_id req a n m (k ∷ ks) w =
        let row = pending_row (row_id m) id req k in
        rw (eq_refl id, fan_out)
          (rw (w n (to k), verdict-post http_error (latency n) (to k) row refl refl)
            (ap (λ rest. verdict http_error (called (to k)) ∷ rest)
              (wired_rows to id row_id req
                (a || (payload_of (post http_error (latency n) (to k))).status == "success") (n + 1)
                (m + 1) ks w)))

    -- With the adapters at the other end, whose registry has the controllers: once some provider is
    -- selected and the image is stored, the rows of the request end, in the order of the providers,
    -- with success and the text that the provider's controller returned; else with an error, which is
    -- the class and the message of what the controller raised, the controller's not being
    -- implemented, or the HTTP error for a provider that has no controller.
    pub process_image-wired :
        (ids : Ids) (req : ProcessImageReq B) (res : Resolution C) (s : Session ImageDb)
        (k : String) (ks : List String) (backend location content_type : String) (size : ℕ)
        → ((i : ℕ) (r : DispatchReq C) → env.post_invoke i r ≡ post http_error (latency i) r)
        → IsUnused ids s
        → IsSettled s.working
        → resolve env req.customer_id req.requested_providers ≡ some res
        → res.selected ≡ k ∷ ks
        → env.save res.storage_backend req.customer_id req.filename req.content_type req.image_bytes
          ≡ stored backend location content_type size
        → map outcome (rows_of ids.request (process_image env ids req s).1.durable)
          ≡ map
              (λ j. verdict http_error (called (dispatch_req env req res ids.request j)))
              res.selected
    unfolding create_file_ref
    process_image-wired ids req res s k ks backend location content_type size w fresh h hr hs hv =
        let before = with_file env ids req res s backend location content_type size in
        rw (process_image-stored env ids req res s k ks backend location content_type size hr hs hv)
          (rw
            (stored-rows env ids req res before fresh
              (record { answered = h.answered; final = h.final; named = h.named }))
            (wired_rows (dispatch_req env req res ids.request) ids.request ids.row
              (create_req env req res ids.file_ref) false 0 0 res.selected w))
