-- ===== src/Image/Process.antt =====
-- services/image-processing-service/app: facades/image_facade.py and the services that it calls.
-- What other services, the storage and a connected drive answer are parameters; `none` stands for an
-- exception that leaves the request.
use image2prompt.Base.{
  ℕ, ◌+◌, String, Bool, true, false, ◌||◌, ◌^+◌, Option, none, some, List, [], ◌∷◌, map, keep_if,
  update_if, Dict, lookup, insert, keys, has_key, get_or, ◌==◌, if◌then◌else◌, Session, write,
  commit, Resp, success, failure,
}
use image2prompt.Image.{
  FileRef, ProcReqLog, ProcReqLogProvider, Payload, ImageDb, RequestStatus, RowStatus,
  EnabledProvider, Preferences, Resolution,
}
use image2prompt.Image.Peers.{
  DispatchReq, Posted, body, raised, stored, refused, ProcessImageReq, Ids, content, unreachable,
  Env,
}
use image2prompt.Image.Daos.{CreateProcReqReq, create_file_ref, create}

-- {p["key"]: f(p) for p in enabled}
abbrev pub by_key :
    {C A : Type 0} → (EnabledProvider C → A) → Dict A → List (EnabledProvider C) → Dict A
by_key f out [] = out
by_key f out (p ∷ ps) = by_key f (insert p.key (f p) out) ps

-- the cascade: the request's providers, else the customer's, else all
abbrev pub candidates : (requested defaults all : List String) → List String
candidates (r ∷ rs) ds all = r ∷ rs
candidates [] (d ∷ ds) all = d ∷ ds
candidates [] [] all = all

-- the end of ProviderResolutionService.resolve
unfoldable pub resolved :
    {C : Type 0} → (requested : List String) → Preferences → List (EnabledProvider C) → Resolution C
resolved requested prefs enabled =
    let ids = by_key (λ p. p.id) [] enabled in
    record {
      selected =
          keep_if (λ k. has_key k ids)
            (candidates requested prefs.default_provider_keys (keys ids));
      provider_id_map = ids;
      config_map = by_key (λ p. p.config) [] enabled;
      storage_backend = prefs.storage_backend;
    }

-- what an answer writes to its row
unfoldable pub settle : Payload → ProcReqLogProvider → ProcReqLogProvider
settle payload row =
    let answered = record row {
      response_payload = some payload;
      latency_ms = payload.latency_ms;
    } in
    if payload.status == "success"
    then record answered { status = RowStatus.success; output_text = payload.output_text }
    else record answered { status = RowStatus.error; error = payload.error }

-- AiDispatchService.invoke: an exception becomes the envelope of an error
unfoldable pub payload_of : Posted → Payload
payload_of (body payload) = payload
payload_of (raised class message) = record {
  status = "error";
  output_text = none;
  latency_ms = none;
  error = some (record { type = class; message = message });
}

-- `proc.status = ...`
unfoldable pub set_status : (request_id : String) → RequestStatus → ImageDb → ImageDb
set_status request_id status d = record d {
  requests = update_if (λ r. r.id == request_id) (λ r. record r { status = status }) d.requests;
}

unfoldable pub final_status : Bool → RequestStatus
final_status any_success = if any_success then RequestStatus.completed else RequestStatus.failed

module _ {C B : Type 0} (env : Env C B) where
  open env use {preferences, enabled, save, post_invoke, no_config, size, b64encode, fetch}

  -- ProviderResolutionService.resolve
  unfoldable pub resolve : (customer_id : String) (requested : List String) → Option (Resolution C)
  resolve customer_id requested = elim (preferences customer_id) [
    | none ↦ none
    | some prefs ↦ elim enabled [
      | none ↦ none
      | some providers ↦ some (resolved requested prefs providers)
    ]
  ]

  -- ProviderResolutionService.list_enabled, which the facade passes on; `exc` is the exception's text
  unfoldable pub list_enabled : (exc : String) → Resp (List (String × String))
  list_enabled exc = elim enabled [
    | none ↦ failure "upstream_error" exc
    | some providers ↦ success (map (λ p. (p.key, p.name)) providers)
  ]

  abbrev pub dispatch_req :
      ProcessImageReq B → Resolution C → (request_id provider_key : String) → DispatchReq C
  dispatch_req req resolution request_id provider_key = record {
    provider_key = provider_key;
    request_id = request_id;
    instruction = req.instruction;
    image_base64 = b64encode req.image_bytes;
    media_type = (if req.content_type == "" then "image/png" else req.content_type);
    config = get_or (lookup provider_key resolution.config_map) no_config;
  }

  -- The loop over proc.providers, the rows that name the request, which changes them in place. It
  -- returns `any_success`; `n` counts the calls.
  unfoldable pub fan_out :
      (String → DispatchReq C)
      → (request_id : String) → Bool
      → ℕ
      → List ProcReqLogProvider
      → Bool × List ProcReqLogProvider
  fan_out to request_id any_success n [] = (any_success, [])
  fan_out to request_id any_success n (row ∷ rows) = elim (row.proc_req_id == request_id) [
    | false ↦ let (found, rest) = fan_out to request_id any_success n rows in (found, row ∷ rest)
    | true ↦
        let payload = payload_of (post_invoke n (to row.provider_key)) in
        let (found, rest) =
          fan_out to request_id (any_success || payload.status == "success") (n + 1) rows in
        (found, settle payload row ∷ rest)
  ]

  -- the fan-out over the tables, and the request's final status
  unfoldable pub fill :
      (String → DispatchReq C) → (request_id : String) → ImageDb → RequestStatus × ImageDb
  fill to request_id d =
      let (any_success, rows) = fan_out to request_id false 0 d.rows in
      (
        final_status any_success,
        set_status request_id (final_status any_success) (record d { rows = rows }),
      )

  abbrev pub create_req :
      ProcessImageReq B → Resolution C → (file_ref_id : String) → CreateProcReqReq
  create_req req resolution file_ref_id = record {
    customer_id = req.customer_id;
    project_id = req.project_id;
    file_ref_id = file_ref_id;
    instruction = req.instruction;
    selected_providers = resolution.selected;
    provider_id_map = resolution.provider_id_map;
    meta = record {
      content_type = req.content_type;
      filename = req.filename;
      size = size req.image_bytes;
    };
  }

  -- the FileRef that StorageService.store records
  abbrev pub file_ref_of :
      Ids → ProcessImageReq B → (backend location content_type : String) (size : ℕ) → FileRef
  file_ref_of ids req backend location content_type size = record {
    id = ids.file_ref;
    customer_id = req.customer_id;
    backend = backend;
    location = location;
    content_type = content_type;
    size = size;
    original_filename = req.filename;
  }

  -- process_image once the image is stored
  unfoldable pub process_stored :
      Ids → ProcessImageReq B → Resolution C → Session ImageDb → Resp ProcReqLog × Session ImageDb
  process_stored ids req resolution s =
      let (proc, d) =
        create ids.request ids.day ids.row (create_req req resolution ids.file_ref) s.working in
      let (status, d') = fill (dispatch_req req resolution proc.id) proc.id d in
      (success (record proc { status = status }), commit (write (λ _. d') s))

  -- process_image once the providers are resolved
  unfoldable pub process_resolved :
      Ids → ProcessImageReq B → Resolution C → Session ImageDb → Resp ProcReqLog × Session ImageDb
  process_resolved ids req resolution s = elim resolution.selected [
    | [] ↦ (failure "no_providers" "No enabled providers available for this request.", s)
    | k ∷ ks ↦
        elim (save resolution.storage_backend req.customer_id req.filename req.content_type
          req.image_bytes) [
            | refused message ↦ (failure "internal" ("Storage backend error: " ^+ message), s)
            | stored backend location content_type size ↦
                process_stored ids req resolution (
                  write (create_file_ref (file_ref_of ids req backend location content_type size))
                    s)
          ]
  ]

  -- ImageFacade.process_image
  unfoldable pub process_image :
      Ids → ProcessImageReq B → Session ImageDb → Option (Resp ProcReqLog) × Session ImageDb
  process_image ids req s = elim (resolve req.customer_id req.requested_providers) [
    | none ↦ (none, s)
    | some resolution ↦ let (resp, s') = process_resolved ids req resolution s in (some resp, s')
  ]

  abbrev pub fetch_failed : String → Resp ProcReqLog
  fetch_failed message =
      failure "upstream_error"
        (if message == "" then "Could not fetch the connected file" else message)

  -- ImageFacade.process_from_connection
  unfoldable pub process_from_connection :
      Ids
      → (customer_id connection_id file_id instruction : String) → Option String
      → (requested : List String) → Session ImageDb
      → Option (Resp ProcReqLog) × Session ImageDb
  process_from_connection ids customer_id connection_id file_id instruction project_id requested s =
      elim (fetch customer_id connection_id file_id) [
        | unreachable message ↦ (some (fetch_failed message), s)
        | content none content_type ↦ (some (fetch_failed ""), s)
        | content (some bytes) content_type ↦
            process_image ids
              (record {
                customer_id = customer_id;
                image_bytes = bytes;
                content_type = content_type;
                filename = "connection-" ^+ file_id;
                instruction = instruction;
                project_id = project_id;
                requested_providers = requested;
              })
              s
      ]
