-- ===== src/Image/Runs.antt =====
-- Sequences of image requests: services/image-processing-service/app/facades/image_facade.py.
use image2prompt.Base.{
  List-cases, ◌⊎◌, ℕ, ◌≡◌, refl, String, false, List, Option, Option-cases, inl, inr, Session,
  IsClean,
}
use image2prompt.Image.{ImageDb, Resolution}
use image2prompt.Image.Daos.{create_file_ref, create, new_request}
use image2prompt.Image.Peers.{
  ProcessImageReq, Ids, Env, Saved, stored, refused, Fetched, unreachable, content,
}
use image2prompt.Image.Process.{
  create_req, dispatch_req, process_stored, process_resolved, process_image,
  process_from_connection, resolve,
}
use image2prompt.Image.Settled.{has_request, IsSettled, pending_rows_lem}
use image2prompt.Image.Added.{fill-IsSettled}

-- Nothing is left uncommitted, and every request is settled.
pub record IsSound (s : Session ImageDb) : Type 0 where
  pub clean : IsClean s
  pub settled : IsSettled s.working

process_stored-IsSound :
    {C B : Type 0} (env : Env C B) (ids : Ids) (req : ProcessImageReq B) (res : Resolution C)
    (s : Session ImageDb)
    → has_request s.working.requests ids.request ≡ false
    → IsSettled s.working
    → IsSound (process_stored env ids req res s).1
unfolding process_stored create
process_stored-IsSound env ids req res s fresh h =
    let r = new_request ids.request ids.day (create_req env req res ids.file_ref) in
    record {
      clean = refl;
      settled =
          fill-IsSettled env (dispatch_req env req res ids.request) s.working r _ h fresh
            (pending_rows_lem ids.row ids.request (create_req env req res ids.file_ref) 0
              res.selected).0;
    }

Saved-cases :
    (v : Saved)
    → ((backend : String) × (location : String) × (content_type : String) × (size : ℕ) × (v
          ≡ stored backend location content_type size))
      ⊎ ((message : String) × (v ≡ refused message))
Saved-cases (stored backend location content_type size) =
    inl (backend, location, content_type, size, refl)
Saved-cases (refused message) = inr (message, refl)

-- A request that may start: its id is not in use.
abbrev pub IsUnused : Ids → Session ImageDb → Type 0
IsUnused ids s = has_request s.working.requests ids.request ≡ false

process_resolved-IsSound :
    {C B : Type 0} (env : Env C B) (ids : Ids) (req : ProcessImageReq B) (res : Resolution C)
    (s : Session ImageDb)
    → IsUnused ids s
    → IsSound s
    → IsSound (process_resolved env ids req res s).1
unfolding process_resolved create_file_ref
process_resolved-IsSound env ids req res s fresh h = elim (List-cases res.selected) [
  | inl e ↦ rw (e, process_resolved) h
  | inr (k, ks, e) ↦
      elim (Saved-cases (
        env.save res.storage_backend req.customer_id req.filename req.content_type
          req.image_bytes)) [
            | inr (message, v) ↦ rw (e, v, process_resolved) h
            | inl (backend, location, content_type, size, v) ↦
                rw (e, v, process_resolved)
                  (process_stored-IsSound env ids req res _ fresh (record {
                    answered = h.settled.answered;
                    final = h.settled.final;
                    named = h.settled.named;
                  }))
          ]
]

process_image-IsSound :
    {C B : Type 0} (env : Env C B) (ids : Ids) (req : ProcessImageReq B) (s : Session ImageDb)
    → IsUnused ids s
    → IsSound s
    → IsSound (process_image env ids req s).1
unfolding process_image
process_image-IsSound env ids req s fresh h =
    elim (Option-cases (resolve env req.customer_id req.requested_providers)) [
      | inl e ↦ rw (e, process_image) h
      | inr (res, e) ↦ rw (e, process_image) (process_resolved-IsSound env ids req res s fresh h)
    ]

Fetched-cases :
    {B : Type 0} (f : Fetched B)
    → ((message : String) × (f ≡ unreachable message))
      ⊎ ((bytes : Option B) × (content_type : String) × (f ≡ content bytes content_type))
Fetched-cases (unreachable message) = inl (message, refl)
Fetched-cases (content bytes content_type) = inr (bytes, content_type, refl)

process_from_connection-IsSound :
    {C B : Type 0} (env : Env C B) (ids : Ids)
    (customer_id connection_id file_id instruction : String) (project_id : Option String)
    (requested : List String) (s : Session ImageDb)
    → IsUnused ids s
    → IsSound s
    → IsSound
        (process_from_connection env ids customer_id connection_id file_id instruction project_id
          requested s).1
unfolding process_from_connection
process_from_connection-IsSound env ids customer_id connection_id file_id instruction project_id
      requested s fresh h =
    elim (Fetched-cases (env.fetch customer_id connection_id file_id)) [
      | inl (message, e) ↦ rw (e, process_from_connection) h
      | inr (bytes, content_type, e) ↦ elim (Option-cases bytes) [
        | inl none_e ↦ rw (e, none_e, process_from_connection) h
        | inr (b, some_e) ↦
            rw (e, some_e, process_from_connection) (process_image-IsSound env ids _ s fresh h)
      ]
    ]

module _ (C B : Type 0) where
  -- One request of the service that writes, with whatever the other services answer.
  pub data Step (s : Session ImageDb) : Session ImageDb → Type 0 where
    uploaded :
        (env : Env C B) (ids : Ids) (req : ProcessImageReq B)
        → IsUnused ids s
        → Step s (process_image env ids req s).1
    connected :
        (env : Env C B) (ids : Ids) (customer_id connection_id file_id instruction : String)
        (project_id : Option String) (requested : List String)
        → IsUnused ids s
        → Step s
            (process_from_connection env ids customer_id connection_id file_id instruction
              project_id requested s).1

  pub data Reaches (s : Session ImageDb) : Session ImageDb → Type 0 where
    start : Reaches s s
    next : {t u : Session ImageDb} → Reaches s t → Step t u → Reaches s u

  -- Whatever images are sent, and whatever the providers, the storage and the other services answer:
  -- starting from such tables, nothing is left uncommitted, no row is left pending, a request is
  -- completed when one of its rows succeeded and failed otherwise, and every row names a request.
  pub requests-IsSound : (s t : Session ImageDb) → Reaches s t → IsSound s → IsSound t
  requests-IsSound s t start h = h
  requests-IsSound s t (next r (uploaded env ids req fresh)) h =
      process_image-IsSound env ids req _ fresh (requests-IsSound s _ r h)
  requests-IsSound s t (next r (connected env ids c k f i p q fresh)) h =
      process_from_connection-IsSound env ids c k f i p q _ fresh (requests-IsSound s _ r h)
