-- ===== src/Image/Answers.antt =====
-- What a request for an image answers: services/image-processing-service/app/facades/image_facade.py,
-- `process_image`.
use image2prompt.Base.{
  ℕ, ◌≡◌, ◌≢◌, refl, String, Bool, false, List, [], ◌∷◌, ◌++◌, map, any, All, keep_if, lookup, ◌==◌,
  eq_iff, arith, some, Session, write, IsClean, success,
}
use image2prompt.Image.{ProcReqLog, ProcReqLogProvider, ImageDb, Resolution}
use image2prompt.Image.Daos.{is_success, create_file_ref, create, new_request, pending_rows}
use image2prompt.Image.Peers.{ProcessImageReq, Ids, Env, stored}
use image2prompt.Image.Process.{
  final_status, file_ref_of, fan_out, create_req, dispatch_req, process_stored, process_resolved,
  process_image, resolve,
}
use image2prompt.Image.Settled.{
  succeeded_for, target, IsAnswered, IsSettled, fan_out-Filled, pending_rows_lem,
}
use image2prompt.Image.Added.{fill-added, others}
use image2prompt.Image.Runs.{IsUnused}

-- the rows of a request
unfoldable pub rows_of : String → ImageDb → List ProcReqLogProvider
rows_of id d = keep_if (λ row. row.proc_req_id == id) d.rows

rows_of-new :
    (id : String) (old new : List ProcReqLogProvider)
    → All (λ row. row.proc_req_id ≢ id) old
    → All (λ row. row.proc_req_id ≡ id) new
    → keep_if (λ (row : ProcReqLogProvider). row.proc_req_id == id) (old ++ new) ≡ new
rows_of-new id [] [] ho hn = refl
rows_of-new id [] (row ∷ new) ho (e, hn) =
    ground (arith, eq_iff row.proc_req_id id, rows_of-new id [] new ho hn)
rows_of-new id (row ∷ old) new (e, ho) hn =
    ground (arith, eq_iff row.proc_req_id id, rows_of-new id old new ho hn)

any-own :
    (id : String) (rows : List ProcReqLogProvider)
    → All (λ row. row.proc_req_id ≡ id) rows
    → any (succeeded_for id) rows ≡ any (λ row. is_success row.status) rows
any-own id [] h = refl
any-own id (row ∷ rows) (e, h) = ground (arith, any-own id rows h, eq_iff row.proc_req_id id)

-- What a request leaves: its row with the final status, and one answered row for every provider that
-- was selected, in their order, with the provider's id.
pub record IsProcessed {C : Type 0} (id : String) (res : Resolution C) (proc : ProcReqLog)
    (d : ImageDb) : Type 0 where
  pub providers :
      map target (rows_of id d) ≡ map (λ k. (k, lookup k res.provider_id_map)) res.selected
  pub answered : All IsAnswered (rows_of id d)
  pub status : proc.status ≡ final_status (any (λ row. is_success row.status) (rows_of id d))

module _ {C B : Type 0} (env : Env C B) (ids : Ids) (req : ProcessImageReq B)
    (res : Resolution C) where
  -- the rows that the fan-out makes of the pending ones
  abbrev pub filled_rows : Bool × List ProcReqLogProvider
  filled_rows =
      fan_out env (dispatch_req env req res ids.request) ids.request false 0
        (pending_rows ids.row ids.request (create_req env req res ids.file_ref) 0 res.selected)

  pub stored-rows :
      (s : Session ImageDb)
      → IsUnused ids s
      → IsSettled s.working
      → rows_of ids.request (process_stored env ids req res s).1.durable ≡ filled_rows.1
  unfolding process_stored create rows_of
  stored-rows s fresh h =
      let create_r = create_req env req res ids.file_ref in
      let r = new_request ids.request ids.day create_r in
      let to = dispatch_req env req res ids.request in
      let p = pending_rows_lem ids.row ids.request create_r 0 res.selected in
      rw (fill-added env to s.working r _ h fresh, process_stored)
        (rows_of-new ids.request s.working.rows filled_rows.1
          (others env to s.working ids.request h fresh)
          (fan_out-Filled env to ids.request false 0 _ p.0).own)

  stored_answers :
      (s : Session ImageDb)
      → IsUnused ids s
      → IsSettled s.working
      → (proc : ProcReqLog) × ((process_stored env ids req res s).0 ≡ success proc)
        × ((process_stored env ids req res s).1.durable.requests ≡ s.working.requests ++ proc ∷ [])
        × IsProcessed ids.request res proc (process_stored env ids req res s).1.durable
        × IsClean (process_stored env ids req res s).1
  unfolding process_stored create rows_of
  stored_answers s fresh h =
      let create_r = create_req env req res ids.file_ref in
      let r = new_request ids.request ids.day create_r in
      let to = dispatch_req env req res ids.request in
      let p = pending_rows_lem ids.row ids.request create_r 0 res.selected in
      let pending = pending_rows ids.row ids.request create_r 0 res.selected in
      let f = fan_out-Filled env to ids.request false 0 pending p.0 in
      let done = fan_out env to ids.request false 0 pending in
      let own =
        rows_of-new ids.request s.working.rows done.1 (others env to s.working ids.request h fresh)
          f.own in
      let filled = fill-added env to s.working r pending h fresh in
      (
        record r { status = final_status done.0 },
        rw (filled, process_stored) refl,
        rw (filled, process_stored) refl,
        rw (filled, process_stored)
            (record {
              providers = rw (own, f.same) p.1;
              answered = rw own f.answered;
              status = rw own (ground (arith, f.flag, any-own ids.request done.1 f.own));
            }),
        refl,
      )

  -- the session once the upload is recorded
  abbrev pub with_file :
      Session ImageDb → (backend location content_type : String) (size : ℕ) → Session ImageDb
  with_file s backend location content_type size =
      write (create_file_ref (file_ref_of env ids req backend location content_type size)) s

  pub process_image-stored :
      (s : Session ImageDb) (k : String) (ks : List String) (backend location content_type : String)
      (size : ℕ)
      → resolve env req.customer_id req.requested_providers ≡ some res
      → res.selected ≡ k ∷ ks
      → env.save res.storage_backend req.customer_id req.filename req.content_type req.image_bytes
        ≡ stored backend location content_type size
      → process_image env ids req s ≡ (
        some (process_stored env ids req res (with_file s backend location content_type size)).0,
        (process_stored env ids req res (with_file s backend location content_type size)).1,
      )
  unfolding process_image process_resolved
  process_image-stored s k ks backend location content_type size hr hs hv =
      rw (hr, process_image) (ground arith)

  -- Once some provider is selected and the image is stored, the request answers with its row, which
  -- is inserted and committed: there is one answered row for every selected provider, in their
  -- order, with the provider's id, and the request is completed when one of them succeeded and
  -- failed otherwise, whatever the adapters answer or raise.
  pub process_image-answers :
      (s : Session ImageDb) (k : String) (ks : List String) (backend location content_type : String)
      (size : ℕ)
      → IsUnused ids s
      → IsSettled s.working
      → resolve env req.customer_id req.requested_providers ≡ some res
      → res.selected ≡ k ∷ ks
      → env.save res.storage_backend req.customer_id req.filename req.content_type req.image_bytes
        ≡ stored backend location content_type size
      → (proc : ProcReqLog) × ((process_image env ids req s).0 ≡ some (success proc))
        × ((process_image env ids req s).1.durable.requests ≡ s.working.requests ++ proc ∷ [])
        × IsProcessed ids.request res proc (process_image env ids req s).1.durable
        × IsClean (process_image env ids req s).1
  unfolding create_file_ref
  process_image-answers s k ks backend location content_type size fresh h hr hs hv =
      let (proc, e, inserted, processed, clean) =
        stored_answers (with_file s backend location content_type size) fresh
          (record { answered = h.answered; final = h.final; named = h.named }) in
      rw (process_image-stored s k ks backend location content_type size hr hs hv)
        (proc, rw e refl, inserted, processed, clean)
