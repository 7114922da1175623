-- ===== src/Image/Added.antt =====
-- A new request and its rows, added to settled tables: services/image-processing-service/app/facades/image_facade.py.
use image2prompt.Base.{
  All-both, ◌≡◌, ◌≢◌, refl, ap, String, true, false, List, [], ◌∷◌, ◌++◌, any, All, update_if,
  All-append, All-imp, any-append, ◌==◌, eq_iff, arith,
}
use image2prompt.Image.{ProcReqLog, ProcReqLogProvider, ImageDb, RequestStatus}
use image2prompt.Image.Peers.{DispatchReq, Env}
use image2prompt.Image.Process.{set_status, final_status, fan_out, fill}
use image2prompt.Image.Settled.{
  succeeded_for, IsAnswered, IsFinal, has_request, IsSettled, fan_out-others, fan_out-Filled,
  any-none_for,
}

-- only the request with the id changes its status
set_status-others :
    (id : String) (status : RequestStatus) (rs : List ProcReqLog)
    → has_request rs id ≡ false
    → update_if (λ (r : ProcReqLog). r.id == id) (λ r. record r { status = status }) rs ≡ rs
set_status-others id status [] h = refl
set_status-others id status (r ∷ rs) h = ground (arith, set_status-others id status rs)

has_request-ne :
    (id : String) (rs : List ProcReqLog) → has_request rs id ≡ false → All (λ r. r.id ≢ id) rs
has_request-ne id [] h = tt
has_request-ne id (r ∷ rs) h = (ground (arith, eq_iff r.id id), has_request-ne id rs (ground arith))

unnamed :
    (id : String) (rs : List ProcReqLog) (row : ProcReqLogProvider)
    → has_request rs id ≡ false
    → has_request rs row.proc_req_id ≡ true
    → row.proc_req_id ≢ id
unnamed id rs row h n e = ground (arith, ap (λ i. has_request rs i) e)

set_status_new :
    (status : RequestStatus) (rs : List ProcReqLog) (r : ProcReqLog)
    → has_request rs r.id ≡ false
    → update_if
        (λ (q : ProcReqLog). q.id == r.id)
        (λ q. record q { status = status })
        (rs ++ r ∷ [])
      ≡ rs ++ record r { status = status } ∷ []
set_status_new status [] r h = ground (arith, eq_iff r.id r.id)
set_status_new status (q ∷ rs) r h = ground (arith, set_status_new status rs r)

pub any-others :
    (id : String) (rs : List ProcReqLog) (rows : List ProcReqLogProvider)
    → All (λ row. row.proc_req_id ≢ id) rows
    → any (succeeded_for id) rows ≡ false
any-others id rs [] h = refl
any-others id rs (row ∷ rows) (hr, h) =
    ground (arith, any-others id rs rows h, eq_iff row.proc_req_id id)

-- The tables after a new request `r` and its answered rows were added.
abbrev pub added : ImageDb → ProcReqLog → List ProcReqLogProvider → ImageDb
added d r rows = record d { requests = d.requests ++ r ∷ []; rows = d.rows ++ rows }

module _ {C B : Type 0} (env : Env C B) (to : String → DispatchReq C) where
  pub others :
      (d : ImageDb) (id : String)
      → IsSettled d
      → has_request d.requests id ≡ false
      → All (λ row. row.proc_req_id ≢ id) d.rows
  others d id h fresh = All-imp d.rows (λ row n. unnamed id d.requests row fresh n) h.named

  pub fill-added :
      (d : ImageDb) (r : ProcReqLog) (rows : List ProcReqLogProvider)
      → IsSettled d
      → has_request d.requests r.id ≡ false
      → fill env to r.id (added d r rows) ≡ (
        final_status (fan_out env to r.id false 0 rows).0,
        added d
            (record r { status = final_status (fan_out env to r.id false 0 rows).0 })
            (fan_out env to r.id false 0 rows).1,
      )
  unfolding fill set_status
  fill-added d r rows h fresh =
      rw (fan_out-others env to r.id false 0 d.rows rows (others d r.id h fresh)) (
        rw (set_status_new (final_status (fan_out env to r.id false 0 rows).0) d.requests r fresh)
          refl)

  added-IsSettled :
      (d : ImageDb) (r : ProcReqLog) (rows : List ProcReqLogProvider)
      → IsSettled d
      → has_request d.requests r.id ≡ false
      → All IsAnswered rows
      → All (λ row. row.proc_req_id ≡ r.id) rows
      → r.status ≡ final_status (any (succeeded_for r.id) rows)
      → IsSettled (added d r rows)
  added-IsSettled d r rows h fresh answered own final = record {
    answered = All-append IsAnswered d.rows rows h.answered answered;
    final =
        All-append (IsFinal (d.rows ++ rows)) d.requests (r ∷ [])
          (All-imp d.requests
            (λ q (f, ne). ground (
              arith,
              f,
              any-append (succeeded_for q.id) d.rows rows,
              any-none_for r.id q.id rows ne own,
            ))
            (All-both _ _ d.requests h.final (has_request-ne r.id d.requests fresh)))
          (
            ground (
              arith,
              final,
              any-append (succeeded_for r.id) d.rows rows,
              any-others r.id d.requests d.rows (others d r.id h fresh),
            ),
            tt,
          );
    named =
        All-append _ d.rows rows
          (All-imp d.rows
            (λ row n.
              ground (arith, n, any-append (λ q. q.id == row.proc_req_id) d.requests (r ∷ [])))
            h.named)
          (All-imp rows
            (λ row e. ground (
              arith,
              e,
              eq_iff r.id row.proc_req_id,
              any-append (λ q. q.id == row.proc_req_id) d.requests (r ∷ []),
            ))
            own);
  }

  -- What the fan-out makes of a new request and its pending rows.
  pub fill-IsSettled :
      (d : ImageDb) (r : ProcReqLog) (rows : List ProcReqLogProvider)
      → IsSettled d
      → has_request d.requests r.id ≡ false
      → All (λ row. row.proc_req_id ≡ r.id) rows
      → IsSettled (fill env to r.id (added d r rows)).1
  fill-IsSettled d r rows h fresh own =
      let f = fan_out-Filled env to r.id false 0 rows own in
      rw (fill-added d r rows h fresh)
        (added-IsSettled d _ _ h fresh f.answered f.own (ground (arith, f.flag)))
