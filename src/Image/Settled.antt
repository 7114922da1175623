-- ===== src/Image/Settled.antt =====
-- What the fan-out of services/image-processing-service/app/facades/image_facade.py leaves behind.
use image2prompt.Base.{
  ℕ, ◌+◌, ◌≡◌, ◌≢◌, refl, Option, lookup, String, Bool, true, false, ◌&&◌, ◌||◌, List, [], ◌∷◌,
  ◌++◌, map, any, All, ◌==◌, eq_iff, arith,
}
use image2prompt.Image.{ProcReqLog, ProcReqLogProvider, Payload, ImageDb, RowStatus}
use image2prompt.Image.Daos.{is_success, CreateProcReqReq, pending_rows}
use image2prompt.Image.Peers.{DispatchReq, Env}
use image2prompt.Image.Process.{settle, payload_of, final_status, fan_out}

-- a row of the request that succeeded
abbrev pub succeeded_for : String → ProcReqLogProvider → Bool
succeeded_for id row = row.proc_req_id == id && is_success row.status

-- the provider that a row is for, by its key and its id
abbrev pub target : ProcReqLogProvider → String × Option String
target row = (row.provider_key, row.provider_id)

abbrev pub IsAnswered : ProcReqLogProvider → Type 0
IsAnswered row = row.status ≢ RowStatus.pending

abbrev pub IsFinal : List ProcReqLogProvider → ProcReqLog → Type 0
IsFinal rows r = r.status ≡ final_status (any (succeeded_for r.id) rows)

abbrev pub has_request : List ProcReqLog → String → Bool
has_request requests id = any (λ r. r.id == id) requests

-- No row is pending, a request is completed when one of its rows succeeded and failed otherwise, and
-- every row names a request.
pub record IsSettled (d : ImageDb) : Type 0 where
  pub answered : All IsAnswered d.rows
  pub final : All (IsFinal d.rows) d.requests
  pub named : All (λ row. has_request d.requests row.proc_req_id ≡ true) d.rows

pub settle_lem :
    (p : Payload) (row : ProcReqLogProvider)
    → IsAnswered (settle p row)
      × ((settle p row).proc_req_id ≡ row.proc_req_id)
      × (target (settle p row) ≡ target row)
      × (is_success (settle p row).status ≡ (p.status == "success"))
unfolding settle
settle_lem p row = ground arith

pub any-none_for :
    (id other : String) (rows : List ProcReqLogProvider)
    → other ≢ id
    → All (λ row. row.proc_req_id ≡ id) rows
    → any (succeeded_for other) rows ≡ false
any-none_for id other [] h hs = refl
any-none_for id other (row ∷ rows) h (e, hs) =
    ground (arith, any-none_for id other rows h hs, eq_iff row.proc_req_id other)

module _ {C B : Type 0} (env : Env C B) (to : String → DispatchReq C) (id : String) where
  -- the rows of other requests are left alone
  pub fan_out-others :
      (a : Bool) (n : ℕ) (old new : List ProcReqLogProvider)
      → All (λ row. row.proc_req_id ≢ id) old
      → fan_out env to id a n (old ++ new)
        ≡ ((fan_out env to id a n new).0, old ++ (fan_out env to id a n new).1)
  unfolding fan_out
  fan_out-others a n [] new h = refl
  fan_out-others a n (row ∷ old) new (hr, h) =
      let e : (row.proc_req_id == id) ≡ false = ground (arith, eq_iff row.proc_req_id id) in
      rw (e, fan_out, fan_out-others a n old new h) refl

  -- What it makes of the request's own rows: each is answered, and the flag says whether one
  -- succeeded.
  pub record Filled (a : Bool) (rows : List ProcReqLogProvider)
      (res : Bool × List ProcReqLogProvider) : Type 0 where
    pub answered : All IsAnswered res.1
    pub own : All (λ row. row.proc_req_id ≡ id) res.1
    pub same : map target res.1 ≡ map target rows
    pub flag : res.0 ≡ (a || any (succeeded_for id) res.1)

  pub fan_out-Filled :
      (a : Bool) (n : ℕ) (rows : List ProcReqLogProvider)
      → All (λ row. row.proc_req_id ≡ id) rows
      → Filled a rows (fan_out env to id a n rows)
  unfolding fan_out
  fan_out-Filled a n [] h = record { answered = tt; own = tt; same = refl; flag = ground arith }
  fan_out-Filled a n (row ∷ rows) (hr, h) =
      let e : (row.proc_req_id == id) ≡ true = ground (arith, eq_iff row.proc_req_id id) in
      let p = payload_of (env.post_invoke n (to row.provider_key)) in
      let l = settle_lem p row in
      let rest = fan_out-Filled (a || p.status == "success") (n + 1) rows h in
      rw (e, fan_out)
        (record {
          answered = (l.0, rest.answered);
          own = (ground arith, rest.own);
          same = ground (arith, l, rest.same);
          flag = ground (arith, l, rest.flag, eq_iff (settle p row).proc_req_id id);
        })

pub pending_rows_lem :
    (row_id : ℕ → String) (id : String) (req : CreateProcReqReq) (n : ℕ) (ks : List String)
    → All (λ row. row.proc_req_id ≡ id) (pending_rows row_id id req n ks)
      × (map target (pending_rows row_id id req n ks)
          ≡ map (λ k. (k, lookup k req.provider_id_map)) ks)
pending_rows_lem row_id id req n [] = (tt, refl)
pending_rows_lem row_id id req n (k ∷ ks) =
    let rest = pending_rows_lem row_id id req (n + 1) ks in ((refl, rest.0), rw rest.1 refl)
