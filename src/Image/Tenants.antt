-- ===== src/Image/Tenants.antt =====
-- Whose requests the reads of services/image-processing-service/app/dao return, and how many.
use image2prompt.Base.{
  sym, subst, ℕ, ◌≤◌, ◌≡◌, String, Bool, true, ◌&&◌, some, List, [], ◌∷◌, length, any, All, keep_if,
  find?, contains, length-take-le, All-imp, All-page, All-newest_first, All-keep_if_self, any-find?,
  find?-holds, Option-cases, inl, inr, Bool-cases, ◌==◌, eq_iff, arith, success,
}
use image2prompt.Image.{ProcReqLog, ProcReqLogProvider, ImageDb}
use image2prompt.Image.Daos.{
  PromptItem, is_of, is_prompt, join_prompts, prompt_item, list, resolve, get, list_prompts,
}

abbrev pub IsOwn : String → ProcReqLog → Type 0
IsOwn customer_id r = r.customer_id ≡ customer_id

-- an item of a request that the customer has
abbrev pub IsOwnItem : String → List ProcReqLog → PromptItem → Type 0
IsOwnItem customer_id requests i =
    any (λ r. r.id == i.request_id && is_of customer_id r) requests ≡ true

IsOwn-rows :
    (customer_id : String) (p : ProcReqLog → Bool) (rs : List ProcReqLog)
    → ((r : ProcReqLog) → p r ≡ true → is_of customer_id r ≡ true)
    → All (IsOwn customer_id) (keep_if p rs)
IsOwn-rows customer_id p rs h =
    All-imp (keep_if p rs) (λ r e. (eq_iff r.customer_id customer_id).0 (h r e))
      (All-keep_if_self p rs)

own_item :
    (customer_id : String) (requests : List ProcReqLog) (row : ProcReqLogProvider)
    (proc : ProcReqLog)
    → find? (λ r. r.id == row.proc_req_id) requests ≡ some proc
    → is_of customer_id proc ≡ true
    → IsOwnItem customer_id requests (prompt_item row proc)
own_item customer_id requests row proc e h =
    let same : row.proc_req_id ≡ proc.id =
      sym ((eq_iff proc.id row.proc_req_id).0 (find?-holds _ requests proc e)) in
    subst (λ i. any (λ r. r.id == i && is_of customer_id r) requests ≡ true) same
      (any-find? (λ r. r.id == row.proc_req_id) (is_of customer_id) requests proc e h)

join_prompts-own :
    (customer_id : String) (matches : String → Bool) (requests : List ProcReqLog)
    (rows : List ProcReqLogProvider)
    → All (IsOwnItem customer_id requests) (join_prompts customer_id matches requests rows)
join_prompts-own customer_id matches requests [] = tt
join_prompts-own customer_id matches requests (row ∷ rows) =
    let rest = join_prompts-own customer_id matches requests rows in
    elim (Option-cases (find? (λ r. r.id == row.proc_req_id) requests)) [
      | inl e ↦ rw (e, join_prompts) rest
      | inr (proc, e) ↦ elim (Bool-cases (is_of customer_id proc && is_prompt matches row)) [
        | inr f ↦ rw (e, f, join_prompts) rest
        | inl f ↦
            rw (e, f, join_prompts) (own_item customer_id requests row proc e (ground arith), rest)
      ]
    ]

resolve-IsOwn :
    (customer_id : String) (ids : List String) (d : ImageDb)
    → All (IsOwn customer_id) (resolve customer_id ids d)
unfolding resolve
resolve-IsOwn customer_id [] d = tt
resolve-IsOwn customer_id (i ∷ ids) d =
    IsOwn-rows customer_id (λ r. is_of customer_id r && contains (i ∷ ids) r.id) d.requests
      (λ r e. ground arith)

get-own :
    (customer_id request_id : String) (d : ImageDb) (r : ProcReqLog)
    → get customer_id request_id d ≡ success r
    → (r.customer_id ≡ customer_id) × (r.id ≡ request_id)
unfolding get
get-own customer_id request_id d r e =
    elim (Option-cases (find? (λ q. q.id == request_id) d.requests)) [
      | inl f ↦ ground (arith, f)
      | inr (q, f) ↦ ground (
        arith,
        e,
        f,
        find?-holds (λ q. q.id == request_id) d.requests q f,
        eq_iff q.id request_id,
        eq_iff q.customer_id customer_id,
      )
    ]

-- The requests that a customer lists or resolves are the customer's, the prompts that a customer lists
-- are of the customer's requests, neither listing is longer than its limit, and a request that a
-- customer gets is the customer's and the one asked for.
pub reads-IsOwn :
    (customer_id request_id : String) (ids : List String) (matches : String → Bool)
    (limit offset : ℕ) (d : ImageDb)
    → All (IsOwn customer_id) (list customer_id limit offset d)
      × (length (list customer_id limit offset d) ≤ limit)
      × All (IsOwn customer_id) (resolve customer_id ids d)
      × All (IsOwnItem customer_id d.requests) (list_prompts customer_id matches limit offset d)
      × (length (list_prompts customer_id matches limit offset d) ≤ limit)
      × ((r : ProcReqLog)
          → get customer_id request_id d ≡ success r
          → (r.customer_id ≡ customer_id) × (r.id ≡ request_id))
unfolding list list_prompts
reads-IsOwn customer_id request_id ids matches limit offset d = (
  All-page _ limit offset _
      (All-newest_first _ _ (IsOwn-rows customer_id (is_of customer_id) d.requests (λ r e. e))),
  length-take-le limit _,
  resolve-IsOwn customer_id ids d,
  All-page _ limit offset _
      (All-newest_first _ _ (join_prompts-own customer_id matches d.requests d.rows)),
  length-take-le limit _,
  (λ r e. get-own customer_id request_id d r e),
)
