-- ===== src/Image/Examples.antt =====
-- The image requests on concrete tables: witnesses. A registry with a controller that works and one
-- that raises stands behind the adapters.
use image2prompt.Base.{
  ℕ, ◌≡◌, ◌≤◌, refl, String, true, ◌&&◌, none, some, List, [], ◌∷◌, map, length, any, All, contains,
  ◌==◌, Dict, Session, opened, IsClean, success,
}
use image2prompt.Adapters.{Controller, returned, threw}
use image2prompt.Image.{
  ProcReqLog, ProcReqLogProvider, ImageDb, RequestStatus, RowStatus, EnabledProvider, Preferences,
  Resolution,
}
use image2prompt.Image.Daos.{is_success, list, list_prompts, get, is_of}
use image2prompt.Image.Daos
use image2prompt.Image.Peers.{ProcessImageReq, Ids, Env, stored, content}
use image2prompt.Image.Process.{process_image, resolve, resolved}
use image2prompt.Image.Settled.{IsSettled}
use image2prompt.Image.Runs.{IsSound, uploaded, start, next, requests-IsSound}
use image2prompt.Image.Resolved.{resolve_selects, wanted, IsKnown}
use image2prompt.Image.Answers.{IsProcessed, rows_of, process_image-answers}
use image2prompt.Image.Wire.{outcome, post, process_image-wired}
use image2prompt.Image.Tenants.{IsOwn, IsOwnItem, reads-IsOwn}
use image2prompt.Image.Stats.{stats}

abbrev mock : Controller String
mock = record { key = "mock"; implemented = true; invoke = λ r. returned "a prompt" }

abbrev broken : Controller String
broken = record {
  key = "bedrock";
  implemented = true;
  invoke = λ r. threw "ClientError" "no region";
}

abbrev registry : Dict (Controller String)
registry = (("mock", mock) ∷ ("bedrock", broken) ∷ [])

abbrev enabled : List (EnabledProvider String)
enabled =
    record { id = "p1"; key = "mock"; name = "Mock"; config = "{}" }
    ∷ record { id = "p2"; key = "bedrock"; name = "Bedrock"; config = "{k}" }
    ∷ record { id = "p3"; key = "cohere"; name = "Cohere"; config = "{}" }
    ∷ []

abbrev prefs : Preferences
prefs = record {
  default_provider_keys = "bedrock" ∷ "old" ∷ "mock" ∷ [];
  storage_backend = "local";
}

abbrev env : Env String String
env = record {
  preferences = λ c. some prefs;
  enabled = some enabled;
  save = λ b c f t x. stored "local" "c1/x.png" t 3;
  post_invoke = λ i r. post registry "404" 7 r;
  no_config = "{}";
  size = λ b. 3;
  b64encode = λ b. "YWJj";
  fetch = λ c k f. content none "";
}

abbrev ids : Ids
ids = record { file_ref = "f1"; request = "r1"; row = λ n. "row"; day = 5 }

abbrev req : ProcessImageReq String
req = record {
  customer_id = "c1";
  image_bytes = "abc";
  content_type = "image/png";
  filename = "x.png";
  instruction = "describe";
  project_id = none;
  requested_providers = [];
}

abbrev empty : Session ImageDb
empty = opened (record { file_refs = []; requests = []; rows = [] })

empty-IsSettled : IsSettled empty.working
empty-IsSettled = record { answered = tt; final = tt; named = tt }

abbrev resolution : Resolution String
resolution = resolved [] prefs enabled

process_image-answers_example :
    (proc : ProcReqLog) × ((process_image env ids req empty).0 ≡ some (success proc))
    × ((process_image env ids req empty).1.durable.requests ≡ proc ∷ [])
    × IsProcessed "r1" resolution proc (process_image env ids req empty).1.durable
    × IsClean (process_image env ids req empty).1
unfolding resolve resolved
process_image-answers_example =
    process_image-answers env ids req resolution empty "bedrock" ("mock" ∷ []) "local" "c1/x.png"
      "image/png" 3 refl empty-IsSettled refl refl refl

process_image-wired_example :
    map outcome (rows_of "r1" (process_image env ids req empty).1.durable)
    ≡ (RowStatus.error, none, some (record { type = "ClientError"; message = "no region" }))
      ∷ (RowStatus.success, some "a prompt", none)
      ∷ []
unfolding resolve resolved
process_image-wired_example =
    process_image-wired registry env "404" (λ i. 7) ids req resolution empty "bedrock" ("mock" ∷ [])
      "local" "c1/x.png" "image/png" 3 (λ i r. refl) refl empty-IsSettled refl refl refl

requests-IsSound_example : IsSound (process_image env ids req empty).1
requests-IsSound_example =
    requests-IsSound String String empty (process_image env ids req empty).1
      (next start (uploaded env ids req refl)) (record { clean = refl; settled = empty-IsSettled })

resolve_selects_example :
    (res : Resolution String) × (resolve env "c1" [] ≡ some res)
    × ((k : String)
        → contains res.selected k
          ≡ (any (λ p. p.key == k) enabled && wanted [] ("bedrock" ∷ "old" ∷ "mock" ∷ []) k))
    × All (IsKnown enabled res) res.selected
resolve_selects_example = resolve_selects env "c1" [] prefs enabled refl refl

abbrev filled : ImageDb
filled = record {
  file_refs = [];
  requests = request "r1" "c1" 4 ∷ request "r2" "c2" 5 ∷ request "r3" "c1" 5 ∷ [];
  rows = row "r1" RowStatus.success ∷ row "r2" RowStatus.error ∷ row "r3" RowStatus.success ∷ [];
}
  where
    request : (id customer_id : String) (day : ℕ) → ProcReqLog
    request id customer_id day = record {
      id = id;
      customer_id = customer_id;
      project_id = none;
      file_ref_id = "f1";
      instruction = "describe";
      status = RequestStatus.completed;
      requested_providers = "mock" ∷ [];
      meta = record { content_type = "image/png"; filename = "x.png"; size = 3 };
      day = day;
    }

    row : String → RowStatus → ProcReqLogProvider
    row proc_req_id status = record {
      id = "row";
      proc_req_id = proc_req_id;
      provider_key = "mock";
      provider_id = some "p1";
      status = status;
      request_instruction = "describe";
      response_payload = none;
      output_text = some "a prompt";
      latency_ms = some 7;
      error = none;
    }

reads-IsOwn_example :
    All (IsOwn "c1") (list "c1" 1 0 filled)
    × (length (list "c1" 1 0 filled) ≤ 1)
    × All (IsOwn "c1") (Daos.resolve "c1" ("r2" ∷ "r3" ∷ []) filled)
    × All (IsOwnItem "c1" filled.requests) (list_prompts "c1" (λ t. true) 1 0 filled)
    × (length (list_prompts "c1" (λ t. true) 1 0 filled) ≤ 1)
    × ((r : ProcReqLog) → get "c1" "r3" filled ≡ success r → (r.customer_id ≡ "c1") × (r.id ≡ "r3"))
reads-IsOwn_example = reads-IsOwn "c1" "r3" ("r2" ∷ "r3" ∷ []) (λ t. true) 1 0 filled

-- the dashboard of these tables, over one day
stats_runs : (stats 1 filled).over_time ≡ (5, 2) ∷ []
unfolding stats
stats_runs = refl
