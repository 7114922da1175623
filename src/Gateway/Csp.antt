-- ===== src/Gateway/Csp.antt =====
-- services/gateway/app/main.py: `csp_report`, the sink of the browsers' CSP reports, and
-- `_normalize_csp_reports`. json.loads and the decoding of the bytes are a parameter.
pub mod Bounded
pub mod Examples
use image2prompt.Base.{
  ℕ, zero, suc, String, Bool, true, false, not, ◌&&◌, Option, none, some, List, [], ◌∷◌, nat_eq,
  ◌==◌, if◌then◌else◌,
}
use image2prompt.Gateway.Headers.{Headers, get_header}
use image2prompt.Gateway.RateLimit.{RateLimiter}
use image2prompt.Gateway.Proxy.{Request, Env, rate_key, rate_limited}

-- what json.loads returns; the keys of an object are distinct
mutual
  pub data Json : Type 0 where
    null : Json
    flag : Bool → Json
    number : ℕ → Json
    text : String → Json
    object : Fields → Json
    array : Items → Json

  pub data Fields : Type 0 where
    no_fields : Fields
    field : String → Json → Fields → Fields

  pub data Items : Type 0 where
    no_items : Items
    item : Json → Items → Items

-- d.get(k), where null stands for None
abbrev pub get : String → Fields → Json
get k no_fields = null
get k (field j v fs) = let rest = get k fs in if j == k then v else rest

-- bool(v)
abbrev pub truthy : Json → Bool
truthy null = false
truthy (flag b) = b
truthy (number n) = not (nat_eq n 0)
truthy (text s) = not (s == "")
truthy (object no_fields) = false
truthy (object (field k v fs)) = true
truthy (array no_items) = false
truthy (array (item v vs)) = true

-- `a or b`
abbrev pub or_else : Json → Json → Json
or_else a b = if truthy a then a else b

abbrev pub is_text : String → Json → Bool
is_text s (text t) = t == s
is_text s _ = false

pub record Report : Type 0 where
  pub document_uri : Json
  pub violated_directive : Json
  pub blocked_uri : Json
  pub source_file : Json
  pub line_number : Json
  pub disposition : Json
  pub user_agent : Json
  pub raw : Json

-- the report of a legacy payload
abbrev pub legacy_report : String → Fields → Report
legacy_report user_agent r = record {
  document_uri = get "document-uri" r;
  violated_directive = or_else (get "violated-directive" r) (get "effective-directive" r);
  blocked_uri = get "blocked-uri" r;
  source_file = get "source-file" r;
  line_number = get "line-number" r;
  disposition = get "disposition" r;
  user_agent = text user_agent;
  raw = object r;
}

-- the report of an item of the Reporting API, with its body
abbrev pub modern_report : String → (it body : Fields) → Report
modern_report user_agent it b = record {
  document_uri = or_else (get "documentURL" b) (get "document-uri" b);
  violated_directive = or_else (get "effectiveDirective" b) (get "violatedDirective" b);
  blocked_uri = or_else (get "blockedURL" b) (get "blocked-uri" b);
  source_file = get "sourceFile" b;
  line_number = get "lineNumber" b;
  disposition = get "disposition" b;
  user_agent = or_else (get "user_agent" it) (text user_agent);
  raw = object it;
}

-- the tests of one item: it is passed over, or it is a report with a body, or its body has no `get`
pub data Kind : Type 0 where
  skipped : Kind
  reported : (it body : Fields) → Kind
  malformed : Kind

abbrev pub kind_of_body : Fields → Json → Kind
kind_of_body it (object b) = reported it b
kind_of_body it body = if truthy body then malformed else reported it no_fields

abbrev pub kind_of : Json → Kind
kind_of (object it) =
    if truthy (get "type" it) && not (is_text "csp-violation" (get "type" it))
    then skipped
    else kind_of_body it (get "body" it)
kind_of _ = skipped

abbrev pub add_report : Report → Option (List Report) → Option (List Report)
add_report r none = none
add_report r (some rs) = some (r ∷ rs)

-- the loop over payload[:n]; `none` where it raises
unfoldable pub reports_of : String → ℕ → Items → Option (List Report)
reports_of user_agent zero its = some []
reports_of user_agent (suc n) no_items = some []
reports_of user_agent (suc n) (item it its) =
    let rest = reports_of user_agent n its in
    elim (kind_of it) [
      | skipped ↦ rest
      | malformed ↦ none
      | reported fields body ↦ add_report (modern_report user_agent fields body) rest
    ]

abbrev pub legacy : String → Json → List Report
legacy user_agent (object r) = legacy_report user_agent r ∷ []
legacy user_agent _ = []

abbrev pub cap : ℕ
cap = 20

-- _normalize_csp_reports
unfoldable pub normalize_csp_reports : Json → (user_agent : String) → Option (List Report)
normalize_csp_reports (object fs) user_agent = some (legacy user_agent (get "csp-report" fs))
normalize_csp_reports (array its) user_agent = reports_of user_agent cap its
normalize_csp_reports _ user_agent = some []

-- what a caught exception leaves: nothing is posted
abbrev pub or_nothing : Option (List Report) → List Report
or_nothing none = []
or_nothing (some rs) = rs

abbrev pub header_or : Option String → String
header_or none = ""
header_or (some s) = s

-- the answer, with the reports that are posted to the admin service; a post that raises
-- httpx.HTTPError is passed over, and one that raises anything else, which would end the loop, is not
-- modelled
pub record Sunk : Type 0 where
  pub status : ℕ
  pub posted : List Report

abbrev pub no_content : List Report → Sunk
no_content rs = record { status = 204; posted = rs }

module _ {limiter : RateLimiter} (env : Env limiter) (loads : String → Option Json) where
  -- the reports of a body; `none` where json.loads raises
  abbrev pub reports_in : String → (user_agent : String) → List Report
  reports_in body user_agent = if body == "" then [] else elim (loads body) [
    | none ↦ []
    | some payload ↦ or_nothing (normalize_csp_reports payload user_agent)
  ]

  -- csp_report
  unfoldable pub csp_report : Request → limiter.State → Sunk × limiter.State
  csp_report req s =
      let (limited, s') =
        rate_limited env env.now (rate_key env req) env.settings.rate_limit_rpm s in
      (
        no_content (
            if limited
            then []
            else reports_in req.body (header_or (get_header "user-agent" req.headers))),
        s',
      )
