-- ===== src/Gateway/Csp/Examples.antt =====
-- A list of three items of which one is of another type: the witness.
use image2prompt.Base.{
  ◌≤◌, ◌≡◌, ◌≢◌, refl, String, true, false, Option, none, some, [], ◌∷◌, length,
}
use image2prompt.Gateway.{Settings}
use image2prompt.Gateway.RateLimit.{memory_limiter}
use image2prompt.Gateway.Proxy.{Env, Request, http_error, rate_key, rate_limited}
use image2prompt.Gateway.Csp.{
  Json, text, object, array, no_fields, field, Items, no_items, item, csp_report,
}
use image2prompt.Gateway.Csp.Bounded.{AreReadable, count_reports, csp_report-bounded}

abbrev settings : Settings
settings = record {
  admin_service_url = "http://admin";
  customer_service_url = "http://customer";
  image_service_url = "http://image";
  kb_service_url = "http://kb";
  rate_limit_enabled = true;
  rate_limit_rpm = 2;
  auth_rate_limit_rpm = 1;
  security_headers_enabled = true;
  hsts_enabled = true;
  max_body_bytes = 1000;
}

abbrev env : Env memory_limiter
env = record {
  settings = settings;
  decode = λ t. none;
  upstream = λ out. http_error "down";
  now = 60;
  later = 61;
}

abbrev report : String → Json
report type = object (field "type" (text type) (field "body" (object no_fields) no_fields))

abbrev items : Items
items = item (report "csp-violation") (item (report "deprecation") (item (report "") no_items))

abbrev loads : String → Option Json
loads s = some (array items)

abbrev request : Request
request = record {
  method = "POST";
  path = "/api/csp-report";
  query = [];
  headers = ("user-agent", "browser") ∷ [];
  authorization = "";
  host = some "10.0.0.1";
  body = "[...]";
  request_id = "r1";
}

csp_report-bounded_example :
    ((csp_report env loads request []).0.status ≡ 204)
    × (length (csp_report env loads request []).0.posted ≤ 20)
    × ((rate_limited env 60 (rate_key env request) 2 []).0 ≡ true
        → (csp_report env loads request []).0.posted ≡ [])
    × ((its : Items)
        → (rate_limited env 60 (rate_key env request) 2 []).0 ≡ false
        → request.body ≢ ""
        → loads request.body ≡ some (array its)
        → AreReadable 20 its
        → length (csp_report env loads request []).0.posted ≡ count_reports 20 its)
csp_report-bounded_example = csp_report-bounded env loads request []

two_reports : count_reports 20 items ≡ 2
two_reports = refl
