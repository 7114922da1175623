-- ===== src/Gateway/Proxy/Examples.antt =====
-- The edge at concrete requests.
use image2prompt.Base.{
  ℕ, ◌+◌, ◌≡◌, refl, String, true, false, none, some, [], ◌∷◌, All, ltb, arith, ◌==◌, if◌then◌else◌,
}
use image2prompt.Gateway.{Settings, routes, match_route, is_public, is_auth_sensitive}
use image2prompt.Gateway.Headers.{Headers, get_header, forwarded_headers, is_bearer, bearer_token}
use image2prompt.Gateway.Headers.Kept.{PassesOn, last_value, forwarded_headers-PassesOn}
use image2prompt.Gateway.RateLimit.{
  memory_limiter, window_at, over_limit, put_hits, get_hits, clean_up,
}
use image2prompt.Gateway.RateLimit.Exact
use image2prompt.Gateway.RateLimit.Exact.{Call, calls_in, over_limit-exact}
use image2prompt.Gateway.RateLimit.Redis
use image2prompt.Gateway.RateLimit.Redis.{Server, over_limit-degraded}
use image2prompt.Gateway.Proxy.{
  Env, Request, answered, proxy, judge, judge_route, admit, authorise, check_token, auth_limited,
  rate_limited, rate_key, subject_key, ip_of, respond, relay, outgoing,
}
use image2prompt.Gateway.Proxy.Safety.{Sent, proxy-IsCleared}

abbrev settings : Settings
settings = record {
  admin_service_url = "http://admin";
  customer_service_url = "http://customer";
  image_service_url = "http://image";
  kb_service_url = "http://kb";
  rate_limit_enabled = true;
  rate_limit_rpm = 2;
  auth_rate_limit_rpm = 1;
  security_headers_enabled = true;
  hsts_enabled = true;
  max_body_bytes = 1000;
}

abbrev env : Env memory_limiter
env = record {
  settings = settings;
  decode = λ t. if t == "good" then some (some "u1") else none;
  upstream = λ out. answered (record { status = 200; headers = []; content = out.url });
  now = 60;
  later = 61;
}

abbrev request : String → Request
request path = record {
  method = "GET";
  path = path;
  query = [];
  headers = ("Host", "x") ∷ ("Accept", "*") ∷ [];
  authorization = "Bearer good";
  host = some "10.0.0.1";
  body = "";
  request_id = "r1";
}

abbrev groups : Request
groups = request "/api/kb/groups"

abbrev internal : Request
internal = request "/api/kb/internal/usage"

proxy-IsCleared_example : Sent env groups [] (proxy env groups []).0.1
proxy-IsCleared_example = proxy-IsCleared env groups []

proxy-groups : (proxy env groups []).0.0.status ≡ 200
unfolding proxy judge judge_route admit authorise check_token auth_limited rate_limited rate_key
    subject_key ip_of respond relay outgoing routes match_route is_public is_auth_sensitive
    is_bearer bearer_token over_limit put_hits get_hits clean_up
proxy-groups = refl

proxy-internal : (proxy env internal []).0.1 ≡ []
unfolding proxy judge judge_route respond routes match_route
proxy-internal = refl

abbrev call : ℕ → ℕ → Call
call now limit = record { now = now; key = "sub:u1"; limit = limit }

over_limit-exact_example :
    (over_limit 65 "sub:u1" 2 (Exact.after_calls (call 61 2 ∷ call 60 2 ∷ call 5 2 ∷ []))).0
    ≡ ltb 2 (calls_in "sub:u1" (window_at 65) (call 61 2 ∷ call 60 2 ∷ call 5 2 ∷ []) + 1)
over_limit-exact_example =
    over_limit-exact (call 65 2) (call 61 2 ∷ call 60 2 ∷ call 5 2 ∷ [])
      (
        (ground arith, (ground arith, (ground arith, tt))),
        ((ground arith, (ground arith, tt)), ((ground arith, tt), (tt, tt))),
      )
      (ground arith)

abbrev server : Server
server = record {
  Data = ℕ;
  connects = true;
  incr = λ key w d. (none, d);
  expire = λ key w ttl d. (false, d);
}

over_limit-degraded_example :
    (Redis.over_limit server 65 "sub:u1" 2
      (Redis.after_calls server (Redis.start server 0) (call 61 2 ∷ []))).0
    ≡ (over_limit 65 "sub:u1" 2 (Exact.after_calls (call 61 2 ∷ []))).0
over_limit-degraded_example =
    over_limit-degraded server (λ key w d. refl) (call 65 2) (call 61 2 ∷ []) 0

abbrev incoming : Headers
incoming = ("Host", "x") ∷ ("Accept", "*") ∷ []

forwarded_headers-PassesOn_example :
    All PassesOn (forwarded_headers "r1" incoming)
    × (get_header "X-Request-ID" (forwarded_headers "r1" incoming) ≡ some "r1")
    × ((k : String)
        → PassesOn (k, "")
        → ("X-Request-ID" == k) ≡ false
        → get_header k (forwarded_headers "r1" incoming) ≡ last_value none k incoming)
forwarded_headers-PassesOn_example = forwarded_headers-PassesOn "r1" incoming
