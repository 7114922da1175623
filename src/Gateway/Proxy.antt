-- ===== src/Gateway/Proxy.antt =====
-- services/gateway/app/main.py: `proxy`, the handler of every /api path.
pub mod Safety
pub mod Examples
use image2prompt.Base.{
  ℕ, String, Bool, true, false, Option, none, some, List, [], ◌∷◌, keep_if, not, starts_with, ◌==◌,
  ◌^+◌, get_or, if◌then◌else◌,
}
use image2prompt.Gateway.{Settings, Route, routes, match_route, is_public, is_auth_sensitive}
use image2prompt.Gateway.Headers.{
  Headers, forwarded_headers, is_bearer, bearer_token, is_hop_by_hop, put_header,
}
use image2prompt.Gateway.RateLimit.{RateLimiter}
use image2prompt.Base.{drop_text}

pub record Request : Type 0 where
  pub method : String
  pub path : String
  pub query : Headers
  pub headers : Headers
  -- request.headers.get("authorization", "")
  pub authorization : String
  -- request.client.host, if there is a client
  pub host : Option String
  pub body : String
  pub request_id : String

-- `dict(...)` of pairs: of two values of a key the later one stays
abbrev pub dict_of : Headers → Headers → Headers
dict_of out [] = out
dict_of out ((k, v) ∷ es) = dict_of (put_header k v out) es

-- what the HTTP client sends, and what it brings back
pub record Outgoing : Type 0 where
  pub method : String
  pub url : String
  pub params : Headers
  pub content : String
  pub headers : Headers

pub record Incoming : Type 0 where
  pub status : ℕ
  pub headers : Headers
  pub content : String

pub data Upstream : Type 0 where
  answered : Incoming → Upstream
  http_error : String → Upstream

pub data Body : Type 0 where
  detail : String → Body
  content : String → Body

pub record Response : Type 0 where
  pub status : ℕ
  pub body : Body
  pub headers : Headers

-- The verdict on a request before anything is sent.
pub data Verdict : Type 0 where
  refuse : Response → Verdict
  forward : Route → Verdict

abbrev pub refusal : String → ℕ → String → Response
refusal request_id status text = record {
  status = status;
  body = detail text;
  headers = ("X-Request-ID", request_id) ∷ [];
}

abbrev pub throttled : String → String → Response
throttled request_id text = record {
  status = 429;
  body = detail text;
  headers = ("Retry-After", "60") ∷ ("X-Request-ID", request_id) ∷ [];
}

-- The parts that the gateway is built with: `decode` is `decode_token` under the service's secret,
-- which gives the `sub` claim, or `none` where it raises.
pub record Env (limiter : RateLimiter) : Type 1 where
  pub settings : Settings
  pub decode : String → Option (Option String)
  pub upstream : Outgoing → Upstream
  -- the clock's reading at the first and at the second call of the limiter
  pub now : ℕ
  pub later : ℕ

module _ {limiter : RateLimiter} (env : Env limiter) where
  open limiter use {State, over}
  open env use {settings, decode, upstream, now, later}

  ip_of : Request → String
  ip_of req = get_or req.host "unknown"

  subject_key : Request → Option (Option String) → String
  unfolding ip_of
  subject_key req none = "ip:" ^+ ip_of req
  subject_key req (some sub) = "sub:" ^+ get_or sub "None"

  -- _rate_key
  pub rate_key : Request → String
  unfolding subject_key ip_of
  rate_key req =
      if is_bearer req.authorization
      then subject_key req (decode (drop_text req.authorization 7))
      else "ip:" ^+ ip_of req

  -- _rate_limited
  pub rate_limited : ℕ → String → ℕ → State → Bool × State
  rate_limited time key cap s =
      if settings.rate_limit_enabled then over time key cap s else (false, s)

  -- the edge auth check
  check_token : Request → Route → Verdict
  check_token req route =
      let token = bearer_token req.authorization in
      if token == ""
      then refuse (refusal req.request_id 401 "Missing bearer token")
      else elim (decode token) [
        | none ↦ refuse (refusal req.request_id 401 "Invalid or expired token")
        | some _ ↦ forward route
      ]

  pub authorise : Request → Route → Verdict
  unfolding check_token
  authorise req route = if is_public req.path then forward route else check_token req route

  -- the tighter budget of the unauthenticated auth endpoints
  auth_limited : Request → State → Bool × State
  unfolding rate_limited ip_of
  auth_limited req s =
      if is_auth_sensitive req.path
      then rate_limited later ("auth:" ^+ req.path ^+ ":" ^+ ip_of req) settings.auth_rate_limit_rpm
          s
      else (false, s)

  -- both rate limits, then the token
  pub admit : Request → Route → State → Verdict × State
  admit req route s =
      let (limited, s') = rate_limited now (rate_key req) settings.rate_limit_rpm s in
      if limited
      then (refuse (throttled req.request_id "Rate limit exceeded"), s')
      else let (limited', s'') = auth_limited req s' in
        if limited'
        then (refuse (throttled req.request_id "Too many attempts; please wait and retry."), s'')
        else (authorise req route, s'')

  -- the route, the guard on /internal, then the limits
  pub judge_route : Request → Option Route → State → Verdict × State
  judge_route req none s = (refuse (refusal req.request_id 404 "No matching gateway route"), s)
  judge_route req (some route) s =
      if starts_with (route.rewrite req.path) "/internal"
      then (refuse (refusal req.request_id 404 "Not found"), s)
      else admit req route s

  pub judge : Request → State → Verdict × State
  judge req s = judge_route req (match_route (routes settings) req.path) s

  outgoing : Request → Route → Outgoing
  outgoing req route = record {
    method = req.method;
    url = route.base_url ^+ route.rewrite req.path;
    params = dict_of [] req.query;
    content = req.body;
    headers = forwarded_headers req.request_id req.headers;
  }

  relay : Request → Upstream → Response
  relay req (http_error exc) = record {
    status = 502;
    body = detail ("Upstream error: " ^+ exc);
    headers = [];
  }
  relay req (answered up) = record {
    status = up.status;
    body = content up.content;
    headers = forwarded_headers req.request_id up.headers;
  }

  respond : Request → Verdict → Response × List Outgoing
  unfolding outgoing relay
  respond req (refuse r) = (r, [])
  respond req (forward route) = let out = outgoing req route in (relay req (upstream out), out ∷ [])

  -- `proxy`: the response, what was sent upstream, and the limiter's next state
  pub proxy : Request → State → (Response × List Outgoing) × State
  proxy req s = let (verdict, s') = judge req s in (respond req verdict, s')
