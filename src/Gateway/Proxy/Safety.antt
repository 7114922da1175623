-- ===== src/Gateway/Proxy/Safety.antt =====
-- What the edge lets through to a service.
use image2prompt.Base.{
  String, true, false, ◌≡◌, ◌≢◌, refl, ◌⊎◌, inl, inr, Option, none, some, [], ◌∷◌, List,
  starts_with, ◌^+◌, arith,
}
use image2prompt.Gateway.{Route, routes, match_route, is_public}
use image2prompt.Gateway.Headers.{bearer_token}
use image2prompt.Gateway.RateLimit.{RateLimiter}
use image2prompt.Gateway.Proxy.{
  Env, Request, Outgoing, Response, Verdict, refuse, forward, rate_key, rate_limited, Incoming,
  http_error, answered, authorise, admit, judge_route, judge, outgoing, respond, proxy,
}

module _ {limiter : RateLimiter} (env : Env limiter) (req : Request) where
  open limiter use {State, over}
  open env use {settings, decode, now, upstream}

  -- Why a request may leave the edge.
  pub record IsCleared (s : State) (out : Outgoing) : Type 0 where
    pub route : Route
    pub routed : match_route (routes settings) req.path ≡ some route
    pub external : starts_with (route.rewrite req.path) "/internal" ≡ false
    pub target : out.url ≡ route.base_url ^+ route.rewrite req.path
    pub within : (rate_limited env now (rate_key env req) settings.rate_limit_rpm s).0 ≡ false
    pub allowed : (is_public req.path ≡ true) ⊎ (decode (bearer_token req.authorization) ≢ none)

  authorise-forward :
      (route r : Route)
      → authorise env req route ≡ forward r
      → (route ≡ r)
        × ((is_public req.path ≡ true) ⊎ (decode (bearer_token req.authorization) ≢ none))
  unfolding authorise
  authorise-forward route r h = ground arith

  admit-forward :
      (route r : Route) (s : State)
      → (admit env req route s).0 ≡ forward r
      → (authorise env req route ≡ forward r)
        × ((rate_limited env now (rate_key env req) settings.rate_limit_rpm s).0 ≡ false)
  unfolding admit
  admit-forward route r s h = ground arith

  judge_route-forward :
      (o : Option Route) (r : Route) (s : State)
      → (judge_route env req o s).0 ≡ forward r
      → (o ≡ some r)
        × (starts_with (r.rewrite req.path) "/internal" ≡ false)
        × ((rate_limited env now (rate_key env req) settings.rate_limit_rpm s).0 ≡ false)
        × ((is_public req.path ≡ true) ⊎ (decode (bearer_token req.authorization) ≢ none))
  unfolding judge_route
  judge_route-forward none r s h = cc
  judge_route-forward (some route) r s h =
      let cleared = admit-forward route r s in
      let passed = authorise-forward route r in ground (arith, cleared, passed)

  -- what a verdict sends upstream: nothing, or one request that is cleared
  abbrev pub Sent : State → List Outgoing → Type 0
  Sent s outs = (outs ≡ []) ⊎ ((out : Outgoing) × (outs ≡ out ∷ []) × IsCleared s out)

  respond-Sent : (s : State) (v : Verdict) → (judge env req s).0 ≡ v → Sent s (respond env req v).1
  unfolding respond judge outgoing
  respond-Sent s (refuse r) e = inl refl
  respond-Sent s (forward route) e =
      let (routed, external, within, allowed) =
        judge_route-forward (match_route (routes settings) req.path) route s e in
      inr (
        outgoing env req route,
        refl,
        record {
          route = route;
          routed = routed;
          external = external;
          target = refl;
          within = within;
          allowed = allowed;
        },
      )

  -- The proxy handler sends nothing upstream, or exactly one request: to the URL that the matched
  -- route makes of the path. Then the rewritten path does not begin with /internal, the client's
  -- budget was not used up, and the path is public or the bearer token decodes.
  pub proxy-IsCleared : (s : State) → Sent s (proxy env req s).0.1
  unfolding proxy
  proxy-IsCleared s = respond-Sent s (judge env req s).0 refl

  -- Why the edge answers by itself, with what status, and whether the limiter has counted.
  pub data Refused (s : State) (r : Response) (s' : State) : Type 0 where
    no_route :
        r.status ≡ 404 → match_route (routes settings) req.path ≡ none → s' ≡ s → Refused s r s'
    internal :
        (route : Route)
        → r.status ≡ 404
        → match_route (routes settings) req.path ≡ some route
        → starts_with (route.rewrite req.path) "/internal" ≡ true
        → s' ≡ s
        → Refused s r s'
    over_budget : r.status ≡ 429 → settings.rate_limit_enabled ≡ true → Refused s r s'
    no_token :
        r.status ≡ 401
        → is_public req.path ≡ false
        → (bearer_token req.authorization ≡ "") ⊎ (decode (bearer_token req.authorization) ≡ none)
        → Refused s r s'

  -- how the answer of a service comes back
  pub data Relayed (out : Outgoing) (r : Response) : Type 0 where
    unreachable : (exc : String) → upstream out ≡ http_error exc → r.status ≡ 502 → Relayed out r
    passed : (up : Incoming) → upstream out ≡ answered up → r.status ≡ up.status → Relayed out r

  abbrev pub Answered : (s : State) → Response × List Outgoing → (s' : State) → Type 0
  Answered s (r, outs) s' =
      ((outs ≡ []) × Refused s r s') ⊎ ((out : Outgoing) × (outs ≡ out ∷ []) × Relayed out r)
