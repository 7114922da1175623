-- ===== src/Gateway/RateLimit/Redis.antt =====
-- services/gateway/app/ratelimit.py: RedisRateLimiter, which counts in a shared server and falls
-- back to the in-memory limiter. The client library and the server are parameters; the text
-- "rl:{key}:{window}" is the pair of its parts.
use image2prompt.Base.{
  ℕ, ◌*◌, ◌≡◌, refl, String, Bool, true, false, not, ◌&&◌, Option, none, some, List, [], ◌∷◌, ltb,
  nat_eq, if◌then◌else◌, arith,
}
use image2prompt.Gateway.RateLimit
use image2prompt.Gateway.RateLimit.{Windows, window_at, window_seconds}
use image2prompt.Gateway.RateLimit.Exact
use image2prompt.Gateway.RateLimit.Exact.{Call}

-- The server answers or raises (`none`, `false`); it may have changed before it raised.
pub record Server : Type 1 where
  pub Data : Type 0
  -- redis.from_url: whether the package is there and the url is good
  pub connects : Bool
  pub incr : String → ℕ → Data → Option ℕ × Data
  pub expire : String → ℕ → ℕ → Data → Bool × Data

pub record Redis (D : Type 0) : Type 0 where
  pub client : Bool
  pub init_failed : Bool
  pub fallback : Windows
  pub degraded_logged : Bool
  pub server : D

module _ (server : Server) where
  open server use {Data, connects, incr, expire}

  abbrev pub start : Data → Redis Data
  start d = record {
    client = false;
    init_failed = false;
    fallback = [];
    degraded_logged = false;
    server = d;
  }

  -- _get_client
  pub get_client : Redis Data → Bool × Redis Data
  get_client r =
      if not r.client && not r.init_failed
      then if connects
        then (true, record r { client = true })
        else (false, record r { init_failed = true })
      else (r.client, r)

  -- self._fallback.over_limit(key, limit)
  pub fall_back : ℕ → String → ℕ → Redis Data → Bool × Redis Data
  fall_back now key limit r =
      let (over, ws) = RateLimit.over_limit now key limit r.fallback in
      (over, record r { fallback = ws })

  -- the `except` branch: _degrade, which logs once, then the fallback
  pub degrade : ℕ → String → ℕ → Redis Data → Bool × Redis Data
  unfolding fall_back
  degrade now key limit r = fall_back now key limit (record r { degraded_logged = true })

  -- the `try` block after a successful INCR
  pub counted : ℕ → String → ℕ → ℕ → Redis Data → Bool × Redis Data
  unfolding degrade
  counted now key limit hits r =
      if nat_eq hits 1
      then (let (sent, d) = expire key (window_at now) (window_seconds * 2) r.server in
          let r' : Redis Data = record r { server = d } in
          if sent then (ltb limit hits, r') else degrade now key limit r')
      else (ltb limit hits, r)

  pub after_incr : ℕ → String → ℕ → Option ℕ × Data → Redis Data → Bool × Redis Data
  unfolding counted degrade
  after_incr now key limit (none, d) r = degrade now key limit (record r { server = d })
  after_incr now key limit (some hits, d) r = counted now key limit hits (record r { server = d })

  pub over_limit : ℕ → String → ℕ → Redis Data → Bool × Redis Data
  unfolding get_client fall_back after_incr
  over_limit now key limit r =
      if nat_eq limit 0
      then (false, r)
      else let (client, r') = get_client r in
        if client
        then after_incr now key limit (incr key (window_at now) r'.server) r'
        else fall_back now key limit r'

  pub after_calls : Redis Data → List Call → Redis Data
  after_calls r [] = r
  after_calls r (c ∷ cs) = (over_limit c.now c.key c.limit (after_calls r cs)).1

  module _ (down : (key : String) (w : ℕ) (d : Data) → (incr key w d).0 ≡ none) where
    fall_back-over_limit :
        (now : ℕ) (key : String) (limit : ℕ) (r : Redis Data)
        → ((over_limit now key limit r).0 ≡ (RateLimit.over_limit now key limit r.fallback).0)
          × ((over_limit now key limit r).1.fallback
              ≡ (RateLimit.over_limit now key limit r.fallback).1)
    unfolding over_limit
    fall_back-over_limit now key limit r =
        ground
          (arith, down key (window_at now) r.server, RateLimit.over_limit-zero now key r.fallback)

    fallback-after_calls :
        (r : Redis Data) (cs : List Call)
        → r.fallback ≡ []
        → (after_calls r cs).fallback ≡ Exact.after_calls cs
    unfolding after_calls Exact.after_calls
    fallback-after_calls r [] e = e
    fallback-after_calls r (c ∷ cs) e = cc (
      (fall_back-over_limit c.now c.key c.limit (after_calls r cs)).1,
      fallback-after_calls r cs e,
    )

    -- While the server raises on every INCR, whether or not the client connects, every call from
    -- the start is answered as the in-memory limiter answers it after the same calls.
    pub over_limit-degraded :
        (c : Call) (cs : List Call) (d : Data)
        → (over_limit c.now c.key c.limit (after_calls (start d) cs)).0
          ≡ (RateLimit.over_limit c.now c.key c.limit (Exact.after_calls cs)).0
    over_limit-degraded c cs d = cc (
      (fall_back-over_limit c.now c.key c.limit (after_calls (start d) cs)).0,
      fallback-after_calls (start d) cs refl,
    )
