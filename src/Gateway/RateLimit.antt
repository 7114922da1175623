-- ===== src/Gateway/RateLimit.antt =====
-- services/gateway/app/ratelimit.py: the fixed-window rate limiters. A call is handed the clock's
-- reading in seconds. Limits are natural numbers, so that `limit <= 0` is the test for 0.

pub mod Exact
pub mod Redis
use image2prompt.Base.{
  ℕ, ◌+◌, ◌/◌, ◌≡◌, refl, String, Bool, false, ◌&&◌, List, [], ◌∷◌, length, keep_if, ltb, nat_eq,
  ◌==◌, if◌then◌else◌,
}

abbrev pub window_seconds : ℕ
window_seconds = 60

-- int(time.time() // _WINDOW_SECONDS)
abbrev pub window_at : ℕ → ℕ
window_at now = now / window_seconds

-- one entry of `_windows`, a dict from (key, window) to a count
pub record Bucket : Type 0 where
  pub key : String
  pub window : ℕ
  pub hits : ℕ

abbrev pub Windows : Type 0
Windows = List Bucket

abbrev pub is_bucket : String → ℕ → Bucket → Bool
is_bucket key window b = b.key == key && nat_eq b.window window

-- self._windows.get(bucket, 0)
unfoldable pub get_hits : String → ℕ → Windows → ℕ
get_hits key window [] = 0
get_hits key window (b ∷ bs) = if is_bucket key window b then b.hits else get_hits key window bs

-- self._windows[bucket] = hits
unfoldable pub put_hits : String → ℕ → ℕ → Windows → Windows
put_hits key window hits [] = record { key = key; window = window; hits = hits } ∷ []
put_hits key window hits (b ∷ bs) =
    if is_bucket key window b
    then record b { hits = hits } ∷ bs
    else b ∷ put_hits key window hits bs

abbrev pub max_windows : ℕ
max_windows = 10000

-- the opportunistic cleanup of old windows
unfoldable pub clean_up : ℕ → Windows → Windows
clean_up window ws =
    if ltb max_windows (length ws) then keep_if (λ b. nat_eq b.window window) ws else ws

-- MemoryRateLimiter.over_limit
unfoldable pub over_limit : ℕ → String → ℕ → Windows → Bool × Windows
over_limit now key limit ws =
    if nat_eq limit 0
    then (false, ws)
    else let window = window_at now in
      let counted = put_hits key window (get_hits key window ws + 1) ws in
      let kept = clean_up window counted in (ltb limit (get_hits key window kept), kept)

-- What the gateway uses of a limiter: the answer and the next state of one call.
pub record RateLimiter : Type 1 where
  pub State : Type 0
  pub over : ℕ → String → ℕ → State → Bool × State
  pub over-zero : (now : ℕ) (key : String) (s : State) → over now key 0 s ≡ (false, s)

pub over_limit-zero :
    (now : ℕ) (key : String) (ws : Windows) → over_limit now key 0 ws ≡ (false, ws)
unfolding over_limit
over_limit-zero now key ws = refl

abbrev pub memory_limiter : RateLimiter
memory_limiter = record { State = Windows; over = over_limit; over-zero = over_limit-zero }
