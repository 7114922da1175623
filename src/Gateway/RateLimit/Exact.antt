-- ===== src/Gateway/RateLimit/Exact.antt =====
-- The in-memory limiter against the history of its calls, its cleanup included.
use image2prompt.Base.{
  ℕ, ◌+◌, eq_refl, ◌≤◌, ◌<◌, ◌≡◌, refl, String, ◌&&◌, List, [], ◌∷◌, keep_if, count_if, All, ltb,
  nat_eq, ◌==◌, eq_iff, if◌then◌else◌, arith,
}
use image2prompt.Gateway.RateLimit.{Windows, window_at, get_hits, put_hits, clean_up, over_limit}

pub record Call : Type 0 where
  pub now : ℕ
  pub key : String
  pub limit : ℕ

-- the state after the calls, the latest at the head
unfoldable pub after_calls : List Call → Windows
after_calls [] = []
after_calls (c ∷ cs) = (over_limit c.now c.key c.limit (after_calls cs)).1

-- how many of the calls counted for the key in the window
abbrev pub calls_in : String → ℕ → List Call → ℕ
calls_in key window =
    count_if (λ c. c.key == key && nat_eq (window_at c.now) window && ltb 0 c.limit)

-- The clock never goes back to an earlier window.
abbrev pub IsForward : List Call → Type 0
IsForward [] = Unit
IsForward (c ∷ cs) = All (λ d. window_at d.now ≤ window_at c.now) cs × IsForward cs

get_hits-put_hits :
    (k j : String) (w v n : ℕ) (ws : Windows)
    → get_hits j v (put_hits k w n ws) ≡ (if k == j && nat_eq w v then n else get_hits j v ws)
unfolding get_hits put_hits
get_hits-put_hits k j w v n [] = refl
get_hits-put_hits k j w v n (b ∷ ws) =
    ground (arith, get_hits-put_hits k j w v n ws, eq_iff k j, eq_iff b.key k, eq_iff b.key j)

get_hits-keep_if :
    (j : String) (w v : ℕ) (ws : Windows)
    → get_hits j v (keep_if (λ b. nat_eq b.window w) ws)
      ≡ (if nat_eq w v then get_hits j v ws else 0)
unfolding get_hits
get_hits-keep_if j w v [] = ground arith
get_hits-keep_if j w v (b ∷ ws) = ground (arith, get_hits-keep_if j w v ws)

get_hits-clean_up :
    (j : String) (w : ℕ) (ws : Windows) → get_hits j w (clean_up w ws) ≡ get_hits j w ws
unfolding clean_up
get_hits-clean_up j w ws = ground (arith, get_hits-keep_if j w w ws)

get_hits-clean_up_ne :
    (j : String) (w v : ℕ) (ws : Windows) → get_hits j v ws ≡ 0 → get_hits j v (clean_up w ws) ≡ 0
unfolding clean_up
get_hits-clean_up_ne j w v ws h = ground (arith, get_hits-keep_if j w v ws)

-- No call of the history counts for a later window.
calls_in-later :
    (k : String) (w u : ℕ) (cs : List Call)
    → w < u
    → All (λ d. window_at d.now ≤ w) cs
    → calls_in k u cs ≡ 0
calls_in-later k w u [] lt h = refl
calls_in-later k w u (c ∷ cs) lt (le, h) = ground (arith, calls_in-later k w u cs lt h)

All-later :
    (w u : ℕ) (cs : List Call)
    → w ≤ u
    → All (λ d. window_at d.now ≤ w) cs
    → All (λ d. window_at d.now ≤ u) cs
All-later w u [] le h = tt
All-later w u (c ∷ cs) le (x, h) = (omega arith, All-later w u cs le h)

-- One call, seen in its own window and in a later one.
module _ (k : String) (u : ℕ) (c : Call) (ws : Windows) where
  w : ℕ
  w = window_at c.now

  counted : Windows
  unfolding w
  counted = put_hits c.key w (get_hits c.key w ws + 1) ws

  hits_now :
      w ≡ u
      → get_hits k u (over_limit c.now c.key c.limit ws).1
        ≡ (if c.key == k && ltb 0 c.limit then get_hits c.key u ws + 1 else get_hits k u ws)
  unfolding over_limit counted
  hits_now e = ground (
    arith,
    get_hits-clean_up k w counted,
    get_hits-put_hits c.key k w u (get_hits c.key w ws + 1) ws,
  )

  hits_before : w < u → get_hits k u ws ≡ 0 → get_hits k u (over_limit c.now c.key c.limit ws).1 ≡ 0
  unfolding over_limit counted
  hits_before lt h = ground (
    arith,
    get_hits-clean_up_ne k w u counted,
    get_hits-put_hits c.key k w u (get_hits c.key w ws + 1) ws,
  )

  answer :
      0 < c.limit → (over_limit c.now c.key c.limit ws).0 ≡ ltb c.limit (get_hits c.key w ws + 1)
  unfolding over_limit counted
  answer pos = ground (
    arith,
    get_hits-clean_up c.key w counted,
    get_hits-put_hits c.key c.key w w (get_hits c.key w ws + 1) ws,
    eq_refl c.key,
  )

-- The count that the limiter holds for a window not yet past is the number of counted calls.
get_hits-after_calls :
    (cs : List Call) (k : String) (u : ℕ)
    → IsForward cs
    → All (λ d. window_at d.now ≤ u) cs
    → get_hits k u (after_calls cs) ≡ calls_in k u cs
unfolding after_calls get_hits w
get_hits-after_calls [] k u f h = refl
get_hits-after_calls (c ∷ cs) k u (past, f) (le, h) = ground (
  arith,
  get_hits-after_calls cs k u f h,
  get_hits-after_calls cs c.key u f h,
  hits_now k u c (after_calls cs),
  hits_before k u c (after_calls cs),
  calls_in-later k (window_at c.now) u cs,
  eq_iff c.key k,
)

-- While the clock moves forward, a call with a positive limit is refused exactly when the limit is
-- below the number of counted calls for its key in its window, this one included, whatever the
-- cleanup has dropped in between.
pub over_limit-exact :
    (c : Call) (cs : List Call)
    → IsForward (c ∷ cs)
    → 0 < c.limit
    → (over_limit c.now c.key c.limit (after_calls cs)).0
      ≡ ltb c.limit (calls_in c.key (window_at c.now) cs + 1)
unfolding w
over_limit-exact c cs (past, f) pos =
    rw (
      answer c.key 0 c (after_calls cs) pos,
      get_hits-after_calls cs c.key (window_at c.now) f past,
    )
