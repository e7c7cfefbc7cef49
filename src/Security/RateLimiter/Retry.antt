-- ===== src/Security/RateLimiter/Retry.antt =====
-- The advice of `RetryAfter`.
use qwen_claw.Base.{ℕ, suc, ◌+◌, ◌*◌, ◌≤◌, ◌<◌, ◌≡◌, true, List, [], ◌∷◌, arith, length}
use qwen_claw.Base.Int.{pos}
use qwen_claw.Security.RateLimiter.{Config, second, is_older, purge_old, retry_window, seconds_left}
use qwen_claw.Security.RateLimiter.Bounds.{length-purge_old-le}

seconds_left-enough :
    (config : Config) (now later t : ℕ)
    → now + seconds_left config now t * second < later
    → is_older config.window_seconds later t ≡ true
unfolding seconds_left
seconds_left-enough config now later t h = ground arith

-- Once the advised time has passed, a full window has room: when a key's window holds at most
-- `max_requests` times after the purge at `now`, then at any time more than `RetryAfter` seconds after
-- `now` the purge leaves fewer than `max_requests` (a positive number) in it.
pub retry_window-opens :
    (config : Config) (now later k : ℕ) (ts : List ℕ)
    → config.max_requests ≡ pos (suc k)
    → length ts ≤ suc k
    → now + retry_window config now ts * second < later
    → length (purge_old config later ts) < suc k
unfolding retry_window purge_old
retry_window-opens config now later k [] e n h = omega arith
retry_window-opens config now later k (t ∷ ts) e n h =
    ground (arith, length-purge_old-le config later ts, seconds_left-enough config now later t)
