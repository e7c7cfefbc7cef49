-- ===== src/Security/RateLimiter/Tests.antt =====
-- The rate limiter's theorems at concrete requests.
use qwen_claw.Base.{ℕ, ◌≤◌, refl, arith, List, [], ◌∷◌, length}
use qwen_claw.Base.Int.{pos}
use qwen_claw.Security.RateLimiter.{Config}
use qwen_claw.Security.RateLimiter.Burst.{recent, serve-burst_bound}
use qwen_claw.Security.RateLimiter.Bounds.{serve, counted, serve-window_bound}

abbrev config : Config
config = record { max_requests = pos 2; window_seconds = pos 60; burst_max = pos 1 }

abbrev times : List ℕ
times = 5 ∷ 7 ∷ 2_000_000_000 ∷ 3_000_000_000 ∷ []

serve-window_bound_example :
    length (counted (pos 60) 4_000_000_000 (serve config ([], []) times).1) ≤ 2
serve-window_bound_example =
    serve-window_bound config times 4_000_000_000 (omega arith) (omega arith)

serve-burst_bound_example : length (recent 4_000_000_000 (serve config ([], []) times).1) ≤ 1
serve-burst_bound_example =
    serve-burst_bound config 59 0 times 4_000_000_000 refl refl (omega arith) (omega arith)
