-- ===== src/Security/RateLimiter.antt =====
-- security/rate_limiter: a sliding window and a burst limit for each key. Times are nanoseconds of
-- `steady_clock`, the reading `now` is an argument. A deque is a list, oldest first.
pub mod Bounds
pub mod Burst
pub mod Retry
mod Tests
use mathlib.Core.List.{reverse}
use qwen_claw.Base.{
  ℕ, suc, ◌+◌, ◌-◌, ◌*◌, ◌/◌, max, Bool, true, false, List, [], ◌∷◌, ◌++◌, map, Option, none, some,
  ltb, leb, if◌then◌else◌, length,
}
use qwen_claw.Base.Int.{ℤ, pos, pos_part, neg_part, ltb_ℤ}
use qwen_claw.Base.Text.{Text, is_empty}
use qwen_claw.Base.Dict.{Dict, find, insert, erase}

pub record Config : Type 0 where
  pub max_requests : ℤ
  pub window_seconds : ℤ
  pub burst_max : ℤ

pub record RateLimiter : Type 0 where
  pub config : Config
  pub windows : Dict (List ℕ)

abbrev pub second : ℕ
second = 1_000_000_000

-- `t < now - window`, written without a negative time.
abbrev pub is_older : ℤ → ℕ → ℕ → Bool
is_older window now t = ltb (t + pos_part window * second) (now + neg_part window * second)

pub purge_old : Config → ℕ → List ℕ → List ℕ
purge_old config now [] = []
purge_old config now (t ∷ ts) =
    if is_older config.window_seconds now t then purge_old config now ts else t ∷ ts

-- The reverse scan of the burst check, newest first, up to the first time before `now - 1s`.
pub scan_burst : ℕ → List ℕ → ℕ
scan_burst now [] = 0
scan_burst now (t ∷ ts) =
    let rest = scan_burst now ts in if leb now (t + second) then suc rest else 0

abbrev pub burst_count : ℕ → List ℕ → ℕ
burst_count now ts = scan_burst now (reverse ts)

-- What `Allow` does to one window.
pub admit : Config → ℕ → List ℕ → List ℕ × Bool
admit config now ts =
    let kept = purge_old config now ts in
    if ltb_ℤ (pos (length kept)) config.max_requests
    then if ltb_ℤ (pos 0) config.burst_max
      then if ltb_ℤ (pos (burst_count now kept)) config.burst_max
        then (kept ++ now ∷ [], true)
        else (kept, false)
      else (kept ++ now ∷ [], true)
    else (kept, false)

abbrev window_of : Text → RateLimiter → List ℕ
window_of key limiter = elim (find key limiter.windows) [ none ↦ [] | some ts ↦ ts ]

abbrev with_window : Text → List ℕ → RateLimiter → RateLimiter
with_window key ts limiter = record limiter { windows = insert key ts limiter.windows }

pub allow : Text → ℕ → RateLimiter → RateLimiter × Bool
unfolding admit
allow key now limiter =
    let (ts, ok) = admit limiter.config now (window_of key limiter) in
    (with_window key ts limiter, ok)

-- The queries purge the window that they read.
pub remaining : Text → ℕ → RateLimiter → RateLimiter × ℤ
remaining key now limiter = elim (find key limiter.windows) [
  | none ↦ (limiter, limiter.config.max_requests)
  | some ts ↦
      let kept = purge_old limiter.config now ts in
      (with_window key kept limiter, pos (pos_part limiter.config.max_requests - length kept))
]

-- The whole seconds until `oldest` leaves the window, and one; 0 once it has left.
pub seconds_left : Config → ℕ → ℕ → ℕ
seconds_left config now oldest =
    let expires = oldest + pos_part config.window_seconds * second in
    let bound = now + neg_part config.window_seconds * second in
    if leb expires bound then 0 else (expires - bound) / second + 1

-- With `max_requests` at most 0 the source reads the front of an empty deque here, undefined; the
-- model answers 0.
pub retry_window : Config → ℕ → List ℕ → ℕ
unfolding seconds_left
retry_window config now [] = 0
retry_window config now (t ∷ ts) =
    if ltb_ℤ (pos (length (t ∷ ts))) config.max_requests then 0 else seconds_left config now t

pub retry_after : Text → ℕ → RateLimiter → RateLimiter × ℕ
unfolding retry_window
retry_after key now limiter = elim (find key limiter.windows) [
  | none ↦ (limiter, 0)
  | some ts ↦
      if is_empty ts
      then (limiter, 0)
      else let kept = purge_old limiter.config now ts in
        (with_window key kept limiter, retry_window limiter.config now kept)
]

pub reset : RateLimiter → RateLimiter
reset limiter = record limiter { windows = [] }

pub reset_key : Text → RateLimiter → RateLimiter
reset_key key limiter = record limiter { windows = erase key limiter.windows }

prune_windows : Config → ℕ → Dict (List ℕ) → Dict (List ℕ)
prune_windows config now [] = []
prune_windows config now ((key, ts) ∷ windows) =
    let kept = purge_old config now ts in
    let rest = prune_windows config now windows in
    if is_empty kept then rest else (key, kept) ∷ rest

pub prune : ℕ → RateLimiter → RateLimiter
unfolding prune_windows
prune now limiter = record limiter { windows = prune_windows limiter.config now limiter.windows }

pub configure : Config → RateLimiter → RateLimiter
configure config limiter = record limiter { config = config }
