-- ===== src/Providers/Cooldown.antt =====
-- providers/cooldown_tracker: exponential backoff for each provider key. Times are nanoseconds of
-- `steady_clock`, the reading `now` is an argument.
pub mod Backoff
pub mod Timing
mod Tests
use qwen_claw.Base.{
  ℕ, zero, suc, ◌+◌, ◌-◌, ◌*◌, ◌/◌, min, Bool, true, false, ◌&&◌, Option, none, some, [], ltb, leb,
  ◌==◌, if◌then◌else◌,
}
use qwen_claw.Base.Int.{ℤ, pos, pos_part, ltb_ℤ}
use qwen_claw.Base.Text.{Text}
use qwen_claw.Base.Dict.{Dict, find, insert, erase}
use qwen_claw.Providers.ProviderError.{
  ProviderErrorKind, rate_limit, auth_error, billing_error, transient, model_not_found, timeout,
  context_overflow, unknown,
}

pub record CooldownState : Type 0 where
  pub consecutive_failures : ℕ
  pub last_error : ProviderErrorKind
  pub cooldown_until : ℕ
  pub last_failure_at : ℕ
  pub last_probe_at : ℕ

abbrev pub Tracker : Type 0
Tracker = Dict CooldownState

abbrev pub second : ℕ
second = 1_000_000_000

abbrev pub probe_interval : ℕ
probe_interval = 30 * second

abbrev pub failure_window_decay : ℕ
failure_window_decay = 24 * 3600 * second

-- `states_[key]` of a new key: the clock's epoch for each time.
abbrev pub fresh_state : CooldownState
fresh_state = record {
  consecutive_failures = 0;
  last_error = unknown;
  cooldown_until = 0;
  last_failure_at = 0;
  last_probe_at = 0;
}

abbrev pub state_of : Text → Tracker → CooldownState
state_of key states = elim (find key states) [ none ↦ fresh_state | some s ↦ s ]

unfoldable pub is_in_cooldown : Text → ℕ → Tracker → Bool
is_in_cooldown key now states = elim (find key states) [
  | none ↦ false
  | some s ↦ ltb now s.cooldown_until
]

-- The loop that multiplies by 5 for `i` from 1, with the rounds that `i < 5` leaves.
pub scale : ℕ → ℕ → ℕ → ℕ → ℕ
scale zero i failure_count multiplier = multiplier
scale (suc rounds) i failure_count multiplier =
    let more = scale rounds (suc i) failure_count (multiplier * 5) in
    if ltb i failure_count && ltb i 5 then more else multiplier

-- The common end of `ComputeCooldown`, in seconds.
pub backoff : ℕ → ℕ → ℕ → ℕ
unfolding scale
backoff base_s cap_s failure_count = min (base_s * scale 5 1 failure_count 1) cap_s

-- `ComputeCooldown`, in seconds.
pub compute_cooldown : ProviderErrorKind → ℕ → ℕ
compute_cooldown rate_limit n = backoff 60 3600 n
compute_cooldown auth_error n = 3600
compute_cooldown billing_error n = backoff 18000 86400 n
compute_cooldown transient n = backoff 60 3600 n
compute_cooldown model_not_found n = 0
compute_cooldown timeout n = backoff 30 300 n
compute_cooldown context_overflow n = 0
compute_cooldown unknown n = backoff 60 600 n

-- A failure long after the last one starts a new count.
abbrev pub next_failures : ℕ → CooldownState → ℕ
next_failures now s =
    if ltb 0 s.consecutive_failures && ltb failure_window_decay (now - s.last_failure_at)
    then 1
    else suc s.consecutive_failures

abbrev pub cooldown_seconds : ProviderErrorKind → ℤ → ℕ → ℕ
cooldown_seconds kind retry_after_seconds failures =
    if ltb_ℤ (pos 0) retry_after_seconds
    then pos_part retry_after_seconds
    else compute_cooldown kind failures

pub record_failure : Text → ProviderErrorKind → ℤ → ℕ → Tracker → Tracker
record_failure key kind retry_after_seconds now states =
    let s = state_of key states in
    let failures = next_failures now s in
    insert key
      (record {
        consecutive_failures = failures;
        last_error = kind;
        cooldown_until = now + cooldown_seconds kind retry_after_seconds failures * second;
        last_failure_at = now;
        last_probe_at = now;
      })
      states

pub record_success : Text → Tracker → Tracker
record_success key states = erase key states

-- In whole seconds.
pub cooldown_remaining : Text → ℕ → Tracker → ℕ
cooldown_remaining key now states = elim (find key states) [
  | none ↦ 0
  | some s ↦ if leb s.cooldown_until now then 0 else (s.cooldown_until - now) / second
]

pub reset : Tracker → Tracker
reset states = []

pub failure_count : Text → Tracker → ℕ
failure_count key states = elim (find key states) [ none ↦ 0 | some s ↦ s.consecutive_failures ]

pub try_probe : Text → ℕ → Tracker → Tracker × Bool
try_probe key now states = elim (find key states) [
  | none ↦ (states, false)
  | some s ↦
      if leb s.cooldown_until now
      then (states, false)
      else if ltb (now - s.last_probe_at) probe_interval
      then (states, false)
      else (insert key (record s { last_probe_at = now }) states, true)
]
