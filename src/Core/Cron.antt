-- ===== src/Core/Cron.antt =====
-- core/cron_scheduler: the expressions of a schedule and the table of jobs. What `>>` reads of an
-- expression, the calendar of `mktime`, the clock and random ids are arguments.
pub mod Jobs
pub mod Search
mod Tests
use qwen_claw.Base.{
  ℕ, zero, suc, ◌+◌, ◌-◌, ◌/◌, ◌*◌, min, Bool, true, false, not, ◌&&◌, ◌||◌, List, [], ◌∷◌, ◌++◌,
  Option, none, some, any_of, length, take, drop, ◌==◌, ltb, if◌then◌else◌, ◌>>=◌,
}
use qwen_claw.Base.Int.{ℤ, pos, negsuc, ltb_ℤ}
use qwen_claw.Base.Text.{Text, codes, text_eq, is_empty, starts_with, find_byte, getline_tokens}
use qwen_claw.Base.Decimal.{stoi}

pub record CronJob : Type 0 where
  pub id : Text
  pub name : Text
  pub schedule : Text
  pub message : Text
  pub session_key : Text
  pub enabled : Bool
  pub last_run : ℕ
  pub next_run : ℕ

abbrev pub eq_ℤ : ℤ → ℤ → Bool
eq_ℤ (pos a) (pos b) = a == b
eq_ℤ (pos a) (negsuc b) = false
eq_ℤ (negsuc a) (pos b) = false
eq_ℤ (negsuc a) (negsuc b) = a == b

-- `count` values from `start` on, `step` apart.
pub values_from : ℕ → ℕ → ℕ → List ℤ
values_from zero start step = []
values_from (suc count) start step = pos start ∷ values_from count (start + step) step

-- The loop from `lo` while the value is at most `hi` and `limit`; no `lo` of the code is negative,
-- since a minus sign ends the text that it is read from.
pub range_values : ℕ → ℤ → ℤ → List ℤ
range_values limit (pos lo) (pos hi) = values_from (suc (min hi limit) - lo) lo 1
range_values limit (pos lo) (negsuc hi) = []
range_values limit (negsuc lo) hi = []

-- `none` where `std::stoi` throws.
pub token_values : ℕ → Text → Option (List ℤ)
token_values limit token = elim (find_byte b'-' token) [
  | none ↦ stoi token >>= λ v. some (v ∷ [])
  | some dash ↦ stoi (take dash token) >>= λ lo.
      stoi (drop (suc dash) token) >>= λ hi. some (range_values limit lo hi)
]

pub tokens_values : ℕ → List Text → Option (List ℤ)
tokens_values limit [] = some []
tokens_values limit (token ∷ tokens) =
    token_values limit token >>= λ vs. tokens_values limit tokens >>= λ ws. some (vs ++ ws)

-- The loop from `low` in steps; a step that ends it beyond the largest int is not told apart.
pub step_values : ℕ → ℕ → ℤ → List ℤ
step_values low limit (pos zero) = []
step_values low limit (pos (suc n)) = values_from ((limit - low) / suc n + 1) low (suc n)
step_values low limit (negsuc n) = []

-- The values of a field; none of them is a wildcard.
pub parse_field : Text → ℕ → ℕ → Option (List ℤ)
parse_field field low limit =
    if text_eq field (codes "*")
    then some []
    else if ltb 2 (length field) && starts_with (codes "*/") field
    then (stoi (drop 2 field) >>= λ step. some (step_values low limit step))
    else tokens_values limit (getline_tokens b',' field)

pub field_matches : List ℤ → ℕ → Bool
field_matches values v = if is_empty values then true else any_of (λ w. eq_ℤ w (pos v)) values

pub record CronExpression : Type 0 where
  pub minute : List ℤ
  pub hour : List ℤ
  pub day_of_month : List ℤ
  pub month : List ℤ
  pub day_of_week : List ℤ

-- A missing field is a wildcard.
pub field_at : ℕ → List Text → Text
field_at i [] = codes "*"
field_at zero (f ∷ fields) = f
field_at (suc i) (f ∷ fields) = field_at i fields

pub cron_expression : List Text → Option CronExpression
cron_expression fields = do
  minute ← parse_field (field_at 0 fields) 0 59
  hour ← parse_field (field_at 1 fields) 0 23
  day ← parse_field (field_at 2 fields) 1 31
  month ← parse_field (field_at 3 fields) 1 12
  week ← parse_field (field_at 4 fields) 0 6
  some
      record { minute = minute; hour = hour; day_of_month = day; month = month; day_of_week = week }

-- The fields of a `std::tm` that an expression reads; its month counts from 0.
pub record Tm : Type 0 where
  pub tm_min : ℕ
  pub tm_hour : ℕ
  pub tm_mday : ℕ
  pub tm_mon : ℕ
  pub tm_wday : ℕ

pub cron_matches : CronExpression → Tm → Bool
cron_matches e t =
    field_matches e.minute t.tm_min
    && (field_matches e.hour t.tm_hour
        && (field_matches e.day_of_month t.tm_mday
            && (field_matches e.month (suc t.tm_mon) && field_matches e.day_of_week t.tm_wday)))

-- The loop of `NextAfter`: `calendar n` is the normalized time `n` minutes later.
pub next_match : (ℕ → Tm) → CronExpression → ℕ → ℕ → Option ℕ
next_match calendar e zero n = none
next_match calendar e (suc rounds) n =
    let later = next_match calendar e rounds (suc n) in
    if cron_matches e (calendar n) then some n else later

-- The minute found, counted from the next one, among 525,960, which are 365.25 days; or
-- an hour after the start.
pub next_after : (ℕ → Tm) → (ℕ → ℕ) → CronExpression → ℕ → ℕ
next_after calendar time_of e after = elim (next_match calendar e 525960 0) [
  | none ↦ after + 3600
  | some n ↦ time_of n
]

pub add_job : CronJob → List CronJob → List CronJob
add_job job jobs = jobs ++ (job ∷ [])

-- `id` is shorter than `full` and its beginning.
pub is_prefix : Text → Text → Bool
is_prefix id full = ltb (length id) (length full) && starts_with id full

-- The loop of `RemoveJob`: the first exact match, or the matches by prefix.
pub data Found : Type 0 where
  exact : ℕ → Found
  prefixes : List ℕ → Found

pub find_jobs : Text → ℕ → List ℕ → List CronJob → Found
find_jobs id i matches [] = prefixes matches
find_jobs id i matches (job ∷ jobs) =
    let later =
      find_jobs id (suc i) (if is_prefix id job.id then matches ++ (i ∷ []) else matches) jobs in
    if text_eq job.id id then exact i else later

pub erase_at : ℕ → List CronJob → List CronJob
erase_at i jobs = take i jobs ++ drop (suc i) jobs

pub remove_found : Found → List CronJob → Bool × List CronJob
remove_found (exact i) jobs = (true, erase_at i jobs)
remove_found (prefixes []) jobs = (false, jobs)
remove_found (prefixes (i ∷ [])) jobs = (true, erase_at i jobs)
remove_found (prefixes (i ∷ k ∷ matches)) jobs = (false, jobs)

pub remove_job : Text → List CronJob → Bool × List CronJob
remove_job id jobs =
    if is_empty id then (false, jobs) else remove_found (find_jobs id 0 [] jobs) jobs

-- The jobs that a round of the scheduler runs.
pub due_jobs : ℕ → List CronJob → List CronJob
due_jobs now [] = []
due_jobs now (job ∷ jobs) =
    let later = due_jobs now jobs in
    if job.enabled && not (ltb now job.next_run) then job ∷ later else later
