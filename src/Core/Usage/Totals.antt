-- ===== src/Core/Usage/Totals.antt =====
-- The sums behind the counters, over histories of calls.
use qwen_claw.Base.{
  ℕ, ◌+◌, ◌*◌, ◌^◌, ◌≤◌, ◌<◌, ◌≡◌, ◌∙◌, refl, ap, List, [], ◌∷◌, Option, none, some, arith,
  Option-cases, inl, inr, ◌>>=◌, All,
}
use qwen_claw.Base.Text.{Text}
use qwen_claw.Base.Dict.{Dict, find, insert, erase}
use qwen_claw.Core.Usage.{
  Stats, UsageAccumulator, add_turn, get_session, record_usage, reset_session, reset_all,
}

-- A counter summed over the sessions.
unfoldable pub sum_of : (Stats → ℕ) → Dict Stats → ℕ
sum_of f [] = 0
sum_of f ((k, s) ∷ sessions) = f s + sum_of f sessions

-- What a session counts now.
abbrev counted : (Stats → ℕ) → Option Stats → ℕ
counted f none = 0
counted f (some s) = f s

sum_of-insert :
    (f : Stats → ℕ) (k : Text) (s : Stats) (sessions : Dict Stats)
    → sum_of f (insert k s sessions) + counted f (find k sessions) ≡ sum_of f sessions + f s
unfolding sum_of insert find
sum_of-insert f k s [] = omega arith
sum_of-insert f k s ((j, t) ∷ sessions) = ground (arith, sum_of-insert f k s sessions)

sum_of-erase :
    (f : Stats → ℕ) (k : Text) (sessions : Dict Stats)
    → sum_of f (erase k sessions) ≤ sum_of f sessions
unfolding sum_of erase
sum_of-erase f k [] = omega arith
sum_of-erase f k ((j, t) ∷ sessions) = ground (arith, sum_of-erase f k sessions)

pub data Call : Type 0 where
  record_call : Text → ℕ → ℕ → Call
  reset_session_call : Text → Call
  reset_all_call : Call

abbrev pub step : Call → UsageAccumulator → Option UsageAccumulator
step (record_call key input output) u = record_usage key input output u
step (reset_session_call key) u = some (reset_session key u)
step reset_all_call u = some (reset_all u)

pub run : List Call → UsageAccumulator → Option UsageAccumulator
run [] u = some u
run (call ∷ calls) u = step call u >>= run calls

-- The sum of the call fits.
abbrev pub IsFitting : Call → Type 0
IsFitting (record_call key input output) = input + output < 2 ^ 31
IsFitting (reset_session_call key) = Unit
IsFitting reset_all_call = Unit

abbrev pub IsSummed : UsageAccumulator → Type 0
IsSummed u =
    (sum_of (λ s. s.total_tokens) u.sessions ≤ u.global.total_tokens)
    × (u.global.total_tokens ≡ u.global.input_tokens + u.global.output_tokens)
    × (u.global.total_tokens ≤ u.global.turns * 2 ^ 31)
    × All (λ e. e.1.total_tokens ≡ e.1.input_tokens + e.1.output_tokens) u.sessions

abbrev recorded : Text → ℕ → ℕ → UsageAccumulator → UsageAccumulator
recorded key input output u = record {
  sessions = insert key (add_turn input output (input + output) (get_session key u)) u.sessions;
  global = add_turn input output (input + output) u.global;
}

record_usage-recorded :
    (key : Text) (input output : ℕ) (u : UsageAccumulator)
    → input + output < 2 ^ 31
    → record_usage key input output u ≡ some (recorded key input output u)
unfolding record_usage
record_usage-recorded key input output u h = ground (arith, h)

-- A property of every session's counters, through the operations.
All-insert :
    (k : Text) (s : Stats) (sessions : Dict Stats)
    → s.total_tokens ≡ s.input_tokens + s.output_tokens
    → All (λ e. e.1.total_tokens ≡ e.1.input_tokens + e.1.output_tokens) sessions
    → All (λ e. e.1.total_tokens ≡ e.1.input_tokens + e.1.output_tokens) (insert k s sessions)
unfolding insert
All-insert k s [] h hs = (h, tt)
All-insert k s ((j, t) ∷ sessions) h hs =
    ground (arith, h, hs.0, hs.1, All-insert k s sessions h hs.1)

All-erase :
    (k : Text) (sessions : Dict Stats)
    → All (λ e. e.1.total_tokens ≡ e.1.input_tokens + e.1.output_tokens) sessions
    → All (λ e. e.1.total_tokens ≡ e.1.input_tokens + e.1.output_tokens) (erase k sessions)
unfolding erase
All-erase k [] hs = tt
All-erase k ((j, t) ∷ sessions) hs = ground (arith, hs.0, hs.1, All-erase k sessions hs.1)

All-find :
    (k : Text) (s : Stats) (sessions : Dict Stats)
    → All (λ e. e.1.total_tokens ≡ e.1.input_tokens + e.1.output_tokens) sessions
    → find k sessions ≡ some s
    → s.total_tokens ≡ s.input_tokens + s.output_tokens
unfolding find
All-find k s [] hs found = absurd (ground (arith, found))
All-find k s ((j, t) ∷ sessions) hs found = ground (arith, found, hs.0, All-find k s sessions hs.1)

get_session_total :
    (key : Text) (u : UsageAccumulator)
    → All (λ e. e.1.total_tokens ≡ e.1.input_tokens + e.1.output_tokens) u.sessions
    → (get_session key u).total_tokens
      ≡ (get_session key u).input_tokens + (get_session key u).output_tokens
unfolding get_session
get_session_total key u all = elim (Option-cases (find key u.sessions)) [
  | inl missing ↦ ground (arith, missing)
  | inr (s, found) ↦ ground (arith, found, All-find key s u.sessions all found)
]

sum_of-recorded :
    (key : Text) (input output : ℕ) (u : UsageAccumulator)
    → sum_of (λ s. s.total_tokens) (recorded key input output u).sessions
      ≡ sum_of (λ s. s.total_tokens) u.sessions + (input + output)
unfolding get_session
sum_of-recorded key input output u =
    let new = add_turn input output (input + output) (get_session key u) in
    let sums = sum_of-insert (λ s. s.total_tokens) key new u.sessions in
    elim (Option-cases (find key u.sessions)) [
      | inl missing ↦ ground (arith, sums, missing)
      | inr (s, found) ↦ ground (arith, sums, found)
    ]

recorded-IsSummed :
    (key : Text) (input output : ℕ) (u : UsageAccumulator)
    → input + output < 2 ^ 31
    → IsSummed u
    → IsSummed (recorded key input output u)
recorded-IsSummed key input output u fits (below, total, turns, all) = (
  omega (arith, sum_of-recorded key input output u, below),
  omega (arith, total),
  omega (arith, turns, fits),
  All-insert key (add_turn input output (input + output) (get_session key u)) u.sessions
      (omega (arith, get_session_total key u all)) all,
)

-- Over every history of calls with counts that are not negative and whose sums of two `int`s fit, the
-- code returns; a counter's total is
-- its input and output together; the sessions' totals never exceed the whole's, which is at most
-- 2 ^ 31 for each turn.
pub run-IsSummed :
    (calls : List Call) (u : UsageAccumulator)
    → All IsFitting calls
    → IsSummed u
    → (v : UsageAccumulator) × (run calls u ≡ some v) × IsSummed v
unfolding run reset_session reset_all sum_of
run-IsSummed [] u fits h = (u, refl, h)
run-IsSummed (record_call key input output ∷ calls) u fits h =
    let next = recorded key input output u in
    let (v, e, summed) =
      run-IsSummed calls next fits.1 (recorded-IsSummed key input output u fits.0 h) in
    (v, ap (λ o. o >>= run calls) (record_usage-recorded key input output u fits.0) ∙ e, summed)
run-IsSummed (reset_session_call key ∷ calls) u fits (below, total, turns, all) =
    run-IsSummed calls (reset_session key u) fits.1 (
      omega (arith, below, sum_of-erase (λ s. s.total_tokens) key u.sessions),
      total,
      turns,
      All-erase key u.sessions all,
    )
run-IsSummed (reset_all_call ∷ calls) u fits h =
    run-IsSummed calls (reset_all u) fits.1 (omega arith, refl, omega arith, tt)
