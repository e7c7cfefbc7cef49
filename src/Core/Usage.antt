-- ===== src/Core/Usage.antt =====
-- core/usage_accumulator: the tokens used, by session and in all. Counts of tokens are ints in the
-- source; negative ones are left out, and the number of turns is taken to fit. The 32-bit sum of a call overflows from 2^31 on, which is undefined: `none`.
pub mod Totals
mod Tests
use qwen_claw.Base.{ℕ, suc, ◌+◌, ◌^◌, List, Option, none, some, ltb, if◌then◌else◌, [], ◌>>=◌}
use qwen_claw.Base.Text.{Text}
use qwen_claw.Base.Dict.{Dict, find, insert, erase}

pub record Stats : Type 0 where
  pub input_tokens : ℕ
  pub output_tokens : ℕ
  pub total_tokens : ℕ
  pub turns : ℕ

pub record UsageAccumulator : Type 0 where
  pub sessions : Dict Stats
  pub global : Stats

abbrev pub no_stats : Stats
no_stats = record { input_tokens = 0; output_tokens = 0; total_tokens = 0; turns = 0 }

-- The sum of two `int`s.
abbrev pub int_sum : ℕ → ℕ → Option ℕ
int_sum a b = if ltb (a + b) (2 ^ 31) then some (a + b) else none

abbrev pub add_turn : ℕ → ℕ → ℕ → Stats → Stats
add_turn input output total s = record {
  input_tokens = s.input_tokens + input;
  output_tokens = s.output_tokens + output;
  total_tokens = s.total_tokens + total;
  turns = suc s.turns;
}

pub get_session : Text → UsageAccumulator → Stats
get_session key u = elim (find key u.sessions) [ none ↦ no_stats | some s ↦ s ]

pub get_global : UsageAccumulator → Stats
get_global u = u.global

pub record_usage : Text → ℕ → ℕ → UsageAccumulator → Option UsageAccumulator
record_usage key input output u = do
  total ← int_sum input output
  some record {
    sessions = insert key (add_turn input output total (get_session key u)) u.sessions;
    global = add_turn input output total u.global;
  }

pub reset_session : Text → UsageAccumulator → UsageAccumulator
reset_session key u = record u { sessions = erase key u.sessions }

pub reset_all : UsageAccumulator → UsageAccumulator
reset_all u = record { sessions = []; global = no_stats }
