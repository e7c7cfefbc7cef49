-- ===== src/Gateway/Lane/Names.antt =====
-- The names of the queue's modes and drop policies.
use qwen_claw.Base.{◌≡◌, refl}
use qwen_claw.Base.Text.{text_eq}
use qwen_claw.Gateway.Lane.{
  QueueMode, collect, followup, steer, steer_backlog, interrupt, queue_mode_from_string,
  queue_mode_to_string, DropPolicy, summarize, drop_oldest, reject, drop_policy_from_string,
  drop_policy_to_string,
}

-- Reading back the name of a mode gives the mode.
pub mode_round_trip : (m : QueueMode) → queue_mode_from_string (queue_mode_to_string m) ≡ m
unfolding queue_mode_from_string queue_mode_to_string text_eq
mode_round_trip collect = refl
mode_round_trip followup = refl
mode_round_trip steer = refl
mode_round_trip steer_backlog = refl
mode_round_trip interrupt = refl

-- Reading back the name of a drop policy gives the policy.
pub policy_round_trip : (p : DropPolicy) → drop_policy_from_string (drop_policy_to_string p) ≡ p
unfolding drop_policy_from_string drop_policy_to_string text_eq
policy_round_trip summarize = refl
policy_round_trip drop_oldest = refl
policy_round_trip reject = refl
