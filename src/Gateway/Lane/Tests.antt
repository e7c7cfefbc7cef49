-- ===== src/Gateway/Lane/Tests.antt =====
-- The lane's theorems at concrete lanes, the commands' parameters being texts.
use qwen_claw.Base.{◌≡◌, ◌≤◌, ◌+◌, refl, length, List, [], ◌∷◌, none}
use qwen_claw.Base.Int.{pos}
use qwen_claw.Base.Text.{Text, codes}
use qwen_claw.Gateway.Lane.{
  collect, DropPolicy, summarize, pending, QueuedCommand, SessionLane, apply_cap_overflow,
}
use qwen_claw.Gateway.Lane.Overflow.{apply_cap_overflow-bounded}

abbrev command : Text → QueuedCommand Text
command id = record {
  id = id;
  session_key = codes "main";
  message = codes "hello";
  params = [];
  connection_id = codes "c";
  rpc_request_id = [];
  mode = collect;
  enqueued_at = 0;
  state = pending;
}

abbrev lane_of : DropPolicy → List (QueuedCommand Text) → SessionLane Text
lane_of policy commands = record {
  session_key = codes "main";
  mode = collect;
  debounce_ms = pos 1000;
  cap = pos 2;
  drop_policy = policy;
  pending = commands;
  active_command = none;
}

abbrev first : QueuedCommand Text
first = command (codes "1")

abbrev second : QueuedCommand Text
second = command (codes "2")

abbrev third : QueuedCommand Text
third = command (codes "3")

abbrev three : List (QueuedCommand Text)
three = first ∷ second ∷ third ∷ []

apply_cap_overflow-bounded_example :
    (length (apply_cap_overflow (lane_of summarize three)).0.pending ≤ 2)
    × (length (apply_cap_overflow (lane_of summarize three)).0.pending
          + length (apply_cap_overflow (lane_of summarize three)).1
        ≡ 3)
apply_cap_overflow-bounded_example = apply_cap_overflow-bounded (lane_of summarize three) 1 refl
