-- ===== src/Gateway/Queue/Tests.antt =====
-- The queue's theorems at concrete histories, the commands' parameters being texts and the call
-- of the JSON library one that puts the collected text in their place.
use qwen_claw.Base.{◌≡◌, ◌≤◌, refl, arith, length, List, [], ◌∷◌, some}
use qwen_claw.Base.Int.{pos}
use qwen_claw.Base.Text.{Text, codes}
use qwen_claw.Gateway.Lane.{
  QueueMode, collect, summarize, pending, active, QueuedCommand, SessionLane,
}
use qwen_claw.Gateway.Queue.{
  QueueConfig, CommandQueue, empty_queue, abort_session, dispatch_round, returned,
}
use qwen_claw.Gateway.Queue.Calls.{Call, submits, dispatches, begins, finishes, run}
use qwen_claw.Gateway.Queue.Count.{Counted, run-Counted, run-workers-le}
use qwen_claw.Gateway.Queue.Serial.{flights}
use qwen_claw.Gateway.Queue.Serial.History.{run-one_worker}
use qwen_claw.Gateway.Queue.Disturbed.{abort_session-overlap}

abbrev set_collected : Text → Text → Text
set_collected steering params = steering

abbrev config : QueueConfig
config = record {
  max_concurrent = pos 4;
  debounce_ms = pos 0;
  cap = pos 20;
  drop_policy = summarize;
  default_mode = collect;
}

abbrev command : Text → QueueMode → QueuedCommand Text
command id mode = record {
  id = id;
  session_key = codes "main";
  message = codes "hello";
  params = [];
  connection_id = codes "c";
  rpc_request_id = [];
  mode = mode;
  enqueued_at = 0;
  state = pending;
}

abbrev calls : List (Call Text)
calls =
    submits (command (codes "1") collect)
    ∷ submits (command (codes "2") collect)
    ∷ dispatches 5
    ∷ begins (codes "1")
    ∷ finishes (codes "1") (returned (codes "done"))
    ∷ []

run-one_worker_example :
    flights (codes "main") (run set_collected (empty_queue config) calls).workers ≤ 1
run-one_worker_example =
    run-one_worker set_collected config calls (codes "main") refl
      (refl, (refl, (tt, (tt, (tt, tt)))))

run-workers-le_example : length (run set_collected (empty_queue config) calls).workers ≤ 4
run-workers-le_example = run-workers-le set_collected config calls (tt, (tt, (tt, (tt, (tt, tt)))))

run-Counted_example : Counted (run set_collected (empty_queue config) calls)
run-Counted_example = run-Counted set_collected config calls

abbrev old : QueuedCommand Text
old = command (codes "2") collect

abbrev running : QueuedCommand Text
running = record (command (codes "1") collect) { state = active }

abbrev busy_lane : SessionLane Text
busy_lane = record {
  session_key = codes "main";
  mode = collect;
  debounce_ms = pos 0;
  cap = pos 20;
  drop_policy = summarize;
  pending = old ∷ [];
  active_command = some running;
}

abbrev busy_queue : CommandQueue Text
busy_queue = record {
  config = config;
  lanes = (codes "main", busy_lane) ∷ [];
  active_count = 1;
  command_to_session = [];
  workers = running ∷ [];
  sent = [];
}

abort_session-overlap_example :
    (dispatch_round set_collected 5 (abort_session (codes "main") busy_queue).0).workers
    ≡ running ∷ record old { state = active } ∷ []
abort_session-overlap_example =
    abort_session-overlap set_collected (codes "main") running old [] busy_lane 0 5 busy_queue refl
      refl refl refl refl refl (omega arith)
