-- ===== src/Gateway/Lane.antt =====
-- gateway/command_queue: the enumerations, `QueuedCommand` and `SessionLane`, the queue of one
-- session. A command's `params` is a JSON value of any type `J`. Times are nanoseconds of
-- `steady_clock`, which never runs backwards.
pub mod Overflow
pub mod Serial
pub mod Names
pub mod Owned
mod Tests
use qwen_claw.Base.{
  ℕ, zero, suc, ◌+◌, ◌-◌, ◌/◌, ◌%◌, ◌^◌, Bool, true, false, ◌||◌, not, List, [], ◌∷◌, ◌++◌, Option,
  none, some, ltb, if◌then◌else◌, length, take, drop,
}
use qwen_claw.Base.Int.{ℤ, pos, negsuc, ltb_ℤ}
use qwen_claw.Base.Text.{Text, codes, text_eq, is_empty, starts_with, find_text}
use qwen_claw.Base.Decimal.{to_string, stoi}

pub data QueueMode : Type 0 where
  collect followup steer steer_backlog interrupt : QueueMode

pub queue_mode_from_string : Text → QueueMode
queue_mode_from_string s =
    if text_eq s (codes "collect")
    then collect
    else if text_eq s (codes "followup")
    then followup
    else if text_eq s (codes "steer")
    then steer
    else if text_eq s (codes "steer-backlog")
    then steer_backlog
    else if text_eq s (codes "interrupt")
    then interrupt
    else collect

pub queue_mode_to_string : QueueMode → Text
queue_mode_to_string collect = codes "collect"
queue_mode_to_string followup = codes "followup"
queue_mode_to_string steer = codes "steer"
queue_mode_to_string steer_backlog = codes "steer-backlog"
queue_mode_to_string interrupt = codes "interrupt"

pub data DropPolicy : Type 0 where
  summarize drop_oldest reject : DropPolicy

unfoldable pub drop_policy_from_string : Text → DropPolicy
drop_policy_from_string s =
    if text_eq s (codes "summarize")
    then summarize
    else if text_eq s (codes "drop-oldest")
    then drop_oldest
    else if text_eq s (codes "reject")
    then reject
    else summarize

pub drop_policy_to_string : DropPolicy → Text
drop_policy_to_string summarize = codes "summarize"
drop_policy_to_string drop_oldest = codes "drop-oldest"
drop_policy_to_string reject = codes "reject"

pub data CommandState : Type 0 where
  pending debouncing active complete dropped : CommandState

pub record QueuedCommand (J : Type 0) : Type 0 where
  pub id : Text
  pub session_key : Text
  pub message : Text
  pub params : J
  pub connection_id : Text
  pub rpc_request_id : Text
  pub mode : QueueMode
  pub enqueued_at : ℕ
  pub state : CommandState

pub record SessionLane (J : Type 0) : Type 0 where
  pub session_key : Text
  pub mode : QueueMode
  pub debounce_ms : ℤ
  pub cap : ℤ
  pub drop_policy : DropPolicy
  pub pending : List (QueuedCommand J)
  pub active_command : Option (QueuedCommand J)

-- The arithmetic of `std::string::size_type`.
abbrev size_mod : ℕ
size_mod = 2 ^ 64

abbrev summary_prefix : Text
summary_prefix = codes "[Queue summary:"

is_summary : Text → Bool
is_summary message = starts_with summary_prefix message

-- `find(": ") + 2`, which wraps to 1 where nothing is found.
count_start : Text → ℕ
count_start message = elim (find_text (codes ": ") message) [ none ↦ 1 | some i ↦ i + 2 ]

parsed_count : Text → ℕ → ℤ
unfolding count_start
parsed_count message stop =
    let start = count_start message in
    elim (stoi (take ((stop + size_mod - start) % size_mod) (drop start message))) [
      | none ↦ pos 1
      | some n ↦ n
    ]

-- How many messages the text already stands for.
collapsed_count : Text → ℤ
unfolding is_summary parsed_count
collapsed_count message =
    if is_summary message
    then elim (find_text (codes " messages]") message) [
      | none ↦ pos 1
      | some stop ↦ parsed_count message stop
    ]
    else pos 1

abbrev increment : ℤ → ℤ
increment (pos n) = pos (suc n)
increment (negsuc zero) = pos 0
increment (negsuc (suc n)) = negsuc n

-- What the summary keeps of the oldest message.
core_content : Text → Text
unfolding is_summary
core_content message =
    if is_summary message
    then elim (find_text (codes "] ") message) [ none ↦ [] | some i ↦ drop (i + 2) message ]
    else take 150 message

-- The count is taken not to reach 2 ^ 31 - 1, which a message that imitates a summary may hold, and
-- from which the source's increment overflows.
merged_message : Text → Text → Text
unfolding collapsed_count core_content
merged_message oldest second =
    codes "[Queue summary: "
    ++ to_string (increment (collapsed_count oldest))
    ++ codes " messages] "
    ++ core_content oldest
    ++ codes " | "
    ++ take 150 second

module _ {J : Type 0} where
  abbrev pub new_lane : Text → SessionLane J
  new_lane key = record {
    session_key = key;
    mode = collect;
    debounce_ms = pos 1000;
    cap = pos 20;
    drop_policy = summarize;
    pending = [];
    active_command = none;
  }

  unfoldable pub enqueue : QueuedCommand J → SessionLane J → SessionLane J
  enqueue cmd lane = record lane { pending = lane.pending ++ cmd ∷ [] }

  abbrev pub has_pending : SessionLane J → Bool
  has_pending lane = not (is_empty lane.pending)

  abbrev pub is_some : Option (QueuedCommand J) → Bool
  is_some none = false
  is_some (some c) = true

  abbrev pub has_active : SessionLane J → Bool
  has_active lane = is_some lane.active_command

  abbrev pub is_idle : SessionLane J → Bool
  is_idle lane = not (has_active lane || has_pending lane)

  -- Whole milliseconds since the command was queued.
  abbrev pub elapsed_ms : ℕ → QueuedCommand J → ℕ
  elapsed_ms now cmd = (now - cmd.enqueued_at) / 1_000_000

  unfoldable pub try_activate : ℕ → SessionLane J → SessionLane J × Option (QueuedCommand J)
  try_activate now lane = elim lane.pending [
    | [] ↦ (lane, none)
    | front ∷ rest ↦ elim lane.active_command [
      | some running ↦ (lane, none)
      | none ↦ if ltb_ℤ (pos (elapsed_ms now front)) lane.debounce_ms then (lane, none) else (
        record lane { pending = rest; active_command = some (record front { state = active }) },
        some (record front { state = active }),
      )
    ]
  ]

  unfoldable pub complete_active : SessionLane J → SessionLane J × Option (QueuedCommand J)
  complete_active lane = elim lane.active_command [
    | none ↦ (lane, none)
    | some cmd ↦ (record lane { active_command = none }, some (record cmd { state = complete }))
  ]

  pub merge_oldest : QueuedCommand J → QueuedCommand J → QueuedCommand J
  unfolding merged_message
  merge_oldest oldest second = record oldest {
    message = merged_message oldest.message second.message;
  }

  pub pop_back : List (QueuedCommand J) → List (QueuedCommand J)
  pop_back [] = []
  pop_back (c ∷ []) = []
  pop_back (c ∷ d ∷ cs) = c ∷ pop_back (d ∷ cs)

  pub back_id : List (QueuedCommand J) → List Text
  back_id [] = []
  back_id (c ∷ []) = c.id ∷ []
  back_id (c ∷ d ∷ cs) = back_id (d ∷ cs)

  -- One pass of the switch: the commands left, and the ids dropped. `front()` and `back()` of an
  -- empty deque, undefined in the source, are not reached: the caller has just queued a command.
  pub overflow_pass : DropPolicy → List (QueuedCommand J) → List (QueuedCommand J) × List Text
  unfolding merge_oldest pop_back back_id
  overflow_pass summarize [] = ([], [])
  overflow_pass summarize (c ∷ []) = (c ∷ [], [])
  overflow_pass summarize (c ∷ d ∷ cs) = (merge_oldest c d ∷ cs, d.id ∷ [])
  overflow_pass drop_oldest [] = ([], [])
  overflow_pass drop_oldest (c ∷ cs) = (cs, c.id ∷ [])
  overflow_pass reject cs = (pop_back cs, back_id cs)

  -- The `while` loop with fuel: the commands left, and the ids dropped so far.
  pub overflow_loop :
      ℕ → ℤ → DropPolicy → List (QueuedCommand J) → List Text → List (QueuedCommand J) × List Text
  unfolding overflow_pass
  overflow_loop zero cap policy cs ids = (cs, ids)
  overflow_loop (suc fuel) cap policy cs ids =
      let pass = overflow_pass policy cs in
      let more = overflow_loop fuel cap policy pass.0 (ids ++ pass.1) in
      if ltb_ℤ cap (pos (length cs))
      then if ltb_ℤ (pos 0) cap then more else (pass.0, ids ++ pass.1)
      else (cs, ids)

  unfoldable pub apply_cap_overflow : SessionLane J → SessionLane J × List Text
  unfolding overflow_loop
  apply_cap_overflow lane =
      let (left, ids) =
        overflow_loop (suc (length lane.pending)) lane.cap lane.drop_policy lane.pending [] in
      (record lane { pending = left }, ids)

  -- The loop of `DrainPendingAsSteeringText`: a blank line before all but the first text.
  pub join_messages : Text → List (QueuedCommand J) → Text
  join_messages result [] = result
  join_messages result (c ∷ cs) =
      join_messages ((if is_empty result then result else result ++ 10 ∷ 10 ∷ []) ++ c.message) cs

  unfoldable pub drain_pending_as_steering_text : SessionLane J → SessionLane J × Text
  unfolding join_messages
  drain_pending_as_steering_text lane =
      (record lane { pending = [] }, join_messages [] lane.pending)

  -- Without the first command of that id, and whether there is one.
  pub remove_command : Text → List (QueuedCommand J) → List (QueuedCommand J) × Bool
  remove_command id [] = ([], false)
  remove_command id (c ∷ cs) =
      let (left, found) = remove_command id cs in
      if text_eq c.id id then (cs, true) else (c ∷ left, found)

  unfoldable pub cancel_pending : Text → SessionLane J → SessionLane J × Bool
  unfolding remove_command
  cancel_pending id lane =
      let (left, found) = remove_command id lane.pending in (record lane { pending = left }, found)

  pub keep_last : List (QueuedCommand J) → List (QueuedCommand J)
  keep_last [] = []
  keep_last (c ∷ []) = c ∷ []
  keep_last (c ∷ d ∷ cs) = keep_last (d ∷ cs)

  abbrev id_of : Option (QueuedCommand J) → Option Text
  id_of none = none
  id_of (some c) = some c.id

  unfoldable pub interrupt_active : SessionLane J → SessionLane J × Option Text
  unfolding keep_last
  interrupt_active lane = (
    record lane { active_command = none; pending = keep_last lane.pending },
    id_of lane.active_command,
  )
