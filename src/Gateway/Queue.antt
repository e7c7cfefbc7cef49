-- ===== src/Gateway/Queue.antt =====
-- gateway/command_queue: `CommandQueue`, which holds the lanes, hands commands to workers within a
-- limit, and answers clients. Each operation is one critical section of `mu_`; the ids that
-- `generate_id` draws and the readings of the clock are arguments. `workers` holds the commands
-- that worker threads have in hand; `sent` records what goes to the callbacks, oldest first.
pub mod Calls
pub mod Count
pub mod Rounds
pub mod Serial
pub mod Settings
pub mod Disturbed
mod Tests
use qwen_claw.Base.{
  ℕ, suc, ◌+◌, ◌-◌, Bool, true, false, ◌&&◌, ◌||◌, not, List, [], ◌∷◌, ◌++◌, map, Option, none,
  some, ltb, if◌then◌else◌, length,
}
use qwen_claw.Base.Int.{ℤ, pos, negsuc, ltb_ℤ}
use qwen_claw.Base.Text.{Text, codes, text_eq, is_empty}
use qwen_claw.Base.Dict.{Dict, find, insert, erase}
use qwen_claw.Gateway.Lane.{
  QueueMode, collect, followup, steer, steer_backlog, interrupt, DropPolicy,
  drop_policy_from_string, QueuedCommand, pending, SessionLane, new_lane, enqueue, has_pending,
  has_active, is_idle, try_activate, complete_active, apply_cap_overflow,
  drain_pending_as_steering_text, cancel_pending, interrupt_active,
}

pub record QueueConfig : Type 0 where
  pub max_concurrent : ℤ
  pub debounce_ms : ℤ
  pub cap : ℤ
  pub drop_policy : DropPolicy
  pub default_mode : QueueMode

-- How the agent's executor ends: with a result, or by an exception.
pub data Outcome (J : Type 0) : Type 0 where
  returned : J → Outcome J
  threw : Text → Outcome J

pub data Sent (J : Type 0) : Type 0 where
  overflow : (connection_id session_key : Text) (count : ℕ) → DropPolicy → (pending : ℕ) → Sent J
  started finished : (connection_id command_id session_key : Text) → Sent J
  response : (connection_id rpc_request_id : Text) → Outcome J → Sent J

pub record CommandQueue (J : Type 0) : Type 0 where
  pub config : QueueConfig
  pub lanes : Dict (SessionLane J)
  pub active_count : ℕ
  pub command_to_session : Dict Text
  pub workers : List (QueuedCommand J)
  pub sent : List (Sent J)

abbrev is_collect : QueueMode → Bool
is_collect collect = true
is_collect m = false

abbrev is_followup : QueueMode → Bool
is_followup followup = true
is_followup m = false

abbrev is_interrupt : QueueMode → Bool
is_interrupt interrupt = true
is_interrupt m = false

abbrev is_steering : QueueMode → Bool
is_steering steer = true
is_steering steer_backlog = true
is_steering m = false

pub forget_all : List Text → Dict Text → Dict Text
forget_all [] m = m
forget_all (id ∷ ids) m = forget_all ids (erase id m)

module _ {J : Type 0} where
  pub empty_queue : QueueConfig → CommandQueue J
  empty_queue config = record {
    config = config;
    lanes = [];
    active_count = 0;
    command_to_session = [];
    workers = [];
    sent = [];
  }

  abbrev pub configured_lane : QueueConfig → Text → SessionLane J
  configured_lane config key = record (new_lane key) {
    mode = config.default_mode;
    debounce_ms = config.debounce_ms;
    cap = config.cap;
    drop_policy = config.drop_policy;
  }

  -- The lane that `get_lane` returns; a caller puts it back, which also inserts a new one.
  pub get_lane : Text → CommandQueue J → SessionLane J
  get_lane key q = elim (find key q.lanes) [
    | none ↦ configured_lane q.config key
    | some lane ↦ lane
  ]

  abbrev pub put_lane : Text → SessionLane J → CommandQueue J → CommandQueue J
  put_lane key lane q = record q { lanes = insert key lane q.lanes }

  abbrev register : Text → Text → CommandQueue J → CommandQueue J
  register id key q = record q { command_to_session = insert id key q.command_to_session }

  abbrev unregister : Text → CommandQueue J → CommandQueue J
  unregister id q = record q { command_to_session = erase id q.command_to_session }

  abbrev send : Sent J → CommandQueue J → CommandQueue J
  send event q = record q { sent = q.sent ++ event ∷ [] }

  -- The session's mode stands in for the default one.
  abbrev pub effective_mode : QueueMode → SessionLane J → QueueMode
  effective_mode mode lane = if is_collect mode then lane.mode else mode

  -- An interrupt clears a busy lane.
  abbrev pub cleared_lane : QueueMode → SessionLane J → SessionLane J
  cleared_lane mode lane =
      if is_interrupt mode && has_active lane then (interrupt_active lane).0 else lane

  -- What stands after `lane.Enqueue` on the common path of `Submit`.
  pub settle_overflow : Text → Text → SessionLane J → CommandQueue J → CommandQueue J
  unfolding forget_all
  settle_overflow key connection_id lane q =
      let (lane', dropped) = apply_cap_overflow lane in
      let q' = put_lane key lane' q in
      if is_empty dropped then q' else record q' {
        command_to_session = forget_all dropped q.command_to_session;
        sent =
            q.sent
            ++ overflow connection_id key (length dropped) lane'.drop_policy (length lane'.pending)
              ∷ [];
      }

  -- `Submit`; `cmd` carries the fields given by the caller and the fresh id.
  pub submit : QueuedCommand J → CommandQueue J → CommandQueue J
  submit cmd q =
      let lane = get_lane cmd.session_key q in
      let mode = effective_mode cmd.mode lane in
      let lane' = cleared_lane mode lane in
      let queued = enqueue (record cmd { mode = mode; state = pending }) lane' in
      let q' = register cmd.id cmd.session_key q in
      if is_steering mode && has_active lane'
      then put_lane cmd.session_key queued q'
      else settle_overflow cmd.session_key cmd.connection_id queued q'

  pub cancel : Text → CommandQueue J → CommandQueue J × Bool
  cancel id q = elim (find id q.command_to_session) [
    | none ↦ (q, false)
    | some key ↦
        let (lane, cancelled) = cancel_pending id (get_lane key q) in
        (put_lane key lane (unregister id q), cancelled)
  ]

  pub abort_session : Text → CommandQueue J → CommandQueue J × Bool
  abort_session key q = elim (find key q.lanes) [
    | none ↦ (q, false)
    | some lane ↦
        let (lane', aborted) = interrupt_active lane in
        elim aborted [
          | none ↦ (put_lane key lane' q, false)
          | some id ↦ (put_lane key lane' (unregister id q), true)
        ]
  ]

  -- A negative number or an empty text leaves the setting as it is.
  abbrev pub configured : QueueMode → ℤ → ℤ → Text → SessionLane J → SessionLane J
  configured mode debounce_ms cap drop_name lane = record lane {
    mode = mode;
    debounce_ms = if ltb_ℤ debounce_ms (pos 0) then lane.debounce_ms else debounce_ms;
    cap = if ltb_ℤ cap (pos 0) then lane.cap else cap;
    drop_policy =
        if is_empty drop_name then lane.drop_policy else drop_policy_from_string drop_name;
  }

  pub configure_session : Text → QueueMode → ℤ → ℤ → Text → CommandQueue J → CommandQueue J
  configure_session key mode debounce_ms cap drop_name q =
      put_lane key (configured mode debounce_ms cap drop_name (get_lane key q)) q

  pub set_config : QueueConfig → CommandQueue J → CommandQueue J
  set_config config q = record q { config = config }

  -- One round of the clean-up loop: `lanes_.erase(it)` if the lane is idle.
  pub sweep_one : Text → Dict (SessionLane J) → Dict (SessionLane J)
  sweep_one key lanes = elim (find key lanes) [
    | none ↦ lanes
    | some lane ↦ if is_idle lane then erase key lanes else lanes
  ]

  pub sweep : List Text → Dict (SessionLane J) → Dict (SessionLane J)
  sweep [] lanes = lanes
  sweep (key ∷ keys) lanes = sweep keys (sweep_one key lanes)

  abbrev pub keys_of : Dict (SessionLane J) → List Text
  keys_of = map (λ e. e.0)

  pub count_pending : Dict (SessionLane J) → ℕ
  count_pending [] = 0
  count_pending ((key, lane) ∷ lanes) = length lane.pending + count_pending lanes

  pub count_active : Dict (SessionLane J) → ℕ
  count_active [] = 0
  count_active ((key, lane) ∷ lanes) = (if has_active lane then 1 else 0) + count_active lanes

  -- The numbers of `GlobalStatus`: active lanes, active commands, pending commands, lanes.
  pub global_status : CommandQueue J → ℕ × ℕ × ℕ × ℕ
  unfolding count_pending count_active
  global_status q = (count_active q.lanes, q.active_count, count_pending q.lanes, length q.lanes)

  abbrev has_id : Text → QueuedCommand J → Bool
  has_id id cmd = text_eq cmd.id id

  -- The worker that holds a command of this id, and the others.
  pub take_worker :
      Text → List (QueuedCommand J) → Option (QueuedCommand J × List (QueuedCommand J))
  take_worker id [] = none
  take_worker id (c ∷ cs) =
      if has_id id c
      then some (c, cs)
      else elim (take_worker id cs) [ none ↦ none | some (d, left) ↦ some (d, c ∷ left) ]

  -- The start of `execute_command`.
  pub begin : QueuedCommand J → CommandQueue J → CommandQueue J
  begin cmd q = send (started cmd.connection_id cmd.id cmd.session_key) q

  -- The end of `execute_command`: the answer, then the lane and the count, then the event.
  pub finish : QueuedCommand J → Outcome J → CommandQueue J → CommandQueue J
  finish cmd outcome q =
      let answer =
        if is_empty cmd.rpc_request_id
        then []
        else response cmd.connection_id cmd.rpc_request_id outcome ∷ [] in
      record q {
        lanes = elim (find cmd.session_key q.lanes) [
          | none ↦ q.lanes
          | some lane ↦ insert cmd.session_key (complete_active lane).0 q.lanes
        ];
        active_count = q.active_count - 1;
        sent = q.sent ++ answer ++ finished cmd.connection_id cmd.id cmd.session_key ∷ [];
      }

-- `set_collected` is `params["collectedMessages"] = text` of the JSON library.
module _ {J : Type 0} (set_collected : Text → J → J) where
  -- What a worker is given: the activated command, with the rest of the lane where the mode says so.
  pub collected : QueuedCommand J → SessionLane J → QueuedCommand J × SessionLane J
  collected cmd lane =
      if is_collect cmd.mode && has_pending lane
      then (let (lane', text) = drain_pending_as_steering_text lane in
          (
            if is_empty text then cmd else record cmd { params = set_collected text cmd.params },
            lane',
          ))
      else if is_followup cmd.mode && ltb 1 (length lane.pending)
      then (cmd, (drain_pending_as_steering_text lane).0)
      else (cmd, lane)

  -- One lane of the dispatcher's loop, for a lane that is free while a worker slot is free.
  pub dispatch_lane : ℕ → Text → SessionLane J → CommandQueue J → CommandQueue J
  dispatch_lane now key lane q =
      let (lane', activated) = try_activate now lane in
      elim activated [
        | none ↦ put_lane key lane' q
        | some cmd ↦
            let (command, lane'') = collected cmd lane' in
            record (put_lane key lane'' (unregister command.id q)) {
              active_count = suc q.active_count;
              workers = q.workers ++ command ∷ [];
            }
      ]

  -- The loop over the session keys; reaching the limit ends it.
  pub dispatch_keys : ℕ → List Text → CommandQueue J → CommandQueue J
  dispatch_keys now [] q = q
  dispatch_keys now (key ∷ keys) q = elim (find key q.lanes) [
    | none ↦ dispatch_keys now keys q
    | some lane ↦ elim (has_active lane) [
      | true ↦ dispatch_keys now keys q
      | false ↦ elim (ltb_ℤ (pos q.active_count) q.config.max_concurrent) [
        | true ↦ dispatch_keys now keys (dispatch_lane now key lane q)
        | false ↦ q
      ]
    ]
  ]

  -- One round of `dispatcher_loop` after its wait.
  pub dispatch_round : ℕ → CommandQueue J → CommandQueue J
  dispatch_round now q =
      let q' = dispatch_keys now (keys_of q.lanes) q in
      record q' { lanes = sweep (keys_of q'.lanes) q'.lanes }
