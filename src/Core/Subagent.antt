-- ===== src/Core/Subagent.antt =====
-- core/subagent: the manager of the agents that an agent starts. Random numbers, already in
-- hexadecimal, are arguments. The runner of an agent is one too: it may call the manager again,
-- so it is given the state and returns it.
pub mod Limits
pub mod Owned
pub mod Recorded
pub mod Removed
pub mod Reachable
pub mod Cleanup
mod Tests
use qwen_claw.Base.{
  ℕ, suc, ◌+◌, zero, Bool, true, false, not, ◌&&◌, ◌||◌, List, [], ◌∷◌, ◌++◌, Option, none, some,
  length, keep_if, any_of, take, if◌then◌else◌, ◌>>=◌, map,
}
use qwen_claw.Base.Int.{ℤ, pos, negsuc, ltb_ℤ}
use qwen_claw.Base.Text.{Text, codes, text_eq, is_empty}
use qwen_claw.Base.Decimal.{to_string}
use qwen_claw.Base.Dict.{Dict, find, insert, erase}
use qwen_claw.Base.Json.{JsonObject}

pub data SpawnMode : Type 0 where
  run_mode session_mode : SpawnMode

pub spawn_mode_to_string : SpawnMode → Text
spawn_mode_to_string run_mode = codes "run"
spawn_mode_to_string session_mode = codes "session"

pub spawn_mode_from_string : Text → SpawnMode
spawn_mode_from_string s = if text_eq s (codes "session") then session_mode else run_mode

-- The fields that the manager reads.
pub record SpawnParams : Type 0 where
  pub task : Text
  pub label : Text
  pub agent_id : Text
  pub model : Text
  pub mode : SpawnMode
  pub cleanup : Bool

pub data Status : Type 0 where
  accepted forbidden error : Status

pub record SpawnResult : Type 0 where
  pub status : Status
  pub child_session_key : Text
  pub run_id : Text
  pub mode : SpawnMode
  pub note : Text
  pub error_text : Text

pub data RunState : Type 0 where
  running completed failed cancelled : RunState

pub record SubagentRun : Type 0 where
  pub run_id : Text
  pub child_session_key : Text
  pub parent_session_key : Text
  pub label : Text
  pub model : Text
  pub mode : SpawnMode
  pub cleanup : Bool
  pub state : RunState
  pub result_summary : Text

pub record SubagentConfig : Type 0 where
  pub max_depth : ℤ
  pub max_children : ℤ
  pub allowed_agents : List Text

-- The strings among the items of `allowedAgents`.
pub agent_names : Option (List (Option Text)) → List Text
agent_names none = []
agent_names (some []) = []
agent_names (some (none ∷ items)) = agent_names (some items)
agent_names (some (some name ∷ items)) = name ∷ agent_names (some items)

-- `none` where a setting has the wrong type, which throws.
pub config_from_json : JsonObject → Option SubagentConfig
config_from_json j = do
  depth ← j.int_value (codes "maxDepth") (pos 5)
  children ← j.int_value (codes "maxChildren") (pos 5)
  some record {
    max_depth = depth;
    max_children = children;
    allowed_agents = agent_names (j.items (codes "allowedAgents"));
  }

pub record SubagentManager : Type 0 where
  pub config : SubagentConfig
  pub runs : Dict SubagentRun
  pub parent_children : Dict (List Text)

-- What a runner comes back with: its text, or the text of an exception.
pub data Reply : Type 0 where
  answer threw : Text → Reply

abbrev pub AgentRunner : Type 0
AgentRunner = Text → Text → Text → Text → SubagentManager → Reply × SubagentManager

pub configure : SubagentConfig → SubagentManager → SubagentManager
configure c m = record m { config = c }

abbrev pub is_running : RunState → Bool
is_running running = true
is_running completed = false
is_running failed = false
is_running cancelled = false

-- The run is known and its state is running.
pub is_active : SubagentManager → Text → Bool
is_active m id = elim (find id m.runs) [ none ↦ false | some r ↦ is_running r.state ]

-- The limit is looked at only where the parent has a list of children.
unfoldable pub has_too_many : SubagentManager → Text → Bool
has_too_many m parent = elim (find parent m.parent_children) [
  | none ↦ false
  | some ids ↦ not (ltb_ℤ (pos (length (keep_if (is_active m) ids))) m.config.max_children)
]

pub is_disallowed : SubagentManager → Text → Bool
is_disallowed m agent =
    not (is_empty m.config.allowed_agents)
    && not (any_of (λ name. text_eq name agent) m.config.allowed_agents)

abbrev pub target_agent : SpawnParams → Text
target_agent p = if is_empty p.agent_id then codes "default" else p.agent_id

pub refused : Text → SpawnResult
refused e = record {
  status = forbidden;
  child_session_key = [];
  run_id = [];
  mode = run_mode;
  note = [];
  error_text = e;
}

abbrev pub new_run : Text → Text → SpawnParams → Text → SubagentRun
new_run id key p parent = record {
  run_id = id;
  child_session_key = key;
  parent_session_key = parent;
  label = if is_empty p.label then take 50 p.task else p.label;
  model = p.model;
  mode = p.mode;
  cleanup = p.cleanup;
  state = running;
  result_summary = [];
}

-- The new run, recorded and listed under its parent.
pub record_run : Text → Text → SpawnParams → Text → SubagentManager → SubagentManager
record_run id key p parent m = record m {
  runs = insert id (new_run id key p parent) m.runs;
  parent_children =
      insert parent
        (elim (find parent m.parent_children) [ none ↦ id ∷ [] | some ids ↦ ids ++ (id ∷ []) ])
        m.parent_children;
}

-- An unknown run is left alone by both.
pub complete_run : Text → Text → SubagentManager → SubagentManager
complete_run id summary m = elim (find id m.runs) [
  | none ↦ m
  | some r ↦ record m {
    runs = insert id (record r { state = completed; result_summary = summary }) m.runs;
  }
]

pub fail_run : Text → Text → SubagentManager → SubagentManager
fail_run id e m = elim (find id m.runs) [
  | none ↦ m
  | some r ↦ record m {
    runs = insert id (record r { state = failed; result_summary = codes "Error: " ++ e }) m.runs;
  }
]

pub cancel_run : Text → SubagentManager → Bool × SubagentManager
cancel_run id m = elim (find id m.runs) [
  | none ↦ (false, m)
  | some r ↦
      if is_running r.state
      then (true, record m { runs = insert id (record r { state = cancelled }) m.runs })
      else (false, m)
]

abbrev pub next_depth : ℤ → ℤ
next_depth (pos n) = pos (suc n)
next_depth (negsuc zero) = pos 0
next_depth (negsuc (suc n)) = negsuc n

pub extra_prompt : SubagentConfig → SpawnParams → ℤ → Text
extra_prompt c p depth =
    codes "You are a subagent (depth "
    ++ (to_string (next_depth depth)
        ++ (codes "/" ++ (to_string c.max_depth ++ (codes "). Your task: " ++ p.task))))

pub taken : Text → Text → SpawnParams → SpawnResult
taken id key p = record {
  status = accepted;
  child_session_key = key;
  run_id = id;
  mode = p.mode;
  note = codes "Subagent spawned successfully";
  error_text = [];
}

-- What follows the runner's reply.
pub settle : Text → Text → SpawnParams → Reply × SubagentManager → SpawnResult × SubagentManager
settle id key p (answer s, m) = (taken id key p, if is_empty s then m else complete_run id s m)
settle id key p (threw e, m) = (record (refused e) { status = error }, fail_run id e m)

pub launch :
    Option AgentRunner
    → Text
    → Text
    → SpawnParams
    → ℤ
    → SubagentManager
    → SpawnResult × SubagentManager
launch none id key p depth m = (taken id key p, m)
launch (some runner) id key p depth m =
    settle id key p (runner key p.task p.model (extra_prompt m.config p depth) m)

abbrev pub run_id_of : Text → Text
run_id_of hex = codes "sub_" ++ hex

abbrev pub session_key_of : Text → Text → Text
session_key_of agent hex = codes "agent:" ++ (agent ++ (codes ":subagent:" ++ hex))

-- The checks of Spawn, which let go of the lock again before the run is recorded: what refuses the
-- call, if anything does.
unfoldable pub check_spawn : SpawnParams → Text → ℤ → SubagentManager → Option SpawnResult
check_spawn p parent depth m =
    if not (ltb_ℤ depth m.config.max_depth)
    then some (
        refused (codes "Max spawn depth (" ++ (to_string m.config.max_depth ++ codes ") exceeded")))
    else if has_too_many m parent
    then some (
        refused (
          codes "Max active children (" ++ (to_string m.config.max_children ++ codes ") exceeded")))
    else if is_disallowed m (target_agent p)
    then some (refused (codes "Agent '" ++ (target_agent p ++ codes "' not in allowed list")))
    else none

-- A call that no other call comes between.
pub spawn :
    Option AgentRunner
    → Text
    → Text
    → SpawnParams
    → Text
    → ℤ
    → SubagentManager
    → SpawnResult × SubagentManager
spawn runner hex hex' p parent depth m =
    let id = run_id_of hex in
    let key = session_key_of (target_agent p) hex' in
    elim (check_spawn p parent depth m) [
      | some refusal ↦ (refusal, m)
      | none ↦ launch runner id key p depth (record_run id key p parent m)
    ]

pub active_runs : SubagentManager → List Text → List SubagentRun
active_runs m [] = []
active_runs m (id ∷ ids) =
    let rest = active_runs m ids in
    elim (find id m.runs) [ none ↦ rest | some r ↦ if is_running r.state then r ∷ rest else rest ]

pub active_children : Text → SubagentManager → List SubagentRun
active_children parent m = elim (find parent m.parent_children) [
  | none ↦ []
  | some ids ↦ active_runs m ids
]

pub all_runs : SubagentManager → List SubagentRun
all_runs m = map (λ e. e.1) m.runs

pub get_run : Text → SubagentManager → Option SubagentRun
get_run id m = find id m.runs

-- The run may be forgotten: it asks for it and has ended.
abbrev pub is_done : SubagentRun → Bool
is_done r = r.cleanup && not (is_running r.state)

pub done_ids : Dict SubagentRun → List Text
done_ids [] = []
done_ids ((id, r) ∷ runs) = if is_done r then id ∷ done_ids runs else done_ids runs

pub forget_child : Text → Text → Dict (List Text) → Dict (List Text)
forget_child id parent children = elim (find parent children) [
  | none ↦ children
  | some ids ↦ insert parent (keep_if (λ i. not (text_eq i id)) ids) children
]

pub remove_run : Text → SubagentManager → SubagentManager
remove_run id m = elim (find id m.runs) [
  | none ↦ m
  | some r ↦ record m {
    runs = erase id m.runs;
    parent_children = forget_child id r.parent_session_key m.parent_children;
  }
]

pub remove_all : List Text → SubagentManager → SubagentManager
remove_all [] m = m
remove_all (id ∷ ids) m = remove_all ids (remove_run id m)

-- The answer is how many runs were to be removed.
pub cleanup_completed : SubagentManager → ℕ × SubagentManager
cleanup_completed m = (length (done_ids m.runs), remove_all (done_ids m.runs) m)
