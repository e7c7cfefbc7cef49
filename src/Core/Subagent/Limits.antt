-- ===== src/Core/Subagent/Limits.antt =====
-- Which calls of Spawn are refused, and what the ends of a run overwrite.
use qwen_claw.Base.{
  ◌≡◌, ◌∙◌, refl, Bool, true, false, not, ◌||◌, Option, none, some, arith, Bool-cases, inl, inr,
}
use qwen_claw.Base.Int.{ℤ, ltb_ℤ}
use qwen_claw.Base.Text.{Text, text_eq_refl, is_empty}
use qwen_claw.Base.Dict.{Dict, find, insert, find-insert}
use qwen_claw.Core.Subagent.{
  SpawnParams, Status, accepted, forbidden, error, completed, cancelled, SubagentRun,
  SubagentManager, Reply, answer, threw, AgentRunner, has_too_many, is_disallowed, target_agent,
  taken, refused, check_spawn, settle, launch, spawn, is_running, cancel_run, complete_run, get_run,
  session_key_of, run_id_of, record_run,
}

abbrev pub is_forbidden : Status → Bool
is_forbidden accepted = false
is_forbidden forbidden = true
is_forbidden error = false

settle-allowed :
    (id key : Text) (p : SpawnParams) (reply : Reply × SubagentManager)
    → is_forbidden (settle id key p reply).0.status ≡ false
unfolding settle taken
settle-allowed id key p (answer s, m) = refl
settle-allowed id key p (threw e, m) = refl

launch-allowed :
    (runner : Option AgentRunner) (id key : Text) (p : SpawnParams) (depth : ℤ)
    (m : SubagentManager)
    → is_forbidden (launch runner id key p depth m).0.status ≡ false
unfolding launch taken
launch-allowed none id key p depth m = refl
launch-allowed (some runner) id key p depth m = settle-allowed id key p _

-- A spawn is refused exactly when the depth has reached its limit, the parent has a list of
-- children with too many at work, or the agent is not among those allowed; this holds with every
-- runner.
pub spawn-forbidden :
    (runner : Option AgentRunner) (hex hex' : Text) (p : SpawnParams) (parent : Text) (depth : ℤ)
    (m : SubagentManager)
    → is_forbidden (spawn runner hex hex' p parent depth m).0.status ≡ (
        not (ltb_ℤ depth m.config.max_depth)
        || (has_too_many m parent || is_disallowed m (target_agent p)))
unfolding spawn check_spawn refused
spawn-forbidden runner hex hex' p parent depth m =
    elim (Bool-cases (ltb_ℤ depth m.config.max_depth)) [
      | inr deep ↦ ground (arith, deep)
      | inl shallow ↦ elim (Bool-cases (has_too_many m parent)) [
        | inl many ↦ ground (arith, shallow, many)
        | inr few ↦ elim (Bool-cases (is_disallowed m (target_agent p))) [
          | inl stranger ↦ ground (arith, shallow, few, stranger)
          | inr known ↦
              let id = run_id_of hex in
              let key = session_key_of (target_agent p) hex' in
              ground (
                arith,
                shallow,
                few,
                known,
                launch-allowed runner id key p depth (record_run id key p parent m),
              )
        ]
      ]
    ]

-- The first child of a parent is let through whatever the limit on children is, 0 included.
pub spawn-first_child :
    (runner : Option AgentRunner) (hex hex' : Text) (p : SpawnParams) (parent : Text) (depth : ℤ)
    (m : SubagentManager)
    → find parent m.parent_children ≡ none
    → ltb_ℤ depth m.config.max_depth ≡ true
    → is_empty m.config.allowed_agents ≡ true
    → is_forbidden (spawn runner hex hex' p parent depth m).0.status ≡ false
unfolding has_too_many is_disallowed
spawn-first_child runner hex hex' p parent depth m first shallow any =
    spawn-forbidden runner hex hex' p parent depth m ∙ ground (arith, first, shallow, any)

find_same :
    (id : Text) (r : SubagentRun) (runs : Dict SubagentRun) → find id (insert id r runs) ≡ some r
find_same id r runs = ground (arith, find-insert id id r runs, text_eq_refl id)

cancel_run_rule :
    (id : Text) (r : SubagentRun) (m : SubagentManager)
    → find id m.runs ≡ some r
    → is_running r.state ≡ true
    → find id (cancel_run id m).1.runs ≡ some (record r { state = cancelled })
unfolding cancel_run
cancel_run_rule id r m found active =
    ground (arith, found, active, find_same id (record r { state = cancelled }) m.runs)

complete_run_rule :
    (id summary : Text) (r : SubagentRun) (m : SubagentManager)
    → find id m.runs ≡ some r
    → get_run id (complete_run id summary m)
      ≡ some (record r { state = completed; result_summary = summary })
unfolding complete_run get_run
complete_run_rule id summary r m found =
    ground
      (arith, found, find_same id (record r { state = completed; result_summary = summary }) m.runs)

-- A cancelled run that completes is a completed run with its summary: the completion does not ask
-- whether the run is still at work.
pub complete_run-cancelled :
    (id summary : Text) (r : SubagentRun) (m : SubagentManager)
    → find id m.runs ≡ some r
    → is_running r.state ≡ true
    → get_run id (complete_run id summary (cancel_run id m).1)
      ≡ some (record r { state = completed; result_summary = summary })
complete_run-cancelled id summary r m found active =
    complete_run_rule id summary (record r { state = cancelled }) (cancel_run id m).1
      (cancel_run_rule id r m found active)
