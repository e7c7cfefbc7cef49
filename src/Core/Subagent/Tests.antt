-- ===== src/Core/Subagent/Tests.antt =====
-- The theorems on subagents at a manager with a limit of one child.
use qwen_claw.Base.{arith, ◌+◌, ◌≤◌, ◌≡◌, refl, true, not, ◌||◌, [], ◌∷◌, none}
use qwen_claw.Base.Int.{pos, ltb_ℤ}
use qwen_claw.Base.Text.{codes, text_eq}
use qwen_claw.Base.Dict.{find, insert}
use qwen_claw.Core.Subagent.{
  SpawnParams, SubagentConfig, SubagentManager, SubagentRun, run_mode, has_too_many, is_disallowed,
  target_agent, spawn, check_spawn, is_active, record_run, new_run, cleanup_completed,
}
use qwen_claw.Core.Subagent.Limits.{is_forbidden, spawn-forbidden}
use qwen_claw.Core.Subagent.Owned.{active_count}
use qwen_claw.Core.Subagent.Reachable.{
  Reachable, start, checked, recorded, count, Reachable-bounded,
}
use qwen_claw.Core.Subagent.Cleanup.{find-cleanup_completed, unless_done}

abbrev limits : SubagentConfig
limits = record { max_depth = pos 3; max_children = pos 1; allowed_agents = [] }

abbrev idle : SubagentConfig → SubagentManager
idle c = record { config = c; runs = []; parent_children = [] }

abbrev job : SpawnParams
job = record {
  task = codes "look";
  label = [];
  agent_id = [];
  model = [];
  mode = run_mode;
  cleanup = true;
}

abbrev child : SubagentRun
child = new_run (codes "sub_a") (codes "k") job (codes "main")

abbrev busy : SubagentManager
busy = record {
  config = limits;
  runs = (codes "sub_a", child) ∷ [];
  parent_children = (codes "main", codes "sub_a" ∷ []) ∷ [];
}

spawn-forbidden_example :
    is_forbidden (spawn none (codes "b") (codes "c") job (codes "main") (pos 0) busy).0.status ≡ (
      not (ltb_ℤ (pos 0) (pos 3))
      || (has_too_many busy (codes "main") || is_disallowed busy (target_agent job)))
spawn-forbidden_example =
    spawn-forbidden none (codes "b") (codes "c") job (codes "main") (pos 0) busy

-- Two calls that both pass the check before either is recorded.
abbrev first_recorded : SubagentManager
first_recorded = record_run (codes "sub_a") (codes "k") job (codes "main") (idle limits)

abbrev both_recorded : SubagentManager
both_recorded = record_run (codes "sub_b") (codes "l") job (codes "main") first_recorded

both_at_work : active_count (codes "main") both_recorded ≡ 2
unfolding record_run is_active find insert text_eq
both_at_work = refl

both_waiting : Reachable 1 2 (codes "main" ∷ codes "main" ∷ []) (idle limits)
unfolding check_spawn has_too_many is_disallowed find
both_waiting =
    checked job (codes "main") (pos 0)
      (checked job (codes "main") (pos 0) (start limits refl) refl (omega arith)) refl (omega arith)

both_Reachable : Reachable 1 2 [] both_recorded
unfolding record_run find insert text_eq
both_Reachable =
    recorded [] [] (codes "sub_b") (codes "l") job (codes "main")
      (recorded [] (codes "main" ∷ []) (codes "sub_a") (codes "k") job (codes "main") both_waiting
        refl)
      refl

Reachable-bounded_example :
    active_count (codes "main") both_recorded + count (codes "main") [] ≤ 0 + 2
Reachable-bounded_example = Reachable-bounded both_Reachable (codes "main")

find-cleanup_completed_example :
    find (codes "sub_a") (cleanup_completed busy).1.runs ≡ unless_done child
unfolding find text_eq
find-cleanup_completed_example = find-cleanup_completed (codes "sub_a") busy (refl, tt)
