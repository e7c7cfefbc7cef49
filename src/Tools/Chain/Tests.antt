-- ===== src/Tools/Chain/Tests.antt =====
-- The theorems on chains at a tool that fails on one name.
use qwen_claw.Base.{ℕ, suc, ◌==◌, ◌≡◌, refl, true, ◌&&◌, [], ◌∷◌, length, if◌then◌else◌}
use qwen_claw.Base.Int.{pos}
use qwen_claw.Base.Text.{Text, codes, text_eq}
use qwen_claw.Tools.Chain.{
  scalar, ChainStep, ChainErrorPolicy, stop_on_error, ToolChain, ChainStepResult, ChainResult,
  returned, threw, Executor, new_result, stopped, execute, run_steps, try_step, resolve,
}
use qwen_claw.Tools.Chain.Policies.{all_succeed, all_but_last, execute-success, execute-stops}

-- A tool that counts its calls.
abbrev tool : Executor ℕ
tool name arguments n =
    (if text_eq name (codes "bad") then threw (codes "no") else returned (codes "yes"), suc n)

abbrev step_of : Text → ChainStep
step_of name = record { tool_name = name; arguments = scalar (codes "1") }

abbrev chain : ChainErrorPolicy → ToolChain
chain policy = record {
  name = codes "c";
  steps = step_of (codes "bad") ∷ step_of (codes "good") ∷ [];
  error_policy = policy;
  max_retries = pos 0;
}

abbrev failed : ChainStepResult
failed = record (new_result 0 (codes "bad")) { error = codes "no" }

abbrev stopped_out : ChainResult
stopped_out = stopped (chain stop_on_error) 0 (failed ∷ []) (codes "no")

execute-success_example :
    stopped_out.success
    ≡ (all_succeed stopped_out.step_results && length stopped_out.step_results == 2)
unfolding execute run_steps try_step resolve text_eq
execute-success_example = execute-success tool (chain stop_on_error) 0 (stopped_out, 1) refl

execute-stops_example : all_but_last (failed ∷ []) ≡ true
unfolding execute run_steps try_step resolve text_eq
execute-stops_example = execute-stops tool (chain stop_on_error) 0 (stopped_out, 1) refl refl
