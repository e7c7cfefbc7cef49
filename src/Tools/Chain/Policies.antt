-- ===== src/Tools/Chain/Policies.antt =====
-- Which steps a chain runs, and what it reports, under each policy.
use qwen_claw.Base.{
  ℕ, suc, ◌+◌, ◌==◌, ==_iff, ◌≡◌, ◌∙◌, refl, sym, ap, subst, Bool, true, false, ◌&&◌, ◌||◌, List,
  [], ◌∷◌, ◌++◌, none, some, arith, length, length-append, Bool-cases, Option-cases, some-injective,
  if_true, if_false, inl, inr, if◌then◌else◌,
}
use qwen_claw.Base.Int.{pos_part}
use qwen_claw.Tools.Chain.{
  Json, ChainStep, retry, ToolChain, ChainStepResult, ChainResult, resolve, Executor, max_attempts,
  continues, new_result, finished, stopped, try_step, run_steps, execute,
}

pub all_succeed : List ChainStepResult → Bool
all_succeed [] = true
all_succeed (r ∷ results) = r.success && all_succeed results

all_succeed-append :
    (results : List ChainStepResult) (r : ChainStepResult)
    → all_succeed (results ++ (r ∷ [])) ≡ (all_succeed results && r.success)
unfolding all_succeed
all_succeed-append [] r = ground arith
all_succeed-append (s ∷ results) r = ground (arith, all_succeed-append results r)

-- Every result but the last succeeded.
pub all_but_last : List ChainStepResult → Bool
all_but_last [] = true
all_but_last (r ∷ []) = true
all_but_last (r ∷ s ∷ results) = r.success && all_but_last (s ∷ results)

all_but_last-append :
    (results : List ChainStepResult) (r : ChainStepResult)
    → all_but_last (results ++ (r ∷ [])) ≡ all_succeed results
unfolding all_but_last all_succeed
all_but_last-append [] r = refl
all_but_last-append (s ∷ []) r = ground arith
all_but_last-append (s ∷ t ∷ results) r = ground (arith, all_but_last-append (t ∷ results) r)

all_but_last_sound :
    (results : List ChainStepResult) → all_succeed results ≡ true → all_but_last results ≡ true
unfolding all_but_last all_succeed
all_but_last_sound [] h = refl
all_but_last_sound (r ∷ []) h = refl
all_but_last_sound (r ∷ s ∷ results) h = ground (arith, h, all_but_last_sound (s ∷ results))

module _ {W : Type 0} where
  abbrev attempt : Executor W → ToolChain → ℕ → ChainStep → Json → W → ChainStepResult × W
  attempt executor chain i step a w =
      try_step executor step.tool_name a (max_attempts chain) (new_result i step.tool_name) w

  -- One step of a chain: its arguments do not resolve; or it is carried on, or stops the chain.
  run_steps_threw :
      (executor : Executor W) (chain : ToolChain) (i : ℕ) (results : List ChainStepResult)
      (ok : Bool) (step : ChainStep) (steps : List ChainStep) (w : W)
      → resolve step.arguments results ≡ none
      → run_steps executor chain i results ok (step ∷ steps) w ≡ none
  unfolding run_steps
  run_steps_threw executor chain i results ok step steps w thrown = rw (thrown, run_steps) refl

  run_steps_rule :
      (executor : Executor W) (chain : ToolChain) (i : ℕ) (results : List ChainStepResult)
      (ok : Bool) (step : ChainStep) (steps : List ChainStep) (w : W) (a : Json)
      → resolve step.arguments results ≡ some a
      → let t = attempt executor chain i step a w in
        run_steps executor chain i results ok (step ∷ steps) w ≡ (
          if t.0.success || continues chain.error_policy
          then run_steps executor chain
              (suc i)
              (results ++ (t.0 ∷ []))
              (if t.0.success then ok else false)
              steps
              t.1
          else some (stopped chain i (results ++ (t.0 ∷ [])) t.0.error, t.1))
  unfolding run_steps
  run_steps_rule executor chain i results ok step steps w a known = rw (known, run_steps) refl

  -- A predicate of the results, with the number of steps to come, that every step carries on.
  run_steps_carries :
      (P : List ChainStepResult → Bool → ℕ → Type 0) (Q : ChainResult → Type 0)
      (executor : Executor W) (chain : ToolChain)
      (carry : (results : List ChainStepResult) (ok : Bool) (n : ℕ) (r : ChainStepResult)
        → (r.success || continues chain.error_policy) ≡ true
        → P results ok (suc n)
        → P (results ++ (r ∷ [])) (if r.success then ok else false) n)
      (stop : (results : List ChainStepResult) (ok : Bool) (n i : ℕ) (r : ChainStepResult)
        → (r.success || continues chain.error_policy) ≡ false
        → P results ok (suc n)
        → Q (stopped chain i (results ++ (r ∷ [])) r.error))
      (finish : (results : List ChainStepResult) (ok : Bool)
        → P results ok 0
        → Q (finished chain results ok))
      (i : ℕ) (results : List ChainStepResult) (ok : Bool) (steps : List ChainStep) (w : W)
      (out : ChainResult × W)
      → P results ok (length steps)
      → run_steps executor chain i results ok steps w ≡ some out
      → Q out.0
  unfolding run_steps
  run_steps_carries P Q executor chain carry stop finish i results ok [] w out h e =
      subst (λ o. Q o.0) (some-injective e) (finish results ok h)
  run_steps_carries P Q executor chain carry stop finish i results ok (step ∷ steps) w out h e =
      elim (Option-cases (resolve step.arguments results)) [
        | inl thrown ↦
            absurd
              (ground (arith, e, run_steps_threw executor chain i results ok step steps w thrown))
        | inr (a, known) ↦
            let t = attempt executor chain i step a w in
            let rule = run_steps_rule executor chain i results ok step steps w a known in
            elim (Bool-cases (t.0.success || continues chain.error_policy)) [
              | inl on ↦
                  run_steps_carries P Q executor chain carry stop finish (suc i)
                    (results ++ (t.0 ∷ [])) (if t.0.success then ok else false) steps t.1 out
                    (carry results ok (length steps) t.0 on h) (sym (rule ∙ if_true _ _ on) ∙ e)
              | inr off ↦
                  subst (λ o. Q o.0) (some-injective (sym (rule ∙ if_false _ _ off) ∙ e))
                    (stop results ok (length steps) i t.0 off h)
            ]
      ]

  -- A chain that returns reports success exactly when every step was run and succeeded.
  pub execute-success :
      (executor : Executor W) (chain : ToolChain) (w : W) (out : ChainResult × W)
      → execute executor chain w ≡ some out
      → out.0.success
        ≡ (all_succeed out.0.step_results && length out.0.step_results == length chain.steps)
  unfolding execute all_succeed
  execute-success executor chain w out e =
      run_steps_carries
        (λ results ok n. (ok ≡ all_succeed results) × (length results + n ≡ length chain.steps))
        (λ r.
          r.success ≡ (all_succeed r.step_results && length r.step_results == length chain.steps))
        executor chain
        (λ results ok n r on h. (
          ground (arith, h.0, all_succeed-append results r),
          omega (arith, h.1, length-append results (r ∷ [])),
        ))
        (λ results ok n i r off h. ground (arith, off, all_succeed-append results r))
        (λ results ok h. ground (arith, h.0, h.1, ==_iff (length results) (length chain.steps))) 0
        [] true chain.steps w out (refl, omega arith) e

  -- In a chain that returns and that errors do not stop, every step is run.
  pub execute-continues :
      (executor : Executor W) (chain : ToolChain) (w : W) (out : ChainResult × W)
      → continues chain.error_policy ≡ true
      → execute executor chain w ≡ some out
      → length out.0.step_results ≡ length chain.steps
  unfolding execute
  execute-continues executor chain w out on e =
      run_steps_carries (λ results ok n. length results + n ≡ length chain.steps)
        (λ r. length r.step_results ≡ length chain.steps) executor chain
        (λ results ok n r still h. omega (arith, h, length-append results (r ∷ [])))
        (λ results ok n i r off h. absurd (ground (arith, on, off)))
        (λ results ok h. omega (arith, h)) 0 [] true chain.steps w out (omega arith) e

  -- In a chain that returns and that an error stops, no step is run behind one that failed.
  pub execute-stops :
      (executor : Executor W) (chain : ToolChain) (w : W) (out : ChainResult × W)
      → continues chain.error_policy ≡ false
      → execute executor chain w ≡ some out
      → all_but_last out.0.step_results ≡ true
  unfolding execute all_succeed
  execute-stops executor chain w out off e =
      run_steps_carries (λ results ok n. all_succeed results ≡ true)
        (λ r. all_but_last r.step_results ≡ true) executor chain
        (λ results ok n r still h. ground (arith, off, still, h, all_succeed-append results r))
        (λ results ok n i r failed h. all_but_last-append results r ∙ h)
        (λ results ok h. all_but_last_sound results h) 0 [] true chain.steps w out refl e

  -- With the policy to retry and no retries allowed, a chain with steps calls no tool: it stops at
  -- its first step, if that step's arguments resolve.
  pub execute-no_retries :
      (executor : Executor W) (chain : ToolChain) (w : W) (step : ChainStep)
      (steps : List ChainStep) (a : Json)
      → chain.error_policy ≡ retry
      → pos_part chain.max_retries ≡ 0
      → chain.steps ≡ step ∷ steps
      → resolve step.arguments [] ≡ some a
      → execute executor chain w ≡ some (stopped chain 0 (new_result 0 step.tool_name ∷ []) [], w)
  unfolding execute try_step
  execute-no_retries executor chain w step steps a policy zero_retries shape known =
      let none_left : max_attempts chain ≡ 0 = ground (arith, policy, zero_retries) in
      let nothing : attempt executor chain 0 step a w ≡ (new_result 0 step.tool_name, w) =
        ap (λ n. try_step executor step.tool_name a n (new_result 0 step.tool_name) w) none_left in
      let off : continues chain.error_policy ≡ false = ground (arith, policy) in
      ap (λ ss. run_steps executor chain 0 [] true ss w) shape
      ∙ run_steps_rule executor chain 0 [] true step steps w a known
      ∙ ap
          (λ t.
            if t.0.success || continues chain.error_policy
            then run_steps executor chain 1 (t.0 ∷ []) (if t.0.success then true else false) steps
                t.1
            else some (stopped chain 0 (t.0 ∷ []) t.0.error, t.1))
          nothing
      ∙ if_false _ _ off
